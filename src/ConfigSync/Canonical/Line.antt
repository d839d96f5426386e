-- ===== src/ConfigSync/Canonical/Line.antt =====
-- The text of the object that is hashed, from the texts of its five dimensions: each of these can be
-- told from it when the others are known.
use tri_mc.Prelude.{
  ◌≡◌, ◌≢◌, sym, ap, ◌∙◌, ◌++◌, length, take, drop, length-append, take-append, drop-append, arith,
}
use tri_mc.Prelude.Text.{Text, text}
use tri_mc.ConfigSync.{DimKey, company, model, keys, employees, project}

-- The entries of the hashed object in the order of their keys.
abbrev after_model : (DimKey → Text) → Text
after_model f = text ",\"project\":" ++ f project

abbrev after_keys : (DimKey → Text) → Text
after_keys f = text ",\"model\":" ++ (f model ++ after_model f)

abbrev after_employees : (DimKey → Text) → Text
after_employees f = text ",\"keys\":" ++ (f keys ++ after_keys f)

abbrev after_company : (DimKey → Text) → Text
after_company f = text ",\"employees\":" ++ (f employees ++ after_employees f)

abbrev pub line : (DimKey → Text) → Text
line f = text "company\":" ++ (f company ++ after_company f)

drop_left : (a x y : Text) → a ++ x ≡ a ++ y → x ≡ y
drop_left a x y e = sym (drop-append a x) ∙ ap (drop (length a)) e ∙ drop-append a y

drop_right : (x y s : Text) → x ++ s ≡ y ++ s → x ≡ y
drop_right x y s e =
    let n : length x ≡ length y =
      (let q : length (x ++ s) ≡ length (y ++ s) = ap length e in
        omega (arith, length-append x s, length-append y s)) in
    sym (take-append x s) ∙ ap (take (length x)) e ∙ ap (λ k. take k (y ++ s)) n ∙ take-append y s

-- Two texts that agree before a part and after it, and two that agree up to a part's end.
pub between : (a x y s t : Text) → s ≡ t → a ++ (x ++ s) ≡ a ++ (y ++ t) → x ≡ y
between a x y s t q e =
    drop_right x y s (drop_left a (x ++ s) (y ++ s) (e ∙ ap (λ z. a ++ (y ++ z)) (sym q)))

after : (a x y s t : Text) → x ≡ y → a ++ (x ++ s) ≡ a ++ (y ++ t) → s ≡ t
after a x y s t q e =
    drop_left y s t (drop_left a (y ++ s) (y ++ t) (ap (λ z. a ++ (z ++ s)) (sym q) ∙ e))

around : (a x y s t : Text) → x ≡ y → s ≡ t → a ++ (x ++ s) ≡ a ++ (y ++ t)
around a x y s t p q = ap (λ z. a ++ (z ++ s)) p ∙ ap (λ z. a ++ (y ++ z)) q

module _ (f g : DimKey → Text) where
  model_on : f project ≡ g project → after_model f ≡ after_model g
  model_on p = ap (λ z. text ",\"project\":" ++ z) p

  keys_on : f model ≡ g model → f project ≡ g project → after_keys f ≡ after_keys g
  keys_on m p = around _ (f model) (g model) (after_model f) (after_model g) m (model_on p)

  employees_on :
      f keys ≡ g keys
      → f model ≡ g model
      → f project ≡ g project
      → after_employees f ≡ after_employees g
  employees_on k m p = around _ (f keys) (g keys) (after_keys f) (after_keys g) k (keys_on m p)

  company_on :
      f employees ≡ g employees
      → f keys ≡ g keys
      → f model ≡ g model
      → f project ≡ g project
      → after_company f ≡ after_company g
  company_on w k m p =
      around _ (f employees) (g employees) (after_employees f) (after_employees g) w
        (employees_on k m p)

  from_company : f company ≡ g company → line f ≡ line g → after_company f ≡ after_company g
  from_company q e =
      after (text "company\":") (f company) (g company) (after_company f) (after_company g) q e

  from_employees :
      f employees ≡ g employees
      → after_company f ≡ after_company g
      → after_employees f ≡ after_employees g
  from_employees q e =
      after (text ",\"employees\":") (f employees) (g employees) (after_employees f)
        (after_employees g) q e

  from_keys : f keys ≡ g keys → after_employees f ≡ after_employees g → after_keys f ≡ after_keys g
  from_keys q e = after (text ",\"keys\":") (f keys) (g keys) (after_keys f) (after_keys g) q e

  from_model : f model ≡ g model → after_keys f ≡ after_keys g → after_model f ≡ after_model g
  from_model q e =
      after (text ",\"model\":") (f model) (g model) (after_model f) (after_model g) q e

  pub line_part :
      (dim : DimKey)
      → ((other : DimKey) → other ≢ dim → f other ≡ g other)
      → line f ≡ line g
      → f dim ≡ g dim
  line_part company h e =
      between (text "company\":") (f company) (g company) (after_company f) (after_company g)
        (company_on (h employees (λ q. cc q)) (h keys (λ q. cc q)) (h model (λ q. cc q))
          (h project (λ q. cc q)))
        e
  line_part employees h e =
      between (text ",\"employees\":") (f employees) (g employees) (after_employees f)
        (after_employees g)
        (employees_on (h keys (λ q. cc q)) (h model (λ q. cc q)) (h project (λ q. cc q)))
        (from_company (h company (λ q. cc q)) e)
  line_part keys h e =
      between (text ",\"keys\":") (f keys) (g keys) (after_keys f) (after_keys g)
        (keys_on (h model (λ q. cc q)) (h project (λ q. cc q)))
        (from_employees (h employees (λ q. cc q)) (from_company (h company (λ q. cc q)) e))
  line_part model h e =
      between (text ",\"model\":") (f model) (g model) (after_model f) (after_model g)
        (model_on (h project (λ q. cc q)))
        (from_keys (h keys (λ q. cc q))
          (from_employees (h employees (λ q. cc q)) (from_company (h company (λ q. cc q)) e)))
  line_part project h e = drop_left (text ",\"project\":") (f project) (g project) (
      from_model (h model (λ q. cc q)) (
        from_keys (h keys (λ q. cc q))
          (from_employees (h employees (λ q. cc q)) (from_company (h company (λ q. cc q)) e))))

  pub all_parts : ((dim : DimKey) → f dim ≡ g dim) → line f ≡ line g
  all_parts h =
      around _ (f company) (g company) (after_company f) (after_company g) (h company)
        (company_on (h employees) (h keys) (h model) (h project))
