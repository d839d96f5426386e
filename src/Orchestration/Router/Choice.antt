-- ===== src/Orchestration/Router/Choice.antt =====
-- Whom the router picks, whom it offers beside, and what the hard gate asks.
use native.Mathlib.Nat.{le-div_iff_mul-le}
use tri_mc.Prelude.{
  suc, ℕ, ◌+◌, ◌*◌, ◌≤◌, ◌<◌, ◌≡◌, refl, sym, ap, ◌∙◌, subst, ◌↔◌, ◌⊎◌, inl, inr, true, false,
  Bool-cases, Option, none, some, List, [], ◌∷◌, arith, length, In, All, All-In, In-keep_if,
  In-keep_if_of, keep_if, In-map, List-cases, leb, ltb,
}
use tri_mc.Prelude.Text.{Text}
use tri_mc.Prelude.Sort.{IsDesc, sort_desc-IsDesc, In-sort_desc}
use tri_mc.Orchestration.{EmployeeRecord}
use tri_mc.Orchestration.Router.{
  Scored, scored, candidates, ranking, is_active, match_io, route, percent, offers, outputs_of,
  employees_of, details,
}

module _ (es : List EmployeeRecord) (outputs : List Text) (dt : Option Text) where
  -- An active employee on the list who passes the hard gate.
  abbrev pub Eligible : EmployeeRecord → Type 0
  Eligible e = In e es × (is_active e ≡ true) × ((match_io e outputs).0 ≡ true)

  abbrev pub score_of : EmployeeRecord → ℕ
  score_of e = (scored outputs dt e).score

  -- Eligible, and with a score of at least 60.
  abbrev pub Acceptable : EmployeeRecord → Type 0
  Acceptable e = Eligible e × (600 ≤ score_of e)

  ranked-Eligible :
      (s : Scored)
      → In s (ranking es outputs dt)
      → (e : EmployeeRecord) × (s ≡ scored outputs dt e) × Eligible e
  unfolding ranking
  ranked-Eligible s m =
      let (e, k, q) =
        (In-map (scored outputs dt) s _).0
          ((In-sort_desc (λ x. x.score) s (candidates outputs dt (keep_if is_active es))).0 m) in
      let (k', g) = In-keep_if (λ x. (match_io x outputs).0) e (keep_if is_active es) k in
      let (k'', a) = In-keep_if is_active e es k' in (e, q, (k'', a, g))

  Eligible-ranked :
      (e : EmployeeRecord) → Eligible e → In (scored outputs dt e) (ranking es outputs dt)
  unfolding ranking
  Eligible-ranked e (k, a, g) = (In-sort_desc (λ x. x.score) (scored outputs dt e) _).1 (
      (In-map (scored outputs dt) (scored outputs dt e) _).1 (
        e,
        In-keep_if_of (λ x. (match_io x outputs).0) e _ (In-keep_if_of is_active e es k a) g,
        refl,
      ))

-- What the ranking makes of the choice: its head, where the score is enough, and the others.
module _ (es : List EmployeeRecord) (outputs : List Text) (dt : Option Text) where
  route-none :
      ranking es outputs dt ≡ []
      → ((route es outputs dt).matched ≡ false) × ((route es outputs dt).primary ≡ none)
  unfolding route
  route-none h = rw h (refl, refl)

  route-low :
      (b : Scored) (rest : List Scored)
      → ranking es outputs dt ≡ b ∷ rest
      → b.score < 600
      → ((route es outputs dt).matched ≡ false) × ((route es outputs dt).primary ≡ none)
  unfolding route
  route-low b rest h lt = let e : ltb b.score 600 ≡ true = ground arith in rw (h, e) (refl, refl)

  route-high :
      (b : Scored) (rest : List Scored)
      → ranking es outputs dt ≡ b ∷ rest
      → 600 ≤ b.score
      → let r = route es outputs dt in
        (r.matched ≡ true)
        × (r.primary ≡ some b.employee)
        × (r.score ≡ b.score)
        × (r.match_details ≡ details b)
        × (r.alternatives ≡ employees_of (keep_if (λ s. leb 600 s.score) rest))
  unfolding route
  route-high b rest h le =
      let e : ltb b.score 600 ≡ false = ground arith in rw (h, e) (refl, refl, refl, refl, refl)

  ranking-IsDesc : IsDesc (λ (s : Scored). s.score) (ranking es outputs dt)
  unfolding ranking
  ranking-IsDesc = sort_desc-IsDesc (λ s. s.score) (candidates outputs dt (keep_if is_active es))

  ranking-head :
      (b : Scored) (rest : List Scored)
      → ranking es outputs dt ≡ b ∷ rest
      → All (λ (s : Scored). s.score ≤ b.score) rest
  ranking-head b rest h = let d = rw h at ranking-IsDesc in d.0

  ranking-best :
      (b : Scored) (rest : List Scored) (e : EmployeeRecord)
      → ranking es outputs dt ≡ b ∷ rest
      → Eligible es outputs dt e
      → (scored outputs dt e ≡ b) ⊎ In (scored outputs dt e) rest
  ranking-best b rest e h q =
      subst (λ l. In (scored outputs dt e) l) h (Eligible-ranked es outputs dt e q)

  head-greatest :
      (b : Scored) (rest : List Scored) (e : EmployeeRecord)
      → ranking es outputs dt ≡ b ∷ rest
      → Eligible es outputs dt e
      → score_of es outputs dt e ≤ b.score
  head-greatest b rest e h q = elim (ranking-best b rest e h q) [
    | inl same ↦ rw (← same) (omega arith)
    | inr m ↦ All-In (λ (s : Scored). s.score ≤ b.score) rest _ (ranking-head b rest h) m
  ]

  alternatives_iff :
      (b : Scored) (rest : List Scored) (e : EmployeeRecord)
      → ranking es outputs dt ≡ b ∷ rest
      → (In e (employees_of (keep_if (λ s. leb 600 s.score) rest)) → Acceptable es outputs dt e)
        × (Acceptable es outputs dt e
            → (e ≡ b.employee) ⊎ In e (employees_of (keep_if (λ s. leb 600 s.score) rest)))
  alternatives_iff b rest e h = (
    λ m.
        let (s, k, q) = (In-map (λ (s : Scored). s.employee) e _).0 m in
        let (k', le) = In-keep_if (λ (s : Scored). leb 600 s.score) s rest k in
        let (x, same, ok) = ranked-Eligible es outputs dt s (rw h (inr k')) in
        let high : 600 ≤ s.score = ground arith in rw q (rw same (ok, rw same at high)),
    λ (ok, le). elim (ranking-best b rest e h ok) [
      | inl same ↦ inl (ap (λ (s : Scored). s.employee) same)
      | inr m ↦ inr (
          (In-map (λ (s : Scored). s.employee) e _).1
            (_, In-keep_if_of (λ (s : Scored). leb 600 s.score) _ rest m (ground arith), refl))
    ],
  )

  head_is :
      (b : Scored) (rest : List Scored)
      → ranking es outputs dt ≡ b ∷ rest
      → (e : EmployeeRecord) × (b ≡ scored outputs dt e) × Eligible es outputs dt e
  head_is b rest h = ranked-Eligible es outputs dt b (rw h (inl refl))

  head-Acceptable :
      (b : Scored) (rest : List Scored)
      → ranking es outputs dt ≡ b ∷ rest
      → 600 ≤ b.score
      → (e : EmployeeRecord) × Acceptable es outputs dt e
  head-Acceptable b rest h le = let (e, same, ok) = head_is b rest h in (e, (ok, rw same at le))

  low :
      (b : Scored) (rest : List Scored) (e : EmployeeRecord)
      → ranking es outputs dt ≡ b ∷ rest
      → b.score < 600
      → Eligible es outputs dt e
      → 600 ≤ score_of es outputs dt e
      → ⊥
  low b rest e h lt q le = omega (arith, head-greatest b rest e h q, lt, le)

  nobody : (e : EmployeeRecord) → ranking es outputs dt ≡ [] → Eligible es outputs dt e → ⊥
  nobody e h q = subst (λ l. In (scored outputs dt e) l) h (Eligible-ranked es outputs dt e q)

  -- Where the decision comes from, by the ranking.
  route-cases :
      let r = route es outputs dt in
      ((r.matched ≡ false)
        × (r.primary ≡ none)
        × ¬ ((e : EmployeeRecord) × Acceptable es outputs dt e))
      ⊎ ((b : Scored) × (rest : List Scored) × (ranking es outputs dt ≡ b ∷ rest) × (600 ≤ b.score))
  route-cases = elim (List-cases (ranking es outputs dt)) [
    | inl h ↦ let (m, p) = route-none h in inl (m, p, λ (e, (q, le)). nobody e h q)
    | inr (b, rest, h) ↦ elim (Bool-cases (ltb b.score 600)) [
      | inl lt ↦
          let (m, p) = route-low b rest h (ground arith) in
          inl (m, p, λ (e, (q, le)). low b rest e h (ground arith) q le)
      | inr ge ↦ inr (b, rest, h, ground arith)
    ]
  ]

-- The router matches exactly when some active employee passes the hard gate with a score of at least
-- 60; without a match nobody is picked.
pub route_matched_iff :
    (es : List EmployeeRecord) (outputs : List Text) (dt : Option Text)
    → let r = route es outputs dt in
      ((r.matched ≡ true) ↔ ((e : EmployeeRecord) × Acceptable es outputs dt e))
      × (r.matched ≡ false → r.primary ≡ none)
route_matched_iff es outputs dt = elim (route-cases es outputs dt) [
  | inl (m, p, n) ↦ ((λ h. absurd (cc (m, h)), λ x. absurd (n x)), λ _. p)
  | inr (b, rest, h, le) ↦
      let m = (route-high es outputs dt b rest h le).0 in
      ((λ _. head-Acceptable es outputs dt b rest h le, λ _. m), λ f. absurd (cc (m, f)))
]

pub route_primary :
    (es : List EmployeeRecord) (outputs : List Text) (dt : Option Text) (p : EmployeeRecord)
    → (route es outputs dt).primary ≡ some p
    → let r = route es outputs dt in
      Acceptable es outputs dt p
      × (r.score ≡ score_of es outputs dt p)
      × (r.match_details ≡ details (scored outputs dt p))
      × ((e : EmployeeRecord)
          → Eligible es outputs dt e
          → score_of es outputs dt e ≤ score_of es outputs dt p)
      × ((e : EmployeeRecord) → In e r.alternatives → Acceptable es outputs dt e)
      × ((e : EmployeeRecord) → Acceptable es outputs dt e → (e ≡ p) ⊎ In e r.alternatives)
route_primary es outputs dt p h = elim (route-cases es outputs dt) [
  | inl (m, q, n) ↦ absurd (cc (q, h))
  | inr (b, rest, k, le) ↦
      let (m, q, s, d, a) = route-high es outputs dt b rest k le in
      let (x, same, ok) = head_is es outputs dt b rest k in
      let now : x ≡ p = ground arith in
      let picked : b ≡ scored outputs dt p = subst (λ y. b ≡ scored outputs dt y) now same in
      (
        (subst (λ y. Eligible es outputs dt y) now ok, rw picked at le),
        s ∙ ap (λ (z : Scored). z.score) picked,
        d ∙ ap details picked,
        λ e f.
            subst (λ (z : Scored). score_of es outputs dt e ≤ z.score) picked
              (head-greatest es outputs dt b rest e k f),
        λ e i. (alternatives_iff es outputs dt b rest e k).0 (subst (λ l. In e l) a i),
        λ e f. elim ((alternatives_iff es outputs dt b rest e k).1 f) [
          | inl w ↦ inl (w ∙ ap (λ (z : Scored). z.employee) picked)
          | inr i ↦ inr (subst (λ l. In e l) (sym a) i)
        ],
      )
]

-- How many of the required outputs the employee's contract offers.
abbrev pub covered : EmployeeRecord → List Text → ℕ
covered e outputs = length (keep_if (offers (outputs_of e.contract.io_contract)) outputs)

percent_gate : (m n : ℕ) → (leb 80 (percent m (suc n)) ≡ true) ↔ (159 * suc n ≤ 200 * m)
percent_gate m n =
    let h = le-div_iff_mul-le {k = 2 * suc n} {x = 80} {y = 200 * m + suc n} (omega arith) in
    (
      λ e. let k : 80 ≤ percent m (suc n) = ground arith in omega (arith, h.0 k),
      λ le. let k : 80 ≤ percent m (suc n) = h.1 (omega arith) in ground arith,
    )

-- The hard gate lets pass who offers 79.5 per cent of the required outputs or more, since the
-- coverage is rounded before it is held against 80: 35 of 44 outputs are enough. Who offers 80 per
-- cent passes, and a task that requires nothing is open to all.
pub gate_iff :
    (e : EmployeeRecord) (outputs : List Text)
    → (((match_io e outputs).0 ≡ true) ↔ (159 * length outputs ≤ 200 * covered e outputs))
      × (4 * length outputs ≤ 5 * covered e outputs → (match_io e outputs).0 ≡ true)
unfolding match_io
gate_iff e [] = ((λ _. omega arith, λ _. refl), λ _. refl)
gate_iff e (x ∷ xs) =
    let gate = percent_gate (covered e (x ∷ xs)) (length xs) in
    (gate, λ le. gate.1 (omega (arith, le)))
