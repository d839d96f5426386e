-- ===== src/Permissions/Rules/RoundTrip.antt =====
-- A rule that is written out with its content escaped parses back to itself.
use mathlib.Core.List.{reverse, append_assoc, reverse-append}
use tri_mc.Prelude.{
  ℕ, ◌+◌, ◌-◌, ◌≡◌, refl, ap, ◌∙◌, ◌≢◌, Bool, true, false, Option, none, some, [], ◌∷◌, ◌++◌,
  if◌then◌else◌, arith, length, take, drop, All, length-append, take-append, drop-append,
}
use tri_mc.Prelude.Text.{Text, text, text_eq, text_eq_iff, trim, ends_with, starts_with}
use tri_mc.Permissions.{PermissionRule, PermissionBehavior, RuleSource}
use tri_mc.Permissions.Rules.{
  parse_rule, content_rule, resolve_alias, find_unescaped_paren, paren_from, backslashes,
  unescape_content, tool_rule, but_last, or_undefined,
}
use tri_mc.Permissions.Rules.Escapes.{escape_content, unescape-escape}

-- No parenthesis opens and nothing is escaped in a tool's name.
abbrev pub IsPlainName : Text → Type 0
IsPlainName = All (λ c. (c ≢ b'(') × (c ≢ b'\\'))

paren_from-name :
    (before : Text) (i : ℕ) (name rest : Text)
    → backslashes before ≡ 0
    → IsPlainName name
    → paren_from before i (name ++ b'(' ∷ rest) ≡ some (i + length name)
unfolding paren_from backslashes
paren_from-name before i [] rest h k = ground arith
paren_from-name before i (c ∷ name) rest h ((p, q), k) =
    ground (arith, paren_from-name (c ∷ before) (i + 1) name rest (ground arith) k)

find-name :
    (name rest : Text)
    → IsPlainName name
    → find_unescaped_paren (name ++ b'(' ∷ rest) ≡ some (length name)
unfolding find_unescaped_paren
find-name name rest k =
    paren_from-name [] 0 name rest (unfold backslashes in refl) k ∙ ap some (omega arith)

find_no_paren :
    (before : Text) (i : ℕ) (name : Text) → IsPlainName name → paren_from before i name ≡ none
unfolding paren_from
find_no_paren before i [] k = refl
find_no_paren before i (c ∷ name) ((p, q), k) =
    ground (arith, find_no_paren (c ∷ before) (i + 1) name k)

but_last-append : (s : Text) (c : ℕ) → but_last (s ++ c ∷ []) ≡ s
but_last-append s c =
    let e : length (s ++ c ∷ []) - 1 ≡ length s = omega (arith, length-append s (c ∷ [])) in
    rw e (take-append s (c ∷ []))

ends_with-append : (s : Text) (c : ℕ) → ends_with (s ++ c ∷ []) (c ∷ []) ≡ true
unfolding ends_with starts_with
ends_with-append s c = rw (reverse-append s (c ∷ [])) (ground arith)

colon_star_ends : (s : Text) → ends_with s (text ":*") ≡ true → ends_with s (text "*") ≡ true
unfolding ends_with starts_with text
colon_star_ends s h = head_starts (reverse s) h
  where
    head_starts : (r : Text) → starts_with r (42 ∷ 58 ∷ []) ≡ true → starts_with r (42 ∷ []) ≡ true
    head_starts [] h = h
    head_starts (c ∷ r) h = ground arith

-- What stands between a rule's parentheses.
abbrev filter_text : Text → Bool → Text
filter_text c wild = if wild then c ++ b'*' ∷ [] else c

abbrev pub print_content : Text → Option Text → Bool → Text
print_content name none wild = name
print_content name (some c) wild = name ++ b'(' ∷ (escape_content (filter_text c wild) ++ b')' ∷ [])

-- The rule in the written form, `ToolName` or `ToolName(content)`.
abbrev pub print_rule : PermissionRule → Text
print_rule r = print_content r.tool_name r.content r.is_wildcard

abbrev pub Shaped : Option Text → Bool → Type 0
Shaped none wild = wild ≡ false
Shaped (some c) wild = (c ≢ []) × (wild ≡ false → ends_with c (text "*") ≡ false)

-- Rules that the written form can express.
pub record IsPrintable (r : PermissionRule) : Type 0 where
  pub plain : IsPlainName r.tool_name
  pub canonical : resolve_alias (trim r.tool_name) ≡ r.tool_name
  pub shaped : Shaped r.content r.is_wildcard

parse_at :
    (raw : Text) (i : ℕ) (b : PermissionBehavior) (s : RuleSource)
    → find_unescaped_paren raw ≡ some i
    → parse_rule raw b s
      ≡ content_rule
          (resolve_alias (trim (take i raw)))
          (unescape_content (drop (i + 1) (take (length raw - 1) raw)))
          b
          s
unfolding parse_rule
parse_at raw i b s h = rw (h, parse_rule)

inner-cut :
    (name inner : Text)
    → let raw = name ++ b'(' ∷ (inner ++ b')' ∷ []) in
      drop (length name + 1) (take (length raw - 1) raw) ≡ inner
inner-cut name inner =
    let cut = append_assoc name (b'(' ∷ inner) (b')' ∷ []) in
    let opened = append_assoc name (b'(' ∷ []) inner in
    let size : length name + 1 ≡ length (name ++ b'(' ∷ []) =
      omega (arith, length-append name (b'(' ∷ [])) in
    rw (← cut, but_last-append (name ++ b'(' ∷ inner) b')', ← opened, size)
      (drop-append (name ++ b'(' ∷ []) inner)

parse-content :
    (name c : Text) (b : PermissionBehavior) (s : RuleSource)
    → IsPlainName name
    → parse_rule (name ++ b'(' ∷ (escape_content c ++ b')' ∷ [])) b s
      ≡ content_rule (resolve_alias (trim name)) c b s
parse-content name c b s k =
    let inner = escape_content c in
    rw (
      parse_at _ (length name) b s (find-name name (inner ++ b')' ∷ []) k),
      take-append name (b'(' ∷ (inner ++ b')' ∷ [])),
      inner-cut name inner,
      unescape-escape c,
    )

or_undefined_of_ne : (c : Text) → c ≢ [] → or_undefined c ≡ some c
or_undefined_of_ne [] n = absurd (n refl)
or_undefined_of_ne (x ∷ c) n = refl

text_eq_of_ne : (s t : Text) → s ≢ t → text_eq s t ≡ false
text_eq_of_ne s t n = ground (arith, text_eq_iff s t)

not_star : (c : Text) → ends_with c (text "*") ≡ false → c ≢ text "*"
unfolding ends_with starts_with text
not_star c h e = cc (rw e at h)

content_rule-exact :
    (name c : Text) (b : PermissionBehavior) (s : RuleSource)
    → c ≢ []
    → ends_with c (text "*") ≡ false
    → content_rule name c b s
      ≡ record { tool_name = name; content = some c; behavior = b; source = s; is_wildcard = false }
unfolding content_rule
content_rule-exact name c b s n h = ground (
  arith,
  text_eq_of_ne c [] n,
  text_eq_of_ne c (text "*") (not_star c h),
  colon_star_ends c,
  or_undefined_of_ne c n,
)

one_more : (c : Text) (x : ℕ) → c ≢ [] → c ++ x ∷ [] ≢ x ∷ []
one_more [] x n e = n refl
one_more (y ∷ []) x n e = cc
one_more (y ∷ z ∷ c) x n e = cc

append_ne : (c : Text) (x : ℕ) → c ++ x ∷ [] ≢ []
append_ne [] x e = cc
append_ne (y ∷ c) x e = cc

content_rule-wild :
    (name c : Text) (b : PermissionBehavior) (s : RuleSource)
    → c ≢ []
    → content_rule name (c ++ b'*' ∷ []) b s
      ≡ record { tool_name = name; content = some c; behavior = b; source = s; is_wildcard = true }
unfolding content_rule text
content_rule-wild name c b s n = ground (
  arith,
  text_eq_of_ne (c ++ b'*' ∷ []) [] (append_ne c b'*'),
  text_eq_of_ne (c ++ b'*' ∷ []) (b'*' ∷ []) (one_more c b'*' n),
  ends_with-append c b'*',
  but_last-append c b'*',
  or_undefined_of_ne c n,
)

parse_tool :
    (name : Text) (b : PermissionBehavior) (s : RuleSource)
    → find_unescaped_paren name ≡ none
    → parse_rule name b s ≡ tool_rule (resolve_alias (trim name)) b s
unfolding parse_rule
parse_tool name b s h = rw (h, parse_rule)

round_trip :
    (name : Text) (content : Option Text) (wild : Bool) (b : PermissionBehavior) (s : RuleSource)
    → IsPlainName name
    → resolve_alias (trim name) ≡ name
    → Shaped content wild
    → parse_rule (print_content name content wild) b s
      ≡ record { tool_name = name; content = content; behavior = b; source = s; is_wildcard = wild }
round_trip name none wild b s k e h =
    rw (parse_tool name b s (unfold find_unescaped_paren in find_no_paren [] 0 name k), e, h)
round_trip name (some c) false b s k e (n, h) =
    rw (parse-content name c b s k, e) (content_rule-exact name c b s n (h refl))
round_trip name (some c) true b s k e (n, h) =
    rw (parse-content name (c ++ b'*' ∷ []) b s k, e) (content_rule-wild name c b s n)

-- A rule that the written form can express is read back from it with its name, its content and its
-- wildcard mark as they were: parentheses and backslashes in the content are escaped, and the star of
-- a wildcard is put behind it.
pub parse-print :
    (r : PermissionRule) → IsPrintable r → parse_rule (print_rule r) r.behavior r.source ≡ r
parse-print r h =
    round_trip r.tool_name r.content r.is_wildcard r.behavior r.source h.plain h.canonical h.shaped
