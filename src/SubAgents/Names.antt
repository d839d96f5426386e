-- ===== src/SubAgents/Names.antt =====
-- What a declared tool name stands for, by one table of the spellings in small letters.
use tri_mc.Prelude.{
  ◌≡◌, refl, inl, inr, ◌⊎◌, ◌∙◌, any_iff, Option-cases, true, false, Bool-cases, none, some, List,
  [], ◌∷◌, any, if◌then◌else◌, false_of_not, sym, ap,
}
use tri_mc.Prelude.Text.{Text, text, text_eq, text_eq_iff, text_eq-cases, text_eq_refl, trim, lower}
use tri_mc.Map.{Map, get}
use tri_mc.SubAgents.{
  resolve_claude_tool_name, strip_sub_command, find_any_case, by_name, claude_tool_map,
  tri_mc_names,
}

-- The tools by their own names.
abbrev own_names : Map Text
own_names =
    (text "read_file", text "read_file")
    ∷ (text "write_file", text "write_file")
    ∷ (text "edit_file", text "edit_file")
    ∷ (text "shell_exec", text "shell_exec")
    ∷ (text "glob_search", text "glob_search")
    ∷ (text "task", text "task")
    ∷ []

-- The tools by the names of the other program and by their own.
abbrev pub spellings : Map Text
spellings =
    (text "read", text "read_file")
    ∷ (text "bash", text "shell_exec")
    ∷ (text "glob", text "glob_search")
    ∷ (text "write", text "write_file")
    ∷ (text "edit", text "edit_file")
    ∷ (text "task", text "task")
    ∷ own_names

-- A declaration without the sub-command in parentheses at its end and the blanks around it.
abbrev pub bare : Text → Text
bare declaration = trim (strip_sub_command declaration)

flip_false : (a b : Text) → text_eq a b ≡ false → text_eq b a ≡ false
flip_false a b e =
    false_of_not _ (text_eq_iff b a) (λ q. (let h = (text_eq_iff a b).1 (sym q) in cc (h, e)))

abbrev own_of : List Text → Map Text
own_of [] = []
own_of (n ∷ ns) = (n, n) ∷ own_of ns

own_of-get :
    (ns : List Text) (low : Text)
    → get (own_of ns) low ≡ (if any (text_eq low) ns then some low else none)
unfolding get
own_of-get [] low = refl
own_of-get (n ∷ ns) low = elim (text_eq-cases low n) [
  | inl (t, q) ↦
      let u : text_eq n low ≡ true = rw q (text_eq_refl n) in rw (t, u) (ap (λ x. some x) (sym q))
  | inr (t, n') ↦ rw (t, flip_false low n t) (own_of-get ns low)
]

any_case : (low : Text) → find_any_case claude_tool_map low ≡ get spellings low
unfolding find_any_case get lower text
any_case low = elim (Bool-cases (text_eq (text "read") low)) [
  | inl a ↦ rw a refl
  | inr a ↦ elim (Bool-cases (text_eq (text "bash") low)) [
    | inl b ↦ rw (a, b) refl
    | inr b ↦ elim (Bool-cases (text_eq (text "glob") low)) [
      | inl c ↦ rw (a, b, c) refl
      | inr c ↦ elim (Bool-cases (text_eq (text "write") low)) [
        | inl d ↦ rw (a, b, c, d) refl
        | inr d ↦ elim (Bool-cases (text_eq (text "edit") low)) [
          | inl e ↦ rw (a, b, c, d, e) refl
          | inr e ↦ elim (Bool-cases (text_eq (text "task") low)) [
            | inl f ↦ rw (a, b, c, d, e, f) refl
            | inr f ↦
                (let rest = own_of-get tri_mc_names low in
                  rw (a, b, c, d, e, f) (sym (rw f at rest)))
          ]
        ]
      ]
    ]
  ]
]

-- The names in the table as they are.
exact :
    (base : Text)
    → (get claude_tool_map base ≡ none) ⊎ (get claude_tool_map base ≡ get spellings (lower base))
unfolding get lower text text_eq
exact base = elim (text_eq-cases (text "Read") base) [
  | inl (t, q) ↦ inr (rw (← q) refl)
  | inr (a, n) ↦ elim (text_eq-cases (text "Bash") base) [
    | inl (t, q) ↦ inr (rw (← q) refl)
    | inr (b, n) ↦ elim (text_eq-cases (text "Glob") base) [
      | inl (t, q) ↦ inr (rw (← q) refl)
      | inr (c, n) ↦ elim (text_eq-cases (text "Write") base) [
        | inl (t, q) ↦ inr (rw (← q) refl)
        | inr (d, n) ↦ elim (text_eq-cases (text "Edit") base) [
          | inl (t, q) ↦ inr (rw (← q) refl)
          | inr (e, n) ↦ elim (text_eq-cases (text "Task") base) [
            | inl (t, q) ↦ inr (rw (← q) refl)
            | inr (f, n) ↦ inl (rw (a, b, c, d, e, f) refl)
          ]
        ]
      ]
    ]
  ]
]

own :
    (base : Text) → any (text_eq base) tri_mc_names ≡ true → some base ≡ get spellings (lower base)
unfolding get lower text text_eq
own base h =
    let (n, i, e) = (any_iff (text_eq base) tri_mc_names).0 h in
    let q : base ≡ n = (text_eq_iff base n).0 e in
    elim i [
      | inl r ↦ rw (q, r) refl
      | inr (inl r) ↦ rw (q, r) refl
      | inr (inr (inl r)) ↦ rw (q, r) refl
      | inr (inr (inr (inl r))) ↦ rw (q, r) refl
      | inr (inr (inr (inr (inl r)))) ↦ rw (q, r) refl
      | inr (inr (inr (inr (inr (inl r))))) ↦ rw (q, r) refl
      | inr (inr (inr (inr (inr (inr x))))) ↦ elim x [ ]
    ]

-- A declaration is resolved by its bare text in small letters.
pub resolve_claude_tool_name-spellings :
    (d : Text) → resolve_claude_tool_name d ≡ get spellings (lower (bare d))
unfolding resolve_claude_tool_name
resolve_claude_tool_name-spellings d = resolve (bare d)
  where
    resolve : (base : Text) → by_name base (get claude_tool_map base) ≡ get spellings (lower base)
    resolve base = elim (exact base) [
      | inl miss ↦ rw miss (elim (Bool-cases (any (text_eq base) tri_mc_names)) [
        | inl h ↦ rw h (own base h)
        | inr h ↦ rw h (any_case (lower base))
      ])
      | inr hit ↦ elim (Option-cases (get claude_tool_map base)) [
        | inl miss ↦ rw miss (elim (Bool-cases (any (text_eq base) tri_mc_names)) [
          | inl h ↦ rw h (own base h)
          | inr h ↦ rw h (any_case (lower base))
        ])
        | inr (x, e) ↦ rw e (sym e ∙ hit)
      ]
    ]
