-- ===== src/Permissions/Safety/Triggers.antt =====
-- Which calls trip the safety check.
use tri_mc.Prelude.{
  ◌≡◌, refl, ◌≢◌, inl, inr, true, false, some, List, [], ◌∷◌, ◌++◌, arith, find, In, Option-cases,
  any_iff, find-none, All, All-In,
}
use tri_mc.Prelude.Text.{Text, text, text_eq_iff, includes, includes-append, lower, replace_unit}
use tri_mc.Json.{Fields}
use tri_mc.Permissions.Safety.{
  run_safety_check, is_edit_tool, extract_file_path, extract_shell_command, normalize,
  first_included, check_path, check_command, sensitive_paths, shell_configs,
}

-- `p` stands somewhere in `s`.
abbrev pub PartOf : Text → Text → Type 0
PartOf p s = (before : Text) × (after : Text) × (s ≡ before ++ (p ++ after))

first_included-some :
    (s q : Text) (patterns : List Text)
    → In q patterns
    → PartOf (normalize q) s
    → (p : Text) × (first_included s patterns ≡ some p)
unfolding first_included
first_included-some s q patterns m (before, after, e) =
    elim (Option-cases (find (λ p. includes s (normalize p)) patterns)) [
      | inl n ↦
          let hit : includes s (normalize q) ≡ true =
            rw e (includes-append before (normalize q) after) in
          cc (
            (find-none (λ p. includes s (normalize p)) patterns).0 n,
            (any_iff (λ p. includes s (normalize p)) patterns).1 (q, m, hit),
          )
      | inr r ↦ r
    ]

-- No listed text is a part of the empty text.
sensitive_nonempty : All (λ q. includes [] (normalize q) ≡ false) sensitive_paths
unfolding includes normalize text lower replace_unit
sensitive_nonempty = (refl, (refl, (refl, (refl, tt))))

configs_nonempty : All (λ q. includes [] (normalize q) ≡ false) shell_configs
unfolding includes normalize text lower replace_unit
configs_nonempty =
    (refl, (refl, (refl, (refl, (refl, (refl, (refl, (refl, (refl, (refl, (refl, tt)))))))))))

not-PartOf_empty :
    (s q : Text) (patterns : List Text)
    → All (λ p. includes [] (normalize p) ≡ false) patterns
    → In q patterns
    → PartOf (normalize q) s
    → s ≢ []
not-PartOf_empty s q patterns h m (before, after, e) z =
    let hit : includes s (normalize q) ≡ true = rw e (includes-append before (normalize q) after) in
    cc (All-In (λ p. includes [] (normalize p) ≡ false) patterns q h m, rw z at hit)

normalize_nil : normalize [] ≡ []
unfolding normalize lower replace_unit
normalize_nil = refl

path_triggered :
    (path q : Text)
    → In q sensitive_paths
    → PartOf (normalize q) (normalize path)
    → (check_path path).triggered ≡ true
unfolding check_path
path_triggered [] q m part =
    absurd (not-PartOf_empty _ q sensitive_paths sensitive_nonempty m part normalize_nil)
path_triggered (c ∷ path) q m part =
    let (p, e) = first_included-some (normalize (c ∷ path)) q sensitive_paths m part in ground arith

command_triggered :
    (line q : Text)
    → In q shell_configs
    → PartOf (normalize q) (normalize line)
    → (check_command line).triggered ≡ true
unfolding check_command
command_triggered [] q m part =
    absurd (not-PartOf_empty _ q shell_configs configs_nonempty m part normalize_nil)
command_triggered (c ∷ line) q m part =
    let (p, e) = first_included-some (normalize (c ∷ line)) q shell_configs m part in ground arith

pub edit_triggered :
    (name : Text) (args : Fields) (path q : Text)
    → is_edit_tool name ≡ true
    → extract_file_path args ≡ some path
    → In q sensitive_paths
    → PartOf (normalize q) (normalize path)
    → (run_safety_check name args).triggered ≡ true
unfolding run_safety_check
edit_triggered name args path q edit found m part = ground (arith, path_triggered path q m part)

pub shell_triggered :
    (name : Text) (args : Fields) (line q : Text)
    → name ≡ text "shell_exec"
    → extract_shell_command args ≡ some line
    → In q shell_configs
    → PartOf (normalize q) (normalize line)
    → (run_safety_check name args).triggered ≡ true
unfolding run_safety_check
shell_triggered name args line q shell found m part =
    ground (arith, command_triggered line q m part, text_eq_iff name (text "shell_exec"))
