-- ===== src/Permissions/Pipeline/Steps.antt =====
-- The decision as a relation between the rules and the verdict, and that the pipeline
-- over sorted rules decides it.
use tri_mc.Prelude.{
  ◌≡◌, inl, inr, true, false, ◌&&◌, List, arith, any, Bool-cases, false_of_not, not_of_false,
}
use tri_mc.Permissions.{
  accept_edits, bypass_permissions, allow, deny, ask, PermissionRule, always_deny, always_ask,
  safety_check, mode_bypass, mode_accept_edits, always_allow, default_deny, DecisionContext,
}
use tri_mc.Permissions.Safety.{run_safety_check, is_edit_tool}
use tri_mc.Permissions.Pipeline.{blocks, allows, decide_sorted, is_bypass, is_accept_edits}
use tri_mc.Permissions.Pipeline.Blocks.{
  SameRules, Blocked, Permitted, any-blocks_iff, any-allows_iff, Blocked-SameRules,
  Permitted-SameRules,
}
use tri_mc.Permissions.Pipeline.Decision.{Verdict, verdict, settled, table, sorted-table}

pub back : (xs ys : List PermissionRule) → SameRules xs ys → SameRules ys xs
back xs ys s r = ((s r).1, (s r).0)

module _ (ctx : DecisionContext) where
  open ctx use {tool_name, tool_args, mode}

  -- No rule and no safety check stops the call.
  pub record Cleared (rules : List PermissionRule) : Type 0 where
    pub not_denied : ¬ Blocked tool_name tool_args deny rules
    pub not_asked : ¬ Blocked tool_name tool_args ask rules
    pub safe : (run_safety_check tool_name tool_args).triggered ≡ false

  -- The verdict of each case of the seven steps. The accept-edits mode is documented for edits in the
  -- working directory; the source has no such condition in effect, and there is none here.
  pub data Decides (rules : List PermissionRule) (v : Verdict) : Type 0 where
    denied :
        Blocked tool_name tool_args deny rules
        → v ≡ settled false deny always_deny
        → Decides rules v
    asked :
        ¬ Blocked tool_name tool_args deny rules
        → Blocked tool_name tool_args ask rules
        → v ≡ settled false ask always_ask
        → Decides rules v
    unsafe :
        ¬ Blocked tool_name tool_args deny rules
        → ¬ Blocked tool_name tool_args ask rules
        → (run_safety_check tool_name tool_args).triggered ≡ true
        → v ≡ settled false ask safety_check
        → Decides rules v
    bypassed :
        Cleared rules
        → mode ≡ bypass_permissions
        → v ≡ settled true allow mode_bypass
        → Decides rules v
    edited :
        Cleared rules
        → mode ≡ accept_edits
        → is_edit_tool tool_name ≡ true
        → v ≡ settled true allow mode_accept_edits
        → Decides rules v
    permitted :
        Cleared rules
        → is_bypass mode ≡ false
        → (is_accept_edits mode && is_edit_tool tool_name) ≡ false
        → Permitted tool_name tool_args rules
        → v ≡ settled true allow always_allow
        → Decides rules v
    refused :
        Cleared rules
        → is_bypass mode ≡ false
        → (is_accept_edits mode && is_edit_tool tool_name) ≡ false
        → ¬ Permitted tool_name tool_args rules
        → v ≡ settled false deny default_deny
        → Decides rules v

  module _ (rules : List PermissionRule) where
    Cleared-of :
        any (blocks tool_name tool_args deny rules) rules ≡ false
        → any (blocks tool_name tool_args ask rules) rules ≡ false
        → (run_safety_check tool_name tool_args).triggered ≡ false
        → Cleared rules
    Cleared-of d a s = record {
      not_denied = not_of_false _ (any-blocks_iff tool_name tool_args deny rules) d;
      not_asked = not_of_false _ (any-blocks_iff tool_name tool_args ask rules) a;
      safe = s;
    }

    Cleared-Decides :
        Cleared rules
        → Decides rules (
            table false false false mode
              (is_edit_tool tool_name)
              (any (allows tool_name tool_args) rules))
    Cleared-Decides c = elim (Bool-cases (is_bypass mode)) [
      | inl b ↦ bypassed c (ground arith) (ground arith)
      | inr b ↦ elim (Bool-cases (is_accept_edits mode && is_edit_tool tool_name)) [
        | inl e ↦ edited c (ground arith) (ground arith) (ground arith)
        | inr e ↦ elim (Bool-cases (any (allows tool_name tool_args) rules)) [
          | inl p ↦ permitted c b e ((any-allows_iff tool_name tool_args rules).0 p) (ground arith)
          | inr p ↦
              refused c b e (not_of_false _ (any-allows_iff tool_name tool_args rules) p)
                (ground arith)
        ]
      ]
    ]

    pub sorted-Decides : Decides rules (verdict (decide_sorted ctx rules))
    sorted-Decides =
        let den = any-blocks_iff tool_name tool_args deny rules in
        let asks = any-blocks_iff tool_name tool_args ask rules in
        rw (sorted-table ctx rules)
          (elim (Bool-cases (any (blocks tool_name tool_args deny rules) rules)) [
            | inl d ↦ denied (den.0 d) (ground arith)
            | inr d ↦ elim (Bool-cases (any (blocks tool_name tool_args ask rules) rules)) [
              | inl a ↦ asked (not_of_false _ den d) (asks.0 a) (ground arith)
              | inr a ↦ elim (Bool-cases (run_safety_check tool_name tool_args).triggered) [
                | inl s ↦ unsafe (not_of_false _ den d) (not_of_false _ asks a) s (ground arith)
                | inr s ↦ rw (d, a, s) (Cleared-Decides (Cleared-of d a s))
              ]
            ]
          ])

    -- With nothing in the way the table is that of the mode and the allow rules.
    Cleared-table :
        Cleared rules
        → verdict (decide_sorted ctx rules)
          ≡ table false false false mode
              (is_edit_tool tool_name)
              (any (allows tool_name tool_args) rules)
    Cleared-table c = rw (
      sorted-table ctx rules,
      false_of_not _ (any-blocks_iff tool_name tool_args deny rules) c.not_denied,
      false_of_not _ (any-blocks_iff tool_name tool_args ask rules) c.not_asked,
      c.safe,
    )

    pub Decides-sorted : (v : Verdict) → Decides rules v → verdict (decide_sorted ctx rules) ≡ v
    Decides-sorted v (denied d e) =
        ground (arith, sorted-table ctx rules, (any-blocks_iff tool_name tool_args deny rules).1 d)
    Decides-sorted v (asked d a e) = ground (
      arith,
      sorted-table ctx rules,
      false_of_not _ (any-blocks_iff tool_name tool_args deny rules) d,
      (any-blocks_iff tool_name tool_args ask rules).1 a,
    )
    Decides-sorted v (unsafe d a s e) = ground (
      arith,
      sorted-table ctx rules,
      false_of_not _ (any-blocks_iff tool_name tool_args deny rules) d,
      false_of_not _ (any-blocks_iff tool_name tool_args ask rules) a,
    )
    Decides-sorted v (bypassed c m e) = ground (arith, Cleared-table c)
    Decides-sorted v (edited c m t e) = ground (arith, Cleared-table c)
    Decides-sorted v (permitted c b t p e) =
        ground (arith, Cleared-table c, (any-allows_iff tool_name tool_args rules).1 p)
    Decides-sorted v (refused c b t p e) =
        ground (arith, Cleared-table c, false_of_not _ (any-allows_iff tool_name tool_args rules) p)

  Cleared-SameRules : (xs ys : List PermissionRule) → SameRules xs ys → Cleared xs → Cleared ys
  Cleared-SameRules xs ys s c = record {
    not_denied =
        λ b. c.not_denied (Blocked-SameRules tool_name tool_args ys xs deny (back xs ys s) b);
    not_asked = λ b. c.not_asked (Blocked-SameRules tool_name tool_args ys xs ask (back xs ys s) b);
    safe = c.safe;
  }

  pub Decides-SameRules :
      (xs ys : List PermissionRule) (v : Verdict) → SameRules xs ys → Decides xs v → Decides ys v
  Decides-SameRules xs ys v s (denied d e) =
      denied (Blocked-SameRules tool_name tool_args xs ys deny s d) e
  Decides-SameRules xs ys v s (asked d a e) =
      asked (λ b. d (Blocked-SameRules tool_name tool_args ys xs deny (back xs ys s) b))
        (Blocked-SameRules tool_name tool_args xs ys ask s a) e
  Decides-SameRules xs ys v s (unsafe d a t e) =
      unsafe (λ b. d (Blocked-SameRules tool_name tool_args ys xs deny (back xs ys s) b))
        (λ b. a (Blocked-SameRules tool_name tool_args ys xs ask (back xs ys s) b)) t e
  Decides-SameRules xs ys v s (bypassed c m e) = bypassed (Cleared-SameRules xs ys s c) m e
  Decides-SameRules xs ys v s (edited c m t e) = edited (Cleared-SameRules xs ys s c) m t e
  Decides-SameRules xs ys v s (permitted c b t p e) =
      permitted (Cleared-SameRules xs ys s c) b t
        (Permitted-SameRules tool_name tool_args xs ys s p) e
  Decides-SameRules xs ys v s (refused c b t p e) =
      refused (Cleared-SameRules xs ys s c) b t
        (λ q. p (Permitted-SameRules tool_name tool_args ys xs (back xs ys s) q)) e
