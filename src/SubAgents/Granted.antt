-- ===== src/SubAgents/Granted.antt =====
-- Which tools a sub-agent gets.
use tri_mc.Prelude.{
  ◌≡◌, refl, sym, ap, ◌∙◌, subst, ◌↔◌, ◌⊎◌, inl, inr, Bool, true, not, Option, none, some, List, [],
  ◌∷◌, Bool-cases, Option-cases, any, any_iff, In, In-keep_if, In-keep_if_of,
}
use tri_mc.Prelude.Text.{Text, text, text_eq, text_eq_iff, text_eq_refl, lower}
use tri_mc.Map.{get}
use tri_mc.SubAgents.Names.{spellings, bare, resolve_claude_tool_name-spellings}
use tri_mc.SubAgents.{
  ToolDefinition, AgentDefinition, resolve_claude_tool_name, resolved, has_name, drop_disallowed,
  resolve_agent_tools, filter_tools_for_agent, tools_for_agent,
}

-- A declaration of the list stands for the name: without its sub-command, the blanks around it and
-- the difference of capitals it is one of the spellings of the name.
abbrev pub Names : List Text → Text → Type 0
Names ds name = (d : Text) × In d ds × (get spellings (lower (bare d)) ≡ some name)

abbrev Resolves : List Text → Text → Type 0
Resolves ds name = (d : Text) × In d ds × (resolve_claude_tool_name d ≡ some name)

-- The agent declares the tool, or all of them.
abbrev pub Declares : AgentDefinition → ToolDefinition → Type 0
Declares agent t = In (text "*") agent.tools ⊎ Names agent.tools t.name

abbrev pub Disallows : AgentDefinition → ToolDefinition → Type 0
Disallows agent t = (ds : List Text) × (agent.disallowed_tools ≡ some ds) × Names ds t.name

resolver_iff :
    (ds : List Text) (name : Text) → (any (text_eq name) (resolved ds) ≡ true) ↔ Resolves ds name
unfolding resolved
resolver_iff [] name = (λ e. cc e, λ (d, i, e). elim i [ ])
resolver_iff (d ∷ ds) name =
    let (to, from) = resolver_iff ds name in
    elim (Option-cases (resolve_claude_tool_name d)) [
      | inl e ↦ rw e (
        λ h. (let (x, i, q) = to h in (x, inr i, q)),
        λ (x, i, q). elim i [
          | inl same ↦ (let bad : none ≡ some name = rw (same, e) at q in cc bad)
          | inr i' ↦ from (x, i', q)
        ],
      )
      | inr (n, e) ↦ rw e (
        λ h. elim (Bool-cases (text_eq name n)) [
          | inl t ↦ (d, inl refl, e ∙ ap (λ z. some z) (sym ((text_eq_iff name n).0 t)))
          | inr t ↦ (let (x, i, q) = to (rw t at h) in (x, inr i, q))
        ],
        λ (x, i, q). elim (Bool-cases (text_eq name n)) [
          | inl t ↦ rw t refl
          | inr t ↦ rw t (elim i [
            | inl same ↦
                (let one : some n ≡ some name =
                    sym e ∙ ap resolve_claude_tool_name (sym same) ∙ q in
                  let two : name ≡ n = cc one in cc ((text_eq_iff name n).1 two, t))
            | inr i' ↦ from (x, i', q)
          ])
        ],
      )
    ]

resolved_iff :
    (ds : List Text) (name : Text) → (any (text_eq name) (resolved ds) ≡ true) ↔ Names ds name
resolved_iff ds name =
    let (to, from) = resolver_iff ds name in
    (
      λ h. (let (d, i, e) = to h in (d, i, sym (resolve_claude_tool_name-spellings d) ∙ e)),
      λ (d, i, e). from (d, i, resolve_claude_tool_name-spellings d ∙ e),
    )

Disallows-Names :
    (agent : AgentDefinition) (t : ToolDefinition) (ds : List Text)
    → agent.disallowed_tools ≡ some ds
    → Disallows agent t
    → Names ds t.name
Disallows-Names agent t ds e (ds', q, n) =
    let one : ds' ≡ ds = cc (e, q) in subst (λ z. Names z t.name) one n

-- What is left of some tools, and of it what is not disallowed.
module _ (tools : List ToolDefinition) (agent : AgentDefinition) (t : ToolDefinition) where
  drop_kept :
      (ds : List Text)
      → agent.disallowed_tools ≡ some ds
      → In t (drop_disallowed tools (some ds)) ↔ In t tools × ¬ Disallows agent t
  drop_kept [] e =
      (λ i. (i, λ d. (let (x, j, r) = Disallows-Names agent t [] e d in elim j [ ])), λ p. p.0)
  drop_kept (d ∷ ds) e =
      let p : ToolDefinition → Bool = λ x. not (has_name (resolved (d ∷ ds)) x) in
      let (to, from) = resolved_iff (d ∷ ds) t.name in
      (
        λ i.
            let (there, free) = In-keep_if p t tools i in
            (
              there,
              λ dis.
                  (let hit = from (Disallows-Names agent t (d ∷ ds) e dis) in
                    let bad : not true ≡ true = rw hit at free in cc bad),
            ),
        λ h.
            In-keep_if_of p t tools h.0
              (elim (Bool-cases (any (text_eq t.name) (resolved (d ∷ ds)))) [
                | inl hit ↦ absurd (h.1 (d ∷ ds, e, to hit))
                | inr miss ↦ rw miss refl
              ]),
      )

  dropped :
      (o : Option (List Text))
      → agent.disallowed_tools ≡ o
      → In t (drop_disallowed tools o) ↔ In t tools × ¬ Disallows agent t
  dropped none e = (λ i. (i, λ d. cc (d.1, e)), λ p. p.0)
  dropped (some ds) e = drop_kept ds e

  drop_disallowed_iff :
      In t (drop_disallowed tools agent.disallowed_tools) ↔ In t tools × ¬ Disallows agent t
  drop_disallowed_iff = dropped agent.disallowed_tools refl

  resolve_agent_tools_iff :
      (In t (resolve_agent_tools tools agent) → In t tools × Declares agent t)
      × (In t tools
          → Declares agent t
          → ¬ Disallows agent t
          → In t (resolve_agent_tools tools agent))
  unfolding resolve_agent_tools
  resolve_agent_tools_iff =
      let (every, every') = any_iff (text_eq (text "*")) agent.tools in
      let (to, from) = resolved_iff agent.tools t.name in
      elim (Bool-cases (any (text_eq (text "*")) agent.tools)) [
        | inl star ↦
            let (x, i, e) = every star in
            let here : In (text "*") agent.tools = rw ((text_eq_iff (text "*") x).0 e) i in
            rw star
              (λ i. ((drop_disallowed_iff.0 i).0, inl here), λ i d n. drop_disallowed_iff.1 (i, n))
        | inr none_star ↦ rw none_star (
          λ i.
              (let (there, hit) = In-keep_if (has_name (resolved agent.tools)) t tools i in
                (there, inr (to hit))),
          λ i d n. In-keep_if_of (has_name (resolved agent.tools)) t tools i (elim d [
            | inl s ↦
                (let bad = every' (text "*", s, text_eq_refl (text "*")) in cc (bad, none_star))
            | inr names ↦ from names
          ]),
        )
      ]

module _ (tools : List ToolDefinition) (agent : AgentDefinition) (t : ToolDefinition) where
  -- A sub-agent gets a tool exactly when the tool is one of its tier, the agent declares it or has
  -- the mark for all, and the agent does not disallow it. A declaration is read without a
  -- sub-command in parentheses at its end, without the blanks around it and without regard to
  -- capitals, and stands for a tool only if it is then one of eleven spellings of six tools:
  -- `read`, `bash`, `glob`, `write`, `edit`, `task`, or their names `read_file`, `shell_exec`,
  -- `glob_search`, `write_file`, `edit_file`. Any other tool is had by the mark for all alone, and
  -- cannot be disallowed.
  pub tools_for_agent_iff :
      In t (tools_for_agent tools agent) ↔ In t tools × Declares agent t × ¬ Disallows agent t
  unfolding tools_for_agent filter_tools_for_agent
  tools_for_agent_iff = (
    λ i.
        let (in_tools, free) =
          (drop_disallowed_iff (resolve_agent_tools tools agent) agent t).0 i in
        let (there, declared) = (resolve_agent_tools_iff tools agent t).0 in_tools in
        (there, declared, free),
    λ (i, d, n).
        (drop_disallowed_iff (resolve_agent_tools tools agent) agent t).1
          ((resolve_agent_tools_iff tools agent t).1 i d n, n),
  )
