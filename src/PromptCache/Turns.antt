-- ===== src/PromptCache/Turns.antt =====
-- When a turn counts as a hit of the cache.
use tri_mc.Prelude.{
  ℕ, ◌+◌, ◌-◌, ◌*◌, ◌≤◌, ◌<◌, ◌≡◌, refl, ap, ◌↔◌, ◌⊎◌, inl, inr, true, false, Option, none, some,
  List, arith, Bool-cases, ltb, leb,
}
use tri_mc.Prelude.Text.{Text, text_eq_iff}
use tri_mc.Json.{Fields}
use tri_mc.PromptCache.{
  CacheState, CacheMetrics, Message, compute_system_prompt_hash, compute_tools_hash, changed,
  update_cache_state, compare_tokens, build_cache_metrics,
}

-- There was no hash, or it is the one that there is now.
abbrev pub Unchanged : Option Text → Option Text → Type 0
Unchanged none now = Unit
Unchanged (some old) now = now ≡ some old

changed-Unchanged : (old now : Option Text) → (changed old now ≡ false) ↔ Unchanged old now
changed-Unchanged none now = (λ e. tt, λ u. refl)
changed-Unchanged (some old) none = (λ e. cc e, λ u. cc u)
changed-Unchanged (some old) (some now) = (
  λ e. ap (λ t. some t) ((text_eq_iff now old).0 (ground arith)),
  λ u. (let same : now ≡ old = cc u in rw ((text_eq_iff now old).1 same) refl),
)

-- Enough fewer tokens than in the turn before.
abbrev pub Dropped : Option ℕ → ℕ → Type 0
Dropped none tokens = ⊥
Dropped (some prev) tokens =
    (tokens < prev) × ((2000 ≤ prev - tokens) ⊎ (prev ≤ 20 * (prev - tokens)))

compared :
    (prev : Option ℕ) (tokens : ℕ) → ((compare_tokens tokens prev).hit ≡ true) ↔ Dropped prev tokens
compared none tokens = (λ e. cc e, λ d. elim d [ ])
compared (some prev) tokens = elim (Bool-cases (ltb tokens prev)) [
  | inr no_drop ↦ (λ e. cc (no_drop, rw no_drop at e), λ d. absurd (not_less no_drop d.0))
  | inl drop ↦ elim (Bool-cases (leb 2000 (prev - tokens))) [
    | inl big ↦ rw (drop, big) (λ e. (less drop, inl (reached big)), λ d. refl)
    | inr small ↦ elim (Bool-cases (leb prev (20 * (prev - tokens)))) [
      | inl share ↦ rw (drop, small, share) (λ e. (less drop, inr (reached share)), λ d. refl)
      | inr little ↦ rw (drop, small, little) (λ e. cc e, λ d. absurd (too_small small little d.1))
    ]
  ]
]
  where
    not_less : ltb tokens prev ≡ false → ¬ (tokens < prev)
    not_less e h = ground arith

    less : ltb tokens prev ≡ true → tokens < prev
    less e = ground arith

    reached : {m n : ℕ} → leb m n ≡ true → m ≤ n
    reached e = ground arith

    too_small :
        leb 2000 (prev - tokens) ≡ false
        → leb prev (20 * (prev - tokens)) ≡ false
        → ¬ ((2000 ≤ prev - tokens) ⊎ (prev ≤ 20 * (prev - tokens)))
    too_small a b (inl h) = ground arith
    too_small a b (inr h) = ground arith

saved_of :
    (prev : Option ℕ) (tokens : ℕ)
    → (compare_tokens tokens prev).hit ≡ true
    → (p : ℕ) × (prev ≡ some p) × (p ≡ (compare_tokens tokens prev).saved_tokens + tokens)
saved_of none tokens e = cc e
saved_of (some p) tokens e = (p, refl, ground arith)

module _ (sha256 : Text → Text) where
  -- What a client does in a turn: it brings the state up to date and asks for the metrics.
  unfoldable pub turn :
      List Message → Option (List Fields) → ℕ → ℕ → CacheState → CacheMetrics × CacheState
  turn messages tools number tokens state =
      build_cache_metrics (update_cache_state sha256 state messages tools (some number)) tokens
        number

  -- A turn counts as a hit of the cache exactly when neither the hash of the system prompt nor that
  -- of the tools was another in the turn before, if it was there, and the turn has fewer tokens than
  -- the one before, by 2000 or by a twentieth; then what is saved is the difference. The state keeps
  -- the hashes and the tokens of this turn for the next one.
  pub turn_hit_iff :
      (messages : List Message) (tools : Option (List Fields)) (number tokens : ℕ)
      (state : CacheState)
      → let (metrics, next) = turn messages tools number tokens state in
        let system = compute_system_prompt_hash sha256 messages in
        let hash = compute_tools_hash sha256 tools in
        ((metrics.estimated_cache_hit ≡ true)
          ↔ Unchanged state.system_prompt_hash system
            × Unchanged state.tools_hash hash
            × Dropped state.prev_prompt_tokens tokens)
        × (metrics.estimated_cache_hit ≡ true
            → (p : ℕ) × (state.prev_prompt_tokens ≡ some p)
              × (p ≡ metrics.estimated_saved_tokens + tokens))
        × (next.system_prompt_hash ≡ system)
        × (next.tools_hash ≡ hash)
        × (next.prev_prompt_tokens ≡ some tokens)
  unfolding turn build_cache_metrics update_cache_state
  turn_hit_iff messages tools number tokens state =
      let system = compute_system_prompt_hash sha256 messages in
      let hash = compute_tools_hash sha256 tools in
      let (su, us) = changed-Unchanged state.system_prompt_hash system in
      let (tu, ut) = changed-Unchanged state.tools_hash hash in
      let (to, from) = compared state.prev_prompt_tokens tokens in
      elim (Bool-cases (changed state.system_prompt_hash system)) [
        | inl a ↦
            rw a ((λ e. cc e, λ h. (let z = us h.0 in cc (a, z))), λ e. cc e, refl, refl, refl)
        | inr a ↦ elim (Bool-cases (changed state.tools_hash hash)) [
          | inl b ↦
              rw (a, b)
                ((λ e. cc e, λ h. (let z = ut h.1 in cc (b, z))), λ e. cc e, refl, refl, refl)
          | inr b ↦
              rw (a, b)
                (
                  (λ e. (su a, tu b, to e), λ h. from h.2),
                  λ e. saved_of state.prev_prompt_tokens tokens e,
                  refl,
                  refl,
                  refl,
                )
        ]
      ]
