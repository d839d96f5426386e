-- ===== src/PromptCache/Samples.antt =====
-- A concrete turn for the theorem on the prompt cache.
use tri_mc.Prelude.{ℕ, ◌+◌, ◌≡◌, ◌↔◌, true, Option, some, [], ◌∷◌, List}
use tri_mc.Prelude.Text.{Text, text}
use tri_mc.Json.{Fields, str, end, field}
use tri_mc.PromptCache.{
  Message, CacheState, create_cache_state, compute_system_prompt_hash, compute_tools_hash,
}
use tri_mc.PromptCache.Turns.{turn, Unchanged, Dropped, turn_hit_iff}

abbrev sha256 : Text → Text
sha256 t = t

abbrev messages : List Message
messages = record { role = text "system"; content = some (text "Be brief.") } ∷ []

abbrev tools : Option (List Fields)
tools = some (field (text "type") (str (text "function")) end ∷ [])

abbrev after_first : CacheState
after_first = (turn sha256 messages tools 1 5000 create_cache_state).1

turn_hit_iff_example :
    let (metrics, next) = turn sha256 messages tools 2 4000 after_first in
    let system = compute_system_prompt_hash sha256 messages in
    let hash = compute_tools_hash sha256 tools in
    ((metrics.estimated_cache_hit ≡ true)
      ↔ Unchanged after_first.system_prompt_hash system
        × Unchanged after_first.tools_hash hash
        × Dropped after_first.prev_prompt_tokens 4000)
    × (metrics.estimated_cache_hit ≡ true
        → (p : ℕ) × (after_first.prev_prompt_tokens ≡ some p)
          × (p ≡ metrics.estimated_saved_tokens + 4000))
    × (next.system_prompt_hash ≡ system)
    × (next.tools_hash ≡ hash)
    × (next.prev_prompt_tokens ≡ some 4000)
turn_hit_iff_example = turn_hit_iff sha256 messages tools 2 4000 after_first
