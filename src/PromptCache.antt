-- ===== src/PromptCache.antt =====
-- The tracking of a provider's prompt cache (src/prompt-cache/cache-control.ts). SHA-256 is a
-- parameter; a tool is a JSON object.
pub mod Turns
mod Samples
use tri_mc.Prelude.{
  ℕ, ◌+◌, ◌-◌, ◌*◌, Bool, true, false, not, ◌&&◌, ◌||◌, Option, none, some, List, [], ◌∷◌, ◌++◌,
  if◌then◌else◌, ltb, leb, get_or,
}
use tri_mc.Prelude.Text.{Text, text, text_eq, join}
use tri_mc.Json.{Json, null, obj, Fields, end, field, quote, stringify}
use tri_mc.ConfigSync.Canonical.{Entry, sort_entries, entry_text}

pub record CacheState : Type 0 where
  pub system_prompt_hash : Option Text
  pub tools_hash : Option Text
  pub last_turn : ℕ
  pub system_prompt_changed : Bool
  pub tools_changed : Bool
  pub prev_prompt_tokens : Option ℕ

pub record CacheMetrics : Type 0 where
  pub turn : ℕ
  pub prompt_tokens : ℕ
  pub estimated_cache_hit : Bool
  pub estimated_saved_tokens : ℕ
  pub cache_invalidated : Bool

pub record Message : Type 0 where
  pub role : Text
  pub content : Option Text

abbrev pub create_cache_state : CacheState
create_cache_state = record {
  system_prompt_hash = none;
  tools_hash = none;
  last_turn = 0;
  system_prompt_changed = false;
  tools_changed = false;
  prev_prompt_tokens = none;
}

-- `resetCacheStateForNewSession`
abbrev pub reset_cache_state_for_new_session : CacheState → CacheState
reset_cache_state_for_new_session state = create_cache_state

-- The content of the first system message.
unfoldable pub system_content : List Message → Option Text
system_content [] = none
system_content (m ∷ ms) =
    let rest = system_content ms in if text_eq m.role (text "system") then m.content else rest

abbrev field_entries : Fields → List Entry
field_entries end = []
field_entries (field k v fs) = (k, stringify v) ∷ field_entries fs

-- A tool with its keys in order; its parts stay as they are.
abbrev sorted_tool : Fields → Text
sorted_tool fs =
    text "{" ++ (join (text ",") (map_entries (sort_entries (field_entries fs))) ++ text "}")
  where
    map_entries : List Entry → List Text
    map_entries [] = []
    map_entries (e ∷ es) = entry_text e ∷ map_entries es

abbrev sorted_tools : List Fields → List Text
sorted_tools [] = []
sorted_tools (t ∷ ts) = sorted_tool t ∷ sorted_tools ts

unfoldable pub canonical_tools : List Fields → Text
canonical_tools tools = text "[" ++ (join (text ",") (sorted_tools tools) ++ text "]")

module _ (sha256 : Text → Text) where
  abbrev hash_some : Option Text → Option Text
  hash_some none = none
  hash_some (some t) = some (sha256 t)

  abbrev pub compute_system_prompt_hash : List Message → Option Text
  compute_system_prompt_hash messages = hash_some (system_content messages)

  abbrev pub compute_tools_hash : Option (List Fields) → Option Text
  compute_tools_hash none = none
  compute_tools_hash (some []) = none
  compute_tools_hash (some (t ∷ ts)) = some (sha256 (canonical_tools (t ∷ ts)))

-- `old !== null && now !== old`
abbrev pub changed : Option Text → Option Text → Bool
changed none now = false
changed (some old) none = true
changed (some old) (some now) = not (text_eq now old)

module _ (sha256 : Text → Text) where
  unfoldable pub update_cache_state :
      CacheState → List Message → Option (List Fields) → Option ℕ → CacheState
  update_cache_state state messages tools turn =
      let system = compute_system_prompt_hash sha256 messages in
      let hash = compute_tools_hash sha256 tools in
      record state {
        system_prompt_changed = changed state.system_prompt_hash system;
        tools_changed = changed state.tools_hash hash;
        system_prompt_hash = system;
        tools_hash = hash;
        last_turn = get_or turn state.last_turn;
      }

pub record HitEstimate : Type 0 where
  pub hit : Bool
  pub saved_tokens : ℕ

abbrev pub no_hit : HitEstimate
no_hit = record { hit = false; saved_tokens = 0 }

-- A share of 5 per cent, without fractions.
abbrev compare_tokens : ℕ → Option ℕ → HitEstimate
compare_tokens tokens none = no_hit
compare_tokens tokens (some prev) =
    if ltb tokens prev && (leb 2000 (prev - tokens) || leb prev (20 * (prev - tokens)))
    then record { hit = true; saved_tokens = prev - tokens }
    else no_hit

abbrev invalidated : CacheState → Bool
invalidated state = state.system_prompt_changed || state.tools_changed

unfoldable pub estimate_cache_hit : CacheState → ℕ → HitEstimate × CacheState
estimate_cache_hit state tokens =
    let state' = record state { prev_prompt_tokens = some tokens } in
    if invalidated state
    then (no_hit, state')
    else (compare_tokens tokens state.prev_prompt_tokens, state')

unfoldable pub build_cache_metrics : CacheState → ℕ → ℕ → CacheMetrics × CacheState
unfolding estimate_cache_hit
build_cache_metrics state tokens turn =
    let (estimate, state') = estimate_cache_hit state tokens in
    (
      record {
        turn = turn;
        prompt_tokens = tokens;
        estimated_cache_hit = estimate.hit;
        estimated_saved_tokens = estimate.saved_tokens;
        cache_invalidated = invalidated state';
      },
      state',
    )

pub record CacheControlConfig : Type 0 where
  pub enabled : Bool
  pub one_hour : Bool
  pub annotate_system_prompt : Bool
  pub annotate_last_message : Bool

-- For every model and every option.
abbrev pub get_cache_control_config : CacheControlConfig
get_cache_control_config = record {
  enabled = false;
  one_hour = false;
  annotate_system_prompt = false;
  annotate_last_message = false;
}
