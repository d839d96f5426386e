-- ===== src/Orchestration/Router/Samples.antt =====
-- The router on the two employees, and its theorems there.
use tri_mc.Prelude.{◌≡◌, refl, none, some, [], ◌∷◌}
use tri_mc.Prelude.Text.{text, text_eq, lower}
use tri_mc.Prelude.Sort.{sort_desc, insert_desc}
use tri_mc.Orchestration.Samples.{ada, bob, code}
use tri_mc.Orchestration.Router.{
  route, ranking, match_io, match_authority, is_load_available, calculate_score,
}

pub ada_picked : (route (bob ∷ ada ∷ []) code none).primary ≡ some ada
unfolding route ranking match_io match_authority is_load_available calculate_score sort_desc
    insert_desc lower text text_eq
ada_picked = refl

pub nobody_picked : (route (bob ∷ []) code none).primary ≡ none
unfolding route ranking match_io match_authority is_load_available calculate_score sort_desc
    insert_desc lower text text_eq
nobody_picked = refl
