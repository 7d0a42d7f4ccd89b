-- ===== src/Game/Snapshot/Roundtrip.antt =====
-- A frame survives its JSON form, and every frame that is read has positive sides and a score of
-- zero or more.
use snake_lab.Base.{◌≡◌, refl, Option, none, some, List, [], ◌∷◌, map, arith}
use snake_lab.Base.Int.{ℤ, pos, ◌<ℤ◌, ◌≤ℤ◌}
use snake_lab.Base.Results.{ok}
use snake_lab.Json.{Json, obj, of_list}
use snake_lab.Json.Laws.{to_list-of_list}
use snake_lab.Game.Snapshot.{
  BoardSnapshot, coordinate, coordinates, body_coordinates, food_coordinate, checked_score,
  from_fields, from_dict, to_dict, pair, food_json, from_game_state,
}
use snake_lab.Game.State.{GameState}
use snake_lab.Game.Rules.Validity.{IsValid}

pub record IsRenderable (b : BoardSnapshot) : Type 0 where
  pub wide : pos 0 <ℤ b.width
  pub tall : pos 0 <ℤ b.height
  pub scored : pos 0 ≤ℤ b.score

module _ (F : Type 0) where
  coordinates-map : (ps : List (ℤ × ℤ)) → coordinates (map (pair {F = F}) ps) ≡ ok ps
  unfolding coordinates coordinate
  coordinates-map [] = refl
  coordinates-map (p ∷ ps) = rw (coordinates-map ps)

  body_coordinates-map :
      (ps : List (ℤ × ℤ)) → body_coordinates (Json.arr (of_list (map (pair {F = F}) ps))) ≡ ok ps
  unfolding body_coordinates
  body_coordinates-map ps = rw (to_list-of_list (map (pair {F = F}) ps)) (coordinates-map ps)

  food_coordinate-json : (p : Option (ℤ × ℤ)) → food_coordinate (food_json {F = F} p) ≡ ok p
  unfolding food_coordinate coordinate
  food_coordinate-json none = refl
  food_coordinate-json (some p) = refl

  -- Decoding the encoding of a frame with positive sides and a score of at least zero returns it.
  pub from_dict-to_dict :
      (b : BoardSnapshot) → IsRenderable b → from_dict (to_dict {F = F} b) ≡ ok b
  unfolding from_dict to_dict from_fields coordinate checked_score
  from_dict-to_dict b r =
      ground (arith, body_coordinates-map b.snake_body, food_coordinate-json b.food)

  -- Whatever is decoded has positive sides and a score of at least zero.
  pub from_dict-IsRenderable :
      (j : Json F) (b : BoardSnapshot) → from_dict j ≡ ok b → IsRenderable b
  unfolding from_dict from_fields checked_score
  from_dict-IsRenderable (obj fs) b h = ground arith
  from_dict-IsRenderable _ b h = cc

-- The frame of a valid state can be drawn, so that it survives its JSON form.
pub from_dict-from_game_state :
    (F : Type 0) (s : GameState)
    → IsValid s
    → from_dict (to_dict {F = F} (from_game_state s)) ≡ ok (from_game_state s)
unfolding from_game_state
from_dict-from_game_state F s valid =
    from_dict-to_dict F (from_game_state s) (ground (arith, valid.inside.0))
