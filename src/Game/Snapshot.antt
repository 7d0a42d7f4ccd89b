-- ===== src/Game/Snapshot.antt =====
-- game/BoardSnapshot.py: a board frame, and its JSON form.
pub mod Roundtrip
use Prim.Native.String.{String, ◌++◌}
use snake_lab.Base.{
  ℕ, Bool, true, false, ◌||◌, not, Option, none, some, List, [], ◌∷◌, map, if◌then◌else◌,
}
use snake_lab.Base.Int.{ℤ, pos, ltb_ℤ, leb_ℤ}
use snake_lab.Base.Results.{Result, ok, err, ◌>>=◌, ◌>>◌, require, refuse, or_raise}
use snake_lab.Json.{
  Json, null, bool, int, float, str, arr, obj, Items, nil, cons, Fields, get, of_list, to_list,
  of_fields, has_exactly,
}
use snake_lab.Game.Position.{Position}
use snake_lab.Game.State.{GameState}

-- BoardSnapshotError, with its message.
pub data BoardSnapshotError : Type 0 where
  board_snapshot_error : String → BoardSnapshotError

pub record BoardSnapshot : Type 0 where
  pub width : ℤ
  pub height : ℤ
  pub snake_head : ℤ × ℤ
  pub snake_body : List (ℤ × ℤ)
  pub food : Option (ℤ × ℤ)
  pub direction : ℤ × ℤ
  pub score : ℤ

abbrev cell : Position → ℤ × ℤ
cell p = (p.x, p.y)

unfoldable pub from_game_state : GameState → BoardSnapshot
from_game_state s = record {
  width = pos s.grid_size.0;
  height = pos s.grid_size.1;
  snake_head = cell s.snake_head;
  snake_body = map cell s.snake_body;
  food = elim s.food_position [ none ↦ none | some p ↦ some (cell p) ];
  direction = (s.direction.dx, s.direction.dy);
  score = pos s.score;
}

abbrev pub bad_coordinate : {A : Type 0} → String → Result BoardSnapshotError A
bad_coordinate name = err (board_snapshot_error (name ++ " must contain two integers"))

abbrev pub board_fields : List String
board_fields = "grid_size" ∷ "snake_head" ∷ "snake_body" ∷ "food" ∷ "direction" ∷ "score" ∷ []

module _ {F : Type 0} where
  pub coordinate : Json F → String → Result BoardSnapshotError (ℤ × ℤ)
  coordinate (arr (cons (int x) (cons (int y) nil))) name = ok (x, y)
  coordinate value name = bad_coordinate name

  pub coordinates : List (Json F) → Result BoardSnapshotError (List (ℤ × ℤ))
  coordinates [] = ok []
  coordinates (value ∷ values) = do
    p ← coordinate value "snake_body position"
    ps ← coordinates values
    ok (p ∷ ps)

  pub body_coordinates : Json F → Result BoardSnapshotError (List (ℤ × ℤ))
  body_coordinates (arr items) = coordinates (to_list items)
  body_coordinates value = err (board_snapshot_error "snake_body must be an array")

  pub food_coordinate : Json F → Result BoardSnapshotError (Option (ℤ × ℤ))
  food_coordinate null = ok none
  food_coordinate value = do p ← coordinate value "food"; ok (some p)

  pub checked_score : Json F → Result BoardSnapshotError ℤ
  checked_score (int n) =
      if ltb_ℤ n (pos 0)
      then err (board_snapshot_error "score must be a non-negative integer")
      else ok n
  checked_score value = err (board_snapshot_error "score must be a non-negative integer")

  -- data[k], after the keys have been checked.
  abbrev item : String → Fields F → Result BoardSnapshotError (Json F)
  item k fs = or_raise (get k fs) (board_snapshot_error k)

  pub from_fields : Fields F → Result BoardSnapshotError BoardSnapshot
  from_fields fs = do
    require (has_exactly fs board_fields)
        (board_snapshot_error "board fields do not match the protocol")
    size ← (do value ← item "grid_size" fs; coordinate value "grid_size")
    refuse (leb_ℤ size.0 (pos 0) || leb_ℤ size.1 (pos 0))
        (board_snapshot_error "grid dimensions must be positive")
    body ← (do value ← item "snake_body" fs; body_coordinates value)
    food ← (do value ← item "food" fs; food_coordinate value)
    score ← (do value ← item "score" fs; checked_score value)
    head ← (do value ← item "snake_head" fs; coordinate value "snake_head")
    direction ← (do value ← item "direction" fs; coordinate value "direction")
    ok (record {
      width = size.0;
      height = size.1;
      snake_head = head;
      snake_body = body;
      food = food;
      direction = direction;
      score = score;
    })

  pub from_dict : Json F → Result BoardSnapshotError BoardSnapshot
  from_dict (obj fs) = from_fields fs
  from_dict value = err (board_snapshot_error "board must be an object")

  abbrev pair : ℤ × ℤ → Json F
  pair (x, y) = arr (cons (int x) (cons (int y) nil))

  abbrev food_json : Option (ℤ × ℤ) → Json F
  food_json none = null
  food_json (some p) = pair p

  pub to_dict : BoardSnapshot → Json F
  to_dict b = obj (
      of_fields (
        ("grid_size", pair (b.width, b.height))
        ∷ ("snake_head", pair b.snake_head)
        ∷ ("snake_body", arr (of_list (map pair b.snake_body)))
        ∷ ("food", food_json b.food)
        ∷ ("direction", pair b.direction)
        ∷ ("score", int b.score)
        ∷ []))
