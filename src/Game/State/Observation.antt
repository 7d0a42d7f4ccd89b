-- ===== src/Game/State/Observation.antt =====
-- The observation of a state with a cardinal direction has its fixed size.
use snake_lab.Base.{
  ◌*◌, ◌≡◌, refl, Option, none, some, List, [], ◌∷◌, ◌++◌, map, length, length-append, length-map,
  arith,
}
use snake_lab.Base.Int.{ℤ}
use snake_lab.Base.Results.{ok}
use snake_lab.Game.Position.{Position}
use snake_lab.Game.Direction.{Direction, turn_right, IsCardinal}
use snake_lab.Game.Direction.Turns.{turn_left-turn_right}
use snake_lab.Game.State.{
  GameState, Feature, offsets, observation_length, local_feature, observe_rows, observe_food,
  observation,
}

length-observe_rows :
    (s : GameState) (right : Direction) (rows : List ℤ)
    → length (observe_rows s right rows) ≡ 7 * length rows
unfolding observe_rows
length-observe_rows s right [] = omega arith
length-observe_rows s right (y ∷ rows) = omega (
  arith,
  length-append (map (λ x. local_feature s right x y) offsets) (observe_rows s right rows),
  length-map offsets (λ x. local_feature s right x y),
  length-observe_rows s right rows,
)

length-observe_food :
    (s : GameState) (right : Direction) (p : Option Position) → length (observe_food s right p) ≡ 2
unfolding observe_food
length-observe_food s right none = refl
length-observe_food s right (some p) = refl

length-values :
    (s : GameState) (right : Direction)
    → length (observe_rows s right offsets ++ observe_food s right s.food_position)
      ≡ observation_length
length-values s right = omega (
  arith,
  length-append (observe_rows s right offsets) (observe_food s right s.food_position),
  length-observe_rows s right offsets,
  length-observe_food s right s.food_position,
)

-- A state with a cardinal direction has an observation, of 51 values: neither error is raised.
pub observation-length :
    (s : GameState)
    → IsCardinal s.direction
    → (values : List Feature) × (observation s ≡ ok values) × (length values ≡ observation_length)
unfolding observation turn_right
observation-length s h =
    let (l, r, _, turned, _, _, _, _, _, _) = turn_left-turn_right s.direction h in
    (
      observe_rows s r offsets ++ observe_food s r s.food_position,
      rw (turned, length-values s r),
      length-values s r,
    )
