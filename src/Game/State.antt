-- ===== src/Game/State.antt =====
-- game/GameState.py: one snapshot of an episode, and the network's observation of it.
pub mod Observation
use snake_lab.Base.{
  ℕ, suc, ◌+◌, ◌*◌, ◌≡◌, Bool, true, false, not, ◌&&◌, Option, none, some, List, [], ◌∷◌, ◌++◌, map,
  length, range, arith, ◌==◌, if◌then◌else◌,
}
use snake_lab.Base.Int.{ℤ, pos, negsuc, neg, sub_ℕ, ◌+ℤ◌, ◌-ℤ◌, ◌*ℤ◌, leb_ℤ, ltb_ℤ, eqb_ℤ}
use snake_lab.Base.Members.{Eq, mem}
use snake_lab.Base.Results.{Result, ok, err, ◌>>=◌, ◌>>◌, require}
use snake_lab.Game.Position.{Position, Position-eq, in_grid}
use snake_lab.Game.Direction.{
  Direction, GameError, observation_size, make_direction, invalid_direction,
}

pub record GameState : Type 0 where
  pub snake_head : Position
  pub snake_body : List Position
  pub direction : Direction
  pub food_position : Option Position
  pub score : ℕ
  pub move_count : ℕ
  pub grid_size : ℕ × ℕ
  pub seed : ℤ
  pub episode_id : ℕ

abbrev pub snake_length : GameState → ℕ
snake_length s = length s.snake_body + 1

abbrev pub contains : GameState → Position → Bool
contains s p = in_grid s.grid_size p

-- The float literals that an observation is made of: -1.0, -0.5, 0.0, 0.5 and 1.0.
pub data Feature : Type 0 where
  minus_one minus_half zero half one : Feature

-- DGameDef.OBSERVATION_RADIUS and DGameDef.OBSERVATION_SIZE
abbrev pub observation_radius : ℕ
observation_radius = 3

abbrev pub observation_length : ℕ
observation_length = (observation_radius * 2 + 1) * (observation_radius * 2 + 1) + 2

unfoldable pub sign : ℤ → Feature
sign value =
    if ltb_ℤ value (pos 0)
    then Feature.minus_one
    else if ltb_ℤ (pos 0) value
    then Feature.one
    else Feature.zero

-- range(-radius, radius + 1)
abbrev pub offsets : List ℤ
offsets = map (λ i. sub_ℕ i observation_radius) (range (observation_radius * 2 + 1))

abbrev pub is_food : Option Position → Position → Bool
is_food none p = false
is_food (some q) p = (Position-eq).beq p q

-- The board cell at local coordinates, `forward` being up in the local frame.
unfoldable pub local_position : GameState → Direction → ℤ → ℤ → Position
unfolding ◌+ℤ◌ ◌-ℤ◌ ◌*ℤ◌
local_position s right local_x local_y = record {
  x = s.snake_head.x +ℤ local_x *ℤ right.dx -ℤ local_y *ℤ s.direction.dx;
  y = s.snake_head.y +ℤ local_x *ℤ right.dy -ℤ local_y *ℤ s.direction.dy;
}

-- What the observation shows of one board cell.
unfoldable pub cell_feature : GameState → Position → Feature
cell_feature s p =
    if not (contains s p)
    then Feature.minus_half
    else if mem p s.snake_body
    then Feature.half
    else if is_food s.food_position p
    then Feature.one
    else Feature.zero

unfoldable pub local_feature : GameState → Direction → ℤ → ℤ → Feature
unfolding cell_feature local_position
local_feature s right local_x local_y =
    if eqb_ℤ local_x (pos 0) && eqb_ℤ local_y (pos 0)
    then Feature.zero
    else cell_feature s (local_position s right local_x local_y)

unfoldable pub observe_rows : GameState → Direction → List ℤ → List Feature
unfolding local_feature
observe_rows s right [] = []
observe_rows s right (local_y ∷ rows) =
    map (λ local_x. local_feature s right local_x local_y) offsets ++ observe_rows s right rows

unfoldable pub observe_food : GameState → Direction → Option Position → List Feature
unfolding sign ◌+ℤ◌ ◌-ℤ◌ ◌*ℤ◌ neg
observe_food s right none = Feature.zero ∷ Feature.zero ∷ []
observe_food s right (some food) =
    let relative_x = food.x -ℤ s.snake_head.x in
    let relative_y = food.y -ℤ s.snake_head.y in
    let local_x = relative_x *ℤ right.dx +ℤ relative_y *ℤ right.dy in
    let local_y = neg (relative_x *ℤ s.direction.dx +ℤ relative_y *ℤ s.direction.dy) in
    sign local_x ∷ sign local_y ∷ []

unfoldable pub observation : GameState → Result GameError (List Feature)
unfolding make_direction observe_rows observe_food
observation s = do
  right ← make_direction (neg s.direction.dy) s.direction.dx
  let values = observe_rows s right offsets ++ observe_food s right s.food_position
  require (length values == observation_length) observation_size
  ok values
