-- ===== src/Game/Moves.antt =====
-- game/RewardConfig.py, game/StepResult.py, and the enumerations of constants/DGame.py. `F` is the
-- type of floats.
use snake_lab.Base.{Bool, true, false, List}
use snake_lab.Base.Int.{ℤ}
use snake_lab.Game.State.{GameState, Feature}

pub record RewardConfig (F : Type 0) : Type 0 where
  pub food : F
  pub wall : F
  pub snake : F
  pub max_moves : F
  pub empty : F
  pub closer_to_food : F
  pub further_from_food : F

pub data Action : Type 0 where
  left straight right : Action

-- What the callers pass: an Action, an integer, or a value of another type.
pub data ActionArgument : Type 0 where
  action : Action → ActionArgument
  index : ℤ → ActionArgument
  other : ActionArgument

pub data Outcome : Type 0 where
  empty food wall snake max_moves board_filled : Outcome

pub record StepResult (F : Type 0) : Type 0 where
  pub new_state : GameState
  pub observed : List Feature
  pub reward : F
  pub outcome : Outcome
  pub done : Bool

-- StepResult.is_collision
abbrev pub is_collision : Outcome → Bool
is_collision Outcome.wall = true
is_collision Outcome.snake = true
is_collision _ = false
