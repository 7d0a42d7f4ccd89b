-- ===== src/Game/Rules.antt =====
-- game/GameRules.py. `F` is the type of floats
-- and `plus` their sum; `R` is the random generator, whose state is passed along.
pub mod Steps
pub mod Outcomes
pub mod Observed
pub mod Validity
pub mod Progress
pub mod Collisions
pub mod Accounts
use snake_lab.Base.{
  ℕ, ◌+◌, ◌≡◌, Bool, true, false, not, ◌||◌, Option, none, some, List, [], ◌∷◌, drop_last, arith,
  ltb, ◌==◌, if◌then◌else◌,
}
use snake_lab.Base.Int.{ℤ, pos, ◌+ℤ◌, ◌-ℤ◌, ◌*ℤ◌, leb_ℤ, ltb_ℤ, eqb_ℤ, abs}
use snake_lab.Base.Members.{mem}
use snake_lab.Base.Results.{Result, ok, err, ◌>>=◌, ◌>>◌}
use snake_lab.External.{Random}
use snake_lab.Game.Position.{Position, Position-eq, random_free_position}
use snake_lab.Game.Direction.{
  Direction, GameError, invalid_multiplier, completed_state, invalid_action, turn_left, turn_right,
}
use snake_lab.Game.Moves.{
  RewardConfig, Action, ActionArgument, action, index, other, Outcome, StepResult,
}
use snake_lab.Game.State.{GameState, snake_length, contains, is_food, observation}

unfoldable pub normalize_action : ActionArgument → Result GameError Action
normalize_action (action a) = ok a
normalize_action (index n) =
    if eqb_ℤ n (pos 0)
    then ok Action.left
    else if eqb_ℤ n (pos 1)
    then ok Action.straight
    else if eqb_ℤ n (pos 2)
    then ok Action.right
    else err invalid_action
normalize_action other = err invalid_action

unfoldable pub next_direction : Direction → Action → Result GameError Direction
next_direction d Action.left = turn_left d
next_direction d Action.right = turn_right d
next_direction d Action.straight = ok d

-- The cell one step ahead.
unfoldable pub ahead : Position → Direction → Position
ahead p d = record { x = p.x +ℤ d.dx; y = p.y +ℤ d.dy }

unfoldable pub food_distance : Position → Position → ℕ
food_distance head food = abs (head.x -ℤ food.x) + abs (head.y -ℤ food.y)

-- The body cells that block the move: the tail moves away unless food is eaten.
unfoldable pub occupied_body : GameState → Bool → List Position
occupied_body s ate_food = if ate_food then s.snake_body else drop_last s.snake_body

-- The cell ahead is a wall, or a body cell that stays.
unfoldable pub hits : GameState → Position → Bool
hits s new_head =
    if not (contains s new_head)
    then true
    else mem new_head (occupied_body s (is_food s.food_position new_head))

pub would_collide : GameState → ActionArgument → Result GameError Bool
would_collide s argument = do
  normalized ← normalize_action argument
  direction ← next_direction s.direction normalized
  ok (hits s (ahead s.snake_head direction))

abbrev pub result : {F : Type 0} → GameState → F → Outcome → Bool → Result GameError (StepResult F)
result s reward outcome done = do
  observed ← observation s
  ok (record {
    new_state = s;
    observed = observed;
    reward = reward;
    outcome = outcome;
    done = done;
  })

module _ {F : Type 0} (plus : F → F → F) (rewards : RewardConfig F) where
  -- The move to a free cell.
  unfoldable pub glide :
      GameState → Position → Direction → Position → ℕ → Result GameError (StepResult F)
  glide s food direction new_head move_count =
      let body = s.snake_head ∷ drop_last s.snake_body in
      let new_state = record s {
        snake_head = new_head;
        snake_body = body;
        direction = direction;
        move_count = move_count;
      } in
      let shaping =
        if ltb (food_distance new_head food) (food_distance s.snake_head food)
        then rewards.closer_to_food
        else rewards.further_from_food in
      result new_state (plus rewards.empty shaping) Outcome.empty false

-- The state after the snake has eaten, `food` being the next piece.
unfoldable pub grown : GameState → Direction → Position → ℕ → Option Position → GameState
grown s direction new_head move_count food = record s {
  snake_head = new_head;
  snake_body = s.snake_head ∷ s.snake_body;
  direction = direction;
  food_position = food;
  score = s.score + 1;
  move_count = move_count;
}

abbrev pub eaten_outcome : Option Position → Outcome
eaten_outcome none = Outcome.board_filled
eaten_outcome (some p) = Outcome.food

abbrev pub eaten_done : Option Position → Bool
eaten_done none = true
eaten_done (some p) = false

module _ (R : Random) {F : Type 0} (plus : F → F → F) (rewards : RewardConfig F) where
  -- The move onto the food.
  unfoldable pub eat :
      GameState → Direction → Position → ℕ → R.State → Result GameError (StepResult F) × R.State
  eat s direction new_head move_count rng =
      let (food, rng') =
        random_free_position R rng s.grid_size (new_head ∷ s.snake_head ∷ s.snake_body) in
      (
        result (grown s direction new_head move_count food) rewards.food (eaten_outcome food)
            (eaten_done food),
        rng',
      )

  -- `GameRules.step` from the move count on, with the checked direction and the food at hand.
  unfoldable pub advance :
      GameState → Position → Direction → ℤ → R.State → Result GameError (StepResult F) × R.State
  advance s food direction multiplier rng =
      let move_count = s.move_count + 1 in
      let stopped = record s { move_count = move_count } in
      let new_head = ahead s.snake_head direction in
      let ate_food = (Position-eq).beq new_head food in
      if ltb_ℤ (multiplier *ℤ pos (snake_length s)) (pos move_count)
      then (result stopped rewards.max_moves Outcome.max_moves true, rng)
      else if not (contains s new_head)
      then (result stopped rewards.wall Outcome.wall true, rng)
      else if mem new_head (occupied_body s ate_food)
      then (result stopped rewards.snake Outcome.snake true, rng)
      else if ate_food
      then eat s direction new_head move_count rng
      else (glide plus rewards s food direction new_head move_count, rng)

  -- The checks of `GameRules.step` before the move.
  unfoldable pub checked : GameState → ActionArgument → ℤ → Result GameError (Position × Direction)
  checked s argument multiplier =
      if leb_ℤ multiplier (pos 0) then err invalid_multiplier else elim s.food_position [
        | none ↦ err completed_state
        | some food ↦ do
          normalized ← normalize_action argument
          direction ← next_direction s.direction normalized
          ok (food, direction)
      ]

  unfoldable pub step :
      GameState → ActionArgument → ℤ → R.State → Result GameError (StepResult F) × R.State
  step s argument multiplier rng = elim (checked s argument multiplier) [
    | err e ↦ (err e, rng)
    | ok (food, direction) ↦ advance s food direction multiplier rng
  ]
