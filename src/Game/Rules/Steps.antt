-- ===== src/Game/Rules/Steps.antt =====
-- `GameRules.step` on valid states, through the moves that it makes: its accounts, its agreement with
-- `would_collide`, and the filled board.
use mathlib.Core.Path.{subst}
use snake_lab.Base.{◌≡◌, true, false, some, ◌∷◌, arith}
use snake_lab.Base.Int.{ℤ, pos, ltb_ℤ}
use snake_lab.Base.Members.{mem}
use snake_lab.Base.Results.{Result, ok}
use snake_lab.External.{Random}
use snake_lab.Game.Position.{Position, Position-eq}
use snake_lab.Game.Direction.{Direction}
use snake_lab.Game.State.{GameState, contains}
use snake_lab.Game.Moves.{RewardConfig, Action, ActionArgument, Outcome, StepResult, is_collision}
use snake_lab.Game.Rules.{normalize_action, next_direction, step, would_collide}
use snake_lab.Game.Rules.Outcomes.{Move, exhausted}
use snake_lab.Game.Rules.Validity.{IsValid}
use snake_lab.Game.Rules.Progress.{step-IsValid}
use snake_lab.Game.Rules.Collisions.{would_collide-Move}
use snake_lab.Game.Rules.Accounts.{Counts, Move-Counts, board_filled-covers}

same_value : {E A : Type 0} (m : Result E A) (a b : A) → m ≡ ok a → m ≡ ok b → a ≡ b
same_value m a b h k = ground arith

module _ (R : Random) {F : Type 0} (plus : F → F → F) (rewards : RewardConfig F) where
  -- The move that a step has made.
  step-Move :
      (s : GameState) (food : Position) (argument : ActionArgument) (a : Action) (multiplier : ℤ)
      (rng : R.State) (r : StepResult F)
      → IsValid s
      → s.food_position ≡ some food
      → normalize_action argument ≡ ok a
      → ltb_ℤ (pos 0) multiplier ≡ true
      → (step R plus rewards s argument multiplier rng).0 ≡ ok r
      → (d : Direction) × (next_direction s.direction a ≡ ok d)
        × Move s food d multiplier r.new_state r.outcome
  step-Move s food argument a multiplier rng r valid is_food known positive returned =
      let (q, d, returned', turned, move, _, _) =
        step-IsValid R plus rewards s food argument a multiplier rng valid is_food known positive in
      let same : q ≡ r =
        same_value (step R plus rewards s argument multiplier rng).0 q r returned' returned in
      (d, turned, subst (λ x. Move s food d multiplier x.new_state x.outcome) same move)

  -- On a valid state with food, a known action and a positive multiplier, the result of `step` counts
  -- one move and leaves board, seed and episode alone. A meal adds one to the score and to the length,
  -- any other outcome leaves the score; the length stays, but for a snake of length 1, which a move to
  -- a free cell makes 2.
  pub step-Counts :
      (s : GameState) (food : Position) (argument : ActionArgument) (a : Action) (multiplier : ℤ)
      (rng : R.State) (r : StepResult F)
      → IsValid s
      → s.food_position ≡ some food
      → normalize_action argument ≡ ok a
      → ltb_ℤ (pos 0) multiplier ≡ true
      → (step R plus rewards s argument multiplier rng).0 ≡ ok r
      → Counts s r.new_state r.outcome
  step-Counts s food argument a multiplier rng r valid is_food known positive returned =
      let (d, turned, move) =
        step-Move s food argument a multiplier rng r valid is_food known positive returned in
      Move-Counts move

  -- On a valid state with food, a known action and a positive multiplier, unless the move limit is
  -- passed, `step` ends at a wall or in the snake exactly if `would_collide` says so of the action.
  pub step-would_collide :
      (s : GameState) (food : Position) (argument : ActionArgument) (a : Action) (multiplier : ℤ)
      (rng : R.State) (r : StepResult F)
      → IsValid s
      → s.food_position ≡ some food
      → normalize_action argument ≡ ok a
      → ltb_ℤ (pos 0) multiplier ≡ true
      → exhausted s multiplier ≡ false
      → (step R plus rewards s argument multiplier rng).0 ≡ ok r
      → would_collide s argument ≡ ok (is_collision r.outcome)
  step-would_collide s food argument a multiplier rng r valid is_food known positive more returned =
      let (d, turned, move) =
        step-Move s food argument a multiplier rng r valid is_food known positive returned in
      would_collide-Move s food is_food argument a d multiplier known turned more move

  -- On a valid state with food, a known action and a positive multiplier, when `step` reports the board
  -- as filled, every cell of it belongs to the snake.
  pub step-board_filled :
      (s : GameState) (food : Position) (argument : ActionArgument) (a : Action) (multiplier : ℤ)
      (rng : R.State) (r : StepResult F) (p : Position)
      → IsValid s
      → s.food_position ≡ some food
      → normalize_action argument ≡ ok a
      → ltb_ℤ (pos 0) multiplier ≡ true
      → (step R plus rewards s argument multiplier rng).0 ≡ ok r
      → r.outcome ≡ Outcome.board_filled
      → contains r.new_state p ≡ true
      → mem p (r.new_state.snake_head ∷ r.new_state.snake_body) ≡ true
  step-board_filled s food argument a multiplier rng r p valid is_food known positive returned full
        inside =
      let (d, turned, move) =
        step-Move s food argument a multiplier rng r valid is_food known positive returned in
      board_filled-covers (subst (λ o. Move s food d multiplier r.new_state o) full move) p inside
