-- ===== src/Game/Rules/Observed.antt =====
-- The observation in the result of a step is that of the new state.
use snake_lab.Base.{ℕ, ◌+◌, ◌≡◌, Bool, true, not, if-either, arith}
use snake_lab.Base.Int.{ℤ, pos, ltb_ℤ, ◌*ℤ◌}
use snake_lab.Base.Members.{mem}
use snake_lab.Base.Results.{Result, ok, err}
use snake_lab.External.{Random}
use snake_lab.Game.Position.{Position, Position-eq}
use snake_lab.Game.Direction.{Direction, GameError}
use snake_lab.Game.State.{GameState, snake_length, contains, observation}
use snake_lab.Game.Moves.{RewardConfig, ActionArgument, Outcome, StepResult}
use snake_lab.Game.Rules.{ahead, occupied_body, result, glide, eat, advance, checked, step}

-- If it returns a result, that holds the observation of its state.
unfoldable pub IsObserved :
    {F : Type 0} (R : Random) → Result GameError (StepResult F) × R.State → Type 0
IsObserved {F} R x = (r : StepResult F) → x.0 ≡ ok r → observation r.new_state ≡ ok r.observed

module _ (R : Random) {F : Type 0} (plus : F → F → F) (rewards : RewardConfig F) where
  result-IsObserved :
      (s : GameState) (reward : F) (o : Outcome) (done : Bool) (rng : R.State)
      → IsObserved R (result s reward o done, rng)
  unfolding IsObserved
  result-IsObserved s reward o done rng r h = ground arith

  eat-IsObserved :
      (s : GameState) (d : Direction) (p : Position) (n : ℕ) (rng : R.State)
      → IsObserved R (eat R plus rewards s d p n rng)
  unfolding eat
  eat-IsObserved s d p n rng = result-IsObserved _ _ _ _ _

  glide-IsObserved :
      (s : GameState) (food : Position) (d : Direction) (p : Position) (n : ℕ) (rng : R.State)
      → IsObserved R (glide plus rewards s food d p n, rng)
  unfolding glide
  glide-IsObserved s food d p n rng = result-IsObserved _ _ _ _ _

  advance-IsObserved :
      (s : GameState) (food : Position) (d : Direction) (multiplier : ℤ) (rng : R.State)
      → IsObserved R (advance R plus rewards s food d multiplier rng)
  unfolding advance
  advance-IsObserved s food d multiplier rng =
      let stopped = record s { move_count = s.move_count + 1 } in
      let cell = ahead s.snake_head d in
      let ate = (Position-eq).beq cell food in
      if-either (IsObserved R) (ltb_ℤ (multiplier *ℤ pos (snake_length s)) (pos (s.move_count + 1)))
        (result-IsObserved stopped rewards.max_moves Outcome.max_moves true rng)
        (if-either (IsObserved R) (not (contains s cell))
          (result-IsObserved stopped rewards.wall Outcome.wall true rng)
          (if-either (IsObserved R) (mem cell (occupied_body s ate))
            (result-IsObserved stopped rewards.snake Outcome.snake true rng)
            (if-either (IsObserved R) ate (eat-IsObserved s d cell (s.move_count + 1) rng)
              (glide-IsObserved s food d cell (s.move_count + 1) rng))))

  refused-IsObserved : (e : GameError) (rng : R.State) → IsObserved {F = F} R (err e, rng)
  unfolding IsObserved
  refused-IsObserved e rng r h = cc h

  moved-IsObserved :
      (s : GameState) (multiplier : ℤ) (rng : R.State) (c : Result GameError (Position × Direction))
      → IsObserved {F = F} R (elim c [
        | err e ↦ (err e, rng)
        | ok (food, direction) ↦ advance R plus rewards s food direction multiplier rng
      ])
  moved-IsObserved s multiplier rng (err e) = refused-IsObserved e rng
  moved-IsObserved s multiplier rng (ok (food, direction)) =
      advance-IsObserved s food direction multiplier rng

  pub step-IsObserved :
      (s : GameState) (argument : ActionArgument) (multiplier : ℤ) (rng : R.State)
      → IsObserved R (step R plus rewards s argument multiplier rng)
  unfolding step
  step-IsObserved s argument multiplier rng =
      moved-IsObserved s multiplier rng (checked R plus rewards s argument multiplier)
