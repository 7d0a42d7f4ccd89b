-- ===== src/Game/Rules/Progress.antt =====
-- `GameRules.step` on valid states: it returns, what it counts, and how long an episode can be.
use snake_lab.Base.{ℕ, ◌+◌, ◌≡◌, refl, Bool, true, false, some, ◌∷◌, arith}
use snake_lab.Base.Int.{ℤ, pos, ltb_ℤ}
use snake_lab.Base.Results.{Result, ok, err}
use snake_lab.External.{Random}
use snake_lab.Game.Position.{Position, Position-eq, random_free_position}
use snake_lab.Game.Direction.{Direction, GameError, IsCardinal}
use snake_lab.Game.Direction.Turns.{turn_left-turn_right}
use snake_lab.Game.State.{GameState, observation}
use snake_lab.Game.State.Observation.{observation-length}
use snake_lab.Game.Moves.{RewardConfig, Action, ActionArgument, StepResult}
use snake_lab.Game.Rules.{
  ahead, grown, glide, eat, normalize_action, next_direction, advance, checked, step,
}
use snake_lab.Game.Rules.Outcomes.{Move, stopped, glided, is_terminal, advance-Move}
use snake_lab.Game.Rules.Validity.{IsValid, Move-IsValid}

-- A turn, or none, takes a cardinal direction to a cardinal one and raises nothing.
pub next_direction-ok :
    (d : Direction) (a : Action)
    → IsCardinal d
    → (e : Direction) × (next_direction d a ≡ ok e) × IsCardinal e
unfolding next_direction
next_direction-ok d Action.straight h = (d, refl, h)
next_direction-ok d Action.left h =
    let (l, r, pl, pr, cl, cr, _, _, _, _) = turn_left-turn_right d h in (l, pl, cl)
next_direction-ok d Action.right h =
    let (l, r, pl, pr, cl, cr, _, _, _, _) = turn_left-turn_right d h in (r, pr, cr)

abbrev is_ok : {A : Type 0} → Result GameError A → Bool
is_ok (ok a) = true
is_ok (err e) = false

is_ok-value : {A : Type 0} (m : Result GameError A) → is_ok m ≡ true → (a : A) × (m ≡ ok a)
is_ok-value (ok a) h = (a, refl)
is_ok-value (err e) h = cc

observed : (s : GameState) → IsCardinal s.direction → is_ok (observation s) ≡ true
observed s h = let (values, e, _) = observation-length s h in rw e

module _ (R : Random) {F : Type 0} (plus : F → F → F) (rewards : RewardConfig F) where
  eat-ok :
      (s : GameState) (d : Direction) (p : Position) (n : ℕ) (rng : R.State)
      → IsCardinal d
      → is_ok (eat R plus rewards s d p n rng).0 ≡ true
  unfolding eat grown
  eat-ok s d p n rng h =
      let next = (random_free_position R rng s.grid_size (p ∷ s.snake_head ∷ s.snake_body)).0 in
      ground (arith, observed (grown s d p n next) h)

  advance-ok :
      (s : GameState) (food : Position) (d : Direction) (multiplier : ℤ) (rng : R.State)
      → IsCardinal s.direction
      → IsCardinal d
      → is_ok (advance R plus rewards s food d multiplier rng).0 ≡ true
  unfolding advance glide
  advance-ok s food d multiplier rng hs hd = ground (
    arith,
    observed (stopped s) hs,
    observed (glided s d) hd,
    eat-ok s d (ahead s.snake_head d) (s.move_count + 1) rng hd,
  )

  -- On a valid state with food, a known action and a positive multiplier, `step` returns, and
  -- makes a move to a valid state which is done exactly at a terminal outcome.
  pub step-IsValid :
      (s : GameState) (food : Position) (argument : ActionArgument) (a : Action) (multiplier : ℤ)
      (rng : R.State)
      → IsValid s
      → s.food_position ≡ some food
      → normalize_action argument ≡ ok a
      → ltb_ℤ (pos 0) multiplier ≡ true
      → (r : StepResult F) × (d : Direction) × ((step R plus rewards s argument multiplier rng).0
          ≡ ok r)
        × (next_direction s.direction a ≡ ok d)
        × Move s food d multiplier r.new_state r.outcome
        × IsValid r.new_state
        × (r.done ≡ is_terminal r.outcome)
  unfolding step checked
  step-IsValid s food argument a multiplier rng valid is_food known positive =
      let (d, turned, cardinal) = next_direction-ok s.direction a valid.cardinal in
      let (r, returned) =
        is_ok-value (advance R plus rewards s food d multiplier rng).0
          (advance-ok s food d multiplier rng valid.cardinal cardinal) in
      let (move, done) = advance-Move R plus rewards s food d multiplier rng r returned in
      (r, d, ground arith, turned, move, Move-IsValid s food d valid cardinal is_food move, done)
