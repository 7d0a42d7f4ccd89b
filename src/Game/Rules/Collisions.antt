-- ===== src/Game/Rules/Collisions.antt =====
-- `would_collide` foretells the outcome of `step`.
use snake_lab.Base.{◌≡◌, refl, ap, false, Option, none, some, arith}
use snake_lab.Base.Int.{ℤ}
use snake_lab.Base.Results.{ok}
use snake_lab.Game.Position.{Position, Position-eq, position_eq_iff}
use snake_lab.Game.Direction.{Direction}
use snake_lab.Game.State.{GameState}
use snake_lab.Game.Moves.{ActionArgument, Action, Outcome, is_collision}
use snake_lab.Game.Rules.{
  ahead, occupied_body, eaten_outcome, hits, would_collide, normalize_action, next_direction,
}
use snake_lab.Game.Rules.Outcomes.{Move, timeout, wall, bite, meal, slide, exhausted}

meal-is_collision : (next : Option Position) → is_collision (eaten_outcome next) ≡ false
meal-is_collision none = refl
meal-is_collision (some p) = refl

module _ (s : GameState) (food : Position) (is_food_at : s.food_position ≡ some food) where
  hits-Move :
      (d : Direction) (multiplier : ℤ) {t : GameState} {o : Outcome}
      → exhausted s multiplier ≡ false
      → Move s food d multiplier t o
      → hits s (ahead s.snake_head d) ≡ is_collision o
  unfolding hits occupied_body
  hits-Move d multiplier more (timeout e _ _) = cc (more, e)
  hits-Move d multiplier more (wall _ out _ o) = rw o (ground arith)
  hits-Move d multiplier more (bite _ inside on_body _ o) = rw o (ground arith)
  hits-Move d multiplier more (meal next _ inside at_food free _ _ o) =
      rw (o, meal-is_collision next)
        (ground (arith, (position_eq_iff (ahead s.snake_head d) food).1 at_food))
  hits-Move d multiplier more (slide _ inside other free _ o) = rw o (ground arith)

  -- Unless the move limit ends the episode first, a move ends at a wall or in the snake exactly if
  -- `would_collide` has said so of the same action.
  pub would_collide-Move :
      (argument : ActionArgument) (a : Action) (d : Direction) (multiplier : ℤ) {t : GameState}
      {o : Outcome}
      → normalize_action argument ≡ ok a
      → next_direction s.direction a ≡ ok d
      → exhausted s multiplier ≡ false
      → Move s food d multiplier t o
      → would_collide s argument ≡ ok (is_collision o)
  unfolding would_collide
  would_collide-Move argument a d multiplier known turned more move =
      rw (known, turned) (ap ok (hits-Move d multiplier more move))
