-- ===== src/Game/Rules/Accounts.antt =====
-- What a move counts, when the board is filled, and how long an episode can be.
use native.Mathlib.Nat.{mul-le-mul_left}
use snake_lab.Base.{
  ℕ, ◌+◌, ◌*◌, max, ◌≤◌, ◌≡◌, ap, Bool, true, false, Option, none, some, ◌∷◌, length-drop_last,
  arith, if◌then◌else◌,
}
use snake_lab.Base.Int.{ℤ, pos, ◌*ℤ◌}
use snake_lab.Base.Members.{mem}
use snake_lab.Game.Position.{Position, Position-eq}
use snake_lab.Game.Position.Free.{nothing_free, drew, nothing_free-occupied, length-le-cells}
use snake_lab.Game.Direction.{Direction}
use snake_lab.Game.State.{GameState, snake_length, contains}
use snake_lab.Game.Moves.{Outcome}
use snake_lab.Game.Rules.{ahead, grown, eaten_outcome}
use snake_lab.Game.Rules.Outcomes.{Move, timeout, wall, bite, meal, slide, exhausted, is_terminal}
use snake_lab.Game.Rules.Validity.{IsValid}

abbrev pub is_meal : Outcome → Bool
is_meal Outcome.food = true
is_meal Outcome.board_filled = true
is_meal _ = false

-- The length of the snake after a move. `body[:-1]` of an empty body is empty, so that a slide of a
-- snake of length 1 leaves a snake of length 2.
abbrev pub length_after : Outcome → ℕ → ℕ
length_after Outcome.food n = n + 1
length_after Outcome.board_filled n = n + 1
length_after Outcome.empty n = max n 2
length_after _ n = n

-- What one move does to the counters of a state.
pub record Counts (s t : GameState) (o : Outcome) : Type 0 where
  pub moves : t.move_count ≡ s.move_count + 1
  pub scored : t.score ≡ (if is_meal o then s.score + 1 else s.score)
  pub grew : snake_length t ≡ length_after o (snake_length s)
  pub same_grid : t.grid_size ≡ s.grid_size
  pub same_seed : t.seed ≡ s.seed
  pub same_episode : t.episode_id ≡ s.episode_id

grown-Counts :
    (s : GameState) (d : Direction) (p : Position) (next : Option Position)
    → Counts s (grown s d p (s.move_count + 1) next) (eaten_outcome next)
unfolding grown
grown-Counts s d p none = ground arith
grown-Counts s d p (some q) = ground arith

-- Every move counts itself and leaves board, seed and episode alone; a meal adds one to the score
-- and to the length, and no other move changes the score.
pub Move-Counts :
    {s : GameState} {food : Position} {d : Direction} {multiplier : ℤ} {t : GameState} {o : Outcome}
    → Move s food d multiplier t o
    → Counts s t o
Move-Counts {s} (timeout _ e o) = rw (e, o) (ground arith)
Move-Counts {s} (wall _ _ e o) = rw (e, o) (ground arith)
Move-Counts {s} (bite _ _ _ e o) = rw (e, o) (ground arith)
Move-Counts {s} {d = d} (meal next _ _ _ _ _ e o) =
    rw (e, o) (grown-Counts s d (ahead s.snake_head d) next)
Move-Counts {s} (slide _ _ _ _ e o) = rw (e, o) (ground (arith, length-drop_last s.snake_body))

-- A valid snake has at most as many cells as the board.
pub snake_length-le : (s : GameState) → IsValid s → snake_length s ≤ s.grid_size.0 * s.grid_size.1
snake_length-le s valid = omega (
  arith,
  length-le-cells s.grid_size.0 s.grid_size.1 (s.snake_head ∷ s.snake_body) valid.distinct
      valid.inside,
)

exhausted-bound :
    (s : GameState) (m : ℕ) → exhausted s (pos m) ≡ false → s.move_count + 1 ≤ m * snake_length s
unfolding ◌*ℤ◌
exhausted-bound s m h = ground arith

Move-exhausted :
    {s : GameState} {food : Position} {d : Direction} {multiplier : ℤ} {t : GameState} {o : Outcome}
    → Move s food d multiplier t o
    → is_terminal o ≡ false
    → exhausted s multiplier ≡ false
Move-exhausted (timeout _ _ o) n = cc (n, ap is_terminal o)
Move-exhausted (wall h _ _ _) n = h
Move-exhausted (bite h _ _ _ _) n = h
Move-exhausted (meal _ h _ _ _ _ _ _) n = h
Move-exhausted (slide h _ _ _ _ _) n = h

-- After a move that does not end the episode, the moves made so far are within the multiple of the
-- number of cells of the board.
pub Move-move_count :
    {s : GameState} {food : Position} {d : Direction} (m : ℕ) {t : GameState} {o : Outcome}
    → IsValid s
    → Move s food d (pos m) t o
    → is_terminal o ≡ false
    → t.move_count ≤ m * (s.grid_size.0 * s.grid_size.1)
Move-move_count {s} m valid move n = grind (
  arith,
  exhausted-bound s m (Move-exhausted move n),
  mul-le-mul_left m (snake_length-le s valid),
  (Move-Counts move).moves,
)

-- When the board is reported as filled, every cell of it belongs to the snake.
pub board_filled-covers :
    {s : GameState} {food : Position} {d : Direction} {multiplier : ℤ} {t : GameState}
    → Move s food d multiplier t Outcome.board_filled
    → (p : Position) → contains t p ≡ true
    → mem p (t.snake_head ∷ t.snake_body) ≡ true
unfolding grown
board_filled-covers (timeout _ _ o) p inside = cc o
board_filled-covers (wall _ _ _ o) p inside = cc o
board_filled-covers (bite _ _ _ _ o) p inside = cc o
board_filled-covers (slide _ _ _ _ _ o) p inside = cc o
board_filled-covers (meal (some q) _ _ _ _ _ _ o) p inside = cc o
board_filled-covers (meal none _ _ _ _ (drew q _ e) _ o) p inside = cc e
board_filled-covers {s} {d = d} (meal none _ _ _ _ (nothing_free e _) grown_eq o) p inside =
    let snake = ahead s.snake_head d ∷ s.snake_head ∷ s.snake_body in
    rw grown_eq (nothing_free-occupied s.grid_size p snake e (rw grown_eq at inside))
