-- ===== src/Game/Direction/Turns.antt =====
-- Turning keeps a direction cardinal, goes the right way round, and the two turns undo one another.
use snake_lab.Base.{◌≡◌, refl, sym, arith, ◌⊎◌, inl, inr}
use snake_lab.Base.Int.{neg}
use mathlib.Core.Path.{subst}
use snake_lab.Base.Results.{ok}
use snake_lab.Game.Direction.{
  Direction, is_cardinal, make_direction, left, right, up, down, turn_left, turn_right, IsCardinal,
}

-- What lies to the left of whom, on a screen whose rows count downwards.
pub data IsLeftOf : Direction → Direction → Type 0 where
  left_of_up : IsLeftOf left up
  left_of_left : IsLeftOf down left
  left_of_down : IsLeftOf right down
  left_of_right : IsLeftOf up right

cardinal-cases : (d : Direction) → IsCardinal d → (d ≡ left) ⊎ (d ≡ right) ⊎ (d ≡ up) ⊎ (d ≡ down)
unfolding is_cardinal
cardinal-cases d h = ground arith

-- A direction, what it becomes by either turn, and that the turns lead back.
abbrev Turned : Direction → Type 0
Turned d =
    (l r : Direction) × (turn_left d ≡ ok l)
    × (turn_right d ≡ ok r)
    × IsCardinal l
    × IsCardinal r
    × (turn_right l ≡ ok d)
    × (turn_left r ≡ ok d)
    × IsLeftOf l d
    × IsLeftOf d r

-- A cardinal direction becomes by a turn to the left the direction to its left, by a turn to the right
-- the direction that has it to its left, without an error; both are cardinal, and the other turn leads
-- back.
pub turn_left-turn_right :
    (d : Direction)
    → IsCardinal d
    → (l r : Direction) × (turn_left d ≡ ok l)
      × (turn_right d ≡ ok r)
      × IsCardinal l
      × IsCardinal r
      × (turn_right l ≡ ok d)
      × (turn_left r ≡ ok d)
      × IsLeftOf l d
      × IsLeftOf d r
unfolding turn_left turn_right is_cardinal make_direction neg
turn_left-turn_right d h = elim (cardinal-cases d h) [
  | inl e ↦
      subst Turned (sym e) (down, up, refl, refl, refl, refl, refl, refl, left_of_left, left_of_up)
  | inr (inl e) ↦
      subst Turned (sym e)
        (up, down, refl, refl, refl, refl, refl, refl, left_of_right, left_of_down)
  | inr (inr (inl e)) ↦
      subst Turned (sym e)
        (left, right, refl, refl, refl, refl, refl, refl, left_of_up, left_of_right)
  | inr (inr (inr e)) ↦
      subst Turned (sym e)
        (right, left, refl, refl, refl, refl, refl, refl, left_of_down, left_of_left)
]
