-- ===== src/Game/Direction.antt =====
-- game/Direction.py: one cardinal movement vector.
pub mod Turns
use snake_lab.Base.{◌≡◌, refl, Bool, true, false, ◌&&◌, ◌||◌, ◌⊎◌, inl, inr, arith, if◌then◌else◌}
use snake_lab.Base.Int.{ℤ, pos, negsuc, neg, eqb_ℤ}
use snake_lab.Base.Results.{Result, ok, err, ◌>>=◌, ◌>>◌, require}

-- What the game code raises.
pub data GameError : Type 0 where
  invalid_direction invalid_multiplier completed_state invalid_action observation_size : GameError
  invalid_seed invalid_grid_size invalid_initial_length snake_too_long no_room_for_food : GameError
  invalid_episode_id no_free_position completed_episode : GameError

pub record Direction : Type 0 where
  pub dx : ℤ
  pub dy : ℤ

-- The membership test of `__post_init__`.
unfoldable pub is_cardinal : ℤ → ℤ → Bool
is_cardinal dx dy =
    (eqb_ℤ dx (negsuc 0) && eqb_ℤ dy (pos 0))
    || (eqb_ℤ dx (pos 1) && eqb_ℤ dy (pos 0))
    || (eqb_ℤ dx (pos 0) && eqb_ℤ dy (negsuc 0))
    || (eqb_ℤ dx (pos 0) && eqb_ℤ dy (pos 1))

-- Direction(dx, dy), which raises unless the vector is cardinal.
unfoldable pub make_direction : ℤ → ℤ → Result GameError Direction
unfolding is_cardinal
make_direction dx dy =
    if is_cardinal dx dy then ok (record { dx = dx; dy = dy }) else err invalid_direction

abbrev pub left : Direction
left = record { dx = negsuc 0; dy = pos 0 }

abbrev pub right : Direction
right = record { dx = pos 1; dy = pos 0 }

abbrev pub up : Direction
up = record { dx = pos 0; dy = negsuc 0 }

abbrev pub down : Direction
down = record { dx = pos 0; dy = pos 1 }

pub turn_left : Direction → Result GameError Direction
unfolding make_direction neg
turn_left d = make_direction d.dy (neg d.dx)

unfoldable pub turn_right : Direction → Result GameError Direction
unfolding make_direction neg
turn_right d = make_direction (neg d.dy) d.dx

abbrev pub IsCardinal : Direction → Type 0
IsCardinal d = is_cardinal d.dx d.dy ≡ true
