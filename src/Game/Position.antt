-- ===== src/Game/Position.antt =====
-- game/Position.py, and the free positions of game/GameHelper.py.
pub mod Free
pub mod Count
use snake_lab.Base.{
  ℕ, ◌≡◌, ◌↔◌, Bool, true, ◌&&◌, Option, none, some, List, [], ◌∷◌, ◌++◌, range, arith,
  if◌then◌else◌,
}
use snake_lab.Base.Int.{ℤ, pos, leb_ℤ, ltb_ℤ, eqb_ℤ, eqb_ℤ_iff}
use snake_lab.Base.Members.{Eq, mem}
use snake_lab.External.{Random, choice}

pub record Position : Type 0 where
  pub x : ℤ
  pub y : ℤ

abbrev position_eq : Position → Position → Bool
position_eq p q = eqb_ℤ p.x q.x && eqb_ℤ p.y q.y

pub position_eq_iff : (p q : Position) → (position_eq p q ≡ true) ↔ (p ≡ q)
position_eq_iff p q = ground (arith, eqb_ℤ_iff p.x q.x, eqb_ℤ_iff p.y q.y)

instance abbrev pub Position-eq : Eq Position
Position-eq = record { beq = position_eq; beq_iff = position_eq_iff }

-- `GameState.contains`, on the size of the board.
abbrev pub in_grid : ℕ × ℕ → Position → Bool
in_grid (width, height) p =
    leb_ℤ (pos 0) p.x && ltb_ℤ p.x (pos width) && leb_ℤ (pos 0) p.y && ltb_ℤ p.y (pos height)

-- The free cells of column `x`, in the order of the rows.
pub free_in_column : ℕ → List ℕ → List Position → List Position
free_in_column x [] occupied = []
free_in_column x (y ∷ ys) occupied =
    let p : Position = record { x = pos x; y = pos y } in
    let rest = free_in_column x ys occupied in if mem p occupied then rest else p ∷ rest

pub free_in_columns : List ℕ → List ℕ → List Position → List Position
free_in_columns [] ys occupied = []
free_in_columns (x ∷ xs) ys occupied =
    free_in_column x ys occupied ++ free_in_columns xs ys occupied

-- The comprehension over the columns, and in each over the rows, without the occupied cells.
unfoldable pub free_positions : ℕ × ℕ → List Position → List Position
unfolding free_in_columns free_in_column
free_positions (width, height) occupied = free_in_columns (range width) (range height) occupied

-- rng.choice(free) if free else None
abbrev choice_or_none : (R : Random) → List Position → R.State → Option Position × R.State
choice_or_none R [] rng = (none, rng)
choice_or_none R (p ∷ ps) rng = choice R (p ∷ ps) rng

unfoldable pub random_free_position :
    (R : Random) → R.State → ℕ × ℕ → List Position → Option Position × R.State
unfolding free_positions choice
random_free_position R rng grid_size occupied =
    choice_or_none R (free_positions grid_size occupied) rng
