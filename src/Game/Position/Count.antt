-- ===== src/Game/Position/Count.antt =====
-- The cells of a board are all different, so that a snake shorter than the board leaves one free.
use snake_lab.Base.{
  ℕ, zero, suc, ◌*◌, ◌<◌, ◌≡◌, ◌≢◌, true, false, List, [], ◌∷◌, length, All, range_from, arith,
}
use snake_lab.Base.Int.{pos}
use snake_lab.Base.Members.{mem, Distinct, Distinct-append, Distinct-length-le, All-mem_self}
use snake_lab.Game.Position.{Position, Position-eq, free_in_column, free_in_columns, free_positions}
use snake_lab.Game.Position.Free.{
  mem-free_in_column, mem-free_in_columns, mem-free_positions, nothing_free-occupied,
  length-free_in_columns,
}

Distinct-free_in_column : (x i n : ℕ) → Distinct (free_in_column x (range_from i n) [])
unfolding free_in_column
Distinct-free_in_column x i zero = tt
Distinct-free_in_column x i (suc n) = (
  ground (arith, mem-free_in_column x (suc i) n (record { x = pos x; y = pos i }) []),
  Distinct-free_in_column x (suc i) n,
)

-- No cell of a column lies in the columns to its right.
column_apart :
    (x i n m h : ℕ)
    → All
        (λ p. mem p (free_in_columns (range_from (suc x) m) (range_from 0 h) []) ≡ false)
        (free_in_column x (range_from i n) [])
unfolding free_in_column
column_apart x i zero m h = tt
column_apart x i (suc n) m h = (
  ground (arith, mem-free_in_columns (suc x) m h (record { x = pos x; y = pos i }) []),
  column_apart x (suc i) n m h,
)

Distinct-free_in_columns :
    (i n h : ℕ) → Distinct (free_in_columns (range_from i n) (range_from 0 h) [])
unfolding free_in_columns
Distinct-free_in_columns i zero h = tt
Distinct-free_in_columns i (suc n) h =
    Distinct-append (free_in_column i (range_from 0 h) [])
      (free_in_columns (range_from (suc i) n) (range_from 0 h) []) (Distinct-free_in_column i 0 h)
      (Distinct-free_in_columns (suc i) n h) (column_apart i 0 h n h)

All-occupied :
    (w h : ℕ) (snake cells : List Position)
    → free_positions (w, h) snake ≡ []
    → All (λ p. mem p (free_positions (w, h) []) ≡ true) cells
    → All (λ p. mem p snake ≡ true) cells
All-occupied w h snake [] e inside = tt
All-occupied w h snake (p ∷ cells) e inside = (
  nothing_free-occupied (w, h) p snake e (ground (arith, mem-free_positions w h p [], inside.0)),
  All-occupied w h snake cells e inside.1,
)

-- A list of fewer positions than the board has cells leaves a position free.
pub free_positions-ne-nil :
    (w h : ℕ) (snake : List Position) → length snake < w * h → free_positions (w, h) snake ≢ []
unfolding free_positions
free_positions-ne-nil w h snake short e =
    let cells = free_positions (w, h) [] in
    absurd (
      omega (
        arith,
        length-free_in_columns 0 w h,
        Distinct-length-le cells snake (Distinct-free_in_columns 0 w h)
            (All-occupied w h snake cells e (All-mem_self cells)),
      ))
