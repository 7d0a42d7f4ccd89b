-- ===== src/Game/Position/Free.antt =====
-- What the comprehension of game/GameHelper.py holds, and what is drawn from it.
use snake_lab.Base.{
  ℕ, zero, suc, ◌+◌, ◌*◌, ◌≤◌, ◌≡◌, refl, ap, Bool, true, false, not, ◌&&◌, Option, none, some,
  List, [], ◌∷◌, length, length-append, All, range_from, arith, inl, inr, Bool-cases, get_elem?,
}
use snake_lab.Base.Int.{ℤ, pos, eqb_ℤ, leb_ℤ, ltb_ℤ}
use snake_lab.Base.Members.{mem, mem-append, Distinct, Distinct-length-le}
use snake_lab.External.{Random, choice, get_elem?-IsSome}
use snake_lab.Game.Position.{
  Position, Position-eq, position_eq_iff, in_grid, free_in_column, free_in_columns, free_positions,
  choice_or_none, random_free_position,
}

abbrev pub within : ℕ → ℕ → ℤ → Bool
within i n a = leb_ℤ (pos i) a && ltb_ℤ a (pos (i + n))

pub mem-free_in_column :
    (x i n : ℕ) (p : Position) (occupied : List Position)
    → mem p (free_in_column x (range_from i n) occupied)
      ≡ (eqb_ℤ p.x (pos x) && within i n p.y && not (mem p occupied))
unfolding free_in_column
mem-free_in_column x i zero p occupied = ground arith
mem-free_in_column x i (suc n) p occupied =
    let cell : Position = record { x = pos x; y = pos i } in
    elim (Bool-cases ((Position-eq).beq p cell)) [
      | inl same ↦
          let e : p ≡ cell = (position_eq_iff p cell).0 same in
          ground (arith, mem-free_in_column x (suc i) n p occupied, ap (λ q. mem q occupied) e)
      | inr different ↦ ground (arith, mem-free_in_column x (suc i) n p occupied)
    ]

pub mem-free_in_columns :
    (i n h : ℕ) (p : Position) (occupied : List Position)
    → mem p (free_in_columns (range_from i n) (range_from 0 h) occupied)
      ≡ (within i n p.x && within 0 h p.y && not (mem p occupied))
unfolding free_in_columns
mem-free_in_columns i zero h p occupied = ground arith
mem-free_in_columns i (suc n) h p occupied =
    rw (mem-append p (free_in_column i (range_from 0 h) occupied)) (
      ground
        (arith, mem-free_in_column i 0 h p occupied, mem-free_in_columns (suc i) n h p occupied))

-- The free positions are the cells of the board that are not occupied.
pub mem-free_positions :
    (w h : ℕ) (p : Position) (occupied : List Position)
    → mem p (free_positions (w, h) occupied) ≡ (in_grid (w, h) p && not (mem p occupied))
unfolding free_positions
mem-free_positions w h p occupied = ground (arith, mem-free_in_columns 0 w h p occupied)

length-free_in_column : (x i n : ℕ) → length (free_in_column x (range_from i n) []) ≡ n
unfolding free_in_column
length-free_in_column x i zero = refl
length-free_in_column x i (suc n) = ap suc (length-free_in_column x (suc i) n)

pub length-free_in_columns :
    (i n h : ℕ) → length (free_in_columns (range_from i n) (range_from 0 h) []) ≡ n * h
unfolding free_in_columns
length-free_in_columns i zero h = omega arith
length-free_in_columns i (suc n) h = omega (
  arith,
  length-append (free_in_column i (range_from 0 h) [])
      (free_in_columns (range_from (suc i) n) (range_from 0 h) []),
  length-free_in_column i 0 h,
  length-free_in_columns (suc i) n h,
)

All-in_grid-mem :
    (w h : ℕ) (ps : List Position)
    → All (λ p. in_grid (w, h) p ≡ true) ps
    → All (λ p. mem p (free_positions (w, h) []) ≡ true) ps
All-in_grid-mem w h [] inside = tt
All-in_grid-mem w h (p ∷ ps) inside =
    (ground (arith, mem-free_positions w h p []), All-in_grid-mem w h ps inside.1)

-- Different cells of a board are at most as many as the board has.
pub length-le-cells :
    (w h : ℕ) (ps : List Position)
    → Distinct ps
    → All (λ p. in_grid (w, h) p ≡ true) ps
    → length ps ≤ w * h
unfolding free_positions
length-le-cells w h ps distinct inside = omega (
  arith,
  Distinct-length-le ps (free_positions (w, h) []) distinct (All-in_grid-mem w h ps inside),
  length-free_in_columns 0 w h,
)

mem-get_elem? :
    (ps : List Position) (i : ℕ) (p : Position) → get_elem? ps i ≡ some p → mem p ps ≡ true
mem-get_elem? [] i p e = cc
mem-get_elem? (q ∷ ps) zero p e = ground (arith, position_eq_iff p q)
mem-get_elem? (q ∷ ps) (suc i) p e = ground (arith, mem-get_elem? ps i p e)

-- How a draw among `free` ends.
pub data Draw (free : List Position) (drawn : Option Position) : Type 0 where
  nothing_free : free ≡ [] → drawn ≡ none → Draw free drawn
  drew : (p : Position) → mem p free ≡ true → drawn ≡ some p → Draw free drawn

choice_or_none-Draw :
    (R : Random) (free : List Position) (rng : R.State) → Draw free (choice_or_none R free rng).0
unfolding choice
choice_or_none-Draw R [] rng = nothing_free refl refl
choice_or_none-Draw R (p ∷ ps) rng =
    let (i, rng') = R.randbelow (length (p ∷ ps)) rng in
    let (q, e) = get_elem?-IsSome (p ∷ ps) i (R.randbelow_lt (length (p ∷ ps)) rng (omega arith)) in
    drew q (mem-get_elem? (p ∷ ps) i q e) e

-- The draw is a free position, and fails only when there is none.
pub random_free_position-Draw :
    (R : Random) (rng : R.State) (grid_size : ℕ × ℕ) (occupied : List Position)
    → Draw (free_positions grid_size occupied) (random_free_position R rng grid_size occupied).0
unfolding random_free_position
random_free_position-Draw R rng grid_size occupied =
    choice_or_none-Draw R (free_positions grid_size occupied) rng

-- A free position lies on the board and is not occupied.
pub free_position-IsFree :
    (grid_size : ℕ × ℕ) (p : Position) (occupied : List Position)
    → mem p (free_positions grid_size occupied) ≡ true
    → (in_grid grid_size p ≡ true) × (mem p occupied ≡ false)
free_position-IsFree (w, h) p occupied m = ground (arith, mem-free_positions w h p occupied)

-- With no free position every cell of the board is occupied.
pub nothing_free-occupied :
    (grid_size : ℕ × ℕ) (p : Position) (occupied : List Position)
    → free_positions grid_size occupied ≡ []
    → in_grid grid_size p ≡ true
    → mem p occupied ≡ true
nothing_free-occupied (w, h) p occupied e inside =
    ground (arith, mem-free_positions w h p occupied, ap (mem p) e)

-- How a draw ends on a board: no cell is left, or a cell of the board that is not occupied is drawn.
pub data DrawCell (grid_size : ℕ × ℕ) (occupied : List Position) (drawn : Option Position)
    : Type 0 where
  board_full :
      ((p : Position) → in_grid grid_size p ≡ true → mem p occupied ≡ true)
      → drawn ≡ none
      → DrawCell grid_size occupied drawn
  drew_cell :
      (p : Position)
      → in_grid grid_size p ≡ true
      → mem p occupied ≡ false
      → drawn ≡ some p
      → DrawCell grid_size occupied drawn

Draw-DrawCell :
    (grid_size : ℕ × ℕ) (occupied : List Position) (drawn : Option Position)
    → Draw (free_positions grid_size occupied) drawn
    → DrawCell grid_size occupied drawn
Draw-DrawCell grid_size occupied drawn (nothing_free none_free e) =
    board_full (λ p inside. nothing_free-occupied grid_size p occupied none_free inside) e
Draw-DrawCell grid_size occupied drawn (drew p free e) =
    let (inside, unoccupied) = free_position-IsFree grid_size p occupied free in
    drew_cell p inside unoccupied e

-- A draw on a board gives a cell of the board that is not occupied, and gives none only when every cell
-- of the board is occupied.
pub random_free_position-DrawCell :
    (R : Random) (rng : R.State) (grid_size : ℕ × ℕ) (occupied : List Position)
    → DrawCell grid_size occupied (random_free_position R rng grid_size occupied).0
random_free_position-DrawCell R rng grid_size occupied =
    Draw-DrawCell grid_size occupied (random_free_position R rng grid_size occupied).0
      (random_free_position-Draw R rng grid_size occupied)
