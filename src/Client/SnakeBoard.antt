-- ===== src/Client/SnakeBoard.antt =====
-- client/SnakeBoard.py: what is drawn of a board, and which squares are drawn again when it changes.
-- Textual, which asks for lines and draws regions, is left out: `Refresh` is what it is told, and a style
-- stands for the Rich style of its name.
pub mod Repainting
use snake_lab.Base.{
  ℕ, ◌+◌, ◌*◌, ◌-◌, ◌%◌, ◌==◌, Bool, true, false, not, ◌&&◌, ◌||◌, Option, none, some, List, [],
  ◌∷◌, ◌++◌, map, range, take, drop, arith, ◌≡◌, ◌↔◌, if◌then◌else◌, ltb, leb,
}
use snake_lab.Base.Int.{ℤ, pos, pos_part, ◌*ℤ◌, ◌-ℤ◌, eqb_ℤ, eqb_ℤ_iff, leb_ℤ, ltb_ℤ}
use snake_lab.Base.Members.{Eq, mem}
use snake_lab.Game.Snapshot.{BoardSnapshot}

abbrev pub cell_eq : ℤ × ℤ → ℤ × ℤ → Bool
cell_eq (x, y) (u, v) = eqb_ℤ x u && eqb_ℤ y v

pub cell_eq_iff : (p q : ℤ × ℤ) → (cell_eq p q ≡ true) ↔ (p ≡ q)
cell_eq_iff (x, y) (u, v) = ground (arith, eqb_ℤ_iff x u, eqb_ℤ_iff y v)

instance abbrev pub Cell-eq : Eq (ℤ × ℤ)
Cell-eq = record { beq = cell_eq; beq_iff = cell_eq_iff }

pub cell_eq_sym : (p q : ℤ × ℤ) → cell_eq p q ≡ cell_eq q p
cell_eq_sym (x, y) (u, v) =
    ground (arith, eqb_ℤ_iff x u, eqb_ℤ_iff y v, eqb_ℤ_iff u x, eqb_ℤ_iff v y)

pub data SquareStyle : Type 0 where
  food snake_head snake empty_a empty_b : SquareStyle

pub record SnakeBoard : Type 0 where
  pub grid_width : ℤ
  pub grid_height : ℤ
  pub virtual_size : ℤ × ℤ
  pub snapshot : Option BoardSnapshot

-- `refresh()`, `refresh(layout=True)`, or `refresh` of the regions of some squares.
pub data Refresh : Type 0 where
  everything layout : Refresh
  squares : List (ℤ × ℤ) → Refresh

abbrev pub is_at : ℤ × ℤ → Option (ℤ × ℤ) → Bool
is_at p none = false
is_at p (some q) = cell_eq q p

abbrev pub empty_style : ℕ → ℕ → SquareStyle
empty_style column row =
    if (column + row) % 2 == 0 then SquareStyle.empty_b else SquareStyle.empty_a

-- `square_style` of `render_line`.
unfoldable pub square_style : BoardSnapshot → ℕ → ℕ → SquareStyle
square_style s column row =
    let p : ℤ × ℤ = (pos column, pos row) in
    if is_at p s.food
    then SquareStyle.food
    else if cell_eq s.snake_head p
    then SquareStyle.snake_head
    else if mem p s.snake_body
    then SquareStyle.snake
    else empty_style column row

abbrev pub food_squares : Option (ℤ × ℤ) → List (ℤ × ℤ)
food_squares none = []
food_squares (some p) = p ∷ []

-- A set of positions is a list.
pub occupied : BoardSnapshot → List (ℤ × ℤ)
occupied s = s.snake_head ∷ s.snake_body ++ food_squares s.food

-- `_square_region`: column, row, width and height, moved against the scroll offset.
unfoldable pub square_region : ℤ × ℤ → ℤ × ℤ → (ℤ × ℤ) × (ℕ × ℕ)
square_region (scroll_x, scroll_y) (x, y) = ((pos 2 *ℤ x -ℤ scroll_x, y -ℤ scroll_y), (2, 1))

abbrev pub same_size : BoardSnapshot → BoardSnapshot → Bool
same_size s t = eqb_ℤ s.width t.width && eqb_ℤ s.height t.height

abbrev resized : BoardSnapshot → SnakeBoard → SnakeBoard
resized current b = record b { grid_width = current.width; grid_height = current.height }

abbrev laid_out : BoardSnapshot → SnakeBoard → Refresh × SnakeBoard
laid_out current b = (
  Refresh.layout,
  record (resized current b) { virtual_size = (current.width *ℤ pos 2, current.height) },
)

pub watch_snapshot : Option BoardSnapshot → Option BoardSnapshot → SnakeBoard → Refresh × SnakeBoard
watch_snapshot previous none b = (Refresh.everything, b)
watch_snapshot none (some current) b = laid_out current b
watch_snapshot (some previous) (some current) b =
    if same_size previous current
    then (Refresh.squares (occupied previous ++ occupied current), resized current b)
    else laid_out current b

-- The squares of a row, two cells each.
abbrev pub doubled : List SquareStyle → List SquareStyle
doubled [] = []
doubled (s ∷ ss) = s ∷ s ∷ doubled ss

-- `render_line` at a row of the board, `none` being a blank line; the strip is cropped to `width` cells
-- from `scroll_x` on.
unfoldable pub render_row : SnakeBoard → ℕ → ℕ → ℕ → Option (List SquareStyle)
render_row b row scroll_x width = elim b.snapshot [
  | none ↦ none
  | some s ↦
      if leb_ℤ b.grid_height (pos row)
      then none
      else some (
          take width (
            drop scroll_x (
              doubled (map (λ column. square_style s column row) (range (pos_part b.grid_width))))))
]
