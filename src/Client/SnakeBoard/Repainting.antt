-- ===== src/Client/SnakeBoard/Repainting.antt =====
-- Drawing the changed squares again is as good as drawing the board again.
use snake_lab.Base.{
  ℕ, ◌≡◌, refl, sym, ◌∙◌, false, Option, none, some, ◌++◌, arith, inl, inr, Bool-cases,
  if◌then◌else◌, if-either,
}
use snake_lab.Base.Int.{ℤ, pos}
use snake_lab.Base.Members.{mem, mem-append}
use snake_lab.Game.Snapshot.{BoardSnapshot}
use snake_lab.Client.SnakeBoard.{
  Cell-eq, cell_eq_sym, is_at, food_squares, SquareStyle, SnakeBoard, Refresh, empty_style,
  square_style, occupied, same_size, watch_snapshot, everything, layout, squares,
}

-- What a screen shows after a refresh, square by square, when `fresh` is drawn.
abbrev pub repaint : Refresh → (ℕ → ℕ → SquareStyle) → (ℕ → ℕ → SquareStyle) → ℕ → ℕ → SquareStyle
repaint everything shown fresh column row = fresh column row
repaint layout shown fresh column row = fresh column row
repaint (squares ps) shown fresh column row =
    if mem (pos column, pos row) ps then fresh column row else shown column row

not_food : (p : ℤ × ℤ) (f : Option (ℤ × ℤ)) → mem p (food_squares f) ≡ false → is_at p f ≡ false
not_food p none h = refl
not_food p (some q) h = ground (arith, cell_eq_sym p q)

-- A square that is not occupied is empty.
free-style :
    (s : BoardSnapshot) (column row : ℕ)
    → mem (pos column, pos row) (occupied s) ≡ false
    → square_style s column row ≡ empty_style column row
unfolding square_style occupied
free-style s column row h =
    let p : ℤ × ℤ = (pos column, pos row) in
    let parts = mem-append p s.snake_body (food_squares s.food) in
    ground (arith, not_food p s.food, cell_eq_sym p s.snake_head, parts, h)

pub repaint-squares :
    (s t : BoardSnapshot) (shown : ℕ → ℕ → SquareStyle) (column row : ℕ)
    → shown column row ≡ square_style s column row
    → repaint (squares (occupied s ++ occupied t)) shown (square_style t) column row
      ≡ square_style t column row
repaint-squares s t shown column row h =
    let p : ℤ × ℤ = (pos column, pos row) in
    elim (Bool-cases (mem p (occupied s ++ occupied t))) [
      | inl dirty ↦ rw dirty refl
      | inr clean ↦
          let parts = mem-append p (occupied s) (occupied t) in
          rw clean (
            h
            ∙ free-style s column row (ground (arith, parts, clean))
            ∙ sym (free-style t column row (ground (arith, parts, clean))))
    ]

-- Where a screen shows the board of a snapshot, it shows that of the next one once the squares are drawn
-- again that `watch_snapshot` asks for, whether the size has changed or not.
pub watch_snapshot-repaints :
    (s t : BoardSnapshot) (b : SnakeBoard) (shown : ℕ → ℕ → SquareStyle) (column row : ℕ)
    → shown column row ≡ square_style s column row
    → repaint (watch_snapshot (some s) (some t) b).0 shown (square_style t) column row
      ≡ square_style t column row
unfolding watch_snapshot
watch_snapshot-repaints s t b shown column row h =
    if-either
      (λ (x : Refresh × SnakeBoard).
        repaint x.0 shown (square_style t) column row ≡ square_style t column row)
      (same_size s t) (repaint-squares s t shown column row h) refl
