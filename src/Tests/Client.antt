-- ===== src/Tests/Client.antt =====
-- The board on a screen, and the series of the plots.
use snake_lab.Base.{ℕ, ◌≡◌, refl, Bool, false, some, List, [], ◌∷◌}
use snake_lab.Base.Int.{pos, eqb_ℤ}
use snake_lab.Game.Snapshot.{BoardSnapshot}
use snake_lab.Json.{Json, int, Fields, field, end}
use snake_lab.Client.LivePlots.{new_plots, append_bounded, count_score, add_episode, add_episodes}
use snake_lab.Client.LivePlots.Series.{IsInOrder, add_episodes-IsInOrder}
use snake_lab.Client.SnakeBoard.{SquareStyle, SnakeBoard, square_style, watch_snapshot}
use snake_lab.Client.SnakeBoard.Repainting.{repaint, watch_snapshot-repaints}

-- The counting of scores by a test that tells integers apart.
abbrev same_int : Json ℕ → Json ℕ → Bool
same_int (int a) (int b) = eqb_ℤ a b
same_int a b = false

abbrev episode : ℕ → ℕ → Fields ℕ
episode number score = field "episode" (int (pos number)) (field "score" (int (pos score)) end)

abbrev arrivals : List (Fields ℕ × ℕ)
arrivals = (episode 1 3, 3) ∷ (episode 3 3, 3) ∷ (episode 2 5, 5) ∷ []

add_episodes-IsInOrder_example : IsInOrder (add_episodes same_int arrivals new_plots)
add_episodes-IsInOrder_example = add_episodes-IsInOrder same_int arrivals

-- The third episode comes too late, and the others have the same score.
late_episode : (add_episodes same_int arrivals new_plots).score_counts ≡ (int (pos 3), 2) ∷ []
unfolding new_plots add_episode append_bounded count_score
late_episode = refl

-- A snake of two cells on a board of four by four, before and after a move to the right.
abbrev before : BoardSnapshot
before = record {
  width = pos 4;
  height = pos 4;
  snake_head = (pos 1, pos 1);
  snake_body = (pos 0, pos 1) ∷ [];
  food = some (pos 3, pos 3);
  direction = (pos 1, pos 0);
  score = pos 0;
}

abbrev after : BoardSnapshot
after = record before { snake_head = (pos 2, pos 1); snake_body = (pos 1, pos 1) ∷ [] }

abbrev board : SnakeBoard
board = record {
  grid_width = pos 4;
  grid_height = pos 4;
  virtual_size = (pos 8, pos 4);
  snapshot = some after;
}

watch_snapshot-repaints_example :
    repaint
      (watch_snapshot (some before) (some after) board).0
      (square_style before)
      (square_style after)
      0
      1
    ≡ square_style after 0 1
watch_snapshot-repaints_example =
    watch_snapshot-repaints before after board (square_style before) 0 1 refl

-- The cell that the snake has left is empty again.
left_cell : square_style after 0 1 ≡ SquareStyle.empty_a
unfolding square_style
left_cell = refl
