-- ===== src/Client/LivePlots/Series.antt =====
-- The series are bounded and in order, and the counts are of every episode.
use snake_lab.Base.{
  ℕ, ◌+◌, ◌≤◌, ◌≡◌, refl, Bool, false, Option, none, some, List, [], ◌∷◌, ◌++◌, length,
  length-append, drop, ltb, arith, inl, inr, Bool-cases, if-either,
}
use snake_lab.Base.Int.{ℤ, ◌<ℤ◌, leb_ℤ}
use snake_lab.Json.{Json, Fields, get}
use snake_lab.Client.LivePlots.{
  Row, LivePlots, new_plots, as_int, as_number, not_null, is_late, append_bounded, max_points,
  max_gamescore_data_points, count_score, added, checked, add_episode, add_episodes,
}

append_bounded-length :
    {A : Type 0} (n : ℕ) (xs : List A) (x : A) → length xs ≤ n → length (append_bounded n xs x) ≤ n
unfolding append_bounded
append_bounded-length n [] x h = ground arith
append_bounded-length n (y ∷ ys) x h = ground (arith, length-append ys (x ∷ []), h)

append_bounded-growth :
    {A : Type 0} (n : ℕ) (xs : List A) (x : A) → length (append_bounded n xs x) ≤ length xs + 1
unfolding append_bounded
append_bounded-growth n [] x = ground arith
append_bounded-growth n (y ∷ ys) x = ground (arith, length-append ys (x ∷ []))

leb_ℤ-false : (a b : ℤ) → leb_ℤ a b ≡ false → b <ℤ a
leb_ℤ-false a b h = ground (arith, h)

module _ {F : Type 0} where
  abbrev pub Ascends : List (Row F) → Type 0
  Ascends [] = Unit
  Ascends (row ∷ []) = Unit
  Ascends (row ∷ next ∷ rows) = (row.number <ℤ next.number) × Ascends (next ∷ rows)

  append-Ascends :
      (rows : List (Row F)) (row : Row F)
      → Ascends rows
      → is_late row.number rows ≡ false
      → Ascends (rows ++ row ∷ [])
  append-Ascends [] row h early = tt
  append-Ascends (a ∷ []) row h early = (leb_ℤ-false row.number a.number early, tt)
  append-Ascends (a ∷ b ∷ rows) row h early = (h.0, append-Ascends (b ∷ rows) row h.1 early)

  drop-Ascends : (rows : List (Row F)) → Ascends rows → Ascends (drop 1 rows)
  drop-Ascends [] h = tt
  drop-Ascends (a ∷ []) h = tt
  drop-Ascends (a ∷ b ∷ rows) h = h.1

  append_bounded-Ascends :
      (n : ℕ) (rows : List (Row F)) (row : Row F)
      → Ascends rows
      → is_late row.number rows ≡ false
      → Ascends (append_bounded n rows row)
  unfolding append_bounded
  append_bounded-Ascends n rows row h early =
      let all = append-Ascends rows row h early in
      if-either Ascends (ltb n (length (rows ++ row ∷ []))) (drop-Ascends (rows ++ row ∷ []) all)
        all

  abbrev pub counted : List (Json F × ℕ) → ℕ
  counted [] = 0
  counted ((score, count) ∷ counts) = count + counted counts

  -- At most 500 episodes and 200 scores, the episodes in ascending order, and at least as many episodes
  -- counted as shown.
  pub record IsInOrder (p : LivePlots F) : Type 0 where
    pub episodes : length p.episodes ≤ max_points
    pub scores : length p.game_scores ≤ max_gamescore_data_points
    pub ascends : Ascends p.episodes
    pub counts : length p.episodes ≤ counted p.score_counts

  new_plots-IsInOrder : IsInOrder (new_plots {F = F})
  unfolding new_plots
  new_plots-IsInOrder = record {
    episodes = omega arith;
    scores = omega arith;
    ascends = tt;
    counts = omega arith;
  }

module _ {F : Type 0} (same : Json F → Json F → Bool) where
  counted-count_score :
      (score : Json F) (counts : List (Json F × ℕ))
      → counted (count_score same score counts) ≡ counted counts + 1
  unfolding count_score
  counted-count_score score [] = refl
  counted-count_score score ((other, count) ∷ counts) =
      ground (arith, counted-count_score score counts)

  added-IsInOrder :
      (number : ℤ) (score : Json F) (high_score : ℕ) (loss : Option (Json F)) (p : LivePlots F)
      → IsInOrder p
      → is_late number p.episodes ≡ false
      → IsInOrder (added same number score high_score loss p)
  added-IsInOrder number score high_score loss p h early =
      let row : Row F = record {
        number = number;
        score = score;
        high_score = high_score;
        loss = loss;
      } in
      record {
        episodes = append_bounded-length max_points p.episodes row h.episodes;
        scores =
            append_bounded-length max_gamescore_data_points p.game_scores (number, score) h.scores;
        ascends = append_bounded-Ascends max_points p.episodes row h.ascends early;
        counts = omega (
          arith,
          h.counts,
          append_bounded-growth max_points p.episodes row,
          counted-count_score score p.score_counts,
        );
      }

  checked-IsInOrder :
      (number : Option ℤ) (score : Option (Json F)) (high_score : ℕ) (loss : Option (Json F))
      (p : LivePlots F)
      → IsInOrder p
      → IsInOrder (checked same number score high_score loss p)
  checked-IsInOrder none score high_score loss p h = h
  checked-IsInOrder (some number) none high_score loss p h = h
  checked-IsInOrder (some number) (some score) high_score loss p h =
      elim (Bool-cases (is_late number p.episodes)) [
        | inl late ↦ rw late h
        | inr early ↦ rw early (added-IsInOrder number score high_score loss p h early)
      ]

  add_episode-IsInOrder :
      (episode : Fields F) (high_score : ℕ) (p : LivePlots F)
      → IsInOrder p
      → IsInOrder (add_episode same episode high_score p)
  unfolding add_episode
  add_episode-IsInOrder episode high_score p h =
      checked-IsInOrder (as_int (get "episode" episode)) (as_number (get "score" episode))
        high_score (not_null (get "loss" episode)) p h

  then_IsInOrder :
      (episodes : List (Fields F × ℕ)) (p : LivePlots F)
      → IsInOrder p
      → IsInOrder (add_episodes same episodes p)
  then_IsInOrder [] p h = h
  then_IsInOrder ((episode, high_score) ∷ episodes) p h =
      then_IsInOrder episodes (add_episode same episode high_score p)
        (add_episode-IsInOrder episode high_score p h)

  -- Whatever episodes come in, in any order and with any fields, the plots hold at most 500 of them in
  -- ascending order of their numbers and at most 200 scores, and the distribution counts at least as
  -- many episodes as the plots hold.
  pub add_episodes-IsInOrder :
      (episodes : List (Fields F × ℕ)) → IsInOrder (add_episodes same episodes new_plots)
  add_episodes-IsInOrder episodes = then_IsInOrder episodes new_plots new_plots-IsInOrder
