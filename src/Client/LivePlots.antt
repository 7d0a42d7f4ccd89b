-- ===== src/Client/LivePlots.antt =====
-- client/LivePlots.py: the series that the plots show. `same` is Python's equality of two numbers, by
-- which the scores are counted; the widgets are left out.
pub mod Series
use Prim.Native.String.{String}
use snake_lab.Base.{
  ℕ, ◌+◌, Bool, true, false, Option, none, some, List, [], ◌∷◌, ◌++◌, length, drop, ltb,
  if◌then◌else◌,
}
use snake_lab.Base.Int.{ℤ, pos, leb_ℤ}
use snake_lab.Json.{Json, null, bool, int, float, Fields, get}

abbrev pub max_points : ℕ
max_points = 500

abbrev pub max_gamescore_data_points : ℕ
max_gamescore_data_points = 200

-- A row of `episodes`.
pub record Row (F : Type 0) : Type 0 where
  pub number : ℤ
  pub score : Json F
  pub high_score : ℕ
  pub loss : Option (Json F)

pub record LivePlots (F : Type 0) : Type 0 where
  pub episodes : List (Row F)
  pub game_scores : List (ℤ × Json F)
  pub losses : List (ℤ × Json F)
  pub score_counts : List (Json F × ℕ)
  pub is_dirty : Bool

module _ {F : Type 0} where
  unfoldable pub new_plots : LivePlots F
  new_plots = record {
    episodes = [];
    game_scores = [];
    losses = [];
    score_counts = [];
    is_dirty = false;
  }

  -- isinstance(value, int), of which a Boolean is an instance.
  abbrev pub as_int : Option (Json F) → Option ℤ
  as_int (some (int n)) = some n
  as_int (some (bool true)) = some (pos 1)
  as_int (some (bool false)) = some (pos 0)
  as_int value = none

  -- isinstance(value, (int, float))
  abbrev pub as_number : Option (Json F) → Option (Json F)
  as_number (some (int n)) = some (int n)
  as_number (some (bool b)) = some (bool b)
  as_number (some (float x)) = some (float x)
  as_number value = none

  abbrev pub not_null : Option (Json F) → Option (Json F)
  not_null (some null) = none
  not_null value = value

  abbrev pub is_late : ℤ → List (Row F) → Bool
  is_late number [] = false
  is_late number (row ∷ []) = leb_ℤ number row.number
  is_late number (row ∷ next ∷ rows) = is_late number (next ∷ rows)

  abbrev pub with_loss : ℤ → Option (Json F) → List (ℤ × Json F) → List (ℤ × Json F)
  with_loss number none losses = losses
  with_loss number (some loss) losses = losses ++ (number, loss) ∷ []

-- `append` of a deque with a maximal length.
unfoldable pub append_bounded : {A : Type 0} → ℕ → List A → A → List A
append_bounded maxlen xs x =
    let ys = xs ++ x ∷ [] in if ltb maxlen (length ys) then drop 1 ys else ys

module _ {F : Type 0} (same : Json F → Json F → Bool) where
  -- `score_counts[score] += 1`
  unfoldable pub count_score : Json F → List (Json F × ℕ) → List (Json F × ℕ)
  count_score score [] = (score, 1) ∷ []
  count_score score ((other, count) ∷ counts) =
      let rest = count_score score counts in
      if same score other then (other, count + 1) ∷ counts else (other, count) ∷ rest

  abbrev pub added : ℤ → Json F → ℕ → Option (Json F) → LivePlots F → LivePlots F
  added number score high_score loss p = record {
    episodes =
        append_bounded max_points p.episodes
          (record { number = number; score = score; high_score = high_score; loss = loss });
    game_scores = append_bounded max_gamescore_data_points p.game_scores (number, score);
    losses = with_loss number loss p.losses;
    score_counts = count_score score p.score_counts;
    is_dirty = true;
  }

  abbrev pub checked : Option ℤ → Option (Json F) → ℕ → Option (Json F) → LivePlots F → LivePlots F
  checked (some number) (some score) high_score loss p =
      if is_late number p.episodes then p else added number score high_score loss p
  checked none score high_score loss p = p
  checked (some number) none high_score loss p = p

  unfoldable pub add_episode : Fields F → ℕ → LivePlots F → LivePlots F
  add_episode episode high_score p =
      checked (as_int (get "episode" episode)) (as_number (get "score" episode)) high_score
        (not_null (get "loss" episode)) p

  -- The episodes of a run, as they come in.
  abbrev pub add_episodes : List (Fields F × ℕ) → LivePlots F → LivePlots F
  add_episodes [] p = p
  add_episodes ((episode, high_score) ∷ episodes) p =
      add_episodes episodes (add_episode episode high_score p)

unfoldable pub reset : {F : Type 0} → LivePlots F → LivePlots F
reset p = new_plots
