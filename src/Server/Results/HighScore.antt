-- ===== src/Server/Results/HighScore.antt =====
-- The board that a simulation keeps is one of its high score.
use snake_lab.Base.{
  ℕ, ◌≤◌, ◌<◌, max, ◌≡◌, refl, true, false, ◌||◌, Option, none, some, List, leb, arith, inl, inr,
  Bool-cases,
}
use snake_lab.Base.Int.{ℤ}
use snake_lab.Game.State.{GameState}
use snake_lab.Server.Results.{
  EpisodeResult, HighScoreSnapshot, SimulationState, new_state, record_result, keep_high_score,
  is_none,
}

-- A kept board has the high score; while none is kept, the high score is 0.
abbrev pub HasScore : ℕ → Option HighScoreSnapshot → Type 0
HasScore n none = n ≡ 0
HasScore n (some h) = h.board.score ≡ n

abbrev pub IsKept : {F : Type 0} → SimulationState F → Type 0
IsKept s = HasScore s.high_score s.high_score_snapshot

pub new_state-IsKept : {F : Type 0} (zero : F) (epochs : ℤ) → IsKept (new_state zero epochs)
unfolding new_state
new_state-IsKept zero epochs = refl

HasScore-lower :
    (n m : ℕ) (kept : Option HighScoreSnapshot)
    → (is_none kept || leb n m) ≡ false
    → HasScore n kept
    → HasScore (max n m) kept
HasScore-lower n m none lower h = cc lower
HasScore-lower n m (some k) lower h = ground (arith, h)

HasScore-upper :
    (n m : ℕ) (kept : Option HighScoreSnapshot)
    → (is_none kept || leb n m) ≡ true
    → HasScore n kept
    → max n m ≡ m
HasScore-upper n m none upper h = omega (arith, h)
HasScore-upper n m (some k) upper h = ground arith

-- A lower episode is not kept, and one that reaches the high score is.
lower-kept :
    (n m : ℕ) (kept : Option HighScoreSnapshot)
    → HasScore n kept
    → m < n
    → (is_none kept || leb n m) ≡ true
    → ⊥
lower-kept n m none h less upper = omega (arith, h, less)
lower-kept n m (some k) h less upper = ground (arith, less)

reached-kept :
    (n m : ℕ) (kept : Option HighScoreSnapshot) → n ≤ m → (is_none kept || leb n m) ≡ false → ⊥
reached-kept n m none reached lower = cc lower
reached-kept n m (some k) reached lower = ground (arith, reached)

-- The state keeps the board of an episode, and its frames.
abbrev pub Kept :
    {F : Type 0} → SimulationState F → EpisodeResult F → GameState → List HighScoreSnapshot → Type 0
Kept s r board frames =
    (s.high_score_snapshot ≡ some (record { episode = r.episode; board = board }))
    × (s.high_score_frames ≡ frames)

-- An episode that reaches the high score so far leaves its board and its frames, one that does not
-- leaves what was kept. When it is recorded, the kept board has the high score again, provided that it
-- did before and that the board given with the episode has the episode's score.
pub keep_high_score-IsKept :
    {F : Type 0} (plus : F → F → F) (s : SimulationState F) (r : EpisodeResult F)
    (board : GameState) (frames : List HighScoreSnapshot)
    → IsKept s
    → board.score ≡ r.score
    → IsKept (record_result plus (keep_high_score s r board frames) r)
      × (s.high_score ≤ r.score → Kept (keep_high_score s r board frames) r board frames)
      × (r.score < s.high_score → keep_high_score s r board frames ≡ s)
unfolding keep_high_score record_result
keep_high_score-IsKept plus s r board frames h same =
    elim (Bool-cases (is_none s.high_score_snapshot || leb s.high_score r.score)) [
      | inl upper ↦ (
        ground
            (arith, upper, same, HasScore-upper s.high_score r.score s.high_score_snapshot upper h),
        λ _. rw upper (refl, refl),
        λ less. absurd (lower-kept s.high_score r.score s.high_score_snapshot h less upper),
      )
      | inr lower ↦ (
        rw lower (HasScore-lower s.high_score r.score s.high_score_snapshot lower h),
        λ reached. absurd (reached-kept s.high_score r.score s.high_score_snapshot reached lower),
        λ _. rw lower refl,
      )
    ]
