-- ===== src/Server/Results/Tally.antt =====
-- The figures that a simulation keeps are those of its episodes.
use snake_lab.Base.{
  ℕ, ◌+◌, ◌≤◌, max, ◌≡◌, refl, sym, ap, ◌∙◌, Option, none, List, [], ◌∷◌, ◌++◌, length,
  length-append, map, sum, arith, All, All-append, ◌||◌, leb, if-either,
}
use snake_lab.Base.Int.{ℤ}
use snake_lab.Game.State.{GameState}
use snake_lab.Server.Results.{
  EpisodeResult, HighScoreSnapshot, SimulationState, new_state, record_result, keep_high_score,
  is_none,
}

abbrev pub steps_of : {F : Type 0} → EpisodeResult F → ℕ
steps_of r = r.steps

abbrev pub injections_of : {F : Type 0} → EpisodeResult F → ℕ
injections_of r = r.epsilon_injections

abbrev pub IsAtMost : {F : Type 0} → ℕ → EpisodeResult F → Type 0
IsAtMost n r = r.score ≤ n

sum-map-append :
    {F : Type 0} (f : EpisodeResult F → ℕ) (rs : List (EpisodeResult F)) (r : EpisodeResult F)
    → sum (map f (rs ++ r ∷ [])) ≡ sum (map f rs) + f r
sum-map-append f [] r = omega arith
sum-map-append f (q ∷ rs) r = omega (arith, sum-map-append f rs r)

All-weaken :
    {F : Type 0} (m n : ℕ) (rs : List (EpisodeResult F))
    → m ≤ n
    → All (IsAtMost m) rs
    → All (IsAtMost n) rs
All-weaken m n [] h all = tt
All-weaken m n (r ∷ rs) h all = (omega (arith, h, all.0), All-weaken m n rs h all.1)

-- The rewards of some episodes, added from the first on, and the loss of the last one.
abbrev pub reward_total : {F : Type 0} → (F → F → F) → F → List (EpisodeResult F) → F
reward_total plus total [] = total
reward_total plus total (r ∷ rs) = reward_total plus (plus total r.reward) rs

abbrev pub final_loss : {F : Type 0} → Option F → List (EpisodeResult F) → Option F
final_loss loss [] = loss
final_loss loss (r ∷ rs) = final_loss r.loss rs

reward_total-append :
    {F : Type 0} (plus : F → F → F) (total : F) (rs : List (EpisodeResult F)) (r : EpisodeResult F)
    → reward_total plus total (rs ++ r ∷ []) ≡ plus (reward_total plus total rs) r.reward
reward_total-append plus total [] r = refl
reward_total-append plus total (q ∷ rs) r = reward_total-append plus (plus total q.reward) rs r

final_loss-append :
    {F : Type 0} (loss : Option F) (rs : List (EpisodeResult F)) (r : EpisodeResult F)
    → final_loss loss (rs ++ r ∷ []) ≡ r.loss
final_loss-append loss [] r = refl
final_loss-append loss (q ∷ rs) r = final_loss-append q.loss rs r

-- The figures are those of the episodes so far, whose scores the high score bounds.
pub record IsTally {F : Type 0} (plus : F → F → F) (zero : F) (s : SimulationState F) : Type 0 where
  pub completed : s.completed_epochs ≡ length s.episodes
  pub steps : s.total_steps ≡ sum (map steps_of s.episodes)
  pub injections : s.total_epsilon_injections ≡ sum (map injections_of s.episodes)
  pub reward : s.total_reward ≡ reward_total plus zero s.episodes
  pub loss : s.last_loss ≡ final_loss none s.episodes
  pub bounded : All (IsAtMost s.high_score) s.episodes

pub new_state-IsTally :
    {F : Type 0} (plus : F → F → F) (zero : F) (epochs : ℤ)
    → IsTally plus zero (new_state zero epochs)
unfolding new_state
new_state-IsTally plus zero epochs = record {
  reward = refl;
  loss = refl;
  completed = refl;
  steps = refl;
  injections = refl;
  bounded = tt;
}

-- Recording an episode keeps the counts of episodes, steps and injected actions, the total of the
-- rewards and the last loss equal to those of the
-- recorded episodes, and the high score above all their scores.
pub record_result-IsTally :
    {F : Type 0} (plus : F → F → F) (zero : F) (s : SimulationState F) (r : EpisodeResult F)
    → IsTally plus zero s
    → IsTally plus zero (record_result plus s r)
unfolding record_result
record_result-IsTally plus zero s r h = record {
  reward = ap (λ x. plus x r.reward) h.reward ∙ sym (reward_total-append plus zero s.episodes r);
  loss = sym (final_loss-append none s.episodes r);
  completed = omega (arith, h.completed, length-append s.episodes (r ∷ []));
  steps = omega (arith, h.steps, sum-map-append steps_of s.episodes r);
  injections = omega (arith, h.injections, sum-map-append injections_of s.episodes r);
  bounded =
      All-append (IsAtMost (max s.high_score r.score)) s.episodes (r ∷ [])
        (All-weaken s.high_score (max s.high_score r.score) s.episodes (omega arith) h.bounded)
        (omega arith, tt);
}

-- What a simulation keeps for display changes no count.
pub keep_high_score-IsTally :
    {F : Type 0} (plus : F → F → F) (zero : F) (s : SimulationState F) (r : EpisodeResult F)
    (board : GameState) (frames : List HighScoreSnapshot)
    → IsTally plus zero s
    → IsTally plus zero (keep_high_score s r board frames)
unfolding keep_high_score
keep_high_score-IsTally plus zero s r board frames h =
    if-either (IsTally plus zero) (is_none s.high_score_snapshot || leb s.high_score r.score)
      (record {
        completed = h.completed;
        steps = h.steps;
        injections = h.injections;
        reward = h.reward;
        loss = h.loss;
        bounded = h.bounded;
      })
      h

pub record_result-completed :
    {F : Type 0} (plus : F → F → F) (s : SimulationState F) (r : EpisodeResult F)
    (board : GameState) (frames : List HighScoreSnapshot)
    → (record_result plus (keep_high_score s r board frames) r).completed_epochs
      ≡ s.completed_epochs + 1
unfolding record_result keep_high_score
record_result-completed plus s r board frames =
    if-either (λ (x : SimulationState _). x.completed_epochs + 1 ≡ s.completed_epochs + 1)
      (is_none s.high_score_snapshot || leb s.high_score r.score) refl refl

pub record_result-episodes :
    {F : Type 0} (plus : F → F → F) (s : SimulationState F) (r : EpisodeResult F)
    (board : GameState) (frames : List HighScoreSnapshot)
    → (record_result plus (keep_high_score s r board frames) r).episodes ≡ s.episodes ++ r ∷ []
unfolding record_result keep_high_score
record_result-episodes plus s r board frames =
    if-either (λ (x : SimulationState _). x.episodes ++ r ∷ [] ≡ s.episodes ++ r ∷ [])
      (is_none s.high_score_snapshot || leb s.high_score r.score) refl refl
