-- ===== src/Server/Results.antt =====
-- server/Simulator.py: the results of episodes, and the state that a simulation gathers from them.
pub mod Tally
pub mod HighScore
use Prim.Native.String.{String}
use snake_lab.Base.{
  ℕ, suc, ◌+◌, max, Bool, true, false, ◌||◌, Option, none, some, List, [], ◌∷◌, ◌++◌, leb, map,
  if◌then◌else◌,
}
use snake_lab.Base.Int.{ℤ, pos}
use snake_lab.Json.{Json, null, int, float, str, obj, Fields, of_fields}
use snake_lab.Game.Moves.{Outcome}
use snake_lab.Game.State.{GameState}
use snake_lab.Game.Snapshot
use snake_lab.Game.Snapshot.{from_game_state}
use snake_lab.Zmq.Frame.{outcome_value}

pub record EpisodeResult (F : Type 0) : Type 0 where
  pub episode : ℕ
  pub seed : ℕ
  pub score : ℕ
  pub reward : F
  pub steps : ℕ
  pub outcome : Outcome
  pub epsilon : F
  pub epsilon_injections : ℕ
  pub loss : Option F

pub record HighScoreSnapshot : Type 0 where
  pub episode : ℕ
  pub board : GameState

pub record SimulationState (F : Type 0) : Type 0 where
  pub total_epochs : ℤ
  pub completed_epochs : ℕ
  pub total_steps : ℕ
  pub high_score : ℕ
  pub total_reward : F
  pub total_epsilon_injections : ℕ
  pub last_loss : Option F
  pub episodes : List (EpisodeResult F)
  pub high_score_snapshot : Option HighScoreSnapshot
  pub high_score_frames : List HighScoreSnapshot

abbrev pub int_of : {F : Type 0} → ℕ → Json F
int_of n = int (pos n)

abbrev pub is_none : {A : Type 0} → Option A → Bool
is_none none = true
is_none (some a) = false

module _ {F : Type 0} where
  abbrev pub float_or_null : Option F → Json F
  float_or_null none = null
  float_or_null (some x) = float x

  unfoldable pub episode_to_dict : EpisodeResult F → Json F
  episode_to_dict r = obj (
      of_fields (
        ("episode", int_of r.episode)
        ∷ ("seed", int_of r.seed)
        ∷ ("score", int_of r.score)
        ∷ ("reward", float r.reward)
        ∷ ("steps", int_of r.steps)
        ∷ ("outcome", str (outcome_value r.outcome))
        ∷ ("epsilon", float r.epsilon)
        ∷ ("epsilon_injections", int_of r.epsilon_injections)
        ∷ ("loss", float_or_null r.loss)
        ∷ []))

  unfoldable pub high_score_to_dict : HighScoreSnapshot → Json F
  high_score_to_dict s = obj (
      of_fields (
        ("version", int_of 1)
        ∷ ("episode", int_of s.episode)
        ∷ ("step", int_of s.board.move_count)
        ∷ ("board", Snapshot.to_dict (from_game_state s.board))
        ∷ []))

  unfoldable pub new_state : F → ℤ → SimulationState F
  new_state zero epochs = record {
    total_epochs = epochs;
    completed_epochs = 0;
    total_steps = 0;
    high_score = 0;
    total_reward = zero;
    total_epsilon_injections = 0;
    last_loss = none;
    episodes = [];
    high_score_snapshot = none;
    high_score_frames = [];
  }

  -- `SimulationState.record`; `plus` adds floats.
  pub record_result : (F → F → F) → SimulationState F → EpisodeResult F → SimulationState F
  record_result plus s r = record s {
    episodes = s.episodes ++ r ∷ [];
    completed_epochs = s.completed_epochs + 1;
    total_steps = s.total_steps + r.steps;
    high_score = max s.high_score r.score;
    total_reward = plus s.total_reward r.reward;
    total_epsilon_injections = s.total_epsilon_injections + r.epsilon_injections;
    last_loss = r.loss;
  }

  unfoldable pub summary : SimulationState F → Fields F
  summary s = of_fields (
      ("epochs", int s.total_epochs)
      ∷ ("completed_epochs", int_of s.completed_epochs)
      ∷ ("total_steps", int_of s.total_steps)
      ∷ ("high_score", int_of s.high_score)
      ∷ ("total_reward", float s.total_reward)
      ∷ ("epsilon_injections", int_of s.total_epsilon_injections)
      ∷ ("last_loss", float_or_null s.last_loss)
      ∷ [])

  -- The end of `_run_episode`: an episode that reaches the high score so far leaves its snapshot.
  pub keep_high_score :
      SimulationState F → EpisodeResult F → GameState → List HighScoreSnapshot → SimulationState F
  keep_high_score s r board frames =
      if is_none s.high_score_snapshot || leb s.high_score r.score
      then record s {
        high_score_snapshot = some (record { episode = r.episode; board = board });
        high_score_frames = frames;
      }
      else s
