-- ===== src/Server/Run.antt =====
-- server/SimulationRun.py. `C` is the type of resolved configurations, `F` that of floats.
use Prim.Native.String.{String}
use snake_lab.Base.{ℕ, Option, none, List, []}
use snake_lab.Json.{Json}
use snake_lab.Server.Control.{SimulationControl, new_control}
use snake_lab.Server.Results.{EpisodeResult}

-- The strings that a run's `state` takes.
pub data RunState : Type 0 where
  queued running paused cancelling completed failed cancelled : RunState

abbrev pub state_text : RunState → String
state_text RunState.queued = "queued"
state_text RunState.running = "running"
state_text RunState.paused = "paused"
state_text RunState.cancelling = "cancelling"
state_text RunState.completed = "completed"
state_text RunState.failed = "failed"
state_text RunState.cancelled = "cancelled"

pub record SimulationRun (C F : Type 0) : Type 0 where
  pub run_id : String
  pub config : C
  pub state : RunState
  pub completed_epochs : ℕ
  pub total_steps : ℕ
  pub high_score : ℕ
  pub high_score_snapshot : Option (Json F)
  pub high_score_frames : List (Json F)
  pub total_reward : F
  pub epsilon_injections : ℕ
  pub last_loss : Option F
  pub last_episode : Option (EpisodeResult F)
  pub error : Option String
  pub control : SimulationControl

-- SimulationRun(run_id=…, config=…)
unfoldable pub new_run : {C F : Type 0} → F → String → C → SimulationRun C F
new_run zero run_id config = record {
  run_id = run_id;
  config = config;
  state = RunState.queued;
  completed_epochs = 0;
  total_steps = 0;
  high_score = 0;
  high_score_snapshot = none;
  high_score_frames = [];
  total_reward = zero;
  epsilon_injections = 0;
  last_loss = none;
  last_episode = none;
  error = none;
  control = new_control;
}
