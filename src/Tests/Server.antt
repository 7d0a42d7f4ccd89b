-- ===== src/Tests/Server.antt =====
-- The server with two runs, one that runs and one that waits.
use Prim.Native.String.{String}
use snake_lab.Base.{◌≤◌, ◌<◌, map, Option, List}
use snake_lab.Json.{null, obj}
use snake_lab.Base.Results.{Result}
use snake_lab.Base.Dicts.{lookup}
use snake_lab.Json.{get}
use snake_lab.Game.State.{GameState}
use snake_lab.Tests.Game.{running}
use snake_lab.Zmq.Publisher.{TelemetryPublisher, offer_frame}
use snake_lab.Server.Control.{diagnostic_mode}
use snake_lab.Server.Results.{keep_high_score, episode_to_dict, high_score_to_dict, summary}
use snake_lab.Server.Results.HighScore.{Kept, IsKept, new_state-IsKept, keep_high_score-IsKept}
use snake_lab.Server.Store
use snake_lab.Server.Store.{get_high_score_frames, get_high_score_snapshot}
use snake_lab.Server.Service.{Failure, run_status, run_summary, publish_run, put_run, finish_run}
use snake_lab.Server.Handlers.{active_run}
use snake_lab.Server.Dispatch.{request_id_of}
use snake_lab.Server.Worker.{
  update_progress, forward_frame, held_run, offer_end, drop_run, drop_runs, abort_worker,
  shutdown_worker,
}
use snake_lab.Server.Lab.{Same}
use snake_lab.Server.View.{view}
use snake_lab.Zmq.Events.{Task}
use snake_lab.Server.Execution.Progress.{update_progress-Advance}
use snake_lab.Base.{ℕ, ◌+◌, ◌≡◌, ◌≢◌, ◌⊎◌, refl, inl, Bool, true, false, none, some, [], ◌∷◌, ◌++◌}
use snake_lab.Base.Dicts.{both, both_end}
use snake_lab.Base.Int.{ℤ, pos, eqb_ℤ}
use snake_lab.Base.Results.{ok, err}
use snake_lab.Json.{Json, int, str, of_fields}
use snake_lab.Game.Moves.{Outcome}
use snake_lab.Zmq.Protocol.{request_message}
use snake_lab.Server.Control.{SimulationControl, new_control, Wake, Ending, checkpoint}
use snake_lab.Server.Control.Checkpoint.{checkpoint-paused}
use snake_lab.Server.Results.{EpisodeResult, new_state, record_result}
use snake_lab.Server.Run.{RunState, SimulationRun}
use snake_lab.Server.Store.{StoredRun}
use snake_lab.Server.Service.{SimulationServer}
use snake_lab.Server.Handlers.{Configurations}
use snake_lab.Server.Dispatch.{handle_request}
use snake_lab.Server.Worker.{returned, end_run, ended_run, take_run}
use snake_lab.Server.Lab.{IsTerminal}
use snake_lab.Server.Transitions.{IsSound, Advance}
use snake_lab.Server.Requests.All
use snake_lab.Server.Requests.All.{handle_request-Advance}
use snake_lab.Server.Execution.{HasState, ended_message, end_run-Advance, take_run-Advance}

abbrev held : SimulationControl
held = record new_control { paused = true }

checkpoint-paused_example :
    checkpoint true held ((Wake.changed, held) ∷ (Wake.timed_out, held) ∷ []) ≢ Ending.returned
checkpoint-paused_example =
    checkpoint-paused true held ((Wake.changed, held) ∷ (Wake.timed_out, held) ∷ []) refl
      (refl, (refl, tt))

abbrev delayed : SimulationControl
delayed = record new_control { move_delay_ms = 40; changed = true }

abbrev plus : ℕ → ℕ → ℕ
plus a b = a + b

abbrev episode : EpisodeResult ℕ
episode = record {
  episode = 1;
  seed = 7;
  score = 2;
  reward = 5;
  steps = 30;
  outcome = Outcome.wall;
  epsilon = 900;
  epsilon_injections = 4;
  loss = none;
}

-- A board of the score of the episode.
abbrev board : GameState
board = record running { score = 2 }

-- A configuration is its number of epochs.
abbrev pub epochs_only : Configurations ℕ
epochs_only = record {
  C = ℕ;
  resolve = λ config. elim config [ int (pos n) ↦ ok n | _ ↦ err "config" ];
  epochs = λ n. int (pos n);
  config_hash = λ n. some "hash";
}

abbrev simulation_run : String → RunState → SimulationRun ℕ ℕ
simulation_run run_id state = record {
  run_id = run_id;
  config = 3;
  state = state;
  completed_epochs = 0;
  total_steps = 0;
  high_score = 0;
  high_score_snapshot = none;
  high_score_frames = [];
  total_reward = 0;
  epsilon_injections = 0;
  last_loss = none;
  last_episode = none;
  error = none;
  control = new_control;
}

abbrev stored_run : String → RunState → StoredRun ℕ ℕ
stored_run run_id status = record {
  run_id = run_id;
  project_version = "2.1.1";
  config = 3;
  config_hash = "hash";
  status = status;
  episode_count = none;
  high_score = none;
  high_score_snapshot = none;
  high_score_frames = none;
  error_message = none;
}

abbrev first_run : SimulationRun ℕ ℕ
first_run = simulation_run "r1" RunState.running

abbrev second_run : SimulationRun ℕ ℕ
second_run = simulation_run "r2" RunState.queued

abbrev pub quiet : TelemetryPublisher ℕ
quiet = record {
  event_queue_size = 4;
  events = [];
  sequences = [];
  frame_filters = [];
  has_frame_subscribers = false;
  started = true;
  sent = [];
}

abbrev server : SimulationServer ℕ ℕ
server = record {
  runs = ("r1", first_run) ∷ ("r2", second_run) ∷ [];
  run_queue = "r2" ∷ [];
  store = record {
    runs = ("r1", stored_run "r1" RunState.running) ∷ ("r2", stored_run "r2" RunState.queued) ∷ [];
    episodes = ("r1", []) ∷ ("r2", []) ∷ [];
  };
  telemetry = quiet;
  events = record { pending = []; sent = []; task = Task.live };
  worker = some "r1";
}

server-IsSound : IsSound server
server-IsSound = both (refl, refl) (both (refl, refl) both_end)

abbrev pub is_unit : ℕ → ℤ → Bool
is_unit x n = eqb_ℤ (pos x) n

abbrev pause_message : Json ℕ
pause_message = request_message "q1" "simulation.pause" (of_fields (("run_id", str "r1") ∷ []))

handle_request-Advance_example :
    All.Outcome epochs_only
      (λ _ t. Advance server t)
      (handle_request epochs_only is_unit "r3" 0 pause_message server)
handle_request-Advance_example =
    handle_request-Advance epochs_only is_unit "r3" 0 pause_message server server-IsSound refl

end_run-Advance_example :
    (t : SimulationServer ℕ ℕ) × (end_run epochs_only
        (returned (new_state 0 (pos 3)))
        first_run
        server
      ≡ ok t)
    × HasState epochs_only t "r1" RunState.completed
    × IsTerminal RunState.completed
    × (t.events.pending
        ≡ server.events.pending
          ++ ended_message epochs_only
              (ended_run epochs_only (returned (new_state 0 (pos 3))) first_run)
            ∷ [])
    × (t.worker ≡ none)
    × Advance server t
end_run-Advance_example =
    end_run-Advance epochs_only (returned (new_state 0 (pos 3))) first_run server server-IsSound
      refl tt

take_run-Advance_example :
    (t : SimulationServer ℕ ℕ) × (take_run epochs_only "CPU" "r2" [] server ≡ ok t)
    × (t.run_queue ≡ [])
    × ((second_run.state ≡ RunState.queued
          × t.worker ≡ some "r2"
          × HasState epochs_only t "r2" RunState.running)
        ⊎ (second_run.state ≡ RunState.cancelled × t ≡ record server { run_queue = [] }))
    × Advance server t
take_run-Advance_example =
    take_run-Advance epochs_only "CPU" "r2" [] second_run server server-IsSound refl (inl refl)

update_progress-Advance_example :
    (t : SimulationServer ℕ ℕ) × (update_progress epochs_only episode
        (new_state 0 (pos 3))
        first_run
        server
      ≡ ok t)
    × (lookup "r1" t.store.episodes ≡ some ([] ++ episode ∷ []))
    × (t.worker ≡ server.worker)
    × (t.run_queue ≡ server.run_queue)
    × (t.events ≡ server.events)
    × Same (view server).states (view t).states
    × Advance server t
update_progress-Advance_example =
    update_progress-Advance epochs_only episode (new_state 0 (pos 3)) first_run server []
      server-IsSound refl refl

keep_high_score-IsKept_example :
    IsKept (record_result plus (keep_high_score (new_state 0 (pos 2)) episode board []) episode)
    × (0 ≤ 2 → Kept (keep_high_score (new_state 0 (pos 2)) episode board []) episode board [])
    × (2 < 0 → keep_high_score (new_state 0 (pos 2)) episode board [] ≡ new_state 0 (pos 2))
unfolding new_state
keep_high_score-IsKept_example =
    keep_high_score-IsKept plus (new_state 0 (pos 2)) episode board []
      (new_state-IsKept {F = ℕ} 0 (pos 2)) refl

-- The run that is told first is the one that runs.
first_is_active : active_run epochs_only server ≡ some first_run
unfolding active_run
first_is_active = refl

abbrev field_of : String → Json ℕ → Option (Json ℕ)
field_of k (obj fs) = get k fs
field_of k _ = none

episode_has_score : field_of "score" (episode_to_dict episode) ≡ some (int (pos 2))
unfolding episode_to_dict
episode_has_score = refl

snapshot_has_episode :
    field_of "episode" (high_score_to_dict (record { episode = 4; board = board }))
    ≡ some (int (pos 4))
unfolding high_score_to_dict
snapshot_has_episode = refl

summary_has_epochs : get {F = ℕ} "epochs" (summary (new_state 0 (pos 3))) ≡ some (int (pos 3))
unfolding summary new_state
summary_has_epochs = refl

status_has_state : get "state" (run_status epochs_only.epochs first_run) ≡ some (str "running")
unfolding run_status run_summary
status_has_state = refl

nothing_saved : get_high_score_frames "r1" server.store ≡ some none
unfolding get_high_score_frames
nothing_saved = refl

no_snapshot : get_high_score_snapshot "r3" server.store ≡ none
unfolding get_high_score_snapshot
no_snapshot = refl

delayed_is_diagnostic : diagnostic_mode delayed ≡ true
unfolding diagnostic_mode
delayed_is_diagnostic = refl

no_id : request_id_of epochs_only null ≡ null
unfolding request_id_of
no_id = refl

-- Nobody watches, so that a frame is not offered.
unwatched : forward_frame epochs_only (of_fields []) first_run server ≡ server
unfolding forward_frame offer_frame
unwatched = refl

abbrev states_of : Result Failure (SimulationServer ℕ ℕ) → List RunState
states_of (ok s) = map (λ (item : String × SimulationRun ℕ ℕ). item.1.state) s.runs
states_of (err e) = []

-- The shutdown cancels the run that runs and the one that waits.
shutdown_cancels :
    states_of (shutdown_worker epochs_only server) ≡ RunState.cancelled ∷ RunState.cancelled ∷ []
unfolding shutdown_worker abort_worker drop_runs drop_run held_run end_run ended_run offer_end
    finish_run put_run publish_run Store.finish_run
shutdown_cancels = refl
