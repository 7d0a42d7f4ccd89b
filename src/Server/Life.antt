-- ===== src/Server/Life.antt =====
-- server/SimulationServer.py, `run`: the server from its start on. Between two awaits one of its tasks
-- runs: the request loop, the worker with the callbacks of the simulator, or a publisher's loop.
pub mod Refinement
pub mod Service
use Prim.Native.String.{String}
use snake_lab.Base.{◌≡◌, Bool, none, some, List, [], ◌∷◌}
use snake_lab.Base.Dicts.{lookup}
use snake_lab.Base.Int.{ℤ}
use snake_lab.Base.Results.{Result, ok, ◌>>=◌, map_err}
use snake_lab.Json.{Json, Fields}
use snake_lab.Zmq.Events.{Task, start_events, run_loop, close_events}
use snake_lab.Zmq.Publisher.{TelemetryPublisher, start_telemetry, close_telemetry}
use snake_lab.Server.Results.{EpisodeResult, SimulationState}
use snake_lab.Server.Run.{SimulationRun}
use snake_lab.Server.Service.{SimulationServer, Failure}
use snake_lab.Server.Store.{StoreError}
use snake_lab.Server.Handlers.{Configurations}
use snake_lab.Server.Dispatch.{handle_request}
use snake_lab.Server.Worker.{
  Ended, take_run, update_progress, forward_frame, end_run, shutdown_worker,
}

-- `__init__`, with the store in memory.
unfoldable pub new_server : {C F : Type 0} → TelemetryPublisher F → SimulationServer C F
new_server telemetry = record {
  runs = [];
  run_queue = [];
  store = record { runs = []; episodes = [] };
  telemetry = telemetry;
  events = record { pending = []; sent = []; task = Task.idle };
  worker = none;
}

-- The start of `run`: the publishers are started.
unfoldable pub start_server : {C F : Type 0} → SimulationServer C F → SimulationServer C F
start_server s = record s {
  telemetry = start_telemetry s.telemetry;
  events = start_events s.events;
}

module _ {F : Type 0} (K : Configurations F) where
  open K use {C}

  -- The end of `run`: the worker is shut down, then the publishers are closed.
  pub stop_server : SimulationServer C F → Result Failure (SimulationServer C F)
  stop_server s = do
    t ← shutdown_worker K s
    events ← map_err (λ _. Failure.store_failure StoreError.key_error) (close_events t.events)
    ok (record t { events = events; telemetry = close_telemetry t.telemetry })

  -- What one task of the server does between two awaits.
  pub data ServerStep (s t : SimulationServer C F) : Type 0 where
    -- A document is answered. A new id is one that the store does not hold.
    answers :
        (float_is : F → ℤ → Bool) (run_id : String) (zero : F) (message response : Json F)
        → lookup run_id s.store.runs ≡ none
        → handle_request K float_is run_id zero message s ≡ ok (response, t)
        → ServerStep s t
    -- The worker, which waits for the queue, takes its head.
    takes_up :
        (runtime run_id : String) (rest : List String)
        → s.worker ≡ none
        → s.run_queue ≡ run_id ∷ rest
        → take_run K runtime run_id rest s ≡ ok t
        → ServerStep s t
    -- The simulator of the worker's run reports an episode.
    progresses :
        (episode : EpisodeResult F) (state : SimulationState F) (k : String)
        (run : SimulationRun C F)
        → s.worker ≡ some k
        → lookup k s.runs ≡ some run
        → update_progress K episode state run s ≡ ok t
        → ServerStep s t
    -- The simulator of the worker's run shows a frame.
    shows :
        (frame : Fields F) (k : String) (run : SimulationRun C F)
        → s.worker ≡ some k
        → lookup k s.runs ≡ some run
        → t ≡ forward_frame K frame run s
        → ServerStep s t
    -- The execution of the worker's run ends.
    ends_up :
        (how : Ended K) (k : String) (run : SimulationRun C F)
        → s.worker ≡ some k
        → lookup k s.runs ≡ some run
        → end_run K how run s ≡ ok t
        → ServerStep s t
    -- The publishers' loops: events that wait are sent, and telemetry does what it does.
    sends_events : t ≡ record s { events = run_loop s.events } → ServerStep s t
    sends_telemetry :
        (telemetry : TelemetryPublisher F) → t ≡ record s { telemetry = telemetry } → ServerStep s t

  -- The servers that come about from a start.
  pub data Reachable : SimulationServer C F → Type 0 where
    starts_up : (telemetry : TelemetryPublisher F) → Reachable (start_server (new_server telemetry))
    goes_on : {s t : SimulationServer C F} → Reachable s → ServerStep s t → Reachable t
