-- ===== src/Server/Service.antt =====
-- server/SimulationServer.py, its state and what its operations share. A run is one object that the
-- dictionary `_runs`, the queue and the worker hold: here it stands in `runs`, under its id, and the
-- queue and the worker hold the id. Logging is left out.
use Prim.Native.String.{String}
use text.Mathlib.Text.{◌==◌}
use snake_lab.Base.{Bool, false, ◌||◌, Option, none, some, List, [], ◌∷◌, if◌then◌else◌}
use snake_lab.Base.Dicts.{Dict, lookup, insert}
use snake_lab.Base.Texts.{concat}
use snake_lab.Base.Results.{Result, ok, err, ◌>>=◌, ◌>>◌, require, or_raise, map_err}
use snake_lab.Json.{Json, null, str, float, Fields, field, end, has_exactly}
use snake_lab.Zmq.Protocol.{ProtocolError, protocol_error, Request, item}
use snake_lab.Zmq.Events.{EventsPublisher, publish_event, ended_payload, simulation_ended}
use snake_lab.Zmq.Publisher.{TelemetryPublisher, offer_run}
use snake_lab.Server.Results.{EpisodeResult, int_of, float_or_null, episode_to_dict}
use snake_lab.Server.Run.{RunState, state_text, SimulationRun}
use snake_lab.Server.Store
use snake_lab.Server.Store.{MemoryStore, StoreError}

pub record SimulationServer (C F : Type 0) : Type 0 where
  pub runs : Dict (SimulationRun C F)
  pub run_queue : List String
  pub store : MemoryStore C F
  pub telemetry : TelemetryPublisher F
  pub events : EventsPublisher F
  -- The run that the worker executes.
  pub worker : Option String

-- What a handler raises: a ProtocolError, which is answered, or an error of the store, which is not.
pub data Failure : Type 0 where
  protocol_failure : ProtocolError → Failure
  store_failure : StoreError → Failure

abbrev pub raise_protocol : {A : Type 0} → String → String → Result Failure A
raise_protocol code message = err (Failure.protocol_failure (protocol_error code message))

abbrev pub in_state : RunState → List RunState → Bool
in_state s [] = false
in_state s (t ∷ ts) = (state_text s == state_text t) || in_state s ts

-- Items of one dictionary, then those of another with other keys.
abbrev pub join_fields : {F : Type 0} → Fields F → Fields F → Fields F
join_fields end gs = gs
join_fields (field k v fs) gs = field k v (join_fields fs gs)

abbrev if_completed : {A : Type 0} → RunState → A → Option A
if_completed RunState.completed a = some a
if_completed _ a = none

module _ {F : Type 0} where
  abbrev pub last_episode_value : Option (EpisodeResult F) → Json F
  last_episode_value none = null
  last_episode_value (some r) = episode_to_dict r

  abbrev pub error_fields : Option String → Fields F
  error_fields none = end
  error_fields (some message) = field "error" (str message) end

  abbrev snapshot_if_completed : RunState → Option (Json F) → Option (Json F)
  snapshot_if_completed RunState.completed snapshot = snapshot
  snapshot_if_completed _ snapshot = none

-- `if not isinstance(run_id, str) or not run_id: raise`
unfoldable pub run_id_text : {F : Type 0} → Json F → Result Failure String
run_id_text (str s) =
    if s == "" then raise_protocol "invalid_request" "run_id must be a non-empty string" else ok s
run_id_text _ = raise_protocol "invalid_request" "run_id must be a non-empty string"

module _ {C F : Type 0} (epochs : C → Json F) where
  -- `epochs` is config["epochs"].
  unfoldable pub run_summary : SimulationRun C F → Fields F
  run_summary run = field "epochs" (epochs run.config) (
      field "completed_epochs" (int_of run.completed_epochs) (
        field "total_steps" (int_of run.total_steps) (
          field "high_score" (int_of run.high_score) (
            field "total_reward" (float run.total_reward) (
              field "epsilon_injections" (int_of run.epsilon_injections) (
                field "last_loss" (float_or_null run.last_loss)
                  (field "move_delay_ms" (int_of run.control.move_delay_ms) end)))))))

  unfoldable pub run_status : SimulationRun C F → Fields F
  run_status run = field "run_id" (str run.run_id) (
      field "state" (str (state_text run.state)) (
        join_fields (run_summary run)
          (field "last_episode" (last_episode_value run.last_episode) (error_fields run.error))))

  -- `_publish_run` with the details that come after the summary.
  unfoldable pub publish_run :
      SimulationRun C F → Fields F → SimulationServer C F → SimulationServer C F
  publish_run run details s = record s {
    telemetry =
        offer_run s.telemetry run.run_id
          (field "state" (str (state_text run.state)) (join_fields (run_summary run) details));
  }

module _ {C F : Type 0} where
  -- An update of a run, which is the same object wherever it is held.
  unfoldable pub put_run : SimulationRun C F → SimulationServer C F → SimulationServer C F
  put_run run s = record s { runs = insert run.run_id run s.runs }

  unfoldable pub requested_run :
      Request F → List String → SimulationServer C F → Result Failure (SimulationRun C F)
  requested_run request expected_fields s = do
    require (has_exactly request.payload expected_fields) (
        Failure.protocol_failure
          (protocol_error "invalid_request" "request payload fields do not match the protocol"))
    value ← map_err Failure.protocol_failure (item "run_id" request.payload)
    run_id ← run_id_text value
    or_raise (lookup run_id s.runs)
        (Failure.protocol_failure (protocol_error "run_not_found" (concat "Unknown run: " run_id)))

  unfoldable pub set_status :
      SimulationRun C F → SimulationServer C F → Result Failure (SimulationServer C F)
  set_status run s = do
    store ← map_err Failure.store_failure (Store.set_status run.run_id run.state s.store)
    ok (record s { store = store })

  -- The result is stored before the event is published.
  unfoldable pub finish_run :
      SimulationRun C F → SimulationServer C F → Result Failure (SimulationServer C F)
  finish_run run s = do
    store ← map_err Failure.store_failure (
        Store.finish_run run.run_id run.state run.completed_epochs run.high_score run.error
          (snapshot_if_completed run.state run.high_score_snapshot)
          (if_completed run.state run.high_score_frames) s.store)
    let cleared : SimulationServer C F = put_run (record run { high_score_frames = [] }) s in
        ok (record cleared {
          store = store;
          events =
              publish_event cleared.events simulation_ended
                (ended_payload run.run_id (state_text run.state) run.error);
        })
