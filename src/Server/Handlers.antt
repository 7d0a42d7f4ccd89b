-- ===== src/Server/Handlers.antt =====
-- server/SimulationServer.py, the requests. The resolver of configurations and the maker of run ids
-- are parameters: the first is that of Configuration.py, the second `uuid.uuid4`.
use Prim.Native.String.{String}
use snake_lab.Base.{Bool, Option, none, some, List, [], ◌∷◌, ◌++◌, length, suc}
use snake_lab.Base.Dicts.{find_value}
use snake_lab.Base.Texts.{concat}
use snake_lab.Base.Results.{Result, ok, ◌>>=◌, ◌>>◌, require, or_raise, map_err}
use snake_lab.Json.{Json, null, str, obj, arr, field, end, has_exactly, is_empty, of_list}
use snake_lab.Zmq.Protocol.{protocol_error, Request, success_response, item}
use snake_lab.Server.Control
use snake_lab.Server.Results.{int_of}
use snake_lab.Server.Run.{RunState, state_text, SimulationRun, new_run}
use snake_lab.Server.Store
use snake_lab.Server.Store.{MemoryStore}
use snake_lab.Server.Service.{
  SimulationServer, Failure, raise_protocol, in_state, run_status, publish_run, put_run,
  run_id_text, requested_run, set_status, finish_run,
}

-- The message of the ValueError of `set_move_delay`.
abbrev pub delay_message : String
delay_message = "move_delay_ms must be an integer from 0 through 100 in 20 ms steps"

-- What the server takes from its configuration: `C` is a resolved configuration.
pub record Configurations (F : Type 0) : Type 1 where
  pub C : Type 0
  pub resolve : Json F → Result String C
  pub epochs : C → Json F
  pub config_hash : C → Option String

abbrev pub version : String
version = "2.1.1"

-- A store that must answer about a run.
abbrev pub known_run : {A : Type 0} → String → Option A → Result Failure A
known_run run_id saved =
    or_raise saved
      (Failure.protocol_failure (protocol_error "run_not_found" (concat "Unknown run: " run_id)))

module _ {F : Type 0} (K : Configurations F) where
  open K use {C, epochs}

  -- What a handler gives: a response and the server after it.
  abbrev pub Handled : Type 0
  Handled = Result Failure (Json F × SimulationServer C F)

  abbrev respond : Request F → SimulationRun C F → SimulationServer C F → Handled
  respond request run s = ok (success_response request.request_id (run_status epochs run), s)

  unfoldable pub validate_config : Json F → Result Failure C
  validate_config config =
      map_err (λ m. Failure.protocol_failure (protocol_error "invalid_config" m)) (K.resolve config)

  -- `run_id` and `zero` are the new id and the float 0.0.
  unfoldable pub submit_config : String → F → Request F → C → SimulationServer C F → Handled
  submit_config run_id zero request config s = do
    store ←
        map_err Failure.store_failure (Store.create_run K.config_hash run_id config version s.store)
    let run : SimulationRun C F = new_run zero run_id config in
        ok (
          success_response request.request_id (
              field "run_id" (str run_id) (
                field "state" (str "queued")
                  (field "queue_position" (int_of (suc (length s.run_queue))) end))),
          publish_run epochs run end
              (put_run run (record s { store = store; run_queue = s.run_queue ++ run_id ∷ [] })),
        )

  unfoldable pub submit : String → F → Request F → SimulationServer C F → Handled
  submit run_id zero request s = do
    require (has_exactly request.payload ("config" ∷ [])) (
        Failure.protocol_failure
          (protocol_error "invalid_request" "submit payload must contain only config"))
    value ← map_err Failure.protocol_failure (item "config" request.payload)
    config ← validate_config value
    submit_config run_id zero request config s

  unfoldable pub status : Request F → SimulationServer C F → Handled
  status request s = do run ← requested_run request ("run_id" ∷ []) s; respond request run s

  unfoldable pub saved_run_id : Request F → Result Failure String
  saved_run_id request = do
    require (has_exactly request.payload ("run_id" ∷ [])) (
        Failure.protocol_failure
          (protocol_error "invalid_request" "payload must contain only run_id"))
    value ← map_err Failure.protocol_failure (item "run_id" request.payload)
    run_id_text value

  unfoldable pub highscore_snapshot : Request F → SimulationServer C F → Handled
  highscore_snapshot request s = do
    run_id ← saved_run_id request
    saved ← known_run run_id (Store.get_high_score_snapshot run_id s.store)
    snapshot ← or_raise saved (
        Failure.protocol_failure (
          protocol_error "snapshot_unavailable"
            (concat "No saved high-score snapshot for run: " run_id)))
    ok (
      success_response request.request_id
          (field "run_id" (str run_id) (field "snapshot" snapshot end)),
      s,
    )

  -- `if not saved["frames"]: raise`
  unfoldable pub some_frames : String → Option (List (Json F)) → Result Failure (List (Json F))
  some_frames run_id (some (f ∷ fs)) = ok (f ∷ fs)
  some_frames run_id _ =
      raise_protocol "frames_unavailable" (concat "No saved high-score game for run: " run_id)

  unfoldable pub highscore_frames : Request F → SimulationServer C F → Handled
  highscore_frames request s = do
    run_id ← saved_run_id request
    saved ← known_run run_id (Store.get_high_score_frames run_id s.store)
    frames ← some_frames run_id saved
    ok (
      success_response request.request_id
          (field "run_id" (str run_id) (field "frames" (arr (of_list frames)) end)),
      s,
    )

  abbrev pub is_active : SimulationRun C F → Bool
  is_active run = in_state run.state (RunState.running ∷ RunState.paused ∷ RunState.cancelling ∷ [])

  abbrev pub is_queued : SimulationRun C F → Bool
  is_queued run = in_state run.state (RunState.queued ∷ [])

  -- The run that `_active` tells of: the first active one, or else the first that is queued.
  unfoldable pub active_run : SimulationServer C F → Option (SimulationRun C F)
  active_run s = elim (find_value is_active s.runs) [
    | some run ↦ some run
    | none ↦ find_value is_queued s.runs
  ]

  abbrev active_value : Option (SimulationRun C F) → Json F
  active_value none = null
  active_value (some run) = obj (run_status epochs run)

  unfoldable pub active : Request F → SimulationServer C F → Handled
  active request s = do
    require (is_empty request.payload)
        (Failure.protocol_failure (protocol_error "invalid_request" "active payload must be empty"))
    ok (success_response request.request_id (field "run" (active_value (active_run s)) end), s)

  abbrev bad_state : String → RunState → Handled
  bad_state message state = raise_protocol "invalid_run_state" (concat message (state_text state))

  -- The run has its new state: it is stored, and told.
  unfoldable pub change_run : Request F → SimulationRun C F → SimulationServer C F → Handled
  change_run request run s = do
    stored ← set_status run (put_run run s)
    respond request run (publish_run epochs run end stored)

  unfoldable pub pause_run : Request F → SimulationRun C F → SimulationServer C F → Handled
  pause_run request run s = elim run.state [
    | RunState.running ↦
        change_run request
          (record run { state = RunState.paused; control = Control.pause run.control }) s
    | RunState.paused ↦ respond request run s
    | other ↦ bad_state "Cannot pause a simulation in state " other
  ]

  unfoldable pub pause : Request F → SimulationServer C F → Handled
  pause request s = do run ← requested_run request ("run_id" ∷ []) s; pause_run request run s

  unfoldable pub resume_run : Request F → SimulationRun C F → SimulationServer C F → Handled
  resume_run request run s = elim run.state [
    | RunState.paused ↦
        change_run request
          (record run { state = RunState.running; control = Control.resume run.control }) s
    | RunState.running ↦ respond request run s
    | other ↦ bad_state "Cannot resume a simulation in state " other
  ]

  unfoldable pub resume : Request F → SimulationServer C F → Handled
  resume request s = do run ← requested_run request ("run_id" ∷ []) s; resume_run request run s

  unfoldable pub cancelling_run : SimulationRun C F → RunState → SimulationRun C F
  cancelling_run run state = record run { state = state; control = Control.cancel run.control }

  -- A queued run ends at once; the response and the telemetry come after its frames are cleared.
  unfoldable pub cancel_queued : Request F → SimulationRun C F → SimulationServer C F → Handled
  cancel_queued request run s = do
    finished ← finish_run run s
    respond request run (publish_run epochs run end finished)

  unfoldable pub cancel_run : Request F → SimulationRun C F → SimulationServer C F → Handled
  cancel_run request run s = elim run.state [
    | RunState.queued ↦ cancel_queued request (cancelling_run run RunState.cancelled) s
    | RunState.running ↦ change_run request (cancelling_run run RunState.cancelling) s
    | RunState.paused ↦ change_run request (cancelling_run run RunState.cancelling) s
    | RunState.cancelling ↦ respond request run s
    | RunState.cancelled ↦ respond request run s
    | other ↦ bad_state "Cannot cancel a simulation in state " other
  ]

  unfoldable pub cancel : Request F → SimulationServer C F → Handled
  cancel request s = do run ← requested_run request ("run_id" ∷ []) s; cancel_run request run s

  unfoldable pub set_move_delay : Request F → SimulationServer C F → Handled
  set_move_delay request s = do
    run ← requested_run request ("run_id" ∷ "move_delay_ms" ∷ []) s
    require (in_state run.state (RunState.queued ∷ RunState.running ∷ RunState.paused ∷ [])) (
        Failure.protocol_failure (
          protocol_error "invalid_run_state"
            "Move delay can only be changed for a queued or active run"))
    value ← map_err Failure.protocol_failure (item "move_delay_ms" request.payload)
    control ←
        map_err (λ e. Failure.protocol_failure (protocol_error "invalid_request" delay_message))
          (Control.set_move_delay value run.control)
    let delayed : SimulationRun C F = record run { control = control } in
        respond request delayed (publish_run epochs delayed end (put_run delayed s))

  unfoldable pub health : Request F → SimulationServer C F → Handled
  health request s = do
    require (is_empty request.payload)
        (Failure.protocol_failure (protocol_error "invalid_request" "health payload must be empty"))
    ok (
      success_response request.request_id
          (field "service" (str "snake-lab") (field "project_version" (str version) end)),
      s,
    )
