-- ===== src/Server/Worker.antt =====
-- server/SimulationServer.py, the worker: `_worker_loop` and `_execute_simulation` between two awaits,
-- and `_shutdown_worker`. What the simulator gives is an argument. An error of the store ends the step:
-- the loop's `except Exception` around it, which would store the run as failed, is modelled for the
-- errors of the simulation alone.
use Prim.Native.String.{String}
use snake_lab.Base.{Option, none, some, List, [], ◌∷◌, map, if◌then◌else◌}
use snake_lab.Base.Dicts.{lookup}
use snake_lab.Base.Results.{Result, ok, ◌>>=◌, or_raise, map_err}
use snake_lab.Json.{Json, str, obj, Fields, field, end}
use snake_lab.Zmq.Publisher.{offer_run, offer_episode, offer_frame}
use snake_lab.Server.Results.{
  EpisodeResult, SimulationState, HighScoreSnapshot, episode_to_dict, high_score_to_dict, summary,
}
use snake_lab.Server.Run.{RunState, SimulationRun}
use snake_lab.Server.Store
use snake_lab.Server.Store.{StoreError}
use snake_lab.Server.Service.{
  SimulationServer, Failure, run_summary, publish_run, put_run, finish_run, in_state,
}
use snake_lab.Server.Handlers.{Configurations}

module _ {F : Type 0} (K : Configurations F) where
  open K use {C, epochs}

  abbrev pub Worked : Type 0
  Worked = Result Failure (SimulationServer C F)

  -- The run of an id that the queue or the worker holds.
  unfoldable pub held_run : String → SimulationServer C F → Result Failure (SimulationRun C F)
  held_run run_id s = or_raise (lookup run_id s.runs) (Failure.store_failure StoreError.key_error)

  -- A run is taken up: it runs, and its simulator tells where. `runtime` is that description.
  unfoldable pub start_run : String → SimulationRun C F → SimulationServer C F → Worked
  start_run runtime run s = do
    store ← map_err Failure.store_failure (Store.mark_started run.run_id s.store)
    let running : SimulationRun C F = record run { state = RunState.running } in
        ok (
          publish_run epochs running (field "runtime" (str runtime) end)
            (put_run running (record s { store = store; worker = some run.run_id })))

  -- The head of the queue is taken by a worker that executes nothing. A cancelled run is skipped.
  unfoldable pub take_run : String → String → List String → SimulationServer C F → Worked
  take_run runtime run_id rest s = do
    run ← held_run run_id s
    (if in_state run.state (RunState.cancelled ∷ [])
        then ok (record s { run_queue = rest })
        else start_run runtime run (record s { run_queue = rest }))

  -- `update_progress`
  unfoldable pub progressed_run :
      EpisodeResult F → SimulationState F → SimulationRun C F → SimulationRun C F
  progressed_run episode state run = record run {
    completed_epochs = state.completed_epochs;
    total_steps = state.total_steps;
    high_score = state.high_score;
    total_reward = state.total_reward;
    epsilon_injections = state.total_epsilon_injections;
    last_loss = state.last_loss;
    last_episode = some episode;
  }

  unfoldable pub update_progress :
      EpisodeResult F → SimulationState F → SimulationRun C F → SimulationServer C F → Worked
  update_progress episode state run s =
      let updated = progressed_run episode state run in
      do
        store ← map_err Failure.store_failure (
            Store.record_episode run.run_id episode updated.completed_epochs updated.high_score
              s.store)
        ok (
            put_run updated (record s {
              store = store;
              telemetry = offer_episode s.telemetry run.run_id (
                  field "episode" (episode_to_dict episode)
                    (field "summary" (obj (summary state)) end));
            }))

  -- `on_frame`
  unfoldable pub forward_frame :
      Fields F → SimulationRun C F → SimulationServer C F → SimulationServer C F
  forward_frame frame run s = record s { telemetry = offer_frame s.telemetry run.run_id frame }

  abbrev pub snapshot_of : Option HighScoreSnapshot → Option (Json F) → Option (Json F)
  snapshot_of none before = before
  snapshot_of (some h) before = some (high_score_to_dict h)

  -- How the execution of a run ends.
  pub data Ended : Type 0 where
    -- `simulator.run` returned.
    returned : SimulationState F → Ended
    -- SimulationCancelled, from a checkpoint.
    cancelled : Ended
    -- asyncio.CancelledError, from the shutdown.
    aborted : Ended
    -- Any other exception, with its text.
    raised : String → Ended

  -- The run as the branch of the loop leaves it before it is stored.
  unfoldable pub ended_run : Ended → SimulationRun C F → SimulationRun C F
  ended_run (returned state) run = record run {
    high_score_snapshot = snapshot_of state.high_score_snapshot run.high_score_snapshot;
    high_score_frames = map high_score_to_dict state.high_score_frames;
    state = RunState.completed;
  }
  ended_run cancelled run = record run { state = RunState.cancelled }
  ended_run aborted run = record run { state = RunState.cancelled }
  ended_run (raised message) run = record run { state = RunState.failed; error = some message }

  -- What telemetry tells at the end.
  unfoldable pub offer_end : Ended → SimulationRun C F → SimulationServer C F → SimulationServer C F
  offer_end (raised message) run s = record s {
    telemetry =
        offer_run s.telemetry run.run_id
          (field "state" (str "failed") (field "error" (str message) (run_summary epochs run)));
  }
  offer_end _ run s = publish_run epochs run end s

  unfoldable pub end_run : Ended → SimulationRun C F → SimulationServer C F → Worked
  end_run how run s =
      let run' = ended_run how run in
      do finished ← finish_run run' s; ok (offer_end how run' (record finished { worker = none }))

  -- One run that waited is cancelled by the shutdown.
  unfoldable pub drop_run : String → SimulationServer C F → Worked
  drop_run run_id s = do
    run ← held_run run_id s
    (if in_state run.state (RunState.cancelled ∷ []) then ok s else end_run aborted run s)

  -- The queue is emptied run by run.
  unfoldable pub drop_runs : List String → SimulationServer C F → Worked
  drop_runs [] s = ok s
  drop_runs (run_id ∷ rest) s = drop_run run_id (record s { run_queue = rest }) >>= drop_runs rest

  -- The worker's task is cancelled and awaited.
  unfoldable pub abort_worker : Option String → SimulationServer C F → Worked
  abort_worker none s = ok s
  abort_worker (some run_id) s = held_run run_id s >>= (λ run. end_run aborted run s)

  -- `_shutdown_worker`
  unfoldable pub shutdown_worker : SimulationServer C F → Worked
  shutdown_worker s = do t ← abort_worker s.worker s; drop_runs t.run_queue t
