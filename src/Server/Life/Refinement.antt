-- ===== src/Server/Life/Refinement.antt =====
-- The server implements the lab.
use Prim.Native.String.{String}
use mathlib.Core.Path.{subst}
use mathlib.Core.List.{append-nil}
use snake_lab.Base.{◌≡◌, refl, sym, ap, ◌∙◌, none, some, List, [], ◌∷◌, inl, inr}
use snake_lab.Base.Dicts.{lookup, both_end}
use snake_lab.Base.Results.{Result, ok, ok_unique}
use snake_lab.Zmq.Events.{EventsPublisher, start_events, run_loop}
use snake_lab.Zmq.Events.Delivery.{IsTelling, run_loop-sends}
use snake_lab.Zmq.Publisher.{TelemetryPublisher}
use snake_lab.Server.Run.{RunState, SimulationRun}
use snake_lab.Server.Service.{SimulationServer, Failure}
use snake_lab.Server.Handlers.{Configurations}
use snake_lab.Server.Worker.{Ended, forward_frame, take_run, end_run}
use snake_lab.Server.Lab.{Lab, IsActive, Steps, rests, done, more, then_Steps}
use snake_lab.Server.Lab.Invariant.{IsLab, empty-IsLab}
use snake_lab.Server.Lab.States.{IsBusy}
use snake_lab.Server.Lab.Preservation.{Steps-IsLab}
use snake_lab.Server.View.{view, state_of, log, told_runs, held_state}
use snake_lab.Server.Transitions.{IsSound}
use snake_lab.Server.Requests.All.{handle_request-Served, answered-Served}
use snake_lab.Server.Execution.Served.{take_run-takes, take_run-skips, end_run-Served}
use snake_lab.Server.Execution.Progress.{update_progress-Served}
use snake_lab.Server.Execution.Shutdown.{Stepped, Served-Stepped, own_id, head_waits}
use snake_lab.Server.Life.{
  new_server, start_server, ServerStep, answers, takes_up, progresses, shows, ends_up, sends_events,
  sends_telemetry, Reachable, starts_up, goes_on,
}

-- What is sent was waiting: the log is the same.
pub run_loop-log :
    {F : Type 0} (p : EventsPublisher F)
    → IsTelling p
    → (log (run_loop p) ≡ log p) × IsTelling (run_loop p)
run_loop-log p h =
    let sent = run_loop-sends p h in
    (ap log sent ∙ rw append-nil, subst IsTelling (sym sent) (record { live = refl; known = tt }))

-- A step that returns comes to one server.
arrives :
    {C F : Type 0} (m : Result Failure (SimulationServer C F)) (s t : SimulationServer C F)
    → ((u : SimulationServer C F) × (m ≡ ok u) × Stepped s u)
    → m ≡ ok t
    → Stepped s t
arrives m s t (u, here, stepped) there =
    subst (λ x. Stepped s x) (ok_unique m u t here there) stepped

abbrev pub empty_lab : Lab
empty_lab = record { states = λ k. none; queue = []; worker = none; ended = [] }

module _ {F : Type 0} (K : Configurations F) where
  open K use {C}

  pub takes_up-Stepped :
      (runtime k : String) (rest : List String) (s : SimulationServer C F)
      → IsSound s
      → IsLab (view s)
      → s.worker ≡ none
      → s.run_queue ≡ k ∷ rest
      → (t : SimulationServer C F) × (take_run K runtime k rest s ≡ ok t) × Stepped s t
  takes_up-Stepped runtime k rest s h lab free queue = elim (head_waits k rest (view s) lab queue) [
    | inl waits ↦
        let (run, found, was) = held_state (lookup k s.runs) RunState.queued waits in
        let (t, taken, served) = take_run-takes K runtime k rest run s h free queue found was in
        (t, taken, Served-Stepped s t served)
    | inr dropped ↦
        let (run, found, was) = held_state (lookup k s.runs) RunState.cancelled dropped in
        let (t, taken, served) = take_run-skips K runtime k rest run s h queue found was in
        (t, taken, Served-Stepped s t served)
  ]

  -- The run that the worker holds is active, and stands under its id.
  pub worker_runs :
      (k : String) (run : SimulationRun C F) (s : SimulationServer C F)
      → IsSound s
      → IsLab (view s)
      → s.worker ≡ some k
      → lookup k s.runs ≡ some run
      → IsActive run.state × (s.worker ≡ some run.run_id) × (lookup run.run_id s.runs ≡ some run)
  worker_runs k run s h lab busy found =
      let same = own_id k run s h found in
      (
        subst IsBusy (ap state_of found) ((lab.each k).working busy),
        busy ∙ ap some (sym same),
        subst (λ j. lookup j s.runs ≡ some run) (sym same) found,
      )

  pub ends_up-Stepped :
      (how : Ended K) (k : String) (run : SimulationRun C F) (s : SimulationServer C F)
      → IsSound s
      → IsLab (view s)
      → s.worker ≡ some k
      → lookup k s.runs ≡ some run
      → (t : SimulationServer C F) × (end_run K how run s ≡ ok t) × Stepped s t
  ends_up-Stepped how k run s h lab busy found =
      let (active, holds, own) = worker_runs k run s h lab busy found in
      let (t, finished, left, idle, served) = end_run-Served K how run s h holds own active in
      (t, finished, Served-Stepped s t served)

  -- What changes neither a run nor the queue nor the log is no step of the lab.
  unmoved-Stepped :
      (s t : SimulationServer C F)
      → IsSound s
      → t.runs ≡ s.runs
      → t.store ≡ s.store
      → t.run_queue ≡ s.run_queue
      → t.worker ≡ s.worker
      → log t.events ≡ log s.events
      → (IsTelling s.events → IsTelling t.events)
      → Stepped s t
  unmoved-Stepped s t h runs store queue worker events telling = record {
    telling = telling;
    sound = rw (runs, store) h;
    steps =
        more (rests (λ j. ap (λ d. state_of (lookup j d)) runs) queue worker (ap told_runs events))
          done;
  }

  -- Every step of a sound server whose lab is well formed leaves it sound, and is one of the lab's
  -- steps, or several.
  pub ServerStep-Stepped :
      (s t : SimulationServer C F)
      → IsSound s
      → IsLab (view s)
      → IsTelling s.events
      → ServerStep K s t
      → Stepped s t
  unfolding forward_frame
  ServerStep-Stepped s t h lab tells
        (answers float_is run_id zero message response fresh answered) =
      Served-Stepped s t (
        answered-Served K s t _ response
          (handle_request-Served K float_is run_id zero message s h fresh) answered)
  ServerStep-Stepped s t h lab tells (takes_up runtime k rest free queue taken) =
      arrives (take_run K runtime k rest s) s t (takes_up-Stepped runtime k rest s h lab free queue)
        taken
  ServerStep-Stepped s t h lab tells (progresses episode state k run busy found reported) =
      let (active, holds, own) = worker_runs k run s h lab busy found in
      Served-Stepped s t (update_progress-Served K episode state run s t h own reported)
  ServerStep-Stepped s t h lab tells (shows frame k run busy found is) =
      subst (λ x. Stepped s x) (sym is) (unmoved-Stepped s _ h refl refl refl refl refl (λ x. x))
  ServerStep-Stepped s t h lab tells (ends_up how k run busy found ended) =
      arrives (end_run K how run s) s t (ends_up-Stepped how k run s h lab busy found) ended
  ServerStep-Stepped s t h lab tells (sends_events is) =
      subst (λ x. Stepped s x) (sym is)
        (let (same, still) = run_loop-log s.events tells in
          unmoved-Stepped s _ h refl refl refl refl same (λ _. still))
  ServerStep-Stepped s t h lab tells (sends_telemetry telemetry is) =
      subst (λ x. Stepped s x) (sym is) (unmoved-Stepped s _ h refl refl refl refl refl (λ x. x))

  new_server-IsLab :
      (telemetry : TelemetryPublisher F)
      → IsLab (view (start_server (new_server {C = C} telemetry)))
  unfolding new_server start_server start_events told_runs
  new_server-IsLab telemetry = empty-IsLab _ (λ k. refl) refl refl refl

  -- Whatever documents arrive, whatever the simulator reports, and however the tasks take turns, from
  -- the start of a server with the store in memory on and until it stops, it implements the lab: the lab
  -- that its fields amount to has come about by the lab's steps, the store has the runs and states of
  -- the server, the queue holds each run that waits once, the worker holds the one run that is active,
  -- and the end of a run has been sent or waits to be sent, once, if it has ended and never otherwise.
  -- The publisher of events is at work, and can send what waits.
  pub Reachable-IsLab :
      (s : SimulationServer C F)
      → Reachable K s
      → IsSound s × Steps empty_lab (view s) × IsLab (view s) × IsTelling s.events
  unfolding new_server start_server start_events told_runs
  Reachable-IsLab s (starts_up telemetry) =
      (both_end, done, new_server-IsLab telemetry, record { live = refl; known = tt })
  Reachable-IsLab t (goes_on {s = s} before step) =
      let (h, steps, lab, tells) = Reachable-IsLab s before in
      let stepped = ServerStep-Stepped s t h lab tells step in
      (
        stepped.sound,
        then_Steps steps stepped.steps,
        Steps-IsLab stepped.steps lab,
        stepped.telling tells,
      )
