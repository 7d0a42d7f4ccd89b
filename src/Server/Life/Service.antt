-- ===== src/Server/Life/Service.antt =====
-- A server that has come about from a start goes on serving, and stops as it should.
use Prim.Native.String.{String}
use mathlib.Core.Path.{subst}
use snake_lab.Base.{◌≡◌, refl, sym, ap, Bool, Option, none, some, List, [], ◌∷◌}
use snake_lab.Base.Dicts.{text_eq, lookup}
use snake_lab.Base.Int.{ℤ}
use snake_lab.Base.Members.{mem}
use snake_lab.Base.Results.{ok, err}
use snake_lab.Zmq.Events.{Task}
use snake_lab.Zmq.Events.Delivery.{IsTelling, close_events-sends}
use snake_lab.Zmq.Publisher.{close_telemetry}
use snake_lab.Json.{Json}
use snake_lab.Server.Run.{RunState, SimulationRun}
use snake_lab.Server.Service.{SimulationServer}
use snake_lab.Server.Handlers.{Configurations}
use snake_lab.Server.Dispatch.{handle_request, Answered}
use snake_lab.Server.Serving.{Served}
use snake_lab.Server.Worker.{Ended, take_run, end_run, shutdown_worker}
use snake_lab.Server.Lab.{Lab, IsTerminal}
use snake_lab.Server.Lab.Invariant.{IsLab, count}
use snake_lab.Server.Lab.States.{ends_of, IsBusy}
use snake_lab.Server.Lab.Preservation.{Steps-IsLab}
use snake_lab.Server.View.{view, state_of, log, told_runs}
use snake_lab.Server.Requests.All.{Outcome, is_answered, is_refused, handle_request-Served}
use snake_lab.Server.Execution.Shutdown.{shutdown_worker-Stepped}
use snake_lab.Server.Life.{stop_server, Reachable, answers, takes_up, ends_up, goes_on}
use snake_lab.Server.Life.Refinement.{takes_up-Stepped, ends_up-Stepped, Reachable-IsLab}

-- A run that is known is in a terminal state.
abbrev pub IsOver : Option RunState → Type 0
IsOver none = Unit
IsOver (some s) = IsTerminal s

-- In a lab with an empty queue and a free worker, a run is in a terminal state.
idle-IsTerminal :
    (a : Lab) (k : String) (s : RunState)
    → IsLab a
    → a.queue ≡ []
    → a.worker ≡ none
    → a.states k ≡ some s
    → IsTerminal s
idle-IsTerminal a k RunState.completed h queue free e = tt
idle-IsTerminal a k RunState.failed h queue free e = tt
idle-IsTerminal a k RunState.cancelled h queue free e = tt
idle-IsTerminal a k RunState.queued h queue free e =
    absurd (cc ((h.each k).queued e, ap (mem k) queue))
idle-IsTerminal a k RunState.running h queue free e =
    absurd (cc ((h.each k).alone (subst IsBusy (sym e) tt), free))
idle-IsTerminal a k RunState.paused h queue free e =
    absurd (cc ((h.each k).alone (subst IsBusy (sym e) tt), free))
idle-IsTerminal a k RunState.cancelling h queue free e =
    absurd (cc ((h.each k).alone (subst IsBusy (sym e) tt), free))

idle-IsOver :
    (a : Lab) (k : String) (o : Option RunState)
    → IsLab a
    → a.queue ≡ []
    → a.worker ≡ none
    → a.states k ≡ o
    → IsOver o
idle-IsOver a k none h queue free e = tt
idle-IsOver a k (some s) h queue free e = idle-IsTerminal a k s h queue free e

module _ {F : Type 0} (K : Configurations F) where
  open K use {C}

  closed-Stopped :
      (s t : SimulationServer C F)
      → shutdown_worker K s ≡ ok t
      → IsTelling t.events
      → stop_server K s
        ≡ ok (record t {
          events = record { pending = []; sent = log t.events; task = Task.idle };
          telemetry = close_telemetry t.telemetry;
        })
  unfolding stop_server
  closed-Stopped s t stopped tells = rw (stopped, close_events-sends t.events tells) refl

  -- A server with the store in memory that has come about from a start can always stop: the shutdown of
  -- its worker and the closing of its publishers raise nothing, the worker is free, the queue is empty
  -- and no event waits; every run is in a terminal state, and its end has been sent once.
  pub stop_server-Reachable :
      (s : SimulationServer C F)
      → Reachable K s
      → (t : SimulationServer C F) × (stop_server K s ≡ ok t)
        × (t.run_queue ≡ [])
        × (t.worker ≡ none)
        × (t.events.pending ≡ [])
        × (t.events.task ≡ Task.idle)
        × ((k : String)
            → IsOver (state_of (lookup k t.runs))
              × (count k (told_runs t.events.sent) ≡ ends_of (state_of (lookup k t.runs))))
  stop_server-Reachable s from_start =
      let (h, steps, lab, tells) = Reachable-IsLab K s from_start in
      let (t, stopped, queue, free, stepped) = shutdown_worker-Stepped K s h lab in
      let after = Steps-IsLab stepped.steps lab in
      (
        _,
        closed-Stopped s t stopped (stepped.telling tells),
        queue,
        free,
        refl,
        refl,
        λ k. (
          idle-IsOver (view t) k (state_of (lookup k t.runs)) after queue free refl,
          (after.each k).told,
        ),
      )

  hashed-Outcome :
      (s : SimulationServer C F) (r : Answered K)
      → ((c : C) → (hash : String) × (K.config_hash c ≡ some hash))
      → Outcome K (λ _ t. Served s t) r
      → (response : Json F) × (t : SimulationServer C F) × (r ≡ ok (response, t))
  hashed-Outcome s (ok (response, t)) hashes (is_answered served) = (response, t, refl)
  hashed-Outcome s (err e) hashes (is_refused h) =
      let (hash, is) = hashes h.resolved in absurd (cc (h.no_hash, is))

  -- A server that has come about from a start answers any document, given a new run id that the store
  -- does not hold, if every configuration has a hash.
  pub handle_request-Reachable :
      (float_is : F → ℤ → Bool) (run_id : String) (zero : F) (message : Json F)
      (s : SimulationServer C F)
      → ((c : C) → (hash : String) × (K.config_hash c ≡ some hash))
      → Reachable K s
      → lookup run_id s.store.runs ≡ none
      → (response : Json F) × (t : SimulationServer C F) × (handle_request K float_is run_id zero
            message s
          ≡ ok (response, t))
        × Reachable K t
  handle_request-Reachable float_is run_id zero message s hashes from_start fresh =
      let (h, steps, lab, tells) = Reachable-IsLab K s from_start in
      let (response, t, answered) =
        hashed-Outcome s _ hashes
          (handle_request-Served K float_is run_id zero message s h fresh) in
      (
        response,
        t,
        answered,
        goes_on from_start (answers float_is run_id zero message response fresh answered),
      )

  -- Its free worker takes up the head of the queue.
  pub take_run-Reachable :
      (runtime run_id : String) (rest : List String) (s : SimulationServer C F)
      → Reachable K s
      → s.worker ≡ none
      → s.run_queue ≡ run_id ∷ rest
      → (t : SimulationServer C F) × (take_run K runtime run_id rest s ≡ ok t) × Reachable K t
  take_run-Reachable runtime run_id rest s from_start free queue =
      let (h, steps, lab, tells) = Reachable-IsLab K s from_start in
      let (t, taken, stepped) = takes_up-Stepped K runtime run_id rest s h lab free queue in
      (t, taken, goes_on from_start (takes_up runtime run_id rest free queue taken))

  -- However the execution of the worker's run ends, that is recorded.
  pub end_run-Reachable :
      (how : Ended K) (run_id : String) (run : SimulationRun C F) (s : SimulationServer C F)
      → Reachable K s
      → s.worker ≡ some run_id
      → lookup run_id s.runs ≡ some run
      → (t : SimulationServer C F) × (end_run K how run s ≡ ok t) × Reachable K t
  end_run-Reachable how run_id run s from_start busy found =
      let (h, steps, lab, tells) = Reachable-IsLab K s from_start in
      let (t, ended, stepped) = ends_up-Stepped K how run_id run s h lab busy found in
      (t, ended, goes_on from_start (ends_up how run_id run busy found ended))
