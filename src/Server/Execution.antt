-- ===== src/Server/Execution.antt =====
-- The worker takes up the runs that wait, and ends those that it executes.
pub mod Progress
pub mod Served
pub mod Shutdown
use Prim.Native.String.{String}
use mathlib.Core.Path.{subst}
use snake_lab.Base.{◌≡◌, refl, sym, ap, ◌∙◌, false, none, some, List, [], ◌∷◌, ◌++◌, inl, inr, ◌⊎◌}
use snake_lab.Base.Dicts.{lookup, insert, lookup-insert, Matched-lookup}
use snake_lab.Base.Results.{ok}
use snake_lab.Json.{Json}
use snake_lab.Zmq.Events.{event_message, ended_payload, simulation_ended, publish_event}
use snake_lab.Zmq.Events.Delivery.{IsTelling, publish_event-IsTelling}
use snake_lab.Server.Run.{RunState, SimulationRun, state_text}
use snake_lab.Server.Store
use snake_lab.Server.Store.{StoredRun}
use snake_lab.Server.Service.{SimulationServer, put_run, publish_run, finish_run, in_state}
use snake_lab.Server.Handlers.{Configurations}
use snake_lab.Server.View.{told_runs, log, publish_event-told}
use snake_lab.Server.Worker.{
  Ended, held_run, start_run, take_run, ended_run, offer_end, end_run, returned, cancelled, aborted,
  raised,
}
use snake_lab.Server.Lab.{IsActive, IsTerminal}
use snake_lab.Server.Transitions.{Moves, Agree, IsSound, Advance, Advance-refl, Advance-update}

module _ {F : Type 0} (K : Configurations F) where
  open K use {C, epochs}

  -- A queued run that is taken up runs, in the store too, and the worker holds it.
  start_run-Advance :
      (runtime : String) (run : SimulationRun C F) (s : SimulationServer C F)
      → IsSound s
      → lookup run.run_id s.runs ≡ some run
      → run.state ≡ RunState.queued
      → (t : SimulationServer C F) × (start_run K runtime run s ≡ ok t)
        × (t.worker ≡ some run.run_id)
        × (t.run_queue ≡ s.run_queue)
        × (t.events ≡ s.events)
        × (t.runs ≡ insert run.run_id (record run { state = RunState.running }) s.runs)
        × Advance s t
  unfolding start_run put_run publish_run Store.mark_started Store.set_status
  start_run-Advance runtime run s h found queued =
      let (stored, kept, agree) = Matched-lookup Agree run.run_id run h found in
      rw kept (
        _,
        refl,
        refl,
        refl,
        refl,
        refl,
        Advance-update s _ run.run_id run (record run { state = RunState.running })
            (record stored { status = RunState.running }) h found (rw queued Moves.starts)
            (refl, refl) refl refl,
      )

  pub ended_run-IsTerminal :
      (how : Ended K) (run : SimulationRun C F) → IsTerminal ((ended_run K how run).state)
  unfolding ended_run
  ended_run-IsTerminal (returned state) run = tt
  ended_run-IsTerminal cancelled run = tt
  ended_run-IsTerminal aborted run = tt
  ended_run-IsTerminal (raised message) run = tt

  pub ended_run-run_id :
      (how : Ended K) (run : SimulationRun C F) → (ended_run K how run).run_id ≡ run.run_id
  unfolding ended_run
  ended_run-run_id (returned state) run = refl
  ended_run-run_id cancelled run = refl
  ended_run-run_id aborted run = refl
  ended_run-run_id (raised message) run = refl

  abbrev pub ended_message : SimulationRun C F → Json F
  ended_message run =
      event_message simulation_ended (ended_payload run.run_id (state_text run.state) run.error)

  -- The end of a run is told in the log, and its frames are dropped.
  abbrev pub Finished : SimulationServer C F → SimulationServer C F → SimulationRun C F → Type 0
  Finished s t run =
      (t.run_queue ≡ s.run_queue)
      × (t.runs ≡ insert run.run_id (record run { high_score_frames = [] }) s.runs)
      × (told_runs (log t.events) ≡ told_runs (log s.events) ++ run.run_id ∷ [])
      × (IsTelling s.events → IsTelling t.events)

  -- A run of a sound server is finished: it is stored and told in one event, its frames dropped.
  finish_run-Advance :
      (run run' : SimulationRun C F) (s : SimulationServer C F)
      → IsSound s
      → lookup run'.run_id s.runs ≡ some run
      → Moves run.state run'.state
      → (t : SimulationServer C F) × (finish_run run' s ≡ ok t)
        × (t.events.pending ≡ s.events.pending ++ ended_message run' ∷ [])
        × Finished s t run'
        × Advance s t
  unfolding finish_run put_run publish_event Store.finish_run
  finish_run-Advance run run' s h found move =
      let (stored, kept, agree) = Matched-lookup Agree run'.run_id run h found in
      rw kept (
        _,
        refl,
        refl,
        (
          refl,
          refl,
          publish_event-told s.events run'.run_id (state_text run'.state) run'.error,
          publish_event-IsTelling s.events
              (ended_payload run'.run_id (state_text run'.state) run'.error),
        ),
        Advance-update s _ run'.run_id run (record run' { high_score_frames = [] }) _ h found move
            (refl, refl) refl refl,
      )

  -- What telemetry is told changes nothing else.
  offer_end-Advance :
      (how : Ended K) (run : SimulationRun C F) (s t : SimulationServer C F)
      → Finished s t run
      → Advance s t
      → (offer_end K how run (record t { worker = none })).events ≡ t.events
        × (offer_end K how run (record t { worker = none })).worker ≡ none
        × Finished s (offer_end K how run (record t { worker = none })) run
        × Advance s (offer_end K how run (record t { worker = none }))
  unfolding offer_end publish_run
  offer_end-Advance (returned state) run s t f a =
      (refl, refl, f, record { moves = a.moves; sound = a.sound })
  offer_end-Advance cancelled run s t f a =
      (refl, refl, f, record { moves = a.moves; sound = a.sound })
  offer_end-Advance aborted run s t f a =
      (refl, refl, f, record { moves = a.moves; sound = a.sound })
  offer_end-Advance (raised message) run s t f a =
      (refl, refl, f, record { moves = a.moves; sound = a.sound })

  -- A run that moves to a terminal state is told in one event, and the worker is free.
  pub end_run-Finished :
      (how : Ended K) (run : SimulationRun C F) (s : SimulationServer C F)
      → IsSound s
      → lookup run.run_id s.runs ≡ some run
      → Moves run.state ((ended_run K how run).state)
      → (t : SimulationServer C F) × (end_run K how run s ≡ ok t)
        × (t.events.pending ≡ s.events.pending ++ ended_message (ended_run K how run) ∷ [])
        × (t.worker ≡ none)
        × Finished s t (ended_run K how run)
        × Advance s t
  unfolding end_run
  end_run-Finished how run s h found move =
      let run' : SimulationRun C F = ended_run K how run in
      let (t, finished, told, facts, advance) =
        finish_run-Advance run run' s h (rw (ended_run-run_id how run) found) move in
      let (events, free, facts', advance') = offer_end-Advance how run' s t facts advance in
      rw finished (_, refl, ap (λ e. e.pending) events ∙ told, free, facts', advance')

  -- The run of an id, and what the store has of it, are in a state.
  pub record HasState (s : SimulationServer C F) (k : String) (state : RunState) : Type 0 where
    pub run : SimulationRun C F
    pub stored : StoredRun C F
    pub found : lookup k s.runs ≡ some run
    pub is : run.state ≡ state
    pub kept : lookup k s.store.runs ≡ some stored
    pub stored_is : stored.status ≡ state

  HasState-insert :
      (s t : SimulationServer C F) (k : String) (run : SimulationRun C F) (state : RunState)
      → IsSound t
      → t.runs ≡ insert k run s.runs
      → run.state ≡ state
      → HasState t k state
  HasState-insert s t k run state h runs is =
      let found : lookup k t.runs ≡ some run = ap (lookup k) runs ∙ lookup-insert k run s.runs in
      let (stored, kept, agree) = Matched-lookup Agree k run h found in
      record {
        run = run;
        stored = stored;
        found = found;
        is = is;
        kept = kept;
        stored_is = agree.1 ∙ is;
      }

  -- The state that the end of an execution leads to.
  abbrev pub outcome_state : Ended K → RunState
  outcome_state (returned state) = RunState.completed
  outcome_state cancelled = RunState.cancelled
  outcome_state aborted = RunState.cancelled
  outcome_state (raised message) = RunState.failed

  outcome_state-IsTerminal : (how : Ended K) → IsTerminal (outcome_state how)
  outcome_state-IsTerminal (returned state) = tt
  outcome_state-IsTerminal cancelled = tt
  outcome_state-IsTerminal aborted = tt
  outcome_state-IsTerminal (raised message) = tt

  ended_run-state :
      (how : Ended K) (run : SimulationRun C F) → (ended_run K how run).state ≡ outcome_state how
  unfolding ended_run
  ended_run-state (returned state) run = refl
  ended_run-state cancelled run = refl
  ended_run-state aborted run = refl
  ended_run-state (raised message) run = refl

  -- However the execution of an active run of a sound server ends, the run is afterwards completed if
  -- the simulator returned, failed if it raised and cancelled otherwise, in the server and in the store
  -- in memory; one event more is queued, the one that tells this end, and the worker is free. No error
  -- is raised.
  pub end_run-Advance :
      (how : Ended K) (run : SimulationRun C F) (s : SimulationServer C F)
      → IsSound s
      → lookup run.run_id s.runs ≡ some run
      → IsActive run.state
      → (t : SimulationServer C F) × (end_run K how run s ≡ ok t)
        × HasState t run.run_id (outcome_state how)
        × IsTerminal (outcome_state how)
        × (t.events.pending ≡ s.events.pending ++ ended_message (ended_run K how run) ∷ [])
        × (t.worker ≡ none)
        × Advance s t
  end_run-Advance how run s h found active =
      let run' : SimulationRun C F = record (ended_run K how run) { high_score_frames = [] } in
      let terminal = ended_run-IsTerminal how run in
      let (t, finished, told, free, facts, advance) =
        end_run-Finished how run s h found (Moves.ends active terminal) in
      let ended = facts.1 ∙ ap (λ k. insert k run' s.runs) (ended_run-run_id how run) in
      (
        t,
        finished,
        HasState-insert s t run.run_id run' (outcome_state how) advance.sound ended
            (ended_run-state how run),
        outcome_state-IsTerminal how,
        told,
        free,
        advance,
      )

  -- A queued head of the queue runs, held by the worker.
  pub take_run-start :
      (runtime run_id : String) (rest : List String) (run : SimulationRun C F)
      (s : SimulationServer C F)
      → IsSound s
      → lookup run_id s.runs ≡ some run
      → run.state ≡ RunState.queued
      → (t : SimulationServer C F) × (take_run K runtime run_id rest s ≡ ok t)
        × (t.worker ≡ some run_id)
        × (t.run_queue ≡ rest)
        × (t.events ≡ s.events)
        × (t.runs ≡ insert run_id (record run { state = RunState.running }) s.runs)
        × Advance s t
  unfolding take_run held_run
  take_run-start runtime run_id rest run s h found queued =
      let (stored, kept, agree) = Matched-lookup Agree run_id run h found in
      let own : lookup run.run_id s.runs ≡ some run =
        subst (λ k. lookup k s.runs ≡ some run) (sym agree.0) found in
      let (t, started, held, queue, events, runs, advance) =
        start_run-Advance runtime run (record s { run_queue = rest }) h own queued in
      let other : in_state run.state (RunState.cancelled ∷ []) ≡ false =
        ap (λ state. in_state state (RunState.cancelled ∷ [])) queued in
      rw (found, other)
        (
          t,
          started,
          held ∙ ap some agree.0,
          queue,
          events,
          runs ∙ ap (λ k. insert k (record run { state = RunState.running }) s.runs) agree.0,
          record { moves = advance.moves; sound = advance.sound },
        )

  -- The worker takes the head of the queue of a sound server, a run that is queued or was cancelled
  -- meanwhile. A queued run is afterwards running, in the server and in the store, and held by the
  -- worker; of a cancelled one nothing changes but the queue. The rest of the queue stays.
  pub take_run-Advance :
      (runtime run_id : String) (rest : List String) (run : SimulationRun C F)
      (s : SimulationServer C F)
      → IsSound s
      → lookup run_id s.runs ≡ some run
      → (run.state ≡ RunState.queued) ⊎ (run.state ≡ RunState.cancelled)
      → (t : SimulationServer C F) × (take_run K runtime run_id rest s ≡ ok t)
        × (t.run_queue ≡ rest)
        × ((run.state ≡ RunState.queued
              × t.worker ≡ some run_id
              × HasState t run_id RunState.running)
            ⊎ (run.state ≡ RunState.cancelled × t ≡ record s { run_queue = rest }))
        × Advance s t
  unfolding take_run held_run
  take_run-Advance runtime run_id rest run s h found (inr dropped) =
      rw (found, dropped)
        (_, refl, refl, inr (refl, refl), record { moves = (Advance-refl s h).moves; sound = h })
  take_run-Advance runtime run_id rest run s h found (inl queued) =
      let (t, started, held, queue, events, runs, advance) =
        take_run-start runtime run_id rest run s h found queued in
      let running =
        HasState-insert s t run_id (record run { state = RunState.running }) RunState.running
          advance.sound runs refl in
      (t, started, queue, inl (queued, held, running), advance)
