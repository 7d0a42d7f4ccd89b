-- ===== src/Server/Execution/Shutdown.antt =====
-- The shutdown: the worker's run is aborted, then the queue is emptied.
use Prim.Native.String.{String}
use mathlib.Core.Path.{subst}
use text.Mathlib.TextPositions.{eq_refl}
use snake_lab.Base.{
  ◌≡◌, refl, sym, ap, ◌∙◌, true, false, none, some, List, [], ◌∷◌, ◌++◌, ◌||◌, ◌⊎◌, Option-cases,
  if◌then◌else◌, inl, inr,
}
use snake_lab.Base.Dicts.{text_eq, lookup, Matched-lookup}
use snake_lab.Zmq.Events.Delivery.{IsTelling}
use snake_lab.Base.Members.{mem}
use snake_lab.Base.Results.{ok}
use snake_lab.Server.Run.{RunState, SimulationRun}
use snake_lab.Server.Service.{SimulationServer, in_state}
use snake_lab.Server.Handlers.{Configurations}
use snake_lab.Server.Worker.{
  held_run, aborted, ended_run, drop_run, drop_runs, abort_worker, shutdown_worker,
}
use snake_lab.Server.Lab.{Lab, Puts, Step, Steps, skips, drops, done, more, then_Steps}
use snake_lab.Server.Lab.States.{waiting_cases}
use snake_lab.Server.Lab.Invariant.{IsLab}
use snake_lab.Server.Lab.Preservation.{Steps-IsLab}
use snake_lab.Server.View.{view, state_of, view-Puts, told_runs, log, held_state, held-IsActive}
use snake_lab.Server.Transitions.{Moves, Agree, IsSound}
use snake_lab.Server.Serving.{Served}
use snake_lab.Server.Execution.{end_run-Finished}
use snake_lab.Server.Execution.Served.{end_run-Served}

-- The head of the queue of a lab is a run that waits.
pub head_waits :
    (k : String) (rest : List String) (a : Lab)
    → IsLab a
    → a.queue ≡ k ∷ rest
    → (a.states k ≡ some RunState.queued) ⊎ (a.states k ≡ some RunState.cancelled)
head_waits k rest a h queue =
    waiting_cases (a.states k)
      ((h.each k).waiting (ap (mem k) queue ∙ ap (λ b. b || mem k rest) (eq_refl k)))

module _ {C F : Type 0} where
  -- The run stands under its own id.
  pub own_id :
      (k : String) (run : SimulationRun C F) (s : SimulationServer C F)
      → IsSound s
      → lookup k s.runs ≡ some run
      → run.run_id ≡ k
  own_id k run s h found = let (stored, kept, agree) = Matched-lookup Agree k run h found in agree.0

  -- A sound server, the lab it amounts to led there by steps.
  pub record Stepped (s t : SimulationServer C F) : Type 0 where
    pub sound : IsSound t
    pub steps : Steps (view s) (view t)
    pub telling : IsTelling s.events → IsTelling t.events

  pub Served-Stepped : (s t : SimulationServer C F) → Served s t → Stepped s t
  Served-Stepped s t h = record {
    sound = h.advance.sound;
    steps = more h.step done;
    telling = h.telling;
  }

  then_Stepped : (s t u : SimulationServer C F) → Stepped s t → Stepped t u → Stepped s u
  then_Stepped s t u h g = record {
    sound = g.sound;
    steps = then_Steps h.steps g.steps;
    telling = λ x. g.telling (h.telling x);
  }

module _ {F : Type 0} (K : Configurations F) where
  open K use {C}

  -- A run that was cancelled in the queue leaves it.
  drop_run-cancelled :
      (k : String) (rest : List String) (run : SimulationRun C F) (s : SimulationServer C F)
      → IsSound s
      → s.worker ≡ none
      → s.run_queue ≡ k ∷ rest
      → lookup k s.runs ≡ some run
      → run.state ≡ RunState.cancelled
      → (t : SimulationServer C F) × (drop_run K k (record s { run_queue = rest }) ≡ ok t)
        × (t.run_queue ≡ rest)
        × (t.worker ≡ none)
        × Stepped s t
  unfolding drop_run held_run
  drop_run-cancelled k rest run s h free queue found was =
      let own : in_state run.state (RunState.cancelled ∷ []) ≡ true =
        ap (λ state. in_state state (RunState.cancelled ∷ [])) was in
      rw (found, own)
        (
          _,
          refl,
          refl,
          free,
          record {
            sound = h;
            steps =
                more (skips k (ap state_of found ∙ ap some was) (λ j. refl) queue refl refl) done;
            telling = λ x. x;
          },
        )

  -- A run that waits is cancelled, and its end is told.
  drop_run-queued :
      (k : String) (rest : List String) (run : SimulationRun C F) (s : SimulationServer C F)
      → IsSound s
      → s.worker ≡ none
      → s.run_queue ≡ k ∷ rest
      → lookup k s.runs ≡ some run
      → run.state ≡ RunState.queued
      → (t : SimulationServer C F) × (drop_run K k (record s { run_queue = rest }) ≡ ok t)
        × (t.run_queue ≡ rest)
        × (t.worker ≡ none)
        × Stepped s t
  unfolding drop_run held_run ended_run
  drop_run-queued k rest run s h free queue found was =
      let same = own_id k run s h found in
      let own : lookup run.run_id s.runs ≡ some run =
        subst (λ j. lookup j s.runs ≡ some run) (sym same) found in
      let other : in_state run.state (RunState.cancelled ∷ []) ≡ false =
        ap (λ state. in_state state (RunState.cancelled ∷ [])) was in
      let (t, finished, told, idle, (left, runs, log_told, telling), advance) =
        end_run-Finished K (aborted) run (record s { run_queue = rest }) h own
          (rw was Moves.drops) in
      let between : Lab = record (view t) { queue = k ∷ rest } in
      let puts =
        view-Puts s t run.run_id (record run { state = RunState.cancelled; high_score_frames = [] })
          runs in
      let put : Puts k RunState.cancelled (view s).states (view t).states =
        subst (λ i. Puts i RunState.cancelled (view s).states (view t).states) same puts in
      let drop : Step (view s) between =
        drops k (ap state_of found ∙ ap some was) put (sym queue) (idle ∙ sym free)
          (log_told ∙ ap (λ i. told_runs (log s.events) ++ i ∷ []) same) in
      let gone : (view t).states k ≡ some RunState.cancelled =
        put k ∙ ap (λ b. if b then some RunState.cancelled else (view s).states k) (eq_refl k) in
      let skip : Step between (view t) =
        skips k gone (λ j. refl) (ap (λ q. k ∷ q) (sym left)) refl refl in
      rw (found, other)
        (
          t,
          finished,
          left,
          idle,
          record { sound = advance.sound; steps = more drop (more skip done); telling = telling },
        )

  drop_run-Stepped :
      (k : String) (rest : List String) (s : SimulationServer C F)
      → IsSound s
      → IsLab (view s)
      → s.worker ≡ none
      → s.run_queue ≡ k ∷ rest
      → (t : SimulationServer C F) × (drop_run K k (record s { run_queue = rest }) ≡ ok t)
        × (t.run_queue ≡ rest)
        × (t.worker ≡ none)
        × Stepped s t
  drop_run-Stepped k rest s h lab free queue = elim (head_waits k rest (view s) lab queue) [
    | inl waits ↦
        let (run, found, was) = held_state (lookup k s.runs) RunState.queued waits in
        drop_run-queued k rest run s h free queue found was
    | inr dropped ↦
        let (run, found, was) = held_state (lookup k s.runs) RunState.cancelled dropped in
        drop_run-cancelled k rest run s h free queue found was
  ]

  drop_runs-Stepped :
      (ks : List String) (s : SimulationServer C F)
      → IsSound s
      → IsLab (view s)
      → s.worker ≡ none
      → s.run_queue ≡ ks
      → (t : SimulationServer C F) × (drop_runs K ks s ≡ ok t)
        × (t.run_queue ≡ [])
        × (t.worker ≡ none)
        × Stepped s t
  unfolding drop_runs
  drop_runs-Stepped [] s h lab free queue =
      (s, refl, queue, free, record { sound = h; steps = done; telling = λ x. x })
  drop_runs-Stepped (k ∷ rest) s h lab free queue =
      let (t, dropped, left, idle, first) = drop_run-Stepped k rest s h lab free queue in
      let (u, emptied, empty, still, others) =
        drop_runs-Stepped rest t first.sound (Steps-IsLab first.steps lab) idle left in
      rw dropped (u, emptied, empty, still, then_Stepped s t u first others)

  -- The run that the worker executes is aborted.
  abort_worker-Stepped :
      (s : SimulationServer C F)
      → IsSound s
      → IsLab (view s)
      → (t : SimulationServer C F) × (abort_worker K s.worker s ≡ ok t)
        × (t.worker ≡ none)
        × Stepped s t
  unfolding abort_worker held_run
  abort_worker-Stepped s h lab = elim (Option-cases s.worker) [
    | inl free ↦ (
      s,
      ap (λ w. abort_worker K w s) free,
      free,
      record { sound = h; steps = done; telling = λ x. x },
    )
    | inr (k, busy) ↦
        let (run, found, active) = held-IsActive (lookup k s.runs) ((lab.each k).working busy) in
        let same = own_id k run s h found in
        let (t, aborting, left, idle, served) =
          end_run-Served K aborted run s h (busy ∙ ap some (sym same))
            (subst (λ j. lookup j s.runs ≡ some run) (sym same) found) active in
        let here : abort_worker K (some k) s ≡ ok t = rw found aborting in
        (t, ap (λ w. abort_worker K w s) busy ∙ here, idle, Served-Stepped s t served)
  ]

  -- The shutdown of a server whose lab is well formed returns: the worker is free, the queue is empty,
  -- and the lab has come there by its steps.
  pub shutdown_worker-Stepped :
      (s : SimulationServer C F)
      → IsSound s
      → IsLab (view s)
      → (t : SimulationServer C F) × (shutdown_worker K s ≡ ok t)
        × (t.run_queue ≡ [])
        × (t.worker ≡ none)
        × Stepped s t
  unfolding shutdown_worker
  shutdown_worker-Stepped s h lab =
      let (t, over, idle, first) = abort_worker-Stepped s h lab in
      let (u, emptied, empty, still, others) =
        drop_runs-Stepped t.run_queue t first.sound (Steps-IsLab first.steps lab) idle refl in
      rw over (u, emptied, empty, still, then_Stepped s t u first others)
