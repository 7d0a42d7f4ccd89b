-- ===== src/Server/Execution/Served.antt =====
-- What the worker does to a run is a step of the lab.
use Prim.Native.String.{String}
use snake_lab.Base.{◌≡◌, refl, sym, ap, ◌∙◌, none, some, List, [], ◌∷◌, ◌++◌}
use mathlib.Core.Path.{subst}
use snake_lab.Zmq.Events.Delivery.{IsTelling}
use snake_lab.Base.Dicts.{lookup, insert}
use snake_lab.Base.Results.{ok}
use snake_lab.Server.Run.{RunState, SimulationRun}
use snake_lab.Server.Service.{SimulationServer}
use snake_lab.Server.Handlers.{Configurations}
use snake_lab.Server.Worker.{Ended, held_run, take_run, ended_run, end_run}
use snake_lab.Server.Lab.{IsActive, skips, takes, finishes}
use snake_lab.Server.View.{state_of, view-Puts, told_runs, log}
use snake_lab.Server.Transitions.{Moves, IsSound, Advance-refl}
use snake_lab.Server.Serving.{Served}
use snake_lab.Server.Execution.{
  ended_run-IsTerminal, ended_run-run_id, end_run-Finished, take_run-start,
}

module _ {F : Type 0} (K : Configurations F) where
  open K use {C}

  -- A queued head of the queue is taken by the worker that is free.
  pub take_run-takes :
      (runtime run_id : String) (rest : List String) (run : SimulationRun C F)
      (s : SimulationServer C F)
      → IsSound s
      → s.worker ≡ none
      → s.run_queue ≡ run_id ∷ rest
      → lookup run_id s.runs ≡ some run
      → run.state ≡ RunState.queued
      → (t : SimulationServer C F) × (take_run K runtime run_id rest s ≡ ok t) × Served s t
  take_run-takes runtime run_id rest run s h free queue found queued =
      let (t, started, held, left, events, runs, advance) =
        take_run-start K runtime run_id rest run s h found queued in
      (
        t,
        started,
        record {
          advance = advance;
          step =
              takes run_id (ap state_of found ∙ ap some queued)
                (view-Puts s t run_id (record run { state = RunState.running }) runs)
                (queue ∙ ap (λ q. run_id ∷ q) (sym left)) free held
                (ap (λ e. told_runs (log e)) events);
          telling = λ h. subst IsTelling (sym events) h;
        },
      )

  -- A cancelled head of the queue is skipped.
  pub take_run-skips :
      (runtime run_id : String) (rest : List String) (run : SimulationRun C F)
      (s : SimulationServer C F)
      → IsSound s
      → s.run_queue ≡ run_id ∷ rest
      → lookup run_id s.runs ≡ some run
      → run.state ≡ RunState.cancelled
      → (t : SimulationServer C F) × (take_run K runtime run_id rest s ≡ ok t) × Served s t
  unfolding take_run held_run
  take_run-skips runtime run_id rest run s h queue found dropped =
      rw (found, dropped)
        (
          _,
          refl,
          record {
            advance = record { moves = (Advance-refl s h).moves; sound = h };
            step = skips run_id (ap state_of found ∙ ap some dropped) (λ j. refl) queue refl refl;
            telling = λ h. h;
          },
        )

  -- The run that the worker executes finishes, however its execution ends.
  pub end_run-Served :
      (how : Ended K) (run : SimulationRun C F) (s : SimulationServer C F)
      → IsSound s
      → s.worker ≡ some run.run_id
      → lookup run.run_id s.runs ≡ some run
      → IsActive run.state
      → (t : SimulationServer C F) × (end_run K how run s ≡ ok t)
        × (t.run_queue ≡ s.run_queue)
        × (t.worker ≡ none)
        × Served s t
  end_run-Served how run s h busy found active =
      let run' : SimulationRun C F = ended_run K how run in
      let terminal = ended_run-IsTerminal K how run in
      let (t, finished, told, free, (queue, runs, log_told, telling), advance) =
        end_run-Finished K how run s h found (Moves.ends active terminal) in
      let same = ended_run-run_id K how run in
      (
        t,
        finished,
        queue,
        free,
        record {
          advance = advance;
          step =
              finishes run.run_id run.state run'.state (ap state_of found) active terminal
                (view-Puts s t run.run_id (record run' { high_score_frames = [] })
                  (runs ∙ ap (λ k. insert k (record run' { high_score_frames = [] }) s.runs) same))
                queue busy free (log_told ∙ ap (λ k. told_runs (log s.events) ++ k ∷ []) same);
          telling = telling;
        },
      )
