-- ===== src/Server/Execution/Progress.antt =====
-- The progress of the run that the worker executes.

use mathlib.Core.Path.{subst}
use snake_lab.Base.{◌≡◌, refl, none, some, List, [], ◌∷◌, ◌++◌, inl, inr, Option-cases}
use snake_lab.Base.Dicts.{lookup, Matched-lookup, lookup-insert}
use snake_lab.Base.Results.{ok, err, ok_unique}
use snake_lab.Server.Results.{EpisodeResult, SimulationState}
use snake_lab.Server.Run.{SimulationRun}
use snake_lab.Server.Store
use snake_lab.Server.Store.{StoreError}
use snake_lab.Server.Serving.{Served, Served-stay}
use snake_lab.Server.Lab.{Same}
use snake_lab.Server.View.{view, view-unmoved}
use snake_lab.Server.Service.{SimulationServer, Failure, put_run}
use snake_lab.Server.Handlers.{Configurations}
use snake_lab.Server.Worker.{progressed_run, update_progress}
use snake_lab.Server.Transitions.{stays, Agree, IsSound, Advance, Advance-update}

module _ {F : Type 0} (K : Configurations F) where
  open K use {C}

  -- A completed episode of a run of a sound server, whose episodes the store keeps, is reported without
  -- an error: the store has the episode last among those of the run, no run changes its state, and the
  -- worker, the queue and the events stay.
  pub update_progress-Advance :
      (episode : EpisodeResult F) (state : SimulationState F) (run : SimulationRun C F)
      (s : SimulationServer C F) (results : List (EpisodeResult F))
      → IsSound s
      → lookup run.run_id s.runs ≡ some run
      → lookup run.run_id s.store.episodes ≡ some results
      → (t : SimulationServer C F) × (update_progress K episode state run s ≡ ok t)
        × (lookup run.run_id t.store.episodes ≡ some (results ++ episode ∷ []))
        × (t.worker ≡ s.worker)
        × (t.run_queue ≡ s.run_queue)
        × (t.events ≡ s.events)
        × Same (view s).states (view t).states
        × Advance s t
  unfolding update_progress progressed_run put_run Store.record_episode
  update_progress-Advance episode state run s results h found kept_results =
      let (stored, kept, agree) = Matched-lookup Agree run.run_id run h found in
      rw (kept_results, kept)
        (
          _,
          refl,
          lookup-insert run.run_id (results ++ episode ∷ []) s.store.episodes,
          refl,
          refl,
          refl,
          view-unmoved s (put_run (progressed_run K episode state run) s) run.run_id run
              (progressed_run K episode state run) found refl refl,
          Advance-update s _ run.run_id run (progressed_run K episode state run) _ h found stays
              (refl, agree.1) refl refl,
        )

  update_progress-unknown :
      (episode : EpisodeResult F) (state : SimulationState F) (run : SimulationRun C F)
      (s : SimulationServer C F)
      → lookup run.run_id s.store.episodes ≡ none
      → update_progress K episode state run s ≡ err (Failure.store_failure StoreError.key_error)
  unfolding update_progress progressed_run Store.record_episode
  update_progress-unknown episode state run s unknown = rw unknown refl

  update_progress-known :
      (episode : EpisodeResult F) (state : SimulationState F) (run : SimulationRun C F)
      (s : SimulationServer C F) (results : List (EpisodeResult F))
      → IsSound s
      → lookup run.run_id s.runs ≡ some run
      → lookup run.run_id s.store.episodes ≡ some results
      → (t : SimulationServer C F) × (update_progress K episode state run s ≡ ok t) × Served s t
  unfolding update_progress progressed_run put_run Store.record_episode
  update_progress-known episode state run s results h found kept_results =
      let (stored, kept, agree) = Matched-lookup Agree run.run_id run h found in
      rw (kept_results, kept)
        (
          _,
          refl,
          Served-stay s _ run.run_id run (progressed_run K episode state run) _ h found refl
              (refl, agree.1) refl refl refl refl refl,
        )

  -- An episode that is reported moves no run.
  pub update_progress-Served :
      (episode : EpisodeResult F) (state : SimulationState F) (run : SimulationRun C F)
      (s t : SimulationServer C F)
      → IsSound s
      → lookup run.run_id s.runs ≡ some run
      → update_progress K episode state run s ≡ ok t
      → Served s t
  update_progress-Served episode state run s t h found done =
      elim (Option-cases (lookup run.run_id s.store.episodes)) [
        | inl unknown ↦ absurd (cc (update_progress-unknown episode state run s unknown, done))
        | inr (results, kept) ↦
            let (u, reported, served) =
              update_progress-known episode state run s results h found kept in
            subst (λ x. Served s x) (ok_unique _ u t reported done) served
      ]
