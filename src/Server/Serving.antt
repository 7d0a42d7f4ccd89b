-- ===== src/Server/Serving.antt =====
-- What a request may come to: an advance of the runs that is a step of the lab, or an answered error.
use Prim.Native.String.{String}
use text.Mathlib.Text.{◌==◌}
use snake_lab.Base.{
  if◌then◌else◌, ◌≡◌, refl, sym, ap, ◌∙◌, Bool, true, false, none, some, [], ◌∷◌, ◌++◌,
}
use snake_lab.Base.Dicts.{lookup, insert}
use snake_lab.Base.Results.{Result, ok, err, ◌>>=◌, require, map_err}
use snake_lab.Json.{Json}
use snake_lab.Server.Run.{RunState, SimulationRun}
use snake_lab.Server.Store.{StoredRun, StoreError}
use snake_lab.Server.Handlers.{Configurations}
use snake_lab.Zmq.Events.Delivery.{IsTelling}
use mathlib.Core.Path.{subst}
use snake_lab.Server.Service.{SimulationServer, Failure}
use snake_lab.Server.Lab.{IsActive, Step, rests, admits, steers, drops}
use snake_lab.Server.View.{view, state_of, view-Puts, view-unmoved, told_runs, log}
use snake_lab.Server.Transitions.{
  Moves, Agree, IsSound, Advance, Advance-refl, Advance-update, Advance-keep, Advance-create,
}
use snake_lab.Zmq.Protocol.{ProtocolError}

module _ {C F : Type 0} where
  pub record Served (s t : SimulationServer C F) : Type 0 where
    pub advance : Advance s t
    pub step : Step (view s) (view t)
    pub telling : IsTelling s.events → IsTelling t.events

  same-IsTelling :
      (s t : SimulationServer C F) → t.events ≡ s.events → IsTelling s.events → IsTelling t.events
  same-IsTelling s t events h = subst IsTelling (sym events) h

  pub Served-refl : (s : SimulationServer C F) → IsSound s → Served s s
  Served-refl s h = record {
    advance = Advance-refl s h;
    step = rests (λ j. refl) refl refl refl;
    telling = λ h. h;
  }

  pub Served-steer :
      (s t : SimulationServer C F) (k : String) (run run' : SimulationRun C F)
      (stored : StoredRun C F)
      → IsSound s
      → lookup k s.runs ≡ some run
      → Moves run.state run'.state
      → IsActive run.state
      → IsActive run'.state
      → Agree k run' stored
      → t.runs ≡ insert k run' s.runs
      → t.store.runs ≡ insert k stored s.store.runs
      → t.run_queue ≡ s.run_queue
      → t.worker ≡ s.worker
      → t.events ≡ s.events
      → Served s t
  Served-steer s t k run run' stored h found move was is agree runs kept queue worker events =
      record {
        advance = Advance-update s t k run run' stored h found move agree runs kept;
        step =
            steers k run.state run'.state (ap state_of found) was is (view-Puts s t k run' runs)
              queue worker (ap (λ e. told_runs (log e)) events);
        telling = same-IsTelling s t events;
      }

  pub Served-drop :
      (s t : SimulationServer C F) (k : String) (run run' : SimulationRun C F)
      (stored : StoredRun C F)
      → IsSound s
      → lookup k s.runs ≡ some run
      → run.state ≡ RunState.queued
      → run'.state ≡ RunState.cancelled
      → Agree k run' stored
      → t.runs ≡ insert k run' s.runs
      → t.store.runs ≡ insert k stored s.store.runs
      → t.run_queue ≡ s.run_queue
      → t.worker ≡ s.worker
      → told_runs (log t.events) ≡ told_runs (log s.events) ++ k ∷ []
      → (IsTelling s.events → IsTelling t.events)
      → Served s t
  Served-drop s t k run run' stored h found was is agree runs kept queue worker told telling =
      record {
        advance =
            Advance-update s t k run run' stored h found (rw (was, is) Moves.drops) agree runs kept;
        step =
            drops k (ap state_of found ∙ ap some was)
              (λ j.
                view-Puts s t k run' runs j
                ∙ ap (λ r. if k == j then some r else state_of (lookup j s.runs)) is)
              queue worker told;
        telling = telling;
      }

  -- A run changes in what the store does not hold, and keeps its state.
  pub Served-keep :
      (s t : SimulationServer C F) (k : String) (run run' : SimulationRun C F)
      (stored : StoredRun C F)
      → IsSound s
      → lookup k s.runs ≡ some run
      → lookup k s.store.runs ≡ some stored
      → run'.state ≡ run.state
      → Agree k run' stored
      → t.runs ≡ insert k run' s.runs
      → t.store.runs ≡ s.store.runs
      → t.run_queue ≡ s.run_queue
      → t.worker ≡ s.worker
      → t.events ≡ s.events
      → Served s t
  Served-keep s t k run run' stored h found kept same agree runs store queue worker events =
      record {
        advance =
            Advance-keep s t k run run' stored h found kept (rw same Moves.stays) agree runs store;
        step =
            rests (view-unmoved s t k run run' found same runs) queue worker
              (ap (λ e. told_runs (log e)) events);
        telling = same-IsTelling s t events;
      }

  -- A run changes, in the store too, and keeps its state.
  pub Served-stay :
      (s t : SimulationServer C F) (k : String) (run run' : SimulationRun C F)
      (stored : StoredRun C F)
      → IsSound s
      → lookup k s.runs ≡ some run
      → run'.state ≡ run.state
      → Agree k run' stored
      → t.runs ≡ insert k run' s.runs
      → t.store.runs ≡ insert k stored s.store.runs
      → t.run_queue ≡ s.run_queue
      → t.worker ≡ s.worker
      → t.events ≡ s.events
      → Served s t
  Served-stay s t k run run' stored h found same agree runs kept queue worker events = record {
    advance = Advance-update s t k run run' stored h found (rw same Moves.stays) agree runs kept;
    step =
        rests (view-unmoved s t k run run' found same runs) queue worker
          (ap (λ e. told_runs (log e)) events);
    telling = same-IsTelling s t events;
  }

  pub Served-create :
      (s t : SimulationServer C F) (k : String) (run : SimulationRun C F) (stored : StoredRun C F)
      → IsSound s
      → lookup k s.runs ≡ none
      → run.state ≡ RunState.queued
      → Agree k run stored
      → t.runs ≡ insert k run s.runs
      → t.store.runs ≡ insert k stored s.store.runs
      → t.run_queue ≡ s.run_queue ++ k ∷ []
      → t.worker ≡ s.worker
      → t.events ≡ s.events
      → Served s t
  Served-create s t k run stored h missing new agree runs kept queue worker events = record {
    advance = Advance-create s t k run stored h missing new agree runs kept;
    step =
        admits k (ap state_of missing)
          (λ j.
            view-Puts s t k run runs j
            ∙ ap (λ r. if k == j then some r else state_of (lookup j s.runs)) new)
          queue worker (ap (λ e. told_runs (log e)) events);
    telling = same-IsTelling s t events;
  }

module _ {F : Type 0} (K : Configurations F) where
  open K use {C}

  -- A configuration that is resolved, but whose text for the hash json.dumps refuses.
  pub record IsUnhashed : Type 0 where
    pub config : Json F
    pub resolved : C
    pub resolves : K.resolve config ≡ ok resolved
    pub no_hash : K.config_hash resolved ≡ none

  -- What a handler may come to: an advance, an error that is answered, or the ValueError of the hash of
  -- a configuration.
  unfoldable pub IsFine :
      SimulationServer C F → Result Failure (Json F × SimulationServer C F) → Type 0
  IsFine s (ok (response, t)) = Served s t
  IsFine s (err (Failure.protocol_failure e)) = Unit
  IsFine s (err (Failure.store_failure StoreError.hash_error)) = IsUnhashed
  IsFine s (err (Failure.store_failure StoreError.key_error)) = ⊥
  IsFine s (err (Failure.store_failure StoreError.value_error)) = ⊥

abbrev pub IsAnswerable : {A : Type 0} → Result Failure A → Type 0
IsAnswerable (ok a) = Unit
IsAnswerable (err (Failure.protocol_failure e)) = Unit
IsAnswerable (err (Failure.store_failure e)) = ⊥

pub IsFine-bind :
    {F A : Type 0} (K : Configurations F) (s : SimulationServer K.C F) (m : Result Failure A)
    (k : A → Result Failure (Json F × SimulationServer K.C F))
    → IsAnswerable m
    → ((a : A) → m ≡ ok a → IsFine K s (k a))
    → IsFine K s (m >>= k)
unfolding IsFine
IsFine-bind K s (ok a) k h f = f a refl
IsFine-bind K s (err (Failure.protocol_failure e)) k h f = tt
IsFine-bind K s (err (Failure.store_failure e)) k h f = absurd h

pub IsAnswerable-bind :
    {A B : Type 0} (m : Result Failure A) (k : A → Result Failure B)
    → IsAnswerable m
    → ((a : A) → m ≡ ok a → IsAnswerable (k a))
    → IsAnswerable (m >>= k)
IsAnswerable-bind (ok a) k h f = f a refl
IsAnswerable-bind (err (Failure.protocol_failure e)) k h f = tt
IsAnswerable-bind (err (Failure.store_failure e)) k h f = absurd h

pub IsAnswerable-require :
    (b : Bool) (e : ProtocolError) → IsAnswerable (require b (Failure.protocol_failure e))
IsAnswerable-require true e = tt
IsAnswerable-require false e = tt

pub IsAnswerable-map_err :
    {E A : Type 0} (f : E → ProtocolError) (m : Result E A)
    → IsAnswerable (map_err (λ e. Failure.protocol_failure (f e)) m)
IsAnswerable-map_err f (ok a) = tt
IsAnswerable-map_err f (err e) = tt
