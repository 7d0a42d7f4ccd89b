-- ===== src/Server/Requests.antt =====
-- Every request leaves the runs legal and stored, and none leaves the service loop by an error.
pub mod All
use Prim.Native.String.{String}
use text.Mathlib.Text.{◌==◌}
use snake_lab.Base.{
  ◌≡◌, refl, sym, ap, ◌∙◌, Bool, true, false, Option, none, some, List, [], ◌∷◌, arith, inl, inr,
  Bool-cases, if◌then◌else◌, if-either, Option-cases,
}
use mathlib.Core.Path.{subst}
use snake_lab.Base.Dicts.{Dict, lookup, insert, Matched-lookup, Matched-lookup-none}
use snake_lab.Base.Results.{
  Result, ok, err, ◌>>=◌, ◌>>◌, require, or_raise, map_err, bind-ok, or_raise-ok,
}
use snake_lab.Json.{Json, Fields, has_exactly, end}
use snake_lab.Zmq.Protocol.{Request, item, ProtocolError, protocol_error}
use snake_lab.Server.Control
use snake_lab.Server.Run.{RunState, SimulationRun, state_text}
use snake_lab.Server.Store
use snake_lab.Server.Service.{
  SimulationServer, Failure, requested_run, run_id_text, set_status, finish_run, put_run,
  publish_run,
}
use snake_lab.Server.Handlers.{
  Configurations, Handled, change_run, pause_run, pause, resume_run, resume, cancelling_run,
  cancel_queued, cancel_run, cancel,
}
use snake_lab.Server.Lab.{IsActive}
use snake_lab.Server.Transitions.{Moves, Agree, IsSound}
use snake_lab.Server.View.{publish_event-told}
use snake_lab.Zmq.Events.{ended_payload}
use snake_lab.Zmq.Events.Delivery.{publish_event-IsTelling}
use snake_lab.Server.Serving.{
  Served-refl, Served-steer, Served-drop, IsFine, IsAnswerable, IsFine-bind, IsAnswerable-bind,
  IsAnswerable-require, IsAnswerable-map_err,
}

pub run_id_text-IsAnswerable : {F : Type 0} (j : Json F) → IsAnswerable (run_id_text j)
unfolding run_id_text
run_id_text-IsAnswerable j = ground arith

pub known-IsAnswerable :
    {A : Type 0} (o : Option A) (e : ProtocolError)
    → IsAnswerable (or_raise o (Failure.protocol_failure e))
known-IsAnswerable none e = tt
known-IsAnswerable (some a) e = tt

module _ {C F : Type 0} where
  pub requested_run-IsAnswerable :
      (request : Request F) (fields : List String) (s : SimulationServer C F)
      → IsAnswerable (requested_run request fields s)
  unfolding requested_run
  requested_run-IsAnswerable request fields s =
      IsAnswerable-bind (require (has_exactly request.payload fields) _) _
        (IsAnswerable-require (has_exactly request.payload fields) _)
        (λ _ _.
          IsAnswerable-bind (map_err Failure.protocol_failure (item "run_id" request.payload)) _
            (IsAnswerable-map_err (λ e. e) (item "run_id" request.payload))
            (λ j _.
              IsAnswerable-bind (run_id_text j) _ (run_id_text-IsAnswerable j)
                (λ run_id _. known-IsAnswerable (lookup run_id s.runs) _)))

  -- In a sound server a requested run stands in the dictionary under its own id.
  pub requested_run-found :
      (request : Request F) (fields : List String) (s : SimulationServer C F)
      (run : SimulationRun C F)
      → IsSound s
      → requested_run request fields s ≡ ok run
      → lookup run.run_id s.runs ≡ some run
  unfolding requested_run
  requested_run-found request fields s run sound h =
      let (_, _, h1) = bind-ok (require (has_exactly request.payload fields) _) _ run h in
      let (value, _, h2) =
        bind-ok (map_err Failure.protocol_failure (item "run_id" request.payload)) _ run h1 in
      let (k, _, h3) = bind-ok (run_id_text value) _ run h2 in
      let found : lookup k s.runs ≡ some run = or_raise-ok (lookup k s.runs) _ run h3 in
      let (stored, kept, agree) = Matched-lookup Agree k run sound found in
      subst (λ j. lookup j s.runs ≡ some run) (sym agree.0) found

module _ {F : Type 0} (K : Configurations F) where
  open K use {C, epochs}

  -- A run of a sound server moves to a state that is stored.
  change_run-IsFine :
      (request : Request F) (run run' : SimulationRun C F) (s : SimulationServer C F)
      → IsSound s
      → lookup run'.run_id s.runs ≡ some run
      → Moves run.state run'.state
      → IsActive run.state
      → IsActive run'.state
      → IsFine K s (change_run K request run' s)
  unfolding change_run set_status put_run publish_run Store.set_status IsFine
  change_run-IsFine request run run' s h found move was is =
      let (stored, kept, agree) = Matched-lookup Agree run'.run_id run h found in
      rw kept (
        Served-steer s _ run'.run_id run run' (record stored { status = run'.state }) h found move
          was is (refl, refl) refl refl refl refl refl)

  cancel_queued-IsFine :
      (request : Request F) (run run' : SimulationRun C F) (s : SimulationServer C F)
      → IsSound s
      → lookup run'.run_id s.runs ≡ some run
      → run.state ≡ RunState.queued
      → run'.state ≡ RunState.cancelled
      → IsFine K s (cancel_queued K request run' s)
  unfolding cancel_queued finish_run put_run publish_run Store.finish_run IsFine
  cancel_queued-IsFine request run run' s h found was is =
      let (stored, kept, agree) = Matched-lookup Agree run'.run_id run h found in
      rw kept (
        Served-drop s _ run'.run_id run (record run' { high_score_frames = [] }) _ h found was is
          (refl, refl) refl refl refl refl
          (publish_event-told s.events run'.run_id (state_text run'.state) run'.error)
          (publish_event-IsTelling s.events
            (ended_payload run'.run_id (state_text run'.state) run'.error)))

  pub pause_run-IsFine :
      (request : Request F) (run : SimulationRun C F) (s : SimulationServer C F)
      → IsSound s
      → lookup run.run_id s.runs ≡ some run
      → (state : RunState) → run.state ≡ state
      → IsFine K s (pause_run K request run s)
  unfolding pause_run IsFine
  pause_run-IsFine request run s h found RunState.running p =
      rw p (change_run-IsFine request run _ s h found (rw p Moves.pauses) (rw p tt) tt)
  pause_run-IsFine request run s h found RunState.paused p = rw p (Served-refl s h)
  pause_run-IsFine request run s h found RunState.queued p = rw p tt
  pause_run-IsFine request run s h found RunState.cancelling p = rw p tt
  pause_run-IsFine request run s h found RunState.completed p = rw p tt
  pause_run-IsFine request run s h found RunState.failed p = rw p tt
  pause_run-IsFine request run s h found RunState.cancelled p = rw p tt

  pub resume_run-IsFine :
      (request : Request F) (run : SimulationRun C F) (s : SimulationServer C F)
      → IsSound s
      → lookup run.run_id s.runs ≡ some run
      → (state : RunState) → run.state ≡ state
      → IsFine K s (resume_run K request run s)
  unfolding resume_run IsFine
  resume_run-IsFine request run s h found RunState.paused p =
      rw p (change_run-IsFine request run _ s h found (rw p Moves.resumes) (rw p tt) tt)
  resume_run-IsFine request run s h found RunState.running p = rw p (Served-refl s h)
  resume_run-IsFine request run s h found RunState.queued p = rw p tt
  resume_run-IsFine request run s h found RunState.cancelling p = rw p tt
  resume_run-IsFine request run s h found RunState.completed p = rw p tt
  resume_run-IsFine request run s h found RunState.failed p = rw p tt
  resume_run-IsFine request run s h found RunState.cancelled p = rw p tt

  pub cancel_run-IsFine :
      (request : Request F) (run : SimulationRun C F) (s : SimulationServer C F)
      → IsSound s
      → lookup run.run_id s.runs ≡ some run
      → (state : RunState) → run.state ≡ state
      → IsFine K s (cancel_run K request run s)
  unfolding cancel_run cancelling_run IsFine
  cancel_run-IsFine request run s h found RunState.queued p =
      rw p (cancel_queued-IsFine request run _ s h found p refl)
  cancel_run-IsFine request run s h found RunState.running p =
      rw p (change_run-IsFine request run _ s h found (rw p (Moves.stops tt)) (rw p tt) tt)
  cancel_run-IsFine request run s h found RunState.paused p =
      rw p (change_run-IsFine request run _ s h found (rw p (Moves.stops tt)) (rw p tt) tt)
  cancel_run-IsFine request run s h found RunState.cancelling p = rw p (Served-refl s h)
  cancel_run-IsFine request run s h found RunState.cancelled p = rw p (Served-refl s h)
  cancel_run-IsFine request run s h found RunState.completed p = rw p tt
  cancel_run-IsFine request run s h found RunState.failed p = rw p tt
