-- ===== src/Server/Requests/All.antt =====
-- The requests one by one, and all of them.
use Prim.Native.String.{String}
use snake_lab.Base.{◌≡◌, refl, ap, Bool, true, false, Option, none, some, List, [], ◌∷◌, if-either}
use snake_lab.Base.Dicts.{lookup, Matched-lookup, Matched-lookup-none}
use snake_lab.Base.Int.{ℤ}
use mathlib.Core.Path.{subst}
use snake_lab.Base.Results.{Result, ok_unique, ok, err, ◌>>=◌, require, or_raise, map_err}
use snake_lab.Json.{Json, has_exactly, is_empty}
use snake_lab.Zmq.Protocol.{Request, request_from_dict, item, ProtocolError, protocol_error}
use snake_lab.Server.Control
use snake_lab.Server.Run.{RunState, SimulationRun, new_run}
use snake_lab.Server.Store
use snake_lab.Server.Store.{StoreError}
use snake_lab.Server.Service.{
  SimulationServer, Failure, requested_run, put_run, publish_run, in_state,
}
use snake_lab.Server.Handlers.{
  Configurations, Handled, health, submit, submit_config, validate_config, status, saved_run_id,
  some_frames, highscore_snapshot, highscore_frames, active, pause, resume, cancel, set_move_delay,
  known_run, delay_message,
}
use snake_lab.Server.Dispatch.{handle_method, handle_request, answer, request_id_of, Answered}
use snake_lab.Server.Transitions.{Agree, IsSound, Advance}
use snake_lab.Server.Serving.{
  Served, IsUnhashed, Served-refl, Served-keep, Served-create, IsFine, IsAnswerable, IsFine-bind,
  IsAnswerable-bind, IsAnswerable-require, IsAnswerable-map_err,
}
use snake_lab.Server.Requests.{
  requested_run-IsAnswerable, requested_run-found, pause_run-IsFine, resume_run-IsFine,
  cancel_run-IsFine, run_id_text-IsAnswerable, known-IsAnswerable,
}

resolved_ok :
    {C : Type 0} (m : Result String C) (c : C)
    → map_err (λ t. Failure.protocol_failure (protocol_error "invalid_config" t)) m ≡ ok c
    → m ≡ ok c
resolved_ok (ok d) c p = ap ok (ok_unique (ok d) d c refl p)
resolved_ok (err e) c p = absurd (cc p)

module _ {F : Type 0} (K : Configurations F) where
  open K use {C, epochs}

  -- A handler that asks for a run is fine if what it does with the run is.
  with_run-IsFine :
      (request : Request F) (fields : List String) (s : SimulationServer C F)
      (k : SimulationRun C F → Handled K)
      → IsSound s
      → ((run : SimulationRun C F) → lookup run.run_id s.runs ≡ some run → IsFine K s (k run))
      → IsFine K s (requested_run request fields s >>= k)
  with_run-IsFine request fields s k h f =
      IsFine-bind K s (requested_run request fields s) k
        (requested_run-IsAnswerable request fields s)
        (λ run p. f run (requested_run-found request fields s run h p))

  required-IsFine :
      (b : Bool) (e : ProtocolError) (s : SimulationServer C F) (k : Handled K)
      → IsFine K s k
      → IsFine K s (require b (Failure.protocol_failure e) >>= λ _. k)
  unfolding IsFine
  required-IsFine true e s k h = h
  required-IsFine false e s k h = tt

  pause-IsFine :
      (request : Request F) (s : SimulationServer C F) → IsSound s → IsFine K s (pause K request s)
  unfolding pause IsFine
  pause-IsFine request s h =
      with_run-IsFine request _ s _ h
        (λ run found. pause_run-IsFine K request run s h found run.state refl)

  resume-IsFine :
      (request : Request F) (s : SimulationServer C F) → IsSound s → IsFine K s (resume K request s)
  unfolding resume IsFine
  resume-IsFine request s h =
      with_run-IsFine request _ s _ h
        (λ run found. resume_run-IsFine K request run s h found run.state refl)

  cancel-IsFine :
      (request : Request F) (s : SimulationServer C F) → IsSound s → IsFine K s (cancel K request s)
  unfolding cancel IsFine
  cancel-IsFine request s h =
      with_run-IsFine request _ s _ h
        (λ run found. cancel_run-IsFine K request run s h found run.state refl)

  status-IsFine :
      (request : Request F) (s : SimulationServer C F) → IsSound s → IsFine K s (status K request s)
  unfolding status IsFine
  status-IsFine request s h = with_run-IsFine request _ s _ h (λ run found. Served-refl s h)

  active-IsFine :
      (request : Request F) (s : SimulationServer C F) → IsSound s → IsFine K s (active K request s)
  unfolding active IsFine
  active-IsFine request s h = required-IsFine (is_empty request.payload) _ s _ (Served-refl s h)

  health-IsFine :
      (request : Request F) (s : SimulationServer C F) → IsSound s → IsFine K s (health K request s)
  unfolding health IsFine
  health-IsFine request s h = required-IsFine (is_empty request.payload) _ s _ (Served-refl s h)

  saved_run_id-IsAnswerable : (request : Request F) → IsAnswerable (saved_run_id K request)
  unfolding saved_run_id
  saved_run_id-IsAnswerable request =
      IsAnswerable-bind (require (has_exactly request.payload _) _) _
        (IsAnswerable-require (has_exactly request.payload _) _)
        (λ _ _.
          IsAnswerable-bind (map_err Failure.protocol_failure (item "run_id" request.payload)) _
            (IsAnswerable-map_err (λ e. e) (item "run_id" request.payload))
            (λ j _. run_id_text-IsAnswerable j))

  some_frames-IsAnswerable :
      (run_id : String) (frames : Option (List (Json F)))
      → IsAnswerable (some_frames K run_id frames)
  unfolding some_frames
  some_frames-IsAnswerable run_id none = tt
  some_frames-IsAnswerable run_id (some []) = tt
  some_frames-IsAnswerable run_id (some (f ∷ fs)) = tt

  highscore_snapshot-IsFine :
      (request : Request F) (s : SimulationServer C F)
      → IsSound s
      → IsFine K s (highscore_snapshot K request s)
  unfolding highscore_snapshot IsFine
  highscore_snapshot-IsFine request s h =
      IsFine-bind K s (saved_run_id K request) _ (saved_run_id-IsAnswerable request) (λ run_id _.
        IsFine-bind K s (known_run run_id (Store.get_high_score_snapshot run_id s.store)) _
          (known-IsAnswerable (Store.get_high_score_snapshot run_id s.store) _)
          (λ saved _.
            IsFine-bind K s (or_raise saved _) _ (known-IsAnswerable saved _)
              (λ _ _. Served-refl s h)))

  highscore_frames-IsFine :
      (request : Request F) (s : SimulationServer C F)
      → IsSound s
      → IsFine K s (highscore_frames K request s)
  unfolding highscore_frames IsFine
  highscore_frames-IsFine request s h =
      IsFine-bind K s (saved_run_id K request) _ (saved_run_id-IsAnswerable request) (λ run_id _.
        IsFine-bind K s (known_run run_id (Store.get_high_score_frames run_id s.store)) _
          (known-IsAnswerable (Store.get_high_score_frames run_id s.store) _)
          (λ saved _.
            IsFine-bind K s (some_frames K run_id saved) _ (some_frames-IsAnswerable run_id saved)
              (λ _ _. Served-refl s h)))

  set_move_delay-IsFine :
      (request : Request F) (s : SimulationServer C F)
      → IsSound s
      → IsFine K s (set_move_delay K request s)
  unfolding set_move_delay put_run publish_run IsFine
  set_move_delay-IsFine request s h = with_run-IsFine request _ s _ h (λ run found.
      required-IsFine
        (in_state run.state (RunState.queued ∷ RunState.running ∷ RunState.paused ∷ [])) _ s _
        (IsFine-bind K s (map_err Failure.protocol_failure (item "move_delay_ms" request.payload)) _
          (IsAnswerable-map_err (λ e. e) (item "move_delay_ms" request.payload))
          (λ value _.
            IsFine-bind K s
              (map_err
                (λ e. Failure.protocol_failure (protocol_error "invalid_request" delay_message))
                (Control.set_move_delay value run.control))
              _
              (IsAnswerable-map_err (λ e. protocol_error "invalid_request" delay_message)
                (Control.set_move_delay value run.control))
              (λ control _.
                let (stored, kept, agree) = Matched-lookup Agree run.run_id run h found in
                Served-keep s _ run.run_id run (record run { control = control }) stored h found
                  kept refl (refl, agree.1) refl refl refl refl refl))))

  -- A new id is one that the store does not hold.
  submitted-IsFine :
      (run_id : String) (zero : F) (request : Request F) (config : C) (s : SimulationServer C F)
      (hash : Option String)
      → IsSound s
      → lookup run_id s.store.runs ≡ none
      → K.config_hash config ≡ hash
      → (value : Json F) → K.resolve value ≡ ok config
      → IsFine K s (submit_config K run_id zero request config s)
  unfolding submit_config put_run publish_run new_run Store.create_run IsFine
  submitted-IsFine run_id zero request config s (some hash) h fresh hashed value resolves =
      rw (fresh, hashed)
        (Served-create s _ run_id (new_run zero run_id config) _ h
          (Matched-lookup-none Agree run_id h fresh) refl (refl, refl) refl refl refl refl refl)
  submitted-IsFine run_id zero request config s none h fresh hashed value resolves =
      rw (fresh, hashed)
        (record { config = value; resolved = config; resolves = resolves; no_hash = hashed })

  validated :
      (value : Json F) (config : C)
      → validate_config K value ≡ ok config
      → K.resolve value ≡ ok config
  unfolding validate_config
  validated value config p = resolved_ok (K.resolve value) config p

  submit-IsFine :
      (run_id : String) (zero : F) (request : Request F) (s : SimulationServer C F)
      → IsSound s
      → lookup run_id s.store.runs ≡ none
      → IsFine K s (submit K run_id zero request s)
  unfolding submit validate_config IsFine
  submit-IsFine run_id zero request s h fresh =
      required-IsFine (has_exactly request.payload _) _ s _ (
        IsFine-bind K s (map_err Failure.protocol_failure (item "config" request.payload)) _
          (IsAnswerable-map_err (λ e. e) (item "config" request.payload))
          (λ value _.
            IsFine-bind K s (validate_config K value) _
              (IsAnswerable-map_err (λ m. protocol_error "invalid_config" m) (K.resolve value))
              (λ config p.
                submitted-IsFine run_id zero request config s (K.config_hash config) h fresh refl
                  value (validated value config p))))

  unknown-IsFine :
      (s : SimulationServer C F) (e : ProtocolError) → IsFine K s (err (Failure.protocol_failure e))
  unfolding IsFine
  unknown-IsFine s e = tt

  handle_method-IsFine :
      (run_id : String) (zero : F) (request : Request F) (s : SimulationServer C F)
      → IsSound s
      → lookup run_id s.store.runs ≡ none
      → IsFine K s (handle_method K run_id zero request s)
  unfolding handle_method
  handle_method-IsFine run_id zero request s h fresh =
      if-either (IsFine K s) _ (health-IsFine request s h) (
        if-either (IsFine K s) _ (submit-IsFine run_id zero request s h fresh) (
          if-either (IsFine K s) _ (active-IsFine request s h) (
            if-either (IsFine K s) _ (status-IsFine request s h) (
              if-either (IsFine K s) _ (highscore_snapshot-IsFine request s h) (
                if-either (IsFine K s) _ (highscore_frames-IsFine request s h) (
                  if-either (IsFine K s) _ (pause-IsFine request s h) (
                    if-either (IsFine K s) _ (resume-IsFine request s h) (
                      if-either (IsFine K s) _ (cancel-IsFine request s h) (
                        if-either (IsFine K s) _ (set_move_delay-IsFine request s h)
                          (unknown-IsFine s _))))))))))

  -- A document is answered, which `P` describes, or it submits a configuration that has no hash, and the
  -- ValueError leaves the loop.
  pub data Outcome (P : Json F → SimulationServer C F → Type 0) : Answered K → Type 0 where
    is_answered :
        {response : Json F} {t : SimulationServer C F} → P response t → Outcome P (ok (response, t))
    is_refused : IsUnhashed K → Outcome P (err StoreError.hash_error)

  answer-Served :
      (id : Json F) (s : SimulationServer C F) (r : Handled K)
      → IsSound s
      → IsFine K s r
      → Outcome (λ _ t. Served s t) (answer K id s r)
  unfolding answer IsFine
  answer-Served id s (ok (response, t)) h fine = is_answered fine
  answer-Served id s (err (Failure.protocol_failure e)) h fine = is_answered (Served-refl s h)
  answer-Served id s (err (Failure.store_failure StoreError.hash_error)) h fine = is_refused fine
  answer-Served id s (err (Failure.store_failure StoreError.key_error)) h fine = absurd fine
  answer-Served id s (err (Failure.store_failure StoreError.value_error)) h fine = absurd fine

  -- A document that arrives comes to a step of the lab, or to the ValueError.
  pub handle_request-Served :
      (float_is : F → ℤ → Bool) (run_id : String) (zero : F) (message : Json F)
      (s : SimulationServer C F)
      → IsSound s
      → lookup run_id s.store.runs ≡ none
      → Outcome (λ _ t. Served s t) (handle_request K float_is run_id zero message s)
  unfolding handle_request
  handle_request-Served float_is run_id zero message s h fresh =
      answer-Served (request_id_of K message) s _ h (
        IsFine-bind K s (map_err Failure.protocol_failure (request_from_dict float_is message)) _
          (IsAnswerable-map_err (λ e. e) (request_from_dict float_is message))
          (λ request _. handle_method-IsFine run_id zero request s h fresh))

  -- If it is answered, it is a step.
  pub answered-Served :
      (s t : SimulationServer C F) (r : Answered K) (response : Json F)
      → Outcome (λ _ u. Served s u) r
      → r ≡ ok (response, t)
      → Served s t
  answered-Served s t (ok (response', u)) response (is_answered served) p =
      subst (λ x. Served s x)
        (ap (λ q. q.1) (ok_unique (ok (response', u)) (response', u) (response, t) refl p)) served
  answered-Served s t (err e) response (is_refused h) p = absurd (cc p)

  weaken-Outcome :
      (s : SimulationServer C F) (r : Answered K)
      → Outcome (λ _ t. Served s t) r
      → Outcome (λ _ t. Advance s t) r
  weaken-Outcome s r (is_answered served) = is_answered served.advance
  weaken-Outcome s r (is_refused h) = is_refused h

  -- A document that arrives at a sound server with an unused new run id is answered, and no error leaves
  -- the loop, unless it is the ValueError of json.dumps on a configuration that resolves but has no
  -- hash. Where it is answered, the server is sound afterwards, each run is where it was or has made a
  -- legal move, and at most one run, a queued one, is new.
  pub handle_request-Advance :
      (float_is : F → ℤ → Bool) (run_id : String) (zero : F) (message : Json F)
      (s : SimulationServer C F)
      → IsSound s
      → lookup run_id s.store.runs ≡ none
      → Outcome (λ _ t. Advance s t) (handle_request K float_is run_id zero message s)
  handle_request-Advance float_is run_id zero message s h fresh =
      weaken-Outcome s _ (handle_request-Served float_is run_id zero message s h fresh)
