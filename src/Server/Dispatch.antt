-- ===== src/Server/Dispatch.antt =====
-- server/SimulationServer.py, `handle_request`. An error of the store is not answered: it leaves the
-- service loop.
use Prim.Native.String.{String}
use text.Mathlib.Text.{◌==◌}
use snake_lab.Base.{Bool, none, some, if◌then◌else◌}
use snake_lab.Base.Int.{ℤ}
use snake_lab.Base.Texts.{concat}
use snake_lab.Base.Results.{Result, ok, err, ◌>>=◌, map_err}
use snake_lab.Json.{Json, null, obj, get}
use snake_lab.Zmq.Protocol.{Request, request_from_dict, error_response}
use snake_lab.Server.Store.{StoreError}
use snake_lab.Server.Service.{SimulationServer, Failure, raise_protocol}
use snake_lab.Server.Handlers.{
  Configurations, Handled, health, submit, active, status, highscore_snapshot, highscore_frames,
  pause, resume, cancel, set_move_delay,
}

module _ {F : Type 0} (K : Configurations F) where
  unfoldable pub handle_method : String → F → Request F → SimulationServer K.C F → Handled K
  handle_method run_id zero request s =
      if request.method == "health"
      then health K request s
      else if request.method == "simulation.submit"
      then submit K run_id zero request s
      else if request.method == "simulation.active"
      then active K request s
      else if request.method == "simulation.status"
      then status K request s
      else if request.method == "simulation.highscore_snapshot"
      then highscore_snapshot K request s
      else if request.method == "simulation.highscore_frames"
      then highscore_frames K request s
      else if request.method == "simulation.pause"
      then pause K request s
      else if request.method == "simulation.resume"
      then resume K request s
      else if request.method == "simulation.cancel"
      then cancel K request s
      else if request.method == "simulation.set_move_delay"
      then set_move_delay K request s
      else raise_protocol "unknown_method" (concat "Unknown method: " request.method)

  -- data.get("request_id") if isinstance(data, dict) else None
  unfoldable pub request_id_of : Json F → Json F
  request_id_of (obj fs) = elim (get "request_id" fs) [ none ↦ null | some id ↦ id ]
  request_id_of _ = null

  -- An answer, or the error that is not answered.
  abbrev pub Answered : Type 0
  Answered = Result StoreError (Json F × SimulationServer K.C F)

  unfoldable pub answer : Json F → SimulationServer K.C F → Handled K → Answered
  answer request_id s (ok (response, t)) = ok (response, t)
  answer request_id s (err (Failure.protocol_failure e)) =
      ok (error_response request_id e.code e.message, s)
  answer request_id s (err (Failure.store_failure e)) = err e

  -- `float_is` is Python's `==` of a float and an int.
  unfoldable pub handle_request :
      (F → ℤ → Bool) → String → F → Json F → SimulationServer K.C F → Answered
  handle_request float_is run_id zero message s = answer (request_id_of message) s (
      map_err Failure.protocol_failure (request_from_dict float_is message) >>= λ request.
      handle_method run_id zero request s)
