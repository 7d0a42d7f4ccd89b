-- ===== src/Tests/Zmq.antt =====
-- The wire contracts and the publishers on small messages.

use text.Mathlib.Text.{◌==◌}
use snake_lab.Game.Moves.{Outcome, StepResult}
use snake_lab.Game.Snapshot.{from_game_state, to_dict}
use snake_lab.Game.Snapshot.Roundtrip.{from_dict-from_game_state, from_dict-IsRenderable}
use snake_lab.Zmq.Frame.{
  FrameTelemetry, frame_from_dict, frame_to_dict, frame_with_reward, from_step, float_overflow,
}
use snake_lab.Zmq.Frame.Roundtrip.{frame_from_dict-from_step, frame_from_dict-integer_reward}
use snake_lab.Tests.Game.{running, running-IsValid}
use snake_lab.Base.{
  ℕ, ◌≡◌, refl, Bool, true, false, Option, none, some, [], ◌∷◌, arith, leb, if◌then◌else◌,
}
use snake_lab.Base.Int.{ℤ, pos, eqb_ℤ}
use snake_lab.Base.Results.{ok, err}
use snake_lab.Json.{Json, int, str, Fields, of_fields}
use snake_lab.Zmq.Protocol.{
  request_from_dict, request_message, validate_response, success_response, error_response,
}
use snake_lab.Zmq.Protocol.Exchange.{
  accepts, request_from_dict-request_message, validate_response-responses,
}
use snake_lab.Zmq.Envelope.{TelemetryEnvelope, envelope_from_dict, envelope_to_dict}
use snake_lab.Zmq.Envelope.Roundtrip.{envelope_from_dict-envelope_to_dict}
use snake_lab.Zmq.Events.{
  start_events, EventsPublisher, event_message, ended_payload, parse_event, simulation_ended,
  close_events, Task,
}
use snake_lab.Zmq.Events.Delivery.{
  IsTelling, event_message-IsEvent, parse_event-ended, close_events-sends,
}
use snake_lab.Zmq.Publisher.{TelemetryPublisher, offer_run, frame_bytes}
use snake_lab.Zmq.Publisher.Queue.{IsBounded, offering_run, Operation-IsBounded}

-- A float here is a number of units.
abbrev is_unit : ℕ → ℤ → Bool
is_unit x n = eqb_ℤ (pos x) n

abbrev ended : Json ℕ
ended = event_message simulation_ended (ended_payload "r1" "failed" (some "boom"))

parse_event-ended_example : parse_event ended ≡ ok ended
parse_event-ended_example = parse_event-ended "r1" "failed" (some "boom") refl refl

abbrev two_events : EventsPublisher ℕ
two_events = record { pending = ended ∷ ended ∷ []; sent = []; task = Task.live }

two_events-IsTelling : IsTelling two_events
two_events-IsTelling = record {
  live = refl;
  known = (event_message-IsEvent _, (event_message-IsEvent _, tt));
}

close_events-sends_example :
    close_events two_events
    ≡ ok (record { pending = []; sent = ended ∷ ended ∷ []; task = Task.idle })
close_events-sends_example = close_events-sends two_events two_events-IsTelling

-- A publisher with room for one message, and one queued.
abbrev full : TelemetryPublisher ℕ
full = record {
  event_queue_size = 1;
  events = record { topic = "snake_lab.run"; run_id = "r1"; payload = of_fields [] } ∷ [];
  sequences = [];
  frame_filters = frame_bytes ∷ [];
  has_frame_subscribers = true;
  started = true;
  sent = [];
}

abbrev full-IsBounded : IsBounded full
full-IsBounded = record { has_room = omega arith; fits = omega arith; flag = refl }

Operation-IsBounded_example : IsBounded (offer_run full "r2" (of_fields []))
Operation-IsBounded_example = Operation-IsBounded (offering_run "r2" (of_fields [])) full-IsBounded

abbrev run_payload : Fields ℕ
run_payload = of_fields (("run_id", str "r1") ∷ [])

request_from_dict-request_message_example :
    request_from_dict is_unit (request_message "q1" "simulation.pause" run_payload)
    ≡ ok (record { request_id = "q1"; method = "simulation.pause"; payload = run_payload })
request_from_dict-request_message_example =
    request_from_dict-request_message is_unit "q1" "simulation.pause" run_payload refl refl

validate_response-responses_example :
    (accepts (validate_response is_unit (success_response "q1" run_payload) "q2") ≡ ("q1" == "q2"))
    × (accepts (validate_response is_unit (error_response (str "q1") "code" "text") "q2")
        ≡ ("q1" == "q2"))
validate_response-responses_example =
    validate_response-responses is_unit "q1" "q2" "code" "text" run_payload

abbrev envelope : TelemetryEnvelope ℕ
envelope = record { sequence = pos 4; run_id = "r1"; payload = run_payload }

envelope_from_dict-envelope_to_dict_example :
    envelope_from_dict is_unit (envelope_to_dict envelope) ≡ ok envelope
envelope_from_dict-envelope_to_dict_example =
    envelope_from_dict-envelope_to_dict is_unit envelope (omega arith, refl)

abbrev frame_step : StepResult ℕ
frame_step = record {
  new_state = running;
  reward = 4;
  done = false;
  outcome = Outcome.empty;
  observed = [];
}

abbrev small_float : ℤ → Option ℕ
small_float (pos n) = if leb n 1000 then some n else none
small_float _ = none

frame_from_dict-from_step_example :
    frame_from_dict small_float (frame_to_dict (from_step 1 2 frame_step))
    ≡ ok (from_step 1 2 frame_step)
frame_from_dict-from_step_example =
    frame_from_dict-from_step small_float 1 2 frame_step running-IsValid

abbrev frame : FrameTelemetry ℕ
frame = record {
  episode = pos 1;
  step = pos 2;
  action = pos 0;
  reward = 4;
  done = false;
  outcome = Outcome.empty;
  board = from_game_state running;
}

frame_from_dict-integer_reward_example :
    frame_from_dict small_float (frame_with_reward frame (int (pos 5000)))
    ≡ (elim (small_float (pos 5000)) [
      | none ↦ err float_overflow
      | some x ↦ ok (record frame { reward = x })
    ])
frame_from_dict-integer_reward_example =
    frame_from_dict-integer_reward small_float frame (pos 5000) (record {
      episode = omega arith;
      step = omega arith;
      action = omega arith;
      board =
          from_dict-IsRenderable ℕ (to_dict (from_game_state running)) (from_game_state running)
            (from_dict-from_game_state ℕ running running-IsValid);
    })

-- A second start changes nothing.
started_twice : start_events two_events ≡ two_events
unfolding start_events
started_twice = refl
