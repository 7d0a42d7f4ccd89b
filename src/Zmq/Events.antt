-- ===== src/Zmq/Events.antt =====
-- zmq/ZMQHelper.py, the contract of lifecycle events, and zmq/EventsPublisher.py, their queue. The
-- socket is the list of what was sent.
pub mod Delivery
use Prim.Native.String.{String}
use text.Mathlib.Text.{◌==◌}
use snake_lab.Base.{
  Bool, true, false, not, ◌&&◌, ◌||◌, Option, none, some, List, [], ◌∷◌, ◌++◌, if◌then◌else◌,
}
use snake_lab.Base.Int.{ℤ, pos, eqb_ℤ}
use snake_lab.Base.Results.{Result, ok, err, ◌>>=◌, ◌>>◌, require, refuse, or_raise}
use snake_lab.Json.{Json, int, str, obj, Fields, get, keys, all_in, has_key, of_fields, has_exactly}
use snake_lab.Zmq.Protocol.{ProtocolError, protocol_error, item}

abbrev pub event_protocol_version : ℤ
event_protocol_version = pos 2

abbrev pub simulation_ended : String
simulation_ended = "simulation_ended"

-- EVENT_TOPICS
pub event_topic : String → Option String
event_topic t = if t == simulation_ended then some "snake_lab.simulation.ended" else none

module _ {F : Type 0} where
  unfoldable pub event_message : String → Fields F → Json F
  event_message event_type payload = obj (
      of_fields (
        ("protocol_version", int event_protocol_version)
        ∷ ("event_type", str event_type)
        ∷ ("payload", obj payload)
        ∷ []))

  abbrev is_version : Json F → Bool
  is_version (int n) = eqb_ℤ n event_protocol_version
  is_version _ = false

  pub known_type : Json F → Result ProtocolError String
  known_type (str t) = elim (event_topic t) [
    | none ↦ err (protocol_error "unknown_event" "Unsupported event type")
    | some topic ↦ ok t
  ]
  known_type _ = err (protocol_error "unknown_event" "Unsupported event type")

  pub event_payload : Json F → Result ProtocolError (Fields F)
  event_payload (obj fs) = ok fs
  event_payload _ = err (protocol_error "invalid_event" "payload must be an object")

  abbrev is_named : Json F → Bool
  is_named (str s) = not (s == "")
  is_named _ = false

  abbrev is_terminal_text : Json F → Bool
  is_terminal_text (str s) = s == "completed" || (s == "failed" || s == "cancelled")
  is_terminal_text _ = false

  abbrev is_text_if_present : Option (Json F) → Bool
  is_text_if_present none = true
  is_text_if_present (some (str s)) = true
  is_text_if_present (some _) = false

  pub check_ended : Fields F → Result ProtocolError (Unit {0})
  check_ended payload = do
    require
        (all_in ("run_id" ∷ "state" ∷ []) (keys payload)
          && all_in (keys payload) ("run_id" ∷ "state" ∷ "error" ∷ []))
        (protocol_error "invalid_event" "Event payload fields do not match the protocol")
    run_id ← item "run_id" payload
    require (is_named run_id) (protocol_error "invalid_event" "run_id must be a non-empty string")
    state ← item "state" payload
    require (is_terminal_text state)
        (protocol_error "invalid_event" "simulation ended requires a terminal state")
    require (is_text_if_present (get "error" payload))
        (protocol_error "invalid_event" "error must be a string when present")

  pub event_from_fields : Fields F → Result ProtocolError (Json F)
  event_from_fields fs = do
    require (has_exactly fs ("protocol_version" ∷ "event_type" ∷ "payload" ∷ []))
        (protocol_error "invalid_event" "Event fields do not match the protocol")
    version ← item "protocol_version" fs
    require (is_version version)
        (protocol_error "unsupported_protocol" "Unsupported event protocol version")
    type_value ← item "event_type" fs
    event_type ← known_type type_value
    payload_value ← item "payload" fs
    payload ← event_payload payload_value
    (if event_type == simulation_ended then check_ended payload else ok tt)
    ok (event_message event_type payload)

  pub parse_event : Json F → Result ProtocolError (Json F)
  parse_event (obj fs) = event_from_fields fs
  parse_event _ = err (protocol_error "invalid_event" "Event fields do not match the protocol")

  -- The payload that `_finish_run` of the server publishes.
  unfoldable pub ended_payload : String → String → Option String → Fields F
  ended_payload run_id state none = of_fields (("run_id", str run_id) ∷ ("state", str state) ∷ [])
  ended_payload run_id state (some error) =
      of_fields (("run_id", str run_id) ∷ ("state", str state) ∷ ("error", str error) ∷ [])

-- The task of a publisher: not started or over, at work, or ended by a KeyError.
pub data Task : Type 0 where
  idle live crashed : Task

-- EventsPublisher: the messages that wait, and those sent.
pub record EventsPublisher (F : Type 0) : Type 0 where
  pub pending : List (Json F)
  pub sent : List (Json F)
  pub task : Task

-- The KeyError of EVENT_TOPICS.
pub data EventsError : Type 0 where
  unknown_event : EventsError

module _ {F : Type 0} where
  abbrev type_topic : Option (Json F) → Option String
  type_topic (some (str t)) = event_topic t
  type_topic _ = none

  -- EVENT_TOPICS[envelope["event_type"]]
  pub topic_of : Json F → Option String
  topic_of (obj fs) = type_topic (get "event_type" fs)
  topic_of _ = none

  unfoldable pub start_events : EventsPublisher F → EventsPublisher F
  start_events p = elim p.task [ idle ↦ record p { task = Task.live } | live ↦ p | crashed ↦ p ]

  unfoldable pub publish_event : EventsPublisher F → String → Fields F → EventsPublisher F
  publish_event p event_type payload = record p {
    pending = p.pending ++ event_message event_type payload ∷ [];
  }

  -- `_publish_loop` on messages that wait. `last` is what becomes of the task once they are sent: it is
  -- live while it waits for others, and idle if the message that stops it stands behind them. A message
  -- without a topic raises KeyError; what stands behind it is left. The socket, a publishing one that
  -- drops what it cannot deliver, takes every message.
  pub publish_loop : Task → List (Json F) → List (Json F) → List (Json F) × List (Json F) × Task
  publish_loop last [] sent = ([], sent, last)
  publish_loop last (m ∷ rest) sent = elim (topic_of m) [
    | none ↦ (rest, sent, Task.crashed)
    | some topic ↦ publish_loop last rest (sent ++ m ∷ [])
  ]

  abbrev pub looped : List (Json F) × List (Json F) × Task → EventsPublisher F
  looped (pending, sent, task) = record { pending = pending; sent = sent; task = task }

  abbrev pub at_work : Task → EventsPublisher F → EventsPublisher F
  at_work Task.live p = looped (publish_loop Task.live p.pending p.sent)
  at_work _ p = p

  pub run_loop : EventsPublisher F → EventsPublisher F
  run_loop p = at_work p.task p

  abbrev pub awaited : EventsPublisher F → Task → Result EventsError (EventsPublisher F)
  awaited p Task.crashed = err unknown_event
  awaited p _ = ok (record p { task = Task.idle })

  abbrev pub closing : Task → EventsPublisher F → Result EventsError (EventsPublisher F)
  closing Task.idle p = ok p
  closing Task.crashed p = err unknown_event
  closing Task.live p =
      let (pending, sent, task) = publish_loop Task.idle p.pending p.sent in
      awaited (record p { pending = pending; sent = sent }) task

  -- `close`: the stop message is queued behind all others, and the loop is awaited.
  pub close_events : EventsPublisher F → Result EventsError (EventsPublisher F)
  close_events p = closing p.task p
