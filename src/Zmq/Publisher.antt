-- ===== src/Zmq/Publisher.antt =====
-- zmq/TelemetryPublisher.py. The socket is the list of what was sent; the bytes of a notification
-- are numbers, and an envelope is the document before `json.dumps`.
pub mod Queue
use Prim.Native.String.{String}
use text.Mathlib.Text.{◌==◌}
use snake_lab.Base.{
  ℕ, ◌+◌, Bool, true, false, not, ◌&&◌, Option, none, some, List, [], ◌∷◌, ◌++◌, length, drop, ltb,
  leb, eqb, if◌then◌else◌,
}
use snake_lab.Base.Dicts.{Dict, lookup, insert}
use snake_lab.Base.Int.{pos}
use snake_lab.Base.Results.{Result, ok, err}
use snake_lab.Json.{Json, Fields}
use snake_lab.Zmq.Envelope.{TelemetryEnvelope, envelope_to_dict}
use snake_lab.Zmq.Frame.{FrameTelemetry}

abbrev pub topic_run : String
topic_run = "snake_lab.run"

abbrev pub topic_frame : String
topic_frame = "snake_lab.frame"

abbrev pub topic_episode : String
topic_episode = "snake_lab.episode"

-- TOPIC_FRAME.encode("utf-8")
abbrev pub frame_bytes : List ℕ
frame_bytes = 115 ∷ 110 ∷ 97 ∷ 107 ∷ 101 ∷ 95 ∷ 108 ∷ 97 ∷ 98 ∷ 46 ∷ 102 ∷ 114 ∷ 97 ∷ 109 ∷ 101 ∷ []

pub record TelemetryEvent (F : Type 0) : Type 0 where
  pub topic : String
  pub run_id : String
  pub payload : Fields F

pub record TelemetryPublisher (F : Type 0) : Type 0 where
  pub event_queue_size : ℕ
  pub events : List (TelemetryEvent F)
  pub sequences : Dict ℕ
  pub frame_filters : List (List ℕ)
  pub has_frame_subscribers : Bool
  pub started : Bool
  pub sent : List (String × Json F)

abbrev pub same_bytes : List ℕ → List ℕ → Bool
same_bytes [] [] = true
same_bytes (x ∷ xs) (y ∷ ys) = (eqb x y) && same_bytes xs ys
same_bytes _ _ = false

-- topic.startswith(prefix)
abbrev pub has_prefix : List ℕ → List ℕ → Bool
has_prefix topic [] = true
has_prefix [] (p ∷ ps) = false
has_prefix (t ∷ ts) (p ∷ ps) = (eqb t p) && has_prefix ts ps

-- `set.add` and `set.discard`
abbrev pub add_filter : List ℕ → List (List ℕ) → List (List ℕ)
add_filter p [] = p ∷ []
add_filter p (q ∷ qs) = if same_bytes p q then q ∷ qs else q ∷ add_filter p qs

abbrev pub discard_filter : List ℕ → List (List ℕ) → List (List ℕ)
discard_filter p [] = []
discard_filter p (q ∷ qs) = if same_bytes p q then qs else q ∷ discard_filter p qs

-- bool(self._frame_filters)
abbrev pub any_filter : List (List ℕ) → Bool
any_filter [] = false
any_filter (q ∷ qs) = true

pub data PublisherError : Type 0 where
  bad_queue_size : PublisherError

module _ {F : Type 0} where
  pub new_publisher : ℕ → Result PublisherError (TelemetryPublisher F)
  new_publisher size =
      if leb size 0
      then err bad_queue_size
      else ok (record {
        event_queue_size = size;
        events = [];
        sequences = [];
        frame_filters = [];
        has_frame_subscribers = false;
        started = false;
        sent = [];
      })

  pub start_telemetry : TelemetryPublisher F → TelemetryPublisher F
  start_telemetry p = if p.started then p else record p { started = true }

  pub with_filters : TelemetryPublisher F → List (List ℕ) → TelemetryPublisher F
  with_filters p filters = record p {
    frame_filters = filters;
    has_frame_subscribers = any_filter filters;
  }

  -- One round of `_subscription_loop`.
  pub receive_subscription : TelemetryPublisher F → List ℕ → TelemetryPublisher F
  receive_subscription p [] = p
  receive_subscription p (b ∷ prefix) =
      if leb b 1 && has_prefix frame_bytes prefix
      then (if eqb b 1
          then with_filters p (add_filter prefix p.frame_filters)
          else with_filters p (discard_filter prefix p.frame_filters))
      else p

  -- A full queue drops its oldest message.
  pub offer_event : TelemetryPublisher F → String → String → Fields F → TelemetryPublisher F
  offer_event p topic run_id payload =
      let event : TelemetryEvent F = record { topic = topic; run_id = run_id; payload = payload } in
      if ltb (length p.events) p.event_queue_size
      then record p { events = p.events ++ event ∷ [] }
      else record p { events = drop 1 p.events ++ event ∷ [] }

  pub offer_run : TelemetryPublisher F → String → Fields F → TelemetryPublisher F
  offer_run p run_id payload = offer_event p topic_run run_id payload

  pub offer_episode : TelemetryPublisher F → String → Fields F → TelemetryPublisher F
  offer_episode p run_id payload = offer_event p topic_episode run_id payload

  unfoldable pub offer_frame : TelemetryPublisher F → String → Fields F → TelemetryPublisher F
  offer_frame p run_id payload =
      if p.has_frame_subscribers then offer_event p topic_frame run_id payload else p

  -- self._sequences[topic], of a defaultdict(int)
  abbrev pub sequence_of : TelemetryPublisher F → String → ℕ
  sequence_of p topic = elim (lookup topic p.sequences) [ none ↦ 0 | some n ↦ n ]

  pub send : TelemetryPublisher F → TelemetryEvent F → TelemetryPublisher F
  send p event =
      if event.topic == topic_frame && not p.has_frame_subscribers
      then p
      else (let n = sequence_of p event.topic in
          let envelope : TelemetryEnvelope F = record {
            sequence = pos n;
            run_id = event.run_id;
            payload = event.payload;
          } in
          record p {
            sequences = insert event.topic (n + 1) p.sequences;
            sent = p.sent ++ (event.topic, envelope_to_dict envelope) ∷ [];
          })

  pub send_first : TelemetryPublisher F → List (TelemetryEvent F) → TelemetryPublisher F
  send_first p [] = p
  send_first p (event ∷ rest) = send (record p { events = rest }) event

  -- One round of `_event_loop`, which stays where it is while nothing is queued.
  pub event_round : TelemetryPublisher F → TelemetryPublisher F
  event_round p = send_first p p.events

  -- What is queued is discarded with the tasks.
  pub close_telemetry : TelemetryPublisher F → TelemetryPublisher F
  close_telemetry p = record p {
    frame_filters = [];
    has_frame_subscribers = false;
    started = false;
  }
