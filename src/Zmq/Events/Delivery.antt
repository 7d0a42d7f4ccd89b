-- ===== src/Zmq/Events/Delivery.antt =====
-- Events that the server publishes are understood by their readers, and all of them are sent.
use Prim.Native.String.{String}
use text.Mathlib.Text.{◌==◌}
use mathlib.Core.List.{append-nil, append_assoc}
use snake_lab.Base.{
  ◌≡◌, refl, ◌∙◌, Bool, true, false, ◌||◌, Option, none, some, List, [], ◌∷◌, ◌++◌, arith, All,
  All-append,
}
use snake_lab.Base.Results.{ok}
use snake_lab.Json.{Json, Fields}
use snake_lab.Zmq.Events.{
  EventsPublisher, simulation_ended, event_topic, event_message, known_type, event_payload,
  check_ended, event_from_fields, parse_event, ended_payload, publish_loop, run_loop, close_events,
  topic_of, Task, publish_event,
}

abbrev pub is_ended_state : String → Bool
is_ended_state s = s == "completed" || (s == "failed" || s == "cancelled")

abbrev pub HasTopic : Option String → Type 0
HasTopic none = ⊥
HasTopic (some topic) = Unit

topic_cases : (o : Option String) → HasTopic o → (t : String) × (o ≡ some t)
topic_cases none h = absurd h
topic_cases (some t) h = (t, refl)

module _ {F : Type 0} where
  -- The event that ends a named run, with or without an error text, passes its reader unchanged.
  pub parse_event-ended :
      (run_id state : String) (error : Option String)
      → (run_id == "") ≡ false
      → is_ended_state state ≡ true
      → let message = event_message {F = F} simulation_ended (ended_payload run_id state error) in
        parse_event message ≡ ok message
  unfolding parse_event event_from_fields event_message known_type event_payload event_topic
      check_ended ended_payload
  parse_event-ended run_id state none named ended = ground arith
  parse_event-ended run_id state (some error) named ended = ground arith

  -- A message of a known type.
  abbrev pub IsEvent : Json F → Type 0
  IsEvent m = HasTopic (topic_of m)

  pub event_message-IsEvent :
      (payload : Fields F) → IsEvent (event_message simulation_ended payload)
  unfolding topic_of event_message event_topic
  event_message-IsEvent payload = tt

  pub publish_loop-all :
      (last : Task) (ms sent : List (Json F))
      → All IsEvent ms
      → publish_loop last ms sent ≡ ([], sent ++ ms, last)
  unfolding publish_loop
  publish_loop-all last [] sent h = rw append-nil
  publish_loop-all last (m ∷ ms) sent h =
      let (t, topic) = topic_cases (topic_of m) h.0 in
      rw (publish_loop, topic)
        (publish_loop-all last ms (sent ++ m ∷ []) h.1 ∙ rw (append_assoc sent (m ∷ []) ms))

  -- A publisher at work whose messages have known types.
  pub record IsTelling (p : EventsPublisher F) : Type 0 where
    pub live : p.task ≡ Task.live
    pub known : All IsEvent p.pending

  -- Closing a publisher at work whose messages have known types raises nothing, sends every pending
  -- event in the order of publication, and leaves nothing pending.
  pub close_events-sends :
      (p : EventsPublisher F)
      → IsTelling p
      → close_events p ≡ ok (record { pending = []; sent = p.sent ++ p.pending; task = Task.idle })
  unfolding close_events
  close_events-sends p h = rw (h.live, publish_loop-all Task.idle p.pending p.sent h.known)

  pub run_loop-sends :
      (p : EventsPublisher F)
      → IsTelling p
      → run_loop p ≡ record { pending = []; sent = p.sent ++ p.pending; task = Task.live }
  unfolding run_loop
  run_loop-sends p h = rw (h.live, publish_loop-all Task.live p.pending p.sent h.known)

  -- A publisher goes on telling when one more ending is published.
  pub publish_event-IsTelling :
      (p : EventsPublisher F) (payload : Fields F)
      → IsTelling p
      → IsTelling (publish_event p simulation_ended payload)
  unfolding publish_event
  publish_event-IsTelling p payload h = record {
    live = h.live;
    known =
        All-append IsEvent p.pending (event_message simulation_ended payload ∷ []) h.known
          (event_message-IsEvent payload, tt);
  }
