-- ===== src/Zmq/Publisher/Queue.antt =====
-- The bounds of the publisher's queue, and its flag of frame subscribers.
use Prim.Native.String.{String}
use snake_lab.Base.{
  ℕ, ◌-◌, ◌≤◌, ◌≡◌, refl, List, [], ◌∷◌, length, length-append, drop, ltb, arith, inl, inr,
  Bool-cases, if-either,
}
use snake_lab.Base.Results.{ok}
use snake_lab.Json.{Fields}
use snake_lab.Zmq.Publisher.{
  TelemetryPublisher, TelemetryEvent, new_publisher, start_telemetry, with_filters,
  receive_subscription, offer_event, offer_run, offer_episode, offer_frame, send, send_first,
  event_round, close_telemetry, any_filter, topic_run, topic_episode, topic_frame,
}

length-drop_one : {A : Type 0} (xs : List A) → length (drop 1 xs) ≡ length xs - 1
length-drop_one [] = omega arith
length-drop_one (x ∷ xs) = omega arith

module _ {F : Type 0} where
  -- The queue has room for a message and holds no more than its size, and the flag of frame
  -- subscribers says whether there is a filter.
  pub record IsBounded (p : TelemetryPublisher F) : Type 0 where
    pub has_room : 1 ≤ p.event_queue_size
    pub fits : length p.events ≤ p.event_queue_size
    pub flag : p.has_frame_subscribers ≡ any_filter p.frame_filters

  -- The operations of a publisher.
  pub data Operation : TelemetryPublisher F → TelemetryPublisher F → Type 0 where
    starting : {p : TelemetryPublisher F} → Operation p (start_telemetry p)
    receiving :
        {p : TelemetryPublisher F} (message : List ℕ) → Operation p (receive_subscription p message)
    offering_run :
        {p : TelemetryPublisher F} (run_id : String) (payload : Fields F)
        → Operation p (offer_run p run_id payload)
    offering_episode :
        {p : TelemetryPublisher F} (run_id : String) (payload : Fields F)
        → Operation p (offer_episode p run_id payload)
    offering_frame :
        {p : TelemetryPublisher F} (run_id : String) (payload : Fields F)
        → Operation p (offer_frame p run_id payload)
    sending : {p : TelemetryPublisher F} → Operation p (event_round p)
    closing : {p : TelemetryPublisher F} → Operation p (close_telemetry p)

  pub new_publisher-IsBounded :
      (size : ℕ) (p : TelemetryPublisher F) → new_publisher size ≡ ok p → IsBounded p
  unfolding new_publisher
  new_publisher-IsBounded size p h = record {
    has_room = ground arith;
    fits = ground arith;
    flag = ground arith;
  }

  offer_event-IsBounded :
      (p : TelemetryPublisher F) (topic run_id : String) (payload : Fields F)
      → IsBounded p
      → IsBounded (offer_event p topic run_id payload)
  unfolding offer_event
  offer_event-IsBounded p topic run_id payload h =
      let event : TelemetryEvent F = record { topic = topic; run_id = run_id; payload = payload } in
      elim (Bool-cases (ltb (length p.events) p.event_queue_size)) [
        | inl room ↦ rw room (record {
          has_room = h.has_room;
          fits = ground (arith, length-append p.events (event ∷ []));
          flag = h.flag;
        })
        | inr full ↦ rw full (record {
          has_room = h.has_room;
          fits = omega (
            arith,
            h.has_room,
            h.fits,
            length-drop_one p.events,
            length-append (drop 1 p.events) (event ∷ []),
          );
          flag = h.flag;
        })
      ]

  receive_subscription-IsBounded :
      (p : TelemetryPublisher F) (message : List ℕ)
      → IsBounded p
      → IsBounded (receive_subscription p message)
  unfolding receive_subscription with_filters
  receive_subscription-IsBounded p [] h = h
  receive_subscription-IsBounded p (b ∷ prefix) h = record {
    has_room = ground arith;
    fits = ground arith;
    flag = ground arith;
  }

  send-IsBounded :
      (p : TelemetryPublisher F) (event : TelemetryEvent F) → IsBounded p → IsBounded (send p event)
  unfolding send
  send-IsBounded p event h = record {
    has_room = ground arith;
    fits = ground arith;
    flag = ground arith;
  }

  send_first-IsBounded :
      (p : TelemetryPublisher F) (events : List (TelemetryEvent F))
      → IsBounded p
      → length events ≤ p.event_queue_size
      → IsBounded (send_first p events)
  unfolding send_first
  send_first-IsBounded p [] h fits = h
  send_first-IsBounded p (event ∷ rest) h fits =
      send-IsBounded (record p { events = rest }) event
        (record { has_room = h.has_room; fits = omega (arith, fits); flag = h.flag })

  -- Every operation of a publisher keeps its queue within its size and its flag of frame subscribers
  -- in step with its filters.
  pub Operation-IsBounded : {p q : TelemetryPublisher F} → Operation p q → IsBounded p → IsBounded q
  unfolding start_telemetry offer_run offer_episode offer_frame event_round close_telemetry
  Operation-IsBounded (starting {p = p}) h = record {
    has_room = ground arith;
    fits = ground arith;
    flag = ground arith;
  }
  Operation-IsBounded (receiving {p = p} m) h = receive_subscription-IsBounded p m h
  Operation-IsBounded (offering_run {p = p} r f) h = offer_event-IsBounded p topic_run r f h
  Operation-IsBounded (offering_episode {p = p} r f) h = offer_event-IsBounded p topic_episode r f h
  Operation-IsBounded (offering_frame {p = p} r f) h =
      if-either IsBounded p.has_frame_subscribers (offer_event-IsBounded p topic_frame r f h) h
  Operation-IsBounded (sending {p = p}) h = send_first-IsBounded p p.events h h.fits
  Operation-IsBounded (closing {p = p}) h = record {
    has_room = h.has_room;
    fits = h.fits;
    flag = refl;
  }
