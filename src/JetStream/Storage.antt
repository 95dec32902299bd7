-- ===== src/JetStream/Storage.antt =====
-- What the server holds after a call of `publish`, and after an event of the connection.
use horstmann_dnp3_gateway.Base.{
  ◌+◌, String, ◌≡◌, refl, ◌≢◌, ◌⊎◌, inl, inr, true, not, ◌||◌, arith, Bool-cases, Any,
  Any-append_left, Any-append_right,
}
use horstmann_dnp3_gateway.Base.Json.{Json}
use horstmann_dnp3_gateway.Exception.{raise-ne-ok, ok, jetstream_not_ready}
use horstmann_dnp3_gateway.Outbox.{Message}
use horstmann_dnp3_gateway.JetStream.{
  JetStream, Wire, Ack, acked, refused, lost, wire, publish, Event, starts, connects, reconnects,
  disconnects, connection_closes, closes, event, answer, not_ready_text,
}

-- The server holds the message.
abbrev pub Stored : (Json → String) → Message → JetStream → Type 0
Stored str m j = Any (λ (w : Wire). w ≡ wire str j.subject m) j.stored

module _ (str : Json → String) (ack : Ack) (m : Message) (j : JetStream) where
  pub publish-Stored_stays : (n : Message) → Stored str n j → Stored str n (publish str ack m j).1
  unfolding publish
  publish-Stored_stays n h = elim (Bool-cases (not j.ready || not j.loop || not j.js)) [
    | inl q ↦ rw q h
    | inr q ↦ rw q (answered ack)
  ]
    where
      answered : (a : Ack) → Stored str n (answer a (wire str j.subject m) j).1
      answered acked = Any-append_left _ j.stored _ h
      answered (refused t) = h
      answered (lost t) = Any-append_left _ j.stored _ h

  -- A call that returns has stored its message.
  pub publish-Stored : (publish str ack m j).0 ≡ ok tt → Stored str m (publish str ack m j).1
  unfolding publish
  publish-Stored h = elim (Bool-cases (not j.ready || not j.loop || not j.js)) [
    | inl q ↦ absurd (raise-ne-ok (jetstream_not_ready not_ready_text) tt (rw q at h))
    | inr q ↦ rw q (answered ack (rw q at h))
  ]
    where
      answered :
          (a : Ack)
          → (answer a (wire str j.subject m) j).0 ≡ ok tt
          → Stored str m (answer a (wire str j.subject m) j).1
      answered acked e = Any-append_right _ j.stored _ (inl refl)
      answered (refused t) e = cc
      answered (lost t) e = cc

  -- A call returns exactly when the connection is ready and the server's answer comes; every call
  -- counts as one success or one failure.
  pub publish_counts :
      let (r, j') = publish str ack m j in
      ((r ≡ ok tt)
        × (j'.publish_successes ≡ j.publish_successes + 1)
        × (j'.publish_failures ≡ j.publish_failures)
        × (ack ≡ acked)
        × (j.ready ≡ true))
      ⊎ ((r ≢ ok tt)
          × (j'.publish_successes ≡ j.publish_successes)
          × (j'.publish_failures ≡ j.publish_failures + 1))
  unfolding publish
  publish_counts = ground arith

pub event-Stored :
    (str : Json → String) (ev : Event) (n : Message) (j : JetStream)
    → Stored str n j
    → Stored str n (event ev j)
unfolding event
event-Stored str starts n j h = h
event-Stored str connects n j h = h
event-Stored str reconnects n j h = h
event-Stored str disconnects n j h = h
event-Stored str connection_closes n j h = h
event-Stored str closes n j h = elim (Bool-cases j.closed) [
  | inl q ↦ rw q h
  | inr q ↦ rw q (elim (Bool-cases j.loop) [ inl t ↦ rw t h | inr t ↦ rw t h ])
]
