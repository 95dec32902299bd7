-- ===== src/Poller/Deltas.antt =====
-- What is published of the readings: the payload, and no reading that has not changed.
use mathlib.Core.List.{append-nil, append_assoc}
use horstmann_dnp3_gateway.Base.{
  ap, ℕ, ◌+◌, String, ◌≡◌, refl, sym, ◌∙◌, inl, inr, Bool, not, List, [], ◌∷◌, ◌++◌, map,
  Bool-cases, ◌==◌, nat_eq, text_eq, pair_eq, length, keep, subst, arith,
}
use horstmann_dnp3_gateway.Base.Json.{Json}
use horstmann_dnp3_gateway.Exception.{Result, ok, raise, raise-ne-ok}
use horstmann_dnp3_gateway.Config.{DeviceConfig}
use horstmann_dnp3_gateway.Outbox.{Outbox, Message}
use horstmann_dnp3_gateway.JetStream.{JetStream, Ack, acked}
use horstmann_dnp3_gateway.JetStream
use horstmann_dnp3_gateway.Publisher.{Publisher, Env, publish}
use horstmann_dnp3_gateway.Publisher.Acceptance.{broker-publish}
use horstmann_dnp3_gateway.Publisher.Breaker.{publish_ends}
use horstmann_dnp3_gateway.Delivery.Empties.{IsUp, publish-acked, stored-publish}
use horstmann_dnp3_gateway.Poller.{
  Around, World, SignalReading, count_publish, publish_reading, publish_readings, after_reading,
  telemetry_message,
}

-- Readings whose quality is not no_change.
abbrev pub is_delta : SignalReading → Bool
is_delta r = not (r.quality == "no_change")

-- A publish that the server answers changes nothing but the server, and gives no exception.
abbrev Served :
    (Json → String) → Message → Publisher → Outbox → Result (Unit {0}) × Publisher × Outbox → Type 0
Served str m p o (r, p', o') =
    (r ≡ ok tt)
    × (o' ≡ o)
    × IsUp p'.broker
    × (p'.broker.stored ≡ p.broker.stored ++ JetStream.wire str p.broker.subject m ∷ [])
    × (p'.broker.subject ≡ p.broker.subject)

publish-Served :
    (str : Json → String) (env : Env) (m : Message) (p : Publisher) (o : Outbox)
    → env.ack ≡ acked
    → IsUp p.broker
    → Served str m p o (publish str env m p o)
publish-Served str env m p o q h = elim (publish_ends str env m p o) [
  | inl k ↦ (
    k.1.0,
    k.1.3,
    subst IsUp (sym (broker-publish str env m p o)) (publish-acked str env.ack m p.broker q h).1,
    ap (λ (j : JetStream). j.stored) (broker-publish str env m p o)
        ∙ (stored-publish str env.ack m p.broker q h).0,
    ap (λ (j : JetStream). j.subject) (broker-publish str env m p o)
        ∙ (stored-publish str env.ack m p.broker q h).1,
  )
  | inr k ↦ absurd (raise-ne-ok k.0 tt (sym k.1.0 ∙ (publish-acked str env.ack m p.broker q h).0))
]

module _ {ℓ} {R : Type ℓ} (x : Around R) (d : DeviceConfig) (c iso : String)
    (good : (n : ℕ) → (x.env n).ack ≡ acked) where
  -- The messages of the readings, from the `i`-th call on.
  unfoldable pub messages : ℕ → List SignalReading → List Message
  messages i [] = []
  messages i (r ∷ readings) =
      telemetry_message x.gateway_code d r (x.uuid4 i) c iso ∷ messages (i + 1) readings

  -- How the loop ends.
  unfoldable pub Sends : ℕ → List SignalReading → World R → Result ℕ × World R → Type ℓ
  Sends n deltas w (r, w') =
      (r ≡ ok (n + length deltas))
      × (w'.outbox ≡ w.outbox)
      × (w'.publisher.broker.stored
          ≡ w.publisher.broker.stored
            ++ map (JetStream.wire x.str w.publisher.broker.subject) (messages w.calls deltas))
      × IsUp w'.publisher.broker
      × (w'.publisher.broker.subject ≡ w.publisher.broker.subject)
      × (w'.reader ≡ w.reader)
      × (w'.calls ≡ w.calls + length deltas)

  after_reading-Sends :
      (next : ℕ → World R → Result ℕ × World R) (r : SignalReading) (deltas : List SignalReading)
      (n : ℕ) (w : World R) (e : Result (Unit {0}) × Publisher × Outbox)
      → ((k : ℕ) (v : World R) → IsUp v.publisher.broker → Sends k deltas v (next k v))
      → Served x.str
          (telemetry_message x.gateway_code d r (x.uuid4 w.calls) c iso)
          w.publisher
          w.outbox
          e
      → Sends n (r ∷ deltas) w (
          after_reading next
            (count_publish n e.0, record w { publisher = e.1; outbox = e.2; calls = w.calls + 1 }))
  unfolding after_reading count_publish Sends messages
  after_reading-Sends next r deltas n w (ok u, p, o) k h =
      let m = telemetry_message x.gateway_code d r (x.uuid4 w.calls) c iso in
      let (sent, queue, stored, up, subject, reader, calls) =
        k (n + 1) (record w { publisher = p; outbox = o; calls = w.calls + 1 }) h.2 in
      (
        sent ∙ ap ok (omega arith),
        queue ∙ h.1,
        stored
            ∙ ap
                (λ subject.
                  p.broker.stored
                  ++ map (JetStream.wire x.str subject) (messages (w.calls + 1) deltas))
                h.4
            ∙ ap
                (λ ws.
                  ws
                  ++ map (JetStream.wire x.str w.publisher.broker.subject)
                      (messages (w.calls + 1) deltas))
                h.3
            ∙ append_assoc w.publisher.broker.stored
                (JetStream.wire x.str w.publisher.broker.subject m ∷ [])
                (map (JetStream.wire x.str w.publisher.broker.subject)
                  (messages (w.calls + 1) deltas)),
        up,
        subject ∙ h.4,
        reader,
        calls ∙ omega arith,
      )
  after_reading-Sends next r deltas n w (raise exc, p, o) k h = cc

  -- While the connection stands and the server answers, the loop over the readings sends one message
  -- for each reading whose quality is not no_change, in their order, counts them,
  -- and leaves the queue and the adapter as they are.
  pub publish_readings-Sends :
      (readings : List SignalReading) (n : ℕ) (w : World R)
      → IsUp w.publisher.broker
      → Sends n (keep is_delta readings) w (publish_readings x d c iso readings n w)
  unfolding publish_readings publish_reading keep Sends messages
  publish_readings-Sends [] n w up = (
    ap ok (omega arith),
    refl,
    sym (append-nil w.publisher.broker.stored),
    up,
    refl,
    refl,
    omega arith,
  )
  publish_readings-Sends (r ∷ readings) n w up = elim (Bool-cases (r.quality == "no_change")) [
    | inl q ↦ rw (q, publish_readings) (publish_readings-Sends readings n w up)
    | inr q ↦
        rw (q, publish_readings)
          (after_reading-Sends (publish_readings x d c iso readings) r (keep is_delta readings) n w
            (publish x.str (x.env w.calls)
              (telemetry_message x.gateway_code d r (x.uuid4 w.calls) c iso) w.publisher w.outbox)
            (λ k v u. publish_readings-Sends readings k v u)
            (publish-Served x.str (x.env w.calls)
              (telemetry_message x.gateway_code d r (x.uuid4 w.calls) c iso) w.publisher w.outbox
              (good w.calls) up))
  ]
