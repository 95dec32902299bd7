-- ===== src/Poller/Breaks.antt =====
-- Which exceptions reach the cycle: OutboxFullError alone, and then the breaker is set.
use horstmann_dnp3_gateway.Base.{
  ℕ, ◌+◌, String, ◌≡◌, refl, inl, inr, true, List, [], ◌∷◌, Bool-cases, ◌==◌, nat_eq, text_eq,
  pair_eq,
}
use horstmann_dnp3_gateway.Base.Json.{Json}
use horstmann_dnp3_gateway.Exception.{
  Exc, Result, ok, raise, outbox_full, jetstream_not_ready, jetstream_publish, sqlite, other,
}
use horstmann_dnp3_gateway.Config.{DeviceConfig, SignalConfig}
use horstmann_dnp3_gateway.Outbox.{Outbox, Message}
use horstmann_dnp3_gateway.Publisher.{Publisher, Env, publish}
use horstmann_dnp3_gateway.Publisher.Breaker.{publish_ends}
use horstmann_dnp3_gateway.Poller.{
  Around, World, SignalReading, count_publish, publish_reading, publish_readings, after_reading,
  after_read, poll_device, telemetry_message,
}

publish_raises :
    (str : Json → String) (env : Env) (m : Message) (p : Publisher) (o : Outbox) (exc : Exc)
    → (publish str env m p o).0 ≡ raise exc
    → (publish str env m p o).1.outbox_full ≡ true
publish_raises str env m p o exc h = elim (publish_ends str env m p o) [
  | inl k ↦ cc (k.1.0)
  | inr k ↦ elim k.1.1 [ inl q ↦ cc (q.0) | inr q ↦ q.1 ]
]

module _ {ℓ} {R : Type ℓ} where
  -- What the loops give: a count, or OutboxFullError with the breaker set.
  abbrev pub Stops : Result ℕ × World R → Type 0
  Stops (ok n, w) = Unit
  Stops (raise (outbox_full t), w) = w.publisher.outbox_full ≡ true
  Stops (raise (jetstream_not_ready t), w) = ⊥
  Stops (raise (jetstream_publish t), w) = ⊥
  Stops (raise (sqlite t), w) = ⊥
  Stops (raise (other t), w) = ⊥

  count_publish-Stops :
      (n : ℕ) (r : Result (Unit {0})) (w : World R)
      → ((exc : Exc) → r ≡ raise exc → w.publisher.outbox_full ≡ true)
      → Stops (count_publish n r, w)
  unfolding count_publish
  count_publish-Stops n (ok u) w h = tt
  count_publish-Stops n (raise (outbox_full t)) w h = h (outbox_full t) refl
  count_publish-Stops n (raise (jetstream_not_ready t)) w h = tt
  count_publish-Stops n (raise (jetstream_publish t)) w h = tt
  count_publish-Stops n (raise (sqlite t)) w h = tt
  count_publish-Stops n (raise (other t)) w h = tt

  after_reading-Stops :
      (next : ℕ → World R → Result ℕ × World R) (r : Result ℕ × World R)
      → ((n : ℕ) (w : World R) → Stops (next n w))
      → Stops r
      → Stops (after_reading next r)
  unfolding after_reading
  after_reading-Stops next (ok n, w) k h = k n w
  after_reading-Stops next (raise exc, w) k h = h

module _ {ℓ} {R : Type ℓ} (x : Around R) where
  publish_reading-Stops :
      (d : DeviceConfig) (c iso : String) (r : SignalReading) (n : ℕ) (w : World R)
      → Stops (publish_reading x d c iso r n w)
  unfolding publish_reading
  publish_reading-Stops d c iso r n w =
      let m = telemetry_message x.gateway_code d r (x.uuid4 w.calls) c iso in
      let (result, p, o) = publish x.str (x.env w.calls) m w.publisher w.outbox in
      count_publish-Stops n result (record w { publisher = p; outbox = o; calls = w.calls + 1 })
        (publish_raises x.str (x.env w.calls) m w.publisher w.outbox)

  publish_readings-Stops :
      (d : DeviceConfig) (c iso : String) (readings : List SignalReading) (n : ℕ) (w : World R)
      → Stops (publish_readings x d c iso readings n w)
  unfolding publish_readings
  publish_readings-Stops d c iso [] n w = tt
  publish_readings-Stops d c iso (r ∷ readings) n w = elim (Bool-cases (r.quality == "no_change")) [
    | inl q ↦ rw (q, publish_readings) (publish_readings-Stops d c iso readings n w)
    | inr q ↦
        rw (q, publish_readings)
          (after_reading-Stops (publish_readings x d c iso readings)
            (publish_reading x d c iso r n w) (λ k v. publish_readings-Stops d c iso readings k v)
            (publish_reading-Stops d c iso r n w))
  ]

  pub poll_device-Stops :
      (d : DeviceConfig) (signals : List SignalConfig) (w : World R)
      → Stops (poll_device x d signals w)
  unfolding poll_device
  poll_device-Stops d [] w = tt
  poll_device-Stops d (sig ∷ signals) w = go (x.read_device d (sig ∷ signals) w.reader).0
    where
      w' : World R
      w' = record w { reader = (x.read_device d (sig ∷ signals) w.reader).1; calls = w.calls + 1 }

      go :
          (r : Result (List SignalReading))
          → Stops (after_read x d (x.uuid4 w.calls) (x.now_iso w.calls) r w')
      go (ok readings) =
          publish_readings-Stops d (x.uuid4 w.calls) (x.now_iso w.calls) readings 0 w'
      go (raise exc) = tt
