-- ===== src/Publisher/Secondary.antt =====
-- The secondary publisher beside the chain.
use horstmann_dnp3_gateway.Base.{ℕ, refl, ◌+◌, String, ◌≡◌, Bool, some, arith}
use horstmann_dnp3_gateway.Base.Json.{Json}
use horstmann_dnp3_gateway.Exception.{Result, ok, raise, message}
use horstmann_dnp3_gateway.Outbox.{Message, Outbox, enqueue}
use horstmann_dnp3_gateway.JetStream
use horstmann_dnp3_gateway.Publisher.{
  Publisher, Env, publish, publish_secondary_best_effort, clear_if_full, clear_outbox_full,
  after_broker, after_enqueue, set_outbox_full,
}

-- Two outcomes that differ in nothing that the secondary has no part in.
abbrev Agree :
    Result (Unit {0}) × Publisher × Outbox → Result (Unit {0}) × Publisher × Outbox → Type 0
Agree (r, p', o') (s, q', t') =
    (s ≡ r)
    × (t' ≡ o')
    × (q'.broker ≡ p'.broker)
    × (q'.outbox_full ≡ p'.outbox_full)
    × (q'.consecutive_failures ≡ p'.consecutive_failures)

served-Agree :
    (b raises there : Bool) (p : Publisher) (o : Outbox)
    → Agree
        (ok tt, publish_secondary_best_effort b (clear_if_full p), o)
        (
          ok tt,
          publish_secondary_best_effort raises (clear_if_full (record p { has_secondary = there })),
          o,
        )
unfolding publish_secondary_best_effort clear_if_full clear_outbox_full
served-Agree b raises there p o = ground arith

after_enqueue-Agree :
    (now : ℕ) (there : Bool) (p : Publisher) (e : Result ℕ × Outbox)
    → Agree (after_enqueue now p e) (after_enqueue now (record p { has_secondary = there }) e)
unfolding after_enqueue set_outbox_full
after_enqueue-Agree now there p (ok id, o) = (refl, refl, refl, refl, refl)
after_enqueue-Agree now there p (raise exc, o) = (refl, refl, refl, refl, refl)

after_broker-Agree :
    (env : Env) (m : Message) (p : Publisher) (o : Outbox) (there raises : Bool)
    (r : Result (Unit {0}))
    → Agree (after_broker env m p o r) (
        after_broker
          (record env { secondary_raises = raises })
          m
          (record p { has_secondary = there })
          o
          r)
unfolding after_broker
after_broker-Agree env m p o there raises (ok u) =
    served-Agree env.secondary_raises raises there (record p { consecutive_failures = 0 }) o
after_broker-Agree env m p o there raises (raise exc) =
    after_enqueue-Agree env.now there
      (record p { consecutive_failures = p.consecutive_failures + 1 })
      (enqueue env.fault env.now m (some (message exc)) o)

-- The secondary publisher has no part in what a call gives, in the queue or in the broker: they are
-- the same whether it is there, and whether it raises.
pub secondary_has_no_part :
    (str : Json → String) (env : Env) (m : Message) (p : Publisher) (o : Outbox)
    (there raises : Bool)
    → let (r, p', o') = publish str env m p o in
      let (s, q', t') =
        publish str
          (record env { secondary_raises = raises })
          m
          (record p { has_secondary = there })
          o in
      (s ≡ r)
      × (t' ≡ o')
      × (q'.broker ≡ p'.broker)
      × (q'.outbox_full ≡ p'.outbox_full)
      × (q'.consecutive_failures ≡ p'.consecutive_failures)
unfolding publish
secondary_has_no_part str env m p o there raises =
    after_broker-Agree env m (record p { broker = (JetStream.publish str env.ack m p.broker).1 }) o
      there raises (JetStream.publish str env.ack m p.broker).0
