-- ===== src/Tests/Chain.antt =====
-- The threads on concrete steps.
use horstmann_dnp3_gateway.Base.{
  refl, ◌*◌, String, ◌≡◌, ◌⊎◌, inl, inr, Bool, true, false, none, List, [], ◌∷◌, arith, length,
  drop, occurs_lower, ◌++◌, take,
}
use horstmann_dnp3_gateway.Base.Json.{Json, null}
use horstmann_dnp3_gateway.Exception.{jetstream_publish, ok}
use horstmann_dnp3_gateway.Outbox.{load_headers, Entry, fine, Message, enqueue}
use horstmann_dnp3_gateway.JetStream.{JetStream, acked, refused, reconnects}
use horstmann_dnp3_gateway.JetStream
use horstmann_dnp3_gateway.Publisher.{Publisher, Env, publish, publish_outbox_row}
use horstmann_dnp3_gateway.Publisher.Acceptance.{normal}
use horstmann_dnp3_gateway.Publisher.Breaker.{IsTimed, publish-IsTimed}
use horstmann_dnp3_gateway.Publisher.Secondary.{secondary_has_no_part}
use horstmann_dnp3_gateway.Publisher.Retries.{Sent, publish_outbox_row-Delivers}
use horstmann_dnp3_gateway.Retrier.{Config, Attempt, Turn, run}
use horstmann_dnp3_gateway.Retrier.Safety.{IsSafe, run-IsSafe}
use horstmann_dnp3_gateway.Retrier.{configure, turn, is_not_ready}
use horstmann_dnp3_gateway.Retrier.Backoff.{InBounds, turn-InBounds}
use horstmann_dnp3_gateway.Retrier.Poison.{Buried, refusals, refusals-bury}
use horstmann_dnp3_gateway.Retrier.Outage.{run-Waiting}
use horstmann_dnp3_gateway.Retrier.Turns.{items}
use horstmann_dnp3_gateway.Retrier.Drains.{run-drains, Ended}
use horstmann_dnp3_gateway.Delivery.{
  System, Step, publishes, fetches, sends, settles, happens, steps, step,
}
use horstmann_dnp3_gateway.Delivery.AtLeastOnce.{at_least_once}
use horstmann_dnp3_gateway.Delivery.Threads.{IsHeld}
use horstmann_dnp3_gateway.Delivery.Empties.{
  wire_of, stored_of, run-empties, IsAcked, IsOpen, publish_outbox_row-Answers,
}
use horstmann_dnp3_gateway.Outbox.Messages.{IsPending, IsDead}
use horstmann_dnp3_gateway.Tests.Queue.{first_row, reading, empty, one}

abbrev pub str : Json → String
str v = "?"

abbrev broker : Bool → JetStream
broker ready = record {
  subject = "telemetry";
  ready = ready;
  loop = true;
  js = true;
  closed = false;
  publish_failures = 0;
  publish_successes = 0;
  stored = [];
}

abbrev pub publisher : Bool → Publisher
publisher ready = record {
  broker = broker ready;
  consecutive_failures = 0;
  outbox_full = false;
  outbox_full_since = none;
  last_outbox_error = none;
  has_secondary = true;
  secondary_failures = 0;
  secondary_successes = 0;
}

abbrev pub env : Env
env = record { ack = acked; secondary_raises = true; fault = fine; now = 70 }

abbrev attempt : Attempt Env
attempt = record { stopped = false; env = env; fault = fine; now = 71 }

abbrev entry : Entry
entry = record {
  id = 1;
  message_id = "a";
  correlation_id = none;
  headers = none;
  payload = null;
  retry_count = 0;
  enqueued_at = 50;
  last_error = none;
}

abbrev turns : List (Turn Env)
turns = record { fetch = fine; at = λ id. attempt; jitter = λ b. b } ∷ []

abbrev config : Config
config = record {
  poll_interval = 2000;
  batch_size = 100;
  max_retries = 5;
  min_backoff = 1000;
  max_backoff = 60000;
  backoff_multiplier = 150;
}

abbrev system : System
system = record {
  publisher = publisher false;
  outbox = empty;
  batch = [];
  answer = none;
  alive = true;
}

abbrev later : List Step
later = happens reconnects ∷ fetches fine ∷ sends env ∷ settles attempt ∷ []

at_least_once_example : IsHeld str (normal (reading "b")) (
    steps str config later
      (step str config (publishes env (reading "b")) (steps str config [] system)))
unfolding publish JetStream.publish enqueue steps
at_least_once_example =
    at_least_once str config [] later env (reading "b") system
      (record { valid = omega arith; own = tt; told = tt }) refl

run-empties_example :
    let (r, p', o') = run (publish_outbox_row str) config turns 1000 (publisher true) one in
    (r ≡ ok tt)
    × (o'.rows ≡ [])
    × (o'.dead ≡ one.dead)
    × ((m : Message) → IsPending m one → Sent str m p' ⊎ IsDead m one)
run-empties_example =
    run-empties str config turns 1000 (publisher true) one
      (
        record {
          fetched = refl;
          attempts = λ id. record { running = refl; no_fault = refl; good = refl };
        },
        tt,
      )
      (refl, refl, refl) (omega arith, omega arith) (omega arith)

run-IsSafe_example :
    IsSafe
      (Sent str)
      (reading "a")
      (run (publish_outbox_row str) config turns 1000 (publisher true) one).1
      (run (publish_outbox_row str) config turns 1000 (publisher true) one).2
unfolding load_headers
run-IsSafe_example =
    run-IsSafe (publish_outbox_row str) (Sent str) (publish_outbox_row-Delivers str) config turns
      (reading "a") 1000 (publisher true) one (omega arith, omega arith) (inr (inl (inl refl)))

run-Waiting_example :
    let ends = run (publish_outbox_row str) config turns 1000 (publisher false) one in
    (ends.1.broker.ready ≡ false) × (ends.2 ≡ one)
run-Waiting_example = run-Waiting str config one turns 1000 (publisher false) refl

run-drains_example :
    Ended
      (publish_outbox_row str)
      IsAcked
      (IsOpen "telemetry")
      stored_of
      (wire_of str "telemetry")
      (publish_outbox_row-Answers str "telemetry")
      config
      (drop (length turns * config.batch_size) one.rows)
      one.dead
      (stored_of (publisher true)
        ++ items (wire_of str "telemetry") (take (length turns * config.batch_size) one.rows))
      (run (publish_outbox_row str) config turns 1000 (publisher true) one)
run-drains_example =
    run-drains (publish_outbox_row str) IsAcked (IsOpen "telemetry") stored_of
      (wire_of str "telemetry") (publish_outbox_row-Answers str "telemetry") config turns 1000
      (publisher true) one
      (
        record {
          fetched = refl;
          attempts = λ id. record { running = refl; no_fault = refl; good = refl };
        },
        tt,
      )
      ((refl, refl, refl), refl) (omega arith, omega arith)

publish-IsTimed_example :
    IsTimed (publish str env (reading "b") (publisher false) empty).1
    × IsTimed (publish_outbox_row str env entry (publisher false)).1
publish-IsTimed_example =
    publish-IsTimed str env (reading "b") entry (publisher false) empty (inr (refl, refl))

secondary_has_no_part_example :
    let (r, p', o') = publish str env (reading "b") (publisher true) empty in
    let (s, q', t') =
      publish str
        (record env { secondary_raises = false })
        (reading "b")
        (record (publisher true) { has_secondary = false })
        empty in
    (s ≡ r)
    × (t' ≡ o')
    × (q'.broker ≡ p'.broker)
    × (q'.outbox_full ≡ p'.outbox_full)
    × (q'.consecutive_failures ≡ p'.consecutive_failures)
secondary_has_no_part_example =
    secondary_has_no_part str env (reading "b") (publisher true) empty false false

turn-InBounds_example :
    InBounds
      (configure 2000 100 5 1000 60000 150)
      (turn
        (publish_outbox_row str)
        (configure 2000 100 5 1000 60000 150)
        (record { fetch = fine; at = λ id. attempt; jitter = λ b. b })
        40000
        (publisher false)
        one).1
unfolding configure
turn-InBounds_example =
    turn-InBounds (publish_outbox_row str) 2000 100 5 1000 60000 150
      (record { fetch = fine; at = λ id. attempt; jitter = λ b. b }) 40000 (publisher false) one
      (omega arith, omega arith)

refusals-bury_example :
    Buried
      (publish_outbox_row str)
      config
      attempt
      (jetstream_publish "no stream")
      (publisher true)
      first_row
      []
      one
      (refusals
        (publish_outbox_row str)
        config
        attempt
        (jetstream_publish "no stream")
        (publisher true)
        5
        one)
unfolding is_not_ready occurs_lower
refusals-bury_example =
    refusals-bury (publish_outbox_row str) config attempt (jetstream_publish "no stream")
      (publisher true) refl refl 4 first_row [] one (omega arith, omega arith) refl refl
