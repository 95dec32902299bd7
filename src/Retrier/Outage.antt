-- ===== src/Retrier/Outage.antt =====
-- The broker's connection is down while the retrier runs: JetStreamPublisher.publish raises
-- JetStreamNotReadyError, which the loop tells from a message that is refused.
use horstmann_dnp3_gateway.Base.{ℕ, refl, ◌+◌, String, ◌≡◌, false, List}
use horstmann_dnp3_gateway.Base.Json.{Json}
use horstmann_dnp3_gateway.Exception.{raise, jetstream_not_ready}
use horstmann_dnp3_gateway.Outbox.{Message, Entry, entry_message, Outbox}
use horstmann_dnp3_gateway.JetStream.{JetStream, Ack, not_ready_text}
use horstmann_dnp3_gateway.JetStream
use horstmann_dnp3_gateway.Publisher.{Publisher, Env, publish_outbox_row}
use horstmann_dnp3_gateway.Retrier.{Config, Attempt, Turn, visit, run, no_batch, is_not_ready}
use horstmann_dnp3_gateway.Retrier.Visits.{Ends, drain_keeps, turn_keeps, run_keeps}

pub publish_not_ready :
    (str : Json → String) (ack : Ack) (m : Message) (j : JetStream)
    → j.ready ≡ false
    → JetStream.publish str ack m j ≡ (
      raise (jetstream_not_ready not_ready_text),
      record j { publish_failures = j.publish_failures + 1 },
    )
unfolding JetStream.publish
publish_not_ready str ack m j h = rw h refl

-- The connection is down, and the queue is `o`.
abbrev Waiting : Outbox → Publisher → Outbox → Type 0
Waiting o p o' = (p.broker.ready ≡ false) × (o' ≡ o)

module _ (str : Json → String) (c : Config) (o : Outbox) where
  visit-Waiting :
      (a : Attempt Env) (e : Entry) (p : Publisher) (o' : Outbox)
      → Waiting o p o'
      → Ends (Waiting o) (visit (publish_outbox_row str) c a e p o')
  unfolding visit publish_outbox_row is_not_ready
  visit-Waiting a e p o' h =
      rw (publish_not_ready str a.env.ack (entry_message e) p.broker h.0, visit) h

  -- However long the connection is down, the retrier changes nothing in the queue: no row is sent,
  -- counted as a retry or moved to the dead letters, and its thread does not set the connection up.
  pub run-Waiting :
      (turns : List (Turn Env)) (backoff : ℕ) (p : Publisher)
      → p.broker.ready ≡ false
      → let ends = run (publish_outbox_row str) c turns backoff p o in
        (ends.1.broker.ready ≡ false) × (ends.2 ≡ o)
  run-Waiting turns backoff p h =
      run_keeps (publish_outbox_row str) (Waiting o) c
        (λ t b p' o' k.
          turn_keeps (publish_outbox_row str) (Waiting o) c t b p' o'
            (λ rows q.
              drain_keeps (publish_outbox_row str) (Waiting o) c visit-Waiting t.at rows no_batch p'
                o' k)
            k)
        turns backoff p o (h, refl)
