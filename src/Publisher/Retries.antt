-- ===== src/Publisher/Retries.antt =====
-- `publish_outbox_row`, the retrier's `publish_fn`, does what the retrier relies on.
use horstmann_dnp3_gateway.Base.{refl, String, ◌≡◌, sym, ◌∙◌, subst}
use horstmann_dnp3_gateway.Base.Json.{Json}
use horstmann_dnp3_gateway.Exception.{Result, ok, raise}
use horstmann_dnp3_gateway.Outbox.{Message, Entry, entry_message, Outbox}
use horstmann_dnp3_gateway.JetStream
use horstmann_dnp3_gateway.JetStream.Storage.{Stored, publish-Stored, publish-Stored_stays}
use horstmann_dnp3_gateway.Publisher.{
  Publisher, Env, publish_outbox_row, after_row, publish, clear_if_full,
}
use horstmann_dnp3_gateway.Publisher.Acceptance.{
  broker-clear_if_full, broker-secondary, broker-publish,
}
use horstmann_dnp3_gateway.Retrier.Safety.{Delivers}

-- The primary broker has stored the message.
abbrev pub Sent : (Json → String) → Message → Publisher → Type 0
Sent str m p = Stored str m p.broker

broker-after_row :
    (env : Env) (p : Publisher) (r : Result (Unit {0})) → (after_row env p r).1.broker ≡ p.broker
unfolding after_row
broker-after_row env p (raise exc) = refl
broker-after_row env p (ok u) =
    broker-secondary env.secondary_raises (clear_if_full p) ∙ broker-clear_if_full p

answer-after_row : (env : Env) (p : Publisher) (r : Result (Unit {0})) → (after_row env p r).0 ≡ r
unfolding after_row
answer-after_row env p (raise exc) = refl
answer-after_row env p (ok tt) = refl

module _ (str : Json → String) (env : Env) (e : Entry) (p : Publisher) where
  pub broker-publish_outbox_row :
      (publish_outbox_row str env e p).1.broker
      ≡ (JetStream.publish str env.ack (entry_message e) p.broker).1
  unfolding publish_outbox_row
  broker-publish_outbox_row =
      broker-after_row env
        (record p { broker = (JetStream.publish str env.ack (entry_message e) p.broker).1 })
        (JetStream.publish str env.ack (entry_message e) p.broker).0

  pub answer-publish_outbox_row :
      (publish_outbox_row str env e p).0
      ≡ (JetStream.publish str env.ack (entry_message e) p.broker).0
  unfolding publish_outbox_row
  answer-publish_outbox_row =
      answer-after_row env
        (record p { broker = (JetStream.publish str env.ack (entry_message e) p.broker).1 })
        (JetStream.publish str env.ack (entry_message e) p.broker).0

pub publish_outbox_row-Delivers :
    (str : Json → String) → Delivers (publish_outbox_row str) (Sent str)
publish_outbox_row-Delivers str = record {
  stays = λ env e p m h.
      subst (Stored str m) (sym (broker-publish_outbox_row str env e p))
        (publish-Stored_stays str env.ack (entry_message e) p.broker m h);
  returns = λ env e p q.
      subst (Stored str (entry_message e)) (sym (broker-publish_outbox_row str env e p)) (
        publish-Stored str env.ack (entry_message e) p.broker
          (sym (answer-publish_outbox_row str env e p) ∙ q));
}

-- A message that the broker has stored stays so over a call of `publish`.
pub publish-Sent :
    (str : Json → String) (env : Env) (m n : Message) (p : Publisher) (o : Outbox)
    → Sent str n p
    → Sent str n (publish str env m p o).1
publish-Sent str env m n p o h =
    subst (Stored str n) (sym (broker-publish str env m p o))
      (publish-Stored_stays str env.ack m p.broker n h)
