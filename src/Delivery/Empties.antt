-- ===== src/Delivery/Empties.antt =====
-- The whole chain while the broker answers: the retrier with `publish_outbox_row` empties the
-- queue, and what was queued is on the server.
use horstmann_dnp3_gateway.Base.{
  ℕ, refl, ◌*◌, ◌≤◌, String, ◌≡◌, sym, ◌∙◌, ◌⊎◌, true, List, [], ◌∷◌, length, drop, All, subst,
  zero, suc, inl, inr, arith, Any, ap, ◌++◌,
}
use horstmann_dnp3_gateway.Base.Json.{Json}
use horstmann_dnp3_gateway.Exception.{ok}
use horstmann_dnp3_gateway.Outbox.{DeadRow, Row, Outbox, Message, Entry, entry_message}
use horstmann_dnp3_gateway.Outbox.Invariant.{IsValid}
use horstmann_dnp3_gateway.Outbox.Messages.{IsPending, IsDead, Waits, dead_message}
use horstmann_dnp3_gateway.JetStream.{JetStream, Ack, acked}
use horstmann_dnp3_gateway.JetStream
use horstmann_dnp3_gateway.Publisher.{Publisher, Env, publish_outbox_row}
use horstmann_dnp3_gateway.Publisher.Retries.{
  Sent, publish_outbox_row-Delivers, answer-publish_outbox_row, broker-publish_outbox_row,
}
use horstmann_dnp3_gateway.Retrier.{Config, Turn, run}
use horstmann_dnp3_gateway.Retrier.Safety.{run-IsSafe, IsSafe}
use horstmann_dnp3_gateway.Retrier.Turns.{Answers, IsCalmTurn}
use horstmann_dnp3_gateway.Retrier.Drains.{Ended, run-drains}

-- The connection stands.
abbrev pub IsUp : JetStream → Type 0
IsUp j = (j.ready ≡ true) × (j.loop ≡ true) × (j.js ≡ true)

abbrev pub IsOpen : String → Publisher → Type 0
IsOpen subject p = IsUp p.broker × (p.broker.subject ≡ subject)

abbrev pub IsAcked : Env → Type 0
IsAcked env = env.ack ≡ acked

pub publish-acked :
    (str : Json → String) (ack : Ack) (m : Message) (j : JetStream)
    → ack ≡ acked
    → IsUp j
    → ((JetStream.publish str ack m j).0 ≡ ok tt) × IsUp (JetStream.publish str ack m j).1
unfolding JetStream.publish
publish-acked str ack m j q h = rw (q, h.0, h.1, h.2) (refl, (refl, refl, refl))

-- The server answers a call of the broker that is up: the message is stored last.
pub stored-publish :
    (str : Json → String) (ack : Ack) (m : Message) (j : JetStream)
    → ack ≡ acked
    → IsUp j
    → ((JetStream.publish str ack m j).1.stored ≡ j.stored ++ JetStream.wire str j.subject m ∷ [])
      × ((JetStream.publish str ack m j).1.subject ≡ j.subject)
unfolding JetStream.publish
stored-publish str ack m j q h = rw (q, h.0, h.1, h.2) (refl, refl)

-- What the server has stored, and what a row adds to it.
abbrev pub stored_of : Publisher → List JetStream.Wire
stored_of p = p.broker.stored

abbrev pub wire_of : (Json → String) → String → Entry → JetStream.Wire
wire_of str subject e = JetStream.wire str subject (entry_message e)

pub publish_outbox_row-Answers :
    (str : Json → String) (subject : String)
    → Answers (publish_outbox_row str) IsAcked (IsOpen subject) stored_of (wire_of str subject)
publish_outbox_row-Answers str subject = record {
  returns = λ env e p g i.
      answer-publish_outbox_row str env e p
      ∙ (publish-acked str env.ack (entry_message e) p.broker g i.0).0;
  stays = λ env e p g i.
      subst (λ (j : JetStream). IsUp j × (j.subject ≡ subject))
        (sym (broker-publish_outbox_row str env e p))
        (
          (publish-acked str env.ack (entry_message e) p.broker g i.0).1,
          (stored-publish str env.ack (entry_message e) p.broker g i.0).1 ∙ i.1,
        );
  logs = λ env e p g i.
      ap (λ (j : JetStream). j.stored) (broker-publish_outbox_row str env e p)
      ∙ (stored-publish str env.ack (entry_message e) p.broker g i.0).0
      ∙ ap (λ (t : String). p.broker.stored ++ JetStream.wire str t (entry_message e) ∷ []) i.1;
}

drop-all : (n : ℕ) (rows : List Row) → length rows ≤ n → drop n rows ≡ []
drop-all zero [] h = refl
drop-all (suc n) [] h = refl
drop-all zero (r ∷ rows) h = absurd (omega arith)
drop-all (suc n) (r ∷ rows) h = drop-all n rows (omega arith)

module _ (str : Json → String) (c : Config) (turns : List (Turn Env)) (backoff : ℕ) (p : Publisher)
    (o : Outbox) where
  -- While the connection stands, the server answers and nothing fails: after turns enough for the
  -- queue's length it is empty, no row has become a dead letter, the thread has not ended, and every
  -- message that was queued is on the server (or was a dead letter before).
  pub run-empties :
      All
        (IsCalmTurn
          (publish_outbox_row str)
          IsAcked
          (IsOpen p.broker.subject)
          stored_of
          (wire_of str p.broker.subject)
          (publish_outbox_row-Answers str p.broker.subject)
          c)
        turns
      → IsUp p.broker
      → IsValid o
      → length o.rows ≤ length turns * c.batch_size
      → let (r, p', o') = run (publish_outbox_row str) c turns backoff p o in
        (r ≡ ok tt)
        × (o'.rows ≡ [])
        × (o'.dead ≡ o.dead)
        × ((m : Message) → IsPending m o → Sent str m p' ⊎ IsDead m o)
  unfolding Ended
  run-empties calm i v enough =
      let n = length turns * c.batch_size in
      let ends = run (publish_outbox_row str) c turns backoff p o in
      let (r, stands, left, dead, stored) =
        run-drains (publish_outbox_row str) IsAcked (IsOpen p.broker.subject) stored_of
          (wire_of str p.broker.subject) (publish_outbox_row-Answers str p.broker.subject) c turns
          backoff p o calm (i, refl) v in
      let rows = left ∙ drop-all n o.rows enough in
      (
        r,
        rows,
        dead,
        λ m w. on_server m ends.2 rows dead (
            run-IsSafe (publish_outbox_row str) (Sent str) (publish_outbox_row-Delivers str) c turns
              m backoff p o v (inr (inl w))),
      )
    where
      on_server :
          (m : Message) (o' : Outbox)
          → o'.rows ≡ []
          → o'.dead ≡ o.dead
          → IsSafe (Sent str) m (run (publish_outbox_row str) c turns backoff p o).1 o'
          → Sent str m (run (publish_outbox_row str) c turns backoff p o).1 ⊎ IsDead m o
      on_server m o' e d (inl k) = inl k
      on_server m o' e d (inr (inl w)) = absurd (subst (Waits m) e w)
      on_server m o' e d (inr (inr w)) = inr (subst (Any (λ (x : DeadRow). dead_message x ≡ m)) d w)
