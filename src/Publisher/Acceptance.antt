-- ===== src/Publisher/Acceptance.antt =====
-- What `publish` makes of a message: it is stored by the server, or a row of the queue.
use horstmann_dnp3_gateway.JetStream.Storage.{publish-Stored, Stored}
use horstmann_dnp3_gateway.Outbox.Keeps.{IsKept}
use horstmann_dnp3_gateway.Publisher.{
  set_outbox_full, after_enqueue, Publisher, after_broker, Env, clear_if_full,
  publish_secondary_best_effort, publish,
}
use horstmann_dnp3_gateway.Base.{
  subst, ℕ, String, ◌≡◌, refl, inl, inr, Option, none, some, leb, Bool-cases, Any-append_left,
  Any-append_right, ◌+◌, sym, ap, ◌∙◌, ◌⊎◌, Bool, arith,
}
use horstmann_dnp3_gateway.Base.Json.{Json, Fields, end, field}
use horstmann_dnp3_gateway.Exception.{message, raise, Result, ok}
use horstmann_dnp3_gateway.Outbox.{
  Outbox, Message, Fault, fine, execute_fails, commit_fails, enqueue, new_row, dump_headers,
  load_headers,
}
use horstmann_dnp3_gateway.Outbox.Messages.{row_message, IsPending}
use horstmann_dnp3_gateway.JetStream.{JetStream, wire}
use horstmann_dnp3_gateway.JetStream

-- The message as the queue gives it back: empty headers are no headers.
abbrev pub normal : Message → Message
normal m = record m { headers = load_headers (dump_headers m.headers) }

-- For the server both are one message.
pub wire-normal :
    (str : Json → String) (subject : String) (m : Message)
    → wire str subject (normal m) ≡ wire str subject m
unfolding JetStream.wire load_headers dump_headers
wire-normal str subject m = go m.headers
  where
    go :
        (h : Option Fields)
        → wire str subject (record m { headers = load_headers (dump_headers h) })
          ≡ wire str subject (record m { headers = h })
    go none = refl
    go (some end) = refl
    go (some (field k v rest)) = refl

new_row-message :
    (id now : ℕ) (m : Message) (error : Option String)
    → row_message (new_row id now m error) ≡ normal m
unfolding new_row
new_row-message id now m error = refl

-- A call of `enqueue` that returns has put the message into the queue; any call keeps what is kept.
pub enqueue-IsPending :
    (fault : Fault) (now : ℕ) (m : Message) (error : Option String) (o : Outbox) (id : ℕ)
    → (enqueue fault now m error o).0 ≡ ok id
    → IsPending (normal m) (enqueue fault now m error o).1
unfolding enqueue
enqueue-IsPending fine now m error o id h =
    elim (Bool-cases (leb o.max_pending o.pending_estimate)) [
      | inl q ↦ cc (rw q at h)
      | inr q ↦ rw q (Any-append_right _ o.rows _ (inl (new_row-message o.next_id now m error)))
    ]
enqueue-IsPending (execute_fails n t) now m error o id h =
    elim (Bool-cases (leb o.max_pending o.pending_estimate)) [ inl q ↦ cc | inr q ↦ cc ]
enqueue-IsPending (commit_fails t) now m error o id h =
    elim (Bool-cases (leb o.max_pending o.pending_estimate)) [ inl q ↦ cc | inr q ↦ cc ]

enqueue-IsPending_stays :
    (fault : Fault) (now : ℕ) (m n : Message) (error : Option String) (o : Outbox)
    → IsPending n o
    → IsPending n (enqueue fault now m error o).1
unfolding enqueue
enqueue-IsPending_stays fine now m n error o w =
    elim (Bool-cases (leb o.max_pending o.pending_estimate)) [
      | inl q ↦ rw q w
      | inr q ↦ rw q (Any-append_left _ o.rows _ w)
    ]
enqueue-IsPending_stays (execute_fails k t) now m n error o w =
    elim (Bool-cases (leb o.max_pending o.pending_estimate)) [ inl q ↦ rw q w | inr q ↦ rw q w ]
enqueue-IsPending_stays (commit_fails t) now m n error o w =
    elim (Bool-cases (leb o.max_pending o.pending_estimate)) [
      | inl q ↦ rw q w
      | inr q ↦ rw q (Any-append_left _ o.rows _ w)
    ]

enqueue-dead :
    (fault : Fault) (now : ℕ) (m : Message) (error : Option String) (o : Outbox)
    → (enqueue fault now m error o).1.dead ≡ o.dead
unfolding enqueue
enqueue-dead fine now m error o = ground arith
enqueue-dead (execute_fails n t) now m error o = ground arith
enqueue-dead (commit_fails t) now m error o = ground arith

pub enqueue-IsKept :
    (fault : Fault) (now : ℕ) (m n : Message) (error : Option String) (o : Outbox)
    → IsKept n o
    → IsKept n (enqueue fault now m error o).1
enqueue-IsKept fault now m n error o (inl w) = inl (enqueue-IsPending_stays fault now m n error o w)
enqueue-IsKept fault now m n error o (inr d) = inr (rw (enqueue-dead fault now m error o) d)

after_broker-accepts :
    (env : Env) (m : Message) (p : Publisher) (o : Outbox) (r : Result (Unit {0}))
    → (after_broker env m p o r).0 ≡ ok tt
    → (r ≡ ok tt) ⊎ IsPending (normal m) (after_broker env m p o r).2
unfolding after_broker
after_broker-accepts env m p o (ok u) h = inl refl
after_broker-accepts env m p o (raise exc) h =
    inr (entered (enqueue env.fault env.now m (some (message exc)) o) refl h)
  where
    p' : Publisher
    p' = record p { consecutive_failures = p.consecutive_failures + 1 }

    entered :
        (e : Result ℕ × Outbox)
        → enqueue env.fault env.now m (some (message exc)) o ≡ e
        → (after_enqueue env.now p' e).0 ≡ ok tt
        → IsPending (normal m) (after_enqueue env.now p' e).2
    entered (ok id, o') q k =
        subst (λ (x : Result ℕ × Outbox). IsPending (normal m) x.1) q
          (enqueue-IsPending env.fault env.now m (some (message exc)) o id
            (ap (λ (x : Result ℕ × Outbox). x.0) q))
    entered (raise exc', o') q k = cc

-- The broker that `publish` leaves is what the call of the broker left.
broker-after_enqueue :
    (now : ℕ) (p : Publisher) (e : Result ℕ × Outbox) → (after_enqueue now p e).1.broker ≡ p.broker
unfolding after_enqueue set_outbox_full
broker-after_enqueue now p (ok id, o) = refl
broker-after_enqueue now p (raise exc, o) = refl

-- The queue that `publish` leaves is what `enqueue` left.
outbox-after_enqueue :
    (now : ℕ) (p : Publisher) (e : Result ℕ × Outbox) → (after_enqueue now p e).2 ≡ e.1
unfolding after_enqueue
outbox-after_enqueue now p (ok id, o) = refl
outbox-after_enqueue now p (raise exc, o) = refl

pub broker-clear_if_full : (p : Publisher) → (clear_if_full p).broker ≡ p.broker
unfolding clear_if_full
broker-clear_if_full p = ground arith

pub broker-secondary :
    (b : Bool) (p : Publisher) → (publish_secondary_best_effort b p).broker ≡ p.broker
unfolding publish_secondary_best_effort
broker-secondary b p = ground arith

broker-after_broker :
    (env : Env) (m : Message) (p : Publisher) (o : Outbox) (r : Result (Unit {0}))
    → (after_broker env m p o r).1.broker ≡ p.broker
unfolding after_broker
broker-after_broker env m p o (ok u) =
    broker-secondary env.secondary_raises (clear_if_full (record p { consecutive_failures = 0 }))
    ∙ broker-clear_if_full (record p { consecutive_failures = 0 })
broker-after_broker env m p o (raise exc) = broker-after_enqueue env.now _ _

pub broker-publish :
    (str : Json → String) (env : Env) (m : Message) (p : Publisher) (o : Outbox)
    → (publish str env m p o).1.broker ≡ (JetStream.publish str env.ack m p.broker).1
unfolding publish
broker-publish str env m p o =
    broker-after_broker env m (record p { broker = (JetStream.publish str env.ack m p.broker).1 }) o
      (JetStream.publish str env.ack m p.broker).0

publish-answer :
    (str : Json → String) (env : Env) (m : Message) (p : Publisher) (o : Outbox)
    → (publish str env m p o).0 ≡ ok tt
    → ((JetStream.publish str env.ack m p.broker).0 ≡ ok tt)
      ⊎ IsPending (normal m) (publish str env m p o).2
unfolding publish
publish-answer str env m p o h =
    after_broker-accepts env m (record p { broker = (JetStream.publish str env.ack m p.broker).1 })
      o (JetStream.publish str env.ack m p.broker).0 h

-- A call that returns has stored the message on the server, or put it into the queue.
pub publish-accepts :
    (str : Json → String) (env : Env) (m : Message) (p : Publisher) (o : Outbox)
    → (publish str env m p o).0 ≡ ok tt
    → Stored str m (publish str env m p o).1.broker ⊎ IsPending (normal m) (publish str env m p o).2
publish-accepts str env m p o h = elim (accepts h) [
  | inl q ↦ inl (
      subst (Stored str m) (sym (broker-publish str env m p o))
        (publish-Stored str env.ack m p.broker q))
  | inr w ↦ inr w
]
  where
    accepts :
        (publish str env m p o).0 ≡ ok tt
        → ((JetStream.publish str env.ack m p.broker).0 ≡ ok tt)
          ⊎ IsPending (normal m) (publish str env m p o).2
    accepts = publish-answer str env m p o

-- What every call of `enqueue` keeps of the queue, `publish` keeps.
pub publish_keeps :
    (P : Outbox → Type 0)
    → ((fault : Fault) (now : ℕ) (m : Message) (error : Option String) (o : Outbox)
        → P o
        → P (enqueue fault now m error o).1)
    → (str : Json → String) (env : Env) (m : Message) (p : Publisher) (o : Outbox) → P o
    → P (publish str env m p o).2
unfolding publish
publish_keeps P k str env m p o h = go (JetStream.publish str env.ack m p.broker).0
  where
    p' : Publisher
    p' = record p { broker = (JetStream.publish str env.ack m p.broker).1 }

    go : (r : Result (Unit {0})) → P (after_broker env m p' o r).2
    go (ok u) = h
    go (raise exc) =
        subst P (sym (outbox-after_enqueue env.now _ _))
          (k env.fault env.now m (some (message exc)) o h)
