-- ===== src/Publisher/Breaker.antt =====
-- The circuit breaker `outbox_full`, and how a call of `publish` ends.
use horstmann_dnp3_gateway.Base.{
  ℕ, refl, ◌+◌, String, ◌≡◌, ◌≢◌, ◌⊎◌, inl, inr, Bool, true, false, none, some, arith,
  if◌then◌else◌, Option, ap, suc, [], ◌∷◌, ◌++◌, sym, ◌∙◌, nat_eq, text_eq, pair_eq,
}
use horstmann_dnp3_gateway.Base.Json.{Json}
use horstmann_dnp3_gateway.Exception.{Exc, Result, ok, raise, raise-ne-ok, message}
use horstmann_dnp3_gateway.Outbox.{
  fine, execute_fails, commit_fails, Fault, commit_fails, execute_fails, Fault, Message, Entry,
  entry_message, Outbox, enqueue, new_row,
}
use horstmann_dnp3_gateway.JetStream
use horstmann_dnp3_gateway.Publisher.{
  refusal, Publisher, Env, publish_outbox_row, after_row, publish, publish_secondary_best_effort,
  clear_if_full, clear_outbox_full, after_broker, after_enqueue, set_outbox_full,
}

-- The breaker is set exactly while it has a time.
abbrev pub IsTimed : Publisher → Type 0
IsTimed p =
    ((p.outbox_full ≡ true) × (p.outbox_full_since ≢ none))
    ⊎ ((p.outbox_full ≡ false) × (p.outbox_full_since ≡ none))

set-IsTimed : (now : ℕ) (t : String) (p : Publisher) → IsTimed p → IsTimed (set_outbox_full now t p)
unfolding set_outbox_full
set-IsTimed now t p (inl h) = ground arith
set-IsTimed now t p (inr h) = ground arith

served-IsTimed :
    (b : Bool) (p : Publisher)
    → IsTimed p
    → IsTimed (publish_secondary_best_effort b (clear_if_full p))
unfolding publish_secondary_best_effort clear_if_full clear_outbox_full
served-IsTimed b p h = ground arith

after_enqueue-IsTimed :
    (now : ℕ) (p : Publisher) (e : Result ℕ × Outbox)
    → IsTimed p
    → IsTimed (after_enqueue now p e).1
unfolding after_enqueue
after_enqueue-IsTimed now p (ok id, o) h = h
after_enqueue-IsTimed now p (raise exc, o) h = set-IsTimed now (refusal exc) p h

after_broker-IsTimed :
    (env : Env) (m : Message) (p : Publisher) (o : Outbox) (r : Result (Unit {0}))
    → IsTimed p
    → IsTimed (after_broker env m p o r).1
unfolding after_broker
after_broker-IsTimed env m p o (ok u) h =
    served-IsTimed env.secondary_raises (record p { consecutive_failures = 0 }) h
after_broker-IsTimed env m p o (raise exc) h =
    after_enqueue-IsTimed env.now (record p { consecutive_failures = p.consecutive_failures + 1 })
      (enqueue env.fault env.now m (some (message exc)) o) h

after_row-IsTimed :
    (env : Env) (p : Publisher) (r : Result (Unit {0})) → IsTimed p → IsTimed (after_row env p r).1
unfolding after_row
after_row-IsTimed env p (ok u) h = served-IsTimed env.secondary_raises p h
after_row-IsTimed env p (raise exc) h = h

-- Both ways to publish keep the breaker's flag and its time together.
pub publish-IsTimed :
    (str : Json → String) (env : Env) (m : Message) (e : Entry) (p : Publisher) (o : Outbox)
    → IsTimed p
    → IsTimed (publish str env m p o).1 × IsTimed (publish_outbox_row str env e p).1
unfolding publish publish_outbox_row
publish-IsTimed str env m e p o h = (
  after_broker-IsTimed env m (record p { broker = (JetStream.publish str env.ack m p.broker).1 }) o
      (JetStream.publish str env.ack m p.broker).0 h,
  after_row-IsTimed env
      (record p { broker = (JetStream.publish str env.ack (entry_message e) p.broker).1 })
      (JetStream.publish str env.ack (entry_message e) p.broker).0 h,
)

-- How a call of `publish` can end: the broker took the message; or it did not, and the queue took
-- it; or nothing did. `r` is the broker's part, and the rest is what `publish` gives.
abbrev pub Taken : Publisher → Outbox → Result (Unit {0}) × Publisher × Outbox → Type 0
Taken p o (r, p', o') =
    (r ≡ ok tt) × (p'.outbox_full ≡ false) × (p'.consecutive_failures ≡ 0) × (o' ≡ o)

-- The queue has the message's row, with the exception's text, after the others.
abbrev pub Queued :
    ℕ → Message → String → Publisher → Outbox → Result (Unit {0}) × Publisher × Outbox → Type 0
Queued now m error p o (r, p', o') =
    (r ≡ ok tt)
    × (p'.outbox_full ≡ p.outbox_full)
    × (p'.consecutive_failures ≡ p.consecutive_failures + 1)
    × (o' ≡ record o {
      rows = o.rows ++ new_row o.next_id now m (some error) ∷ [];
      next_id = suc o.next_id;
      pending_estimate = o.pending_estimate + 1;
    })

abbrev pub Refused : ℕ → Publisher → Result (Unit {0}) × Publisher × Outbox → Type 0
Refused now p (r, p', o') =
    (r ≢ ok tt)
    × (p'.outbox_full ≡ true)
    × (p'.consecutive_failures ≡ p.consecutive_failures + 1)
    × (p'.outbox_full_since ≡ (if p.outbox_full then p.outbox_full_since else some now))

served-clear :
    (b : Bool) (p : Publisher)
    → let p' = publish_secondary_best_effort b (clear_if_full p) in
      (p'.outbox_full ≡ false) × (p'.consecutive_failures ≡ p.consecutive_failures)
unfolding publish_secondary_best_effort clear_if_full clear_outbox_full
served-clear b p = ground arith

appended :
    (fault : Fault) (now : ℕ) (m : Message) (error : Option String) (o : Outbox) (id : ℕ)
    → (enqueue fault now m error o).0 ≡ ok id
    → (enqueue fault now m error o).1 ≡ record o {
      rows = o.rows ++ new_row o.next_id now m error ∷ [];
      next_id = suc o.next_id;
      pending_estimate = o.pending_estimate + 1;
    }
unfolding enqueue
appended fine now m error o id h = ground arith
appended (execute_fails n t) now m error o id h = ground arith
appended (commit_fails t) now m error o id h = ground arith

after_enqueue-Queued :
    (env : Env) (m : Message) (error : String) (p p' : Publisher) (o : Outbox)
    (e : Result ℕ × Outbox)
    → enqueue env.fault env.now m (some error) o ≡ e
    → p' ≡ record p { consecutive_failures = p.consecutive_failures + 1 }
    → Queued env.now m error p o (after_enqueue env.now p' e)
      ⊎ Refused env.now p (after_enqueue env.now p' e)
unfolding after_enqueue set_outbox_full
after_enqueue-Queued env m error p p' o (ok id, o') q h = inl (
  refl,
  ap (λ x. x.outbox_full) h,
  ap (λ x. x.consecutive_failures) h,
  sym (ap (λ (x : Result ℕ × Outbox). x.1) q)
      ∙ appended env.fault env.now m (some error) o id (ap (λ (x : Result ℕ × Outbox). x.0) q),
)
after_enqueue-Queued env m error p p' o (raise exc, o') q h =
    inr (raise-ne-ok exc tt, refl, ap (λ x. x.consecutive_failures) h, rw h refl)

after_broker-ends :
    (env : Env) (m : Message) (p : Publisher) (o : Outbox) (r : Result (Unit {0}))
    → let ends = after_broker env m p o r in
      ((r ≡ ok tt) × Taken p o ends)
      ⊎ ((exc : Exc) × ((r ≡ raise exc)
            × (Queued env.now m (message exc) p o ends ⊎ Refused env.now p ends)))
unfolding after_broker
after_broker-ends env m p o (ok u) =
    let (f, n) = served-clear env.secondary_raises (record p { consecutive_failures = 0 }) in
    inl (refl, (refl, f, n, refl))
after_broker-ends env m p o (raise exc) = inr (
  exc,
  (
    refl,
    after_enqueue-Queued env m (message exc) p
        (record p { consecutive_failures = p.consecutive_failures + 1 }) o
        (enqueue env.fault env.now m (some (message exc)) o) refl refl,
  ),
)

pub publish_ends :
    (str : Json → String) (env : Env) (m : Message) (p : Publisher) (o : Outbox)
    → let ends = publish str env m p o in
      let r = (JetStream.publish str env.ack m p.broker).0 in
      ((r ≡ ok tt) × Taken p o ends)
      ⊎ ((exc : Exc) × ((r ≡ raise exc)
            × (Queued env.now m (message exc) p o ends ⊎ Refused env.now p ends)))
unfolding publish
publish_ends str env m p o =
    let p' = record p { broker = (JetStream.publish str env.ack m p.broker).1 } in
    after_broker-ends env m p' o (JetStream.publish str env.ack m p.broker).0
