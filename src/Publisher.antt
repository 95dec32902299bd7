-- ===== src/Publisher.antt =====
-- The broker with the queue behind it: class ResilientPublisher of
-- src/dnp3_gateway/messaging/resilient_publisher.py. The queue is shared with the retrier, so it is an
-- argument and not a field.
pub mod Acceptance
pub mod Retries
pub mod Breaker
pub mod Secondary
use horstmann_dnp3_gateway.Base.{
  ℕ, ◌+◌, String, Bool, true, false, not, Option, none, some, if◌then◌else◌, nat_eq, text_eq,
  pair_eq, prefix, append_text, keep,
}
use horstmann_dnp3_gateway.Base.Json.{Json}
use horstmann_dnp3_gateway.Exception.{Exc, Result, ok, raise, outbox_full as full, message}
use horstmann_dnp3_gateway.Outbox.{Outbox, Message, Entry, Fault, enqueue, entry_message}
use horstmann_dnp3_gateway.Outbox
use horstmann_dnp3_gateway.JetStream.{JetStream, Ack}
use horstmann_dnp3_gateway.JetStream

pub record Publisher : Type 0 where
  pub broker : JetStream
  pub consecutive_failures : ℕ
  pub outbox_full : Bool
  pub outbox_full_since : Option ℕ
  pub last_outbox_error : Option String
  pub has_secondary : Bool
  pub secondary_failures : ℕ
  pub secondary_successes : ℕ

-- What the surroundings decide in one call: the broker's answer, whether the secondary publisher
-- raises, the fault of the database, and the clock.
pub record Env : Type 0 where
  pub ack : Ack
  pub secondary_raises : Bool
  pub fault : Fault
  pub now : ℕ

-- `__init__`
unfoldable pub init : JetStream → Bool → Publisher
init broker has_secondary = record {
  broker = broker;
  consecutive_failures = 0;
  outbox_full = false;
  outbox_full_since = none;
  last_outbox_error = none;
  has_secondary = has_secondary;
  secondary_failures = 0;
  secondary_successes = 0;
}

-- `_set_outbox_full`
unfoldable pub set_outbox_full : ℕ → String → Publisher → Publisher
set_outbox_full now error p = record p {
  outbox_full = true;
  outbox_full_since = if p.outbox_full then p.outbox_full_since else some now;
  last_outbox_error = some (prefix 500 error);
}

-- `_clear_outbox_full`
unfoldable pub clear_outbox_full : Publisher → Publisher
clear_outbox_full p = record p {
  outbox_full = false;
  outbox_full_since = none;
  last_outbox_error = none;
}

-- if self._outbox_full: self._clear_outbox_full()
unfoldable pub clear_if_full : Publisher → Publisher
unfolding clear_outbox_full
clear_if_full p = if p.outbox_full then clear_outbox_full p else p

-- `_publish_secondary_best_effort`
unfoldable pub publish_secondary_best_effort : Bool → Publisher → Publisher
publish_secondary_best_effort raises p =
    if not p.has_secondary
    then p
    else if raises
    then record p { secondary_failures = p.secondary_failures + 1 }
    else record p { secondary_successes = p.secondary_successes + 1; secondary_failures = 0 }

-- The text that the two handlers round `self._outbox.enqueue` keep.
abbrev pub refusal : Exc → String
refusal (full t) = t
refusal exc = append_text "outbox_io_error: " (message exc)

after_enqueue : ℕ → Publisher → Result ℕ × Outbox → Result (Unit {0}) × Publisher × Outbox
unfolding set_outbox_full
after_enqueue now p (ok id, o) = (ok tt, p, o)
after_enqueue now p (raise exc, o) = (raise exc, set_outbox_full now (refusal exc) p, o)

after_broker :
    Env → Message → Publisher → Outbox → Result (Unit {0}) → Result (Unit {0}) × Publisher × Outbox
unfolding after_enqueue clear_if_full publish_secondary_best_effort
after_broker env m p o (ok _) = (
  ok tt,
  publish_secondary_best_effort env.secondary_raises
      (clear_if_full (record p { consecutive_failures = 0 })),
  o,
)
after_broker env m p o (raise exc) =
    after_enqueue env.now (record p { consecutive_failures = p.consecutive_failures + 1 })
      (enqueue env.fault env.now m (some (message exc)) o)

unfoldable pub publish :
    (Json → String) → Env → Message → Publisher → Outbox → Result (Unit {0}) × Publisher × Outbox
unfolding after_broker
publish str env m p o =
    let (r, broker) = JetStream.publish str env.ack m p.broker in
    after_broker env m (record p { broker = broker }) o r

after_row : Env → Publisher → Result (Unit {0}) → Result (Unit {0}) × Publisher
unfolding clear_if_full publish_secondary_best_effort
after_row env p (raise exc) = (raise exc, p)
after_row env p (ok _) =
    (ok tt, publish_secondary_best_effort env.secondary_raises (clear_if_full p))

-- `publish_outbox_row`: the retrier's `publish_fn`.
unfoldable pub publish_outbox_row :
    (Json → String) → Env → Entry → Publisher → Result (Unit {0}) × Publisher
unfolding after_row
publish_outbox_row str env e p =
    let (r, broker) = JetStream.publish str env.ack (entry_message e) p.broker in
    after_row env (record p { broker = broker }) r

unfoldable pub pending_count : Outbox → ℕ
pending_count o = Outbox.pending_count o

unfoldable pub outbox_max_pending : Outbox → ℕ
outbox_max_pending o = o.max_pending
