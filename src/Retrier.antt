-- ===== src/Retrier.antt =====
-- The background thread that empties the queue: class OutboxRetrier of
-- src/dnp3_gateway/messaging/outbox.py. `publish_fn` is a parameter; what the surroundings decide in a
-- cycle (the stop flag, faults of the database, the clock, the jitter) is an argument. Durations
-- are in milliseconds.
pub mod Visits
pub mod Safety
pub mod Outage
pub mod Turns
pub mod Drains
pub mod Backoff
pub mod Poison
use horstmann_dnp3_gateway.Base.{
  ℕ, ◌+◌, min, max, Bool, true, false, List, [], ◌∷◌, leb, if◌then◌else◌, nat_eq, text_eq, pair_eq,
  occurs_lower, ◌*◌, ◌/◌, not, ◌==◌,
}
use horstmann_dnp3_gateway.Exception.{Exc, Result, ok, raise, jetstream_not_ready, message}
use horstmann_dnp3_gateway.Outbox.{
  Outbox, Entry, Fault, fetch_batch, delete, mark_retry, move_to_dead_letter,
}

-- The multiplier is in hundredths.
pub record Config : Type 0 where
  pub poll_interval : ℕ
  pub batch_size : ℕ
  pub max_retries : ℕ
  pub min_backoff : ℕ
  pub max_backoff : ℕ
  pub backoff_multiplier : ℕ

-- `__init__`
unfoldable pub configure : ℕ → ℕ → ℕ → ℕ → ℕ → ℕ → Config
configure poll_interval batch_size max_retries min_backoff max_backoff backoff_multiplier = record {
  poll_interval = max 500 poll_interval;
  batch_size = max 1 batch_size;
  max_retries = max 1 max_retries;
  min_backoff = max 100 min_backoff;
  max_backoff = max (max 100 min_backoff) max_backoff;
  backoff_multiplier = max 105 backoff_multiplier;
}

-- `_next_backoff`: the wait, and the next `_current_backoff`; its product is rounded down to the
-- millisecond.
unfoldable pub next_backoff : Config → (ℕ → ℕ) → ℕ → ℕ × ℕ
next_backoff c jitter b = (max 100 (jitter b), min c.max_backoff (b * c.backoff_multiplier / 100))

-- type(exc).__name__ == "JetStreamNotReadyError" or "not ready" in err_str.lower()
unfoldable pub is_not_ready : Exc → Bool
is_not_ready (jetstream_not_ready t) = true
is_not_ready exc = occurs_lower "not ready" (message exc)

-- What the surroundings decide while one row is visited.
pub record Attempt {ℓ} (E : Type ℓ) : Type ℓ where
  pub stopped : Bool
  pub env : E
  pub fault : Fault
  pub now : ℕ

-- How a visit of one row ends: the row is sent and deleted; it is poison, and the loop continues;
-- the loop breaks (with `broker_not_ready` or not); or the database raises, which nothing catches.
pub data Visit {ℓ} (S : Type ℓ) : Type ℓ where
  sent : S → Outbox → Visit S
  poison : S → Outbox → Visit S
  broken : Bool → S → Outbox → Visit S
  crashed : Exc → S → Outbox → Visit S

-- The loop's variables.
pub record Batch : Type 0 where
  pub sent : ℕ
  pub failed_in_batch : Bool
  pub broker_not_ready : Bool

abbrev pub no_batch : Batch
no_batch = record { sent = 0; failed_in_batch = false; broker_not_ready = false }

module _ {ℓ} {S : Type ℓ} where
  after_delete : S → Result (Unit {0}) × Outbox → Visit S
  after_delete s (ok _, o) = sent s o
  after_delete s (raise exc, o) = crashed exc s o

  after_move : S → Result Bool × Outbox → Visit S
  after_move s (ok _, o) = poison s o
  after_move s (raise exc, o) = crashed exc s o

  after_mark : S → Result (Unit {0}) × Outbox → Visit S
  after_mark s (ok _, o) = broken false s o
  after_mark s (raise exc, o) = crashed exc s o

  -- The rest of the loop, after a visit.
  unfoldable pub after_visit :
      (Batch → S → Outbox → Result Batch × S × Outbox) → Batch → Visit S → Result Batch × S × Outbox
  after_visit next b (sent s o) = next (record b { sent = b.sent + 1 }) s o
  after_visit next b (poison s o) = next b s o
  after_visit next b (broken not_ready s o) =
      (ok (record b { failed_in_batch = true; broker_not_ready = not_ready }), s, o)
  after_visit next b (crashed exc s o) = (raise exc, s, o)

-- What the surroundings decide in one turn of `while not self._stop.is_set()`.
pub record Turn {ℓ} (E : Type ℓ) : Type ℓ where
  pub fetch : Fault
  pub at : ℕ → Attempt E
  pub jitter : ℕ → ℕ

-- The wait at the end of a turn, and the new `_current_backoff`.
finish : Config → (ℕ → ℕ) → ℕ → Batch → ℕ × ℕ
finish c jitter backoff b =
    if b.failed_in_batch then next_backoff c jitter backoff else (c.poll_interval, c.min_backoff)

pub after_drain {ℓ} :
    {S : Type ℓ} → Config → (ℕ → ℕ) → ℕ → Result Batch × S × Outbox → Result ℕ × ℕ × S × Outbox
unfolding finish
after_drain c jitter backoff (ok b, s, o) =
    let (wait, backoff') = finish c jitter backoff b in (ok wait, backoff', s, o)
after_drain c jitter backoff (raise exc, s, o) = (raise exc, backoff, s, o)

-- The rest of the loop, unless the thread has ended.
unfoldable pub after_turn {ℓ} :
    {S : Type ℓ}
    → (ℕ → S → Outbox → Result (Unit {0}) × S × Outbox)
    → Result ℕ × ℕ × S × Outbox
    → Result (Unit {0}) × S × Outbox
after_turn next (ok wait, backoff, s, o) = next backoff s o
after_turn next (raise exc, backoff, s, o) = (raise exc, s, o)

module _ {ℓ κ} {S : Type ℓ} {E : Type κ} (publish_fn : E → Entry → S → Result (Unit {0}) × S) where
  pub after_publish : Config → Attempt E → Entry → Outbox → Result (Unit {0}) → S → Visit S
  unfolding after_delete after_move after_mark
  after_publish c a e o (ok _) s = after_delete s (delete a.fault e.id o)
  after_publish c a e o (raise exc) s =
      if is_not_ready exc
      then broken true s o
      else if leb c.max_retries (e.retry_count + 1)
      then after_move s (move_to_dead_letter a.fault a.now e.id (message exc) o)
      else after_mark s (mark_retry a.fault e.id (message exc) o)

  -- The body of the loop for a row.
  unfoldable pub visit : Config → Attempt E → Entry → S → Outbox → Visit S
  unfolding after_publish
  visit c a e s o = let (r, s') = publish_fn a.env e s in after_publish c a e o r s'

  -- for row in rows: an attempt is given for each row id.
  unfoldable pub drain :
      Config → (ℕ → Attempt E) → List Entry → Batch → S → Outbox → Result Batch × S × Outbox
  unfolding after_visit
  drain c at [] b s o = (ok b, s, o)
  drain c at (e ∷ rows) b s o = elim (at e.id).stopped [
    | true ↦ (ok b, s, o)
    | false ↦ after_visit (drain c at rows) b (visit c (at e.id) e s o)
  ]

  pub after_fetch :
      Config → Turn E → ℕ → S → Outbox → Result (List Entry) → Result ℕ × ℕ × S × Outbox
  unfolding after_drain
  after_fetch c t backoff s o (raise exc) = (ok c.poll_interval, backoff, s, o)
  after_fetch c t backoff s o (ok []) = (ok c.poll_interval, c.min_backoff, s, o)
  after_fetch c t backoff s o (ok (e ∷ rows)) =
      after_drain c t.jitter backoff (drain c t.at (e ∷ rows) no_batch s o)

  -- One turn of `_run`: the wait that ends it, or the exception that ends the thread; the backoff,
  -- the publisher and the queue.
  unfoldable pub turn : Config → Turn E → ℕ → S → Outbox → Result ℕ × ℕ × S × Outbox
  unfolding after_fetch
  turn c t backoff s o = after_fetch c t backoff s o (fetch_batch t.fetch c.batch_size o)

  -- `_run` over the turns until the stop flag is seen. An exception ends the thread.
  unfoldable pub run : Config → List (Turn E) → ℕ → S → Outbox → Result (Unit {0}) × S × Outbox
  unfolding after_turn
  run c [] backoff s o = (ok tt, s, o)
  run c (t ∷ turns) backoff s o = after_turn (run c turns) (turn c t backoff s o)
