-- ===== src/Retrier/Backoff.antt =====
-- The backoff stays between its bounds.
use horstmann_dnp3_gateway.Base.{ℕ, ◌≤◌, inl, inr, List, [], ◌∷◌, arith, Bool-cases, ◌*◌, ◌/◌}
use horstmann_dnp3_gateway.Exception.{Result, ok, raise}
use horstmann_dnp3_gateway.Outbox.{Outbox, Entry, fetch_batch}
use horstmann_dnp3_gateway.Retrier.{
  Config, configure, next_backoff, Batch, Turn, turn, drain, no_batch, finish, after_drain,
  after_fetch,
}

-- From the shortest backoff to the longest.
abbrev pub InBounds : Config → ℕ → Type 0
InBounds c b = (c.min_backoff ≤ b) × (b ≤ c.max_backoff)

-- What `__init__` gives: the bounds are ordered, and the multiplier does not shrink.
record IsConfigured (c : Config) : Type 0 where
  pub ordered : c.min_backoff ≤ c.max_backoff
  pub grows : 100 ≤ c.backoff_multiplier

product-le : (b m : ℕ) → 100 ≤ m → b ≤ b * m / 100
product-le b m h = grind arith

finish-InBounds :
    (c : Config) (jitter : ℕ → ℕ) (b : ℕ) (batch : Batch)
    → IsConfigured c
    → InBounds c b
    → InBounds c (finish c jitter b batch).1
unfolding finish next_backoff
finish-InBounds c jitter b batch k h =
    let grown = product-le b c.backoff_multiplier k.grows in
    elim (Bool-cases batch.failed_in_batch) [
      | inl q ↦
          rw q
            (omega (arith, k.ordered, grown, h.0, h.1), omega (arith, k.ordered, grown, h.0, h.1))
      | inr q ↦ rw q (omega arith, k.ordered)
    ]

after_drain-InBounds {ℓ} :
    {S : Type ℓ} (c : Config) (jitter : ℕ → ℕ) (b : ℕ) (r : Result Batch × S × Outbox)
    → IsConfigured c
    → InBounds c b
    → InBounds c (after_drain c jitter b r).1
unfolding after_drain
after_drain-InBounds c jitter b (ok batch, s, o) k h = finish-InBounds c jitter b batch k h
after_drain-InBounds c jitter b (raise exc, s, o) k h = h

module _ {ℓ κ} {S : Type ℓ} {E : Type κ} (publish_fn : E → Entry → S → Result (Unit {0}) × S) where
  after_fetch-InBounds :
      (c : Config) (t : Turn E) (b : ℕ) (s : S) (o : Outbox) (r : Result (List Entry))
      → IsConfigured c
      → InBounds c b
      → InBounds c (after_fetch publish_fn c t b s o r).1
  unfolding after_fetch
  after_fetch-InBounds c t b s o (raise exc) k h = h
  after_fetch-InBounds c t b s o (ok []) k h = (omega arith, k.ordered)
  after_fetch-InBounds c t b s o (ok (e ∷ rows)) k h =
      after_drain-InBounds c t.jitter b (drain publish_fn c t.at (e ∷ rows) no_batch s o) k h

  module _ (poll_interval batch_size max_retries min_backoff max_backoff multiplier : ℕ) where
    configure-IsConfigured :
        IsConfigured
          (configure poll_interval batch_size max_retries min_backoff max_backoff multiplier)
    unfolding configure
    configure-IsConfigured = record { ordered = omega arith; grows = omega arith }

    -- Every turn of a configured retrier keeps the current backoff between the shortest and the
    -- longest, whatever happens in the turn and whatever values the configuration was given.
    pub turn-InBounds :
        (t : Turn E) (b : ℕ) (s : S) (o : Outbox)
        → let c =
            configure poll_interval batch_size max_retries min_backoff max_backoff multiplier in
          InBounds c b → InBounds c (turn publish_fn c t b s o).1
    unfolding turn
    turn-InBounds t b s o h =
        let c = configure poll_interval batch_size max_retries min_backoff max_backoff multiplier in
        after_fetch-InBounds c t b s o (fetch_batch t.fetch c.batch_size o) configure-IsConfigured h
