-- ===== src/Retrier/Turns.antt =====
-- A turn of the retrier while the broker answers and nothing fails: it sends a batch.
use mathlib.Core.List.{append-nil, append_assoc}
use horstmann_dnp3_gateway.Base.{
  ℕ, refl, ◌++◌, suc, ◌<◌, ◌≡◌, false, List, [], ◌∷◌, arith, zero, map, ==_self, take, drop, ◌+◌,
  ap, ◌∙◌, subst, sym,
}
use horstmann_dnp3_gateway.Exception.{Result, ok, raise}
use horstmann_dnp3_gateway.Outbox.{
  DeadRow, Row, Entry, Outbox, fine, fetch_batch, decode, delete, without,
}
use horstmann_dnp3_gateway.Outbox.Invariant.{IsValid, Rising, delete-IsValid}
use horstmann_dnp3_gateway.Retrier.{
  Config, Attempt, Turn, sent, Batch, visit, drain, turn, no_batch, after_drain, after_fetch,
}

without_below :
    (id lo hi : ℕ) (rows : List Row) → id < lo → Rising lo hi rows → without id rows ≡ rows
unfolding without
without_below id lo hi [] lt h = refl
without_below id lo hi (r ∷ rows) lt h = ground (arith, without_below id (suc r.id) hi rows)

pub without_first :
    (lo hi : ℕ) (r : Row) (rows : List Row)
    → Rising lo hi (r ∷ rows)
    → without r.id (r ∷ rows) ≡ rows
unfolding without
without_first lo hi r rows h =
    rw (==_self r.id) (without_below r.id (suc r.id) hi rows (omega arith) h.1)

-- What is assumed of `publish_fn` while the broker answers: `Good` of the surroundings and `I` of
-- the publisher, which stays. `log` is what the broker has got so far, and each call adds the row's
-- message, `item`.
pub record Answers {ℓ κ} {S : Type ℓ} {E : Type κ} {L : Type 0}
    (publish_fn : E → Entry → S → Result (Unit {0}) × S) (Good : E → Type 0) (I : S → Type 0)
    (log : S → List L) (item : Entry → L) : Type (ℓ ⊔ κ) where
  pub returns : (env : E) (e : Entry) (s : S) → Good env → I s → (publish_fn env e s).0 ≡ ok tt
  pub stays : (env : E) (e : Entry) (s : S) → Good env → I s → I (publish_fn env e s).1
  pub logs :
      (env : E) (e : Entry) (s : S)
      → Good env
      → I s
      → log (publish_fn env e s).1 ≡ log s ++ item e ∷ []

-- Nothing fails, and the stop flag is not set.
pub record IsCalm {κ} {E : Type κ} (Good : E → Type 0) (a : Attempt E) : Type κ where
  pub running : a.stopped ≡ false
  pub no_fault : a.fault ≡ fine
  pub good : Good a.env

-- The rows' messages, in order.
abbrev pub items {ℓ} : {L : Type ℓ} → (Entry → L) → List Row → List L
items item rows = map item (map decode rows)

module _ {ℓ κ} {S : Type ℓ} {E : Type κ} {L : Type 0}
    (publish_fn : E → Entry → S → Result (Unit {0}) × S) (Good : E → Type 0) (I : S → Type 0)
    (log : S → List L) (item : Entry → L) (d : Answers publish_fn Good I log item)
    (c : Config) where
  visit-sent :
      (a : Attempt E) (e : Entry) (s : S) (o : Outbox)
      → IsCalm Good a
      → I s
      → visit publish_fn c a e s o ≡ sent (publish_fn a.env e s).1 (delete fine e.id o).1
  unfolding visit delete
  visit-sent a e s o h i = rw (d.returns a.env e s h.good i, h.no_fault, visit) refl

  -- The loop is not broken off, and leaves these rows, dead letters and log.
  Drained : List Row → List DeadRow → List L → Result Batch × S × Outbox → Type 0
  Drained rows dead out (ok b, s, o) =
      (b.failed_in_batch ≡ false)
      × I s
      × IsValid o
      × (o.rows ≡ rows)
      × (o.dead ≡ dead)
      × (log s ≡ out)
  Drained rows dead out (raise exc, s, o) = ⊥

  first_deleted :
      (r : Row) (rows : List Row) (o : Outbox)
      → IsValid o
      → o.rows ≡ r ∷ rows
      → (delete fine r.id o).1.rows ≡ rows
  unfolding delete
  first_deleted r rows o v q =
      ap (without r.id) q ∙ without_first 0 o.next_id r rows (subst (Rising 0 o.next_id) q v)

  drain-Drained :
      (n : ℕ) (rows : List Row) (at : ℕ → Attempt E) (b : Batch) (s : S) (o : Outbox)
      → ((id : ℕ) → IsCalm Good (at id))
      → b.failed_in_batch ≡ false
      → I s
      → IsValid o
      → o.rows ≡ rows
      → Drained
          (drop n rows)
          o.dead
          (log s ++ items item (take n rows))
          (drain publish_fn c at (map decode (take n rows)) b s o)
  unfolding drain Drained decode delete
  drain-Drained zero rows at b s o calm f i v q = (f, i, v, q, refl, sym (append-nil (log s)))
  drain-Drained (suc n) [] at b s o calm f i v q = (f, i, v, q, refl, sym (append-nil (log s)))
  drain-Drained (suc n) (r ∷ rows) at b s o calm f i v q =
      let s' = (publish_fn (at r.id).env (decode r) s).1 in
      let logged =
        ap (λ (xs : List L). xs ++ items item (take n rows))
          (d.logs (at r.id).env (decode r) s (calm r.id).good i)
        ∙ append_assoc (log s) (item (decode r) ∷ []) (items item (take n rows)) in
      rw ((calm r.id).running, drain)
        (rw (visit-sent (at r.id) (decode r) s o (calm r.id) i) (
          subst
            (λ (out : List L). Drained (drop n rows) o.dead out (
              drain publish_fn c at (map decode (take n rows)) (record b { sent = b.sent + 1 }) s'
                (delete fine r.id o).1))
            logged
            (drain-Drained n rows at (record b { sent = b.sent + 1 }) s' (delete fine r.id o).1 calm
              f (d.stays (at r.id).env (decode r) s (calm r.id).good i)
              (delete-IsValid fine r.id o v) (first_deleted r rows o v q))))

  -- A turn in which nothing fails.
  pub record IsCalmTurn (t : Turn E) : Type κ where
    pub fetched : t.fetch ≡ fine
    pub attempts : (id : ℕ) → IsCalm Good (t.at id)

  -- How such a turn ends: the wait, the next backoff, and what is left.
  unfoldable pub Left : List Row → List DeadRow → List L → Result ℕ × ℕ × S × Outbox → Type 0
  Left rows dead out (r, backoff, s, o) =
      (r ≡ ok c.poll_interval)
      × (backoff ≡ c.min_backoff)
      × I s
      × IsValid o
      × (o.rows ≡ rows)
      × (o.dead ≡ dead)
      × (log s ≡ out)

  after_drain-Left :
      (jitter : ℕ → ℕ) (backoff : ℕ) (rows : List Row) (dead : List DeadRow) (out : List L)
      (r : Result Batch × S × Outbox)
      → Drained rows dead out r
      → Left rows dead out (after_drain c jitter backoff r)
  unfolding after_drain Drained Left
  after_drain-Left jitter backoff rows dead out (ok b, s, o) h =
      rw h.0 (refl, refl, h.1, h.2, h.3, h.4, h.5)
  after_drain-Left jitter backoff rows dead out (raise exc, s, o) h = absurd h

  after_fetch-Left :
      (n : ℕ) (rows : List Row) (t : Turn E) (backoff : ℕ) (s : S) (o : Outbox)
      → IsCalmTurn t
      → I s
      → IsValid o
      → o.rows ≡ rows
      → Left
          (drop n rows)
          o.dead
          (log s ++ items item (take n rows))
          (after_fetch publish_fn c t backoff s o (ok (map decode (take n rows))))
  unfolding Left after_fetch
  after_fetch-Left zero rows t backoff s o h i v q =
      (refl, refl, i, v, q, refl, sym (append-nil (log s)))
  after_fetch-Left (suc n) [] t backoff s o h i v q =
      (refl, refl, i, v, q, refl, sym (append-nil (log s)))
  after_fetch-Left (suc n) (r ∷ rows) t backoff s o h i v q =
      after_drain-Left t.jitter backoff (drop n rows) o.dead
        (log s ++ items item (take (suc n) (r ∷ rows)))
        (drain publish_fn c t.at (map decode (take (suc n) (r ∷ rows))) no_batch s o)
        (drain-Drained (suc n) (r ∷ rows) t.at no_batch s o h.attempts refl i v q)

  pub turn-Left :
      (t : Turn E) (backoff : ℕ) (s : S) (o : Outbox)
      → IsCalmTurn t
      → I s
      → IsValid o
      → Left
          (drop c.batch_size o.rows)
          o.dead
          (log s ++ items item (take c.batch_size o.rows))
          (turn publish_fn c t backoff s o)
  unfolding turn fetch_batch
  turn-Left t backoff s o h i v =
      subst
        (λ f.
          Left (drop c.batch_size o.rows) o.dead (log s ++ items item (take c.batch_size o.rows))
            (after_fetch publish_fn c t backoff s o (fetch_batch f c.batch_size o)))
        (sym h.fetched) (after_fetch-Left c.batch_size o.rows t backoff s o h i v refl)
