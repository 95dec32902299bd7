-- ===== src/Retrier/Visits.antt =====
-- How one visit of a row can end, and what the loop makes of it.
use horstmann_dnp3_gateway.Base.{
  ◌+◌, String, ◌≡◌, refl, inl, inr, Bool, leb, Bool-cases, ℕ, List, [], ◌∷◌,
}
use horstmann_dnp3_gateway.Exception.{Result, ok, raise, message}
use horstmann_dnp3_gateway.Outbox.{
  Outbox, Entry, fetch_batch, delete, mark_retry, move_to_dead_letter,
}
use horstmann_dnp3_gateway.Retrier.{
  Config, Attempt, Visit, sent, poison, broken, crashed, is_not_ready, Batch, after_visit, Turn,
  turn, run, after_turn, drain, visit, after_drain, after_fetch, no_batch, after_publish,
  after_delete, after_move, after_mark,
}

module _ {ℓ} {S : Type ℓ} where
  -- A property of the publisher and the queue after a visit, however it ended.
  abbrev pub Ends {μ} : (S → Outbox → Type μ) → Visit S → Type μ
  Ends P (sent s o) = P s o
  Ends P (poison s o) = P s o
  Ends P (broken b s o) = P s o
  Ends P (crashed exc s o) = P s o

  module _ {μ} (P : S → Outbox → Type μ) (s : S) where
    Ends-delete : (r : Result (Unit {0}) × Outbox) → P s r.1 → Ends P (after_delete s r)
    unfolding after_delete
    Ends-delete (ok u, o) h = h
    Ends-delete (raise exc, o) h = h

    Ends-move : (r : Result Bool × Outbox) → P s r.1 → Ends P (after_move s r)
    unfolding after_move
    Ends-move (ok b, o) h = h
    Ends-move (raise exc, o) h = h

    Ends-mark : (r : Result (Unit {0}) × Outbox) → P s r.1 → Ends P (after_mark s r)
    unfolding after_mark
    Ends-mark (ok u, o) h = h
    Ends-mark (raise exc, o) h = h

    -- The loop keeps what each visit and the rest of the loop keep.
    pub Ends-after_visit :
        (Q : S → Outbox → Type μ) (next : Batch → S → Outbox → Result Batch × S × Outbox)
        (b : Batch) (v : Visit S)
        → ((b' : Batch) (s' : S) (o' : Outbox) → P s' o' → Q (next b' s' o').1 (next b' s' o').2)
        → ((s' : S) (o' : Outbox) → P s' o' → Q s' o')
        → Ends P v
        → Q (after_visit next b v).1 (after_visit next b v).2
    unfolding after_visit
    Ends-after_visit Q next b (sent s' o) k w h = k _ s' o h
    Ends-after_visit Q next b (poison s' o) k w h = k b s' o h
    Ends-after_visit Q next b (broken n s' o) k w h = w s' o h
    Ends-after_visit Q next b (crashed exc s' o) k w h = w s' o h

module _ {ℓ μ ν} {S : Type ℓ} {P : S → Outbox → Type μ} {Q : S → Outbox → Type ν} where
  pub Ends-map : ((s : S) (o : Outbox) → P s o → Q s o) → (v : Visit S) → Ends P v → Ends Q v
  Ends-map f (sent s o) h = f s o h
  Ends-map f (poison s o) h = f s o h
  Ends-map f (broken b s o) h = f s o h
  Ends-map f (crashed exc s o) h = f s o h

  pub Ends-both {ρ} :
      {R : S → Outbox → Type ρ}
      → ((s : S) (o : Outbox) → P s o → Q s o → R s o)
      → (v : Visit S) → Ends P v
      → Ends Q v
      → Ends R v
  Ends-both f (sent s o) h k = f s o h k
  Ends-both f (poison s o) h k = f s o h k
  Ends-both f (broken b s o) h k = f s o h k
  Ends-both f (crashed exc s o) h k = f s o h k

module _ {ℓ κ μ} {S : Type ℓ} {E : Type κ} (publish_fn : E → Entry → S → Result (Unit {0}) × S)
    (P : S → Outbox → Type μ) (s : S) where
  -- Whatever a visit does to the queue after `publish_fn` is one of four things.
  pub Ends-publish :
      (c : Config) (a : Attempt E) (e : Entry) (o : Outbox) (r : Result (Unit {0}))
      → (r ≡ ok tt → P s (delete a.fault e.id o).1)
      → P s o
      → ((error : String) → P s (move_to_dead_letter a.fault a.now e.id error o).1)
      → ((error : String) → P s (mark_retry a.fault e.id error o).1)
      → Ends P (after_publish publish_fn c a e o r s)
  unfolding after_publish
  Ends-publish c a e o (ok u) hd h hm hk = Ends-delete P s (delete a.fault e.id o) (hd refl)
  Ends-publish c a e o (raise exc) hd h hm hk = elim (Bool-cases (is_not_ready exc)) [
    | inl t ↦ rw t h
    | inr t ↦ rw t (elim (Bool-cases (leb c.max_retries (e.retry_count + 1))) [
      | inl u ↦ rw u (
          Ends-move P s (move_to_dead_letter a.fault a.now e.id (message exc) o) (hm (message exc)))
      | inr u ↦ rw u (Ends-mark P s (mark_retry a.fault e.id (message exc) o) (hk (message exc)))
    ])
  ]

-- What every visit keeps, the loop, a turn and a run keep.
module _ {ℓ κ μ} {S : Type ℓ} {E : Type κ} (publish_fn : E → Entry → S → Result (Unit {0}) × S)
    (P : S → Outbox → Type μ) (c : Config) where
  pub drain_keeps :
      ((a : Attempt E) (e : Entry) (s : S) (o : Outbox)
        → P s o
        → Ends P (visit publish_fn c a e s o))
      → (at : ℕ → Attempt E) (rows : List Entry) (b : Batch) (s : S) (o : Outbox) → P s o
      → P (drain publish_fn c at rows b s o).1 (drain publish_fn c at rows b s o).2
  unfolding drain
  drain_keeps k at [] b s o h = h
  drain_keeps k at (e ∷ rows) b s o h = elim (Bool-cases (at e.id).stopped) [
    | inl q ↦ rw (q, drain) h
    | inr q ↦
        rw (q, drain)
          (Ends-after_visit P s P (drain publish_fn c at rows) b
            (visit publish_fn c (at e.id) e s o) (λ b' s' o' g. drain_keeps k at rows b' s' o' g)
            (λ s' o' g. g) (k (at e.id) e s o h))
  ]

  pub Ends-after_drain :
      (jitter : ℕ → ℕ) (backoff : ℕ) (r : Result Batch × S × Outbox)
      → P r.1 r.2
      → P (after_drain c jitter backoff r).2 (after_drain c jitter backoff r).3
  unfolding after_drain
  Ends-after_drain jitter backoff (ok b, s, o) h = h
  Ends-after_drain jitter backoff (raise exc, s, o) h = h

  -- A turn keeps what the loop over the fetched rows keeps.
  pub turn_keeps :
      (t : Turn E) (backoff : ℕ) (s : S) (o : Outbox)
      → ((rows : List Entry)
          → fetch_batch t.fetch c.batch_size o ≡ ok rows
          → P
              (drain publish_fn c t.at rows no_batch s o).1
              (drain publish_fn c t.at rows no_batch s o).2)
      → P s o
      → P (turn publish_fn c t backoff s o).2 (turn publish_fn c t backoff s o).3
  unfolding turn
  turn_keeps t backoff s o k h = go (fetch_batch t.fetch c.batch_size o) k
    where
      go :
          (r : Result (List Entry))
          → ((rows : List Entry)
              → r ≡ ok rows
              → P
                  (drain publish_fn c t.at rows no_batch s o).1
                  (drain publish_fn c t.at rows no_batch s o).2)
          → P
              (after_fetch publish_fn c t backoff s o r).2
              (after_fetch publish_fn c t backoff s o r).3
      go (raise exc) g = h
      go (ok []) g = h
      go (ok (e ∷ rows)) g =
          Ends-after_drain t.jitter backoff (drain publish_fn c t.at (e ∷ rows) no_batch s o)
            (g (e ∷ rows) refl)

  Ends-after_turn :
      (next : ℕ → S → Outbox → Result (Unit {0}) × S × Outbox)
      → ((backoff : ℕ) (s : S) (o : Outbox) → P s o → P (next backoff s o).1 (next backoff s o).2)
      → (r : Result ℕ × ℕ × S × Outbox) → P r.2 r.3
      → P (after_turn next r).1 (after_turn next r).2
  unfolding after_turn
  Ends-after_turn next k (ok wait, backoff, s, o) h = k backoff s o h
  Ends-after_turn next k (raise exc, backoff, s, o) h = h

  pub run_keeps :
      ((t : Turn E) (backoff : ℕ) (s : S) (o : Outbox)
        → P s o
        → P (turn publish_fn c t backoff s o).2 (turn publish_fn c t backoff s o).3)
      → (turns : List (Turn E)) (backoff : ℕ) (s : S) (o : Outbox) → P s o
      → P (run publish_fn c turns backoff s o).1 (run publish_fn c turns backoff s o).2
  unfolding run
  run_keeps k [] backoff s o h = h
  run_keeps k (t ∷ turns) backoff s o h =
      Ends-after_turn (run publish_fn c turns) (λ b' s' o' g. run_keeps k turns b' s' o' g)
        (turn publish_fn c t backoff s o) (k t backoff s o h)
