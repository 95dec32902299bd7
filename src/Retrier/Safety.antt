-- ===== src/Retrier/Safety.antt =====
-- No message is lost by the retrier, whatever the surroundings do. `Delivered m s` says that the
-- publisher's state `s` has delivered `m`: what is assumed of `publish_fn` is that it delivers
-- what it returns from, and that what is delivered stays so.
use horstmann_dnp3_gateway.Outbox.Invariant.{
  mark_retry-IsValid, move-IsValid, delete-IsValid, IsValid,
}
use horstmann_dnp3_gateway.Outbox.Messages.{Rising-Own, row_message, Carries}
use horstmann_dnp3_gateway.Base.{
  ◌≡◌, ◌⊎◌, inl, inr, Bool-cases, ℕ, List, [], ◌∷◌, All, subst, zero, suc, map, take,
}
use horstmann_dnp3_gateway.Exception.{Result, ok-injective, ok}
use horstmann_dnp3_gateway.Outbox.{
  fine, execute_fails, commit_fails, commit_fails, execute_fails, Fault, Row, decode, fetch_batch,
  Outbox, Message, Entry, delete, mark_retry, move_to_dead_letter, entry_message,
}
use horstmann_dnp3_gateway.Outbox.Keeps.{
  mark-IsKept, move-IsKept, mark-Carries, move-Carries, delete-IsKept, delete-Carries, Matches,
  IsKept,
}
use horstmann_dnp3_gateway.Retrier.Visits.{
  drain_keeps, turn_keeps, run_keeps, Ends, Ends-map, Ends-both, Ends-publish, Ends-after_visit,
}
use horstmann_dnp3_gateway.Retrier.{
  run, turn, no_batch, Turn, Batch, drain, visit, Config, Attempt, after_publish,
}

-- What is assumed of `publish_fn`, and shown for `publish_outbox_row` in Delivery.
pub record Delivers {ℓ κ} {S : Type ℓ} {E : Type κ}
    (publish_fn : E → Entry → S → Result (Unit {0}) × S) (Delivered : Message → S → Type 0)
    : Type (ℓ ⊔ κ) where
  pub stays :
      (env : E) (e : Entry) (s : S) (m : Message)
      → Delivered m s
      → Delivered m (publish_fn env e s).1
  pub returns :
      (env : E) (e : Entry) (s : S)
      → (publish_fn env e s).0 ≡ ok tt
      → Delivered (entry_message e) (publish_fn env e s).1

-- The message is delivered, in the queue, or a dead letter.
abbrev pub IsSafe {ℓ} : {S : Type ℓ} → (Message → S → Type 0) → Message → S → Outbox → Type 0
IsSafe Delivered m s o = Delivered m s ⊎ IsKept m o

decode_rows-Matches :
    (o : Outbox) (n : ℕ) (rows : List Row)
    → All (λ (r : Row). Carries r.id (row_message r) o.rows) rows
    → All (λ (e : Entry). Matches e o) (map decode (take n rows))
unfolding decode
decode_rows-Matches o zero rows h = tt
decode_rows-Matches o (suc n) [] h = tt
decode_rows-Matches o (suc n) (r ∷ rows) h = (h.0, decode_rows-Matches o n rows h.1)

-- In a valid queue each fetched entry has the message of its id.
pub fetch_batch-Matches :
    (fault : Fault) (n : ℕ) (o : Outbox)
    → IsValid o
    → (rows : List Entry) → fetch_batch fault n o ≡ ok rows
    → All (λ (e : Entry). Matches e o) rows
unfolding fetch_batch
fetch_batch-Matches fine n o v rows q =
    subst (All (λ (e : Entry). Matches e o)) (ok-injective q)
      (decode_rows-Matches o n o.rows (Rising-Own 0 o.next_id o.rows v))
fetch_batch-Matches (execute_fails k t) n o v rows q = cc
fetch_batch-Matches (commit_fails t) n o v rows q =
    subst (All (λ (e : Entry). Matches e o)) (ok-injective q)
      (decode_rows-Matches o n o.rows (Rising-Own 0 o.next_id o.rows v))

-- What the loop does with the answer of `publish_fn` for a row.
module _ {ℓ κ} {S : Type ℓ} {E : Type κ} (publish_fn : E → Entry → S → Result (Unit {0}) × S)
    (Delivered : Message → S → Type 0) (c : Config) (a : Attempt E) (e : Entry)
    (r : Result (Unit {0})) (s : S) (o : Outbox) where
  pub settle-IsSafe :
      (m : Message)
      → Matches e o
      → (r ≡ ok tt → Delivered (entry_message e) s)
      → IsSafe Delivered m s o
      → Ends (IsSafe Delivered m) (after_publish publish_fn c a e o r s)
  settle-IsSafe m c' told h =
      Ends-publish publish_fn (IsSafe Delivered m) s c a e o r (deleted h) h
        (λ error.
          carried (move_to_dead_letter a.fault a.now e.id error o).1
            (move-IsKept a.now error m e o c' a.fault) h)
        (λ error.
          carried (mark_retry a.fault e.id error o).1 (mark-IsKept a.fault e.id error m o) h)
    where
      carried :
          (o' : Outbox)
          → (IsKept m o → IsKept m o')
          → IsSafe Delivered m s o
          → IsSafe Delivered m s o'
      carried o' f (inl x) = inl x
      carried o' f (inr k) = inr (f k)

      deleted : IsSafe Delivered m s o → r ≡ ok tt → IsSafe Delivered m s (delete a.fault e.id o).1
      deleted (inl x) q = inl x
      deleted (inr k) q = elim (delete-IsKept a.fault m e o c' k) [
        | inl g ↦ inl (subst (λ n. Delivered n s) g (told q))
        | inr k' ↦ inr k'
      ]

  pub settle-Matches :
      (j : Entry) → Matches j o → Ends (λ _ o'. Matches j o') (after_publish publish_fn c a e o r s)
  settle-Matches j h =
      Ends-publish publish_fn (λ _ o'. Matches j o') s c a e o r
        (λ q. delete-Carries e.id j.id (entry_message j) o h a.fault) h
        (λ error. move-Carries e.id j.id (entry_message j) o h a.fault a.now error)
        (λ error. mark-Carries e.id j.id (entry_message j) o h a.fault error)

  pub settle-IsValid : IsValid o → Ends (λ _ o'. IsValid o') (after_publish publish_fn c a e o r s)
  settle-IsValid h =
      Ends-publish publish_fn (λ _ o'. IsValid o') s c a e o r
        (λ q. delete-IsValid a.fault e.id o h) h
        (λ error. move-IsValid a.fault a.now e.id error o h)
        (λ error. mark_retry-IsValid a.fault e.id error o h)

module _ {ℓ κ} {S : Type ℓ} {E : Type κ} (publish_fn : E → Entry → S → Result (Unit {0}) × S)
    (Delivered : Message → S → Type 0) (d : Delivers publish_fn Delivered) (c : Config) where
  visit-IsSafe :
      (a : Attempt E) (e : Entry) (m : Message) (s : S) (o : Outbox)
      → Matches e o
      → IsSafe Delivered m s o
      → Ends (IsSafe Delivered m) (visit publish_fn c a e s o)
  unfolding visit
  visit-IsSafe a e m s o c' h =
      settle-IsSafe publish_fn Delivered c a e (publish_fn a.env e s).0 (publish_fn a.env e s).1 o m
        c' (d.returns a.env e s) (sent_on h)
    where
      sent_on : IsSafe Delivered m s o → IsSafe Delivered m (publish_fn a.env e s).1 o
      sent_on (inl x) = inl (d.stays a.env e s m x)
      sent_on (inr k) = inr k

  visit-Matches :
      (a : Attempt E) (e j : Entry) (s : S) (o : Outbox)
      → Matches j o
      → Ends (λ _ o'. Matches j o') (visit publish_fn c a e s o)
  unfolding visit
  visit-Matches a e j s o h =
      settle-Matches publish_fn Delivered c a e (publish_fn a.env e s).0 (publish_fn a.env e s).1 o
        j h

  -- Every entry of the rest of the batch still carries its message, and `m` is safe.
  Holds : Message → List Entry → S → Outbox → Type 0
  Holds m rows s o = All (λ (e : Entry). Matches e o) rows × IsSafe Delivered m s o

  visit-Holds :
      (a : Attempt E) (e : Entry) (rows : List Entry) (m : Message) (s : S) (o : Outbox)
      → Matches e o
      → Holds m rows s o
      → Ends (Holds m rows) (visit publish_fn c a e s o)
  unfolding Holds
  visit-Holds a e [] m s o c' h =
      Ends-map {P = IsSafe Delivered m} {Q = Holds m []} (λ s' o' k. (tt, k)) _
        (visit-IsSafe a e m s o c' h.1)
  visit-Holds a e (j ∷ rows) m s o c' h =
      Ends-both {P = λ _ o'. Matches j o'} {Q = Holds m rows} {R = Holds m (j ∷ rows)}
        (λ s' o' x y. ((x, y.0), y.1)) _ (visit-Matches a e j s o h.0.0)
        (visit-Holds a e rows m s o c' (h.0.1, h.1))

  drain-IsSafe :
      (at : ℕ → Attempt E) (rows : List Entry) (m : Message) (b : Batch) (s : S) (o : Outbox)
      → Holds m rows s o
      → IsSafe Delivered m (drain publish_fn c at rows b s o).1 (drain publish_fn c at rows b s o).2
  unfolding drain Holds
  drain-IsSafe at [] m b s o h = h.1
  drain-IsSafe at (e ∷ rows) m b s o h = elim (Bool-cases (at e.id).stopped) [
    | inl q ↦ rw (q, drain) h.1
    | inr q ↦
        rw (q, drain)
          (Ends-after_visit (Holds m rows) s (IsSafe Delivered m) (drain publish_fn c at rows) b
            (visit publish_fn c (at e.id) e s o) (λ b' s' o' k. drain-IsSafe at rows m b' s' o' k)
            (λ s' o' k. k.1) (visit-Holds (at e.id) e rows m s o h.0.0 (h.0.1, h.1)))
  ]

  visit-IsValid :
      (a : Attempt E) (e : Entry) (s : S) (o : Outbox)
      → IsValid o
      → Ends (λ _ o'. IsValid o') (visit publish_fn c a e s o)
  unfolding visit
  visit-IsValid a e s o h =
      settle-IsValid publish_fn Delivered c a e (publish_fn a.env e s).0 (publish_fn a.env e s).1 o
        h

  Stays : Message → S → Outbox → Type 0
  Stays m s o = IsValid o × IsSafe Delivered m s o

  turn-Stays :
      (m : Message) (t : Turn E) (backoff : ℕ) (s : S) (o : Outbox)
      → Stays m s o
      → Stays m (turn publish_fn c t backoff s o).2 (turn publish_fn c t backoff s o).3
  unfolding Stays Holds
  turn-Stays m t backoff s o h =
      turn_keeps publish_fn (Stays m) c t backoff s o
        (λ rows q. (
          drain_keeps publish_fn (λ _ o'. IsValid o') c visit-IsValid t.at rows no_batch s o h.0,
          drain-IsSafe t.at rows m no_batch s o
              (fetch_batch-Matches t.fetch c.batch_size o h.0 rows q, h.1),
        ))
        h

  -- Whatever the broker answers, whatever faults the database has, whenever the stop flag is set,
  -- and also when an exception ends the thread: a message that was delivered, in the queue or
  -- among the dead letters before a run of the retrier is so after it.
  pub run-IsSafe :
      (turns : List (Turn E)) (m : Message) (backoff : ℕ) (s : S) (o : Outbox)
      → IsValid o
      → IsSafe Delivered m s o
      → IsSafe Delivered m
          (run publish_fn c turns backoff s o).1
          (run publish_fn c turns backoff s o).2
  unfolding Stays
  run-IsSafe turns m backoff s o v h =
      (run_keeps publish_fn (Stays m) c (turn-Stays m) turns backoff s o (v, h)).1
