-- ===== src/Delivery/Rows.antt =====
-- A fetched entry stays the message of its id while both threads work on the queue: an id is
-- never given twice.
use horstmann_dnp3_gateway.Outbox.Invariant.{Rising-le, Rising, IsValid}
use horstmann_dnp3_gateway.Base.{
  subst, ℕ, refl, zero, suc, ◌<◌, String, ◌≡◌, inl, inr, Option, none, some, List, [], ◌∷◌, ◌++◌,
  arith, leb, Bool-cases, All, map, take,
}
use horstmann_dnp3_gateway.Exception.{Result, ok-injective, ok}
use horstmann_dnp3_gateway.Outbox.{
  fetch_batch, decode, Outbox, Row, Message, Entry, Fault, fine, execute_fails, commit_fails,
  enqueue, delete, mark_retry, move_to_dead_letter, move_found, find_row, new_row, entry_message,
}
use horstmann_dnp3_gateway.Outbox.Keeps.{Matches}
use horstmann_dnp3_gateway.Outbox.Messages.{Carries}
use horstmann_dnp3_gateway.Retrier.{Config, Attempt, after_publish}
use horstmann_dnp3_gateway.Retrier.Visits.{Ends, Ends-both, Ends-publish}
use horstmann_dnp3_gateway.Retrier.Safety.{settle-Matches, fetch_batch-Matches}

-- The rows with the entry's id carry its message, and the id has been given.
abbrev pub Own : Entry → Outbox → Type 0
Own e o = Matches e o × (e.id < o.next_id)

Carries-append :
    (id : ℕ) (m : Message) (rows : List Row) (r : Row)
    → id < r.id
    → Carries id m rows
    → Carries id m (rows ++ r ∷ [])
Carries-append id m [] r lt c = (λ e. absurd (omega arith), tt)
Carries-append id m (x ∷ rows) r lt c = (c.0, Carries-append id m rows r lt c.1)

pub enqueue-Own :
    (fault : Fault) (now : ℕ) (m : Message) (error : Option String) (e : Entry) (o : Outbox)
    → Own e o
    → Own e (enqueue fault now m error o).1
unfolding enqueue new_row
enqueue-Own fine now m error e o h = elim (Bool-cases (leb o.max_pending o.pending_estimate)) [
  | inl q ↦ rw q h
  | inr q ↦ rw q (Carries-append e.id (entry_message e) o.rows _ h.1 h.0, omega arith)
]
enqueue-Own (execute_fails n t) now m error e o h =
    elim (Bool-cases (leb o.max_pending o.pending_estimate)) [ inl q ↦ rw q h | inr q ↦ rw q h ]
enqueue-Own (commit_fails t) now m error e o h =
    elim (Bool-cases (leb o.max_pending o.pending_estimate)) [
      | inl q ↦ rw q h
      | inr q ↦ rw q (Carries-append e.id (entry_message e) o.rows _ h.1 h.0, omega arith)
    ]

delete-next_id : (fault : Fault) (id : ℕ) (o : Outbox) → (delete fault id o).1.next_id ≡ o.next_id
unfolding delete
delete-next_id fine id o = refl
delete-next_id (execute_fails n t) id o = refl
delete-next_id (commit_fails t) id o = refl

mark_retry-next_id :
    (fault : Fault) (id : ℕ) (error : String) (o : Outbox)
    → (mark_retry fault id error o).1.next_id ≡ o.next_id
unfolding mark_retry
mark_retry-next_id fine id error o = refl
mark_retry-next_id (execute_fails n t) id error o = refl
mark_retry-next_id (commit_fails t) id error o = refl

move_found-next_id :
    (fault : Fault) (now : ℕ) (error : String) (id : ℕ) (found : Option Row) (o : Outbox)
    → (move_found fault now error id found o).1.next_id ≡ o.next_id
unfolding move_found
move_found-next_id fault now error id none o = refl
move_found-next_id fine now error id (some r) o = refl
move_found-next_id (execute_fails n t) now error id (some r) o = elim (Bool-cases (leb 2 n)) [
  | inl q ↦ rw q refl
  | inr q ↦ rw q refl
]
move_found-next_id (commit_fails t) now error id (some r) o = refl

move-next_id :
    (fault : Fault) (now id : ℕ) (error : String) (o : Outbox)
    → (move_to_dead_letter fault now id error o).1.next_id ≡ o.next_id
unfolding move_to_dead_letter
move-next_id (execute_fails zero t) now id error o = refl
move-next_id (execute_fails (suc n) t) now id error o =
    move_found-next_id (execute_fails (suc n) t) now error id (find_row id o.rows) o
move-next_id fine now id error o = move_found-next_id fine now error id (find_row id o.rows) o
move-next_id (commit_fails t) now id error o =
    move_found-next_id (commit_fails t) now error id (find_row id o.rows) o

module _ {ℓ κ} {S : Type ℓ} {E : Type κ} (publish_fn : E → Entry → S → Result (Unit {0}) × S)
    (Delivered : Message → S → Type 0) (c : Config) (a : Attempt E) (e : Entry)
    (r : Result (Unit {0})) (s : S) (o : Outbox) where
  settle-next_id :
      (n : ℕ) → n < o.next_id → Ends (λ _ o'. n < o'.next_id) (after_publish publish_fn c a e o r s)
  settle-next_id n h =
      Ends-publish publish_fn (λ _ o'. n < o'.next_id) s c a e o r
        (λ q. rw (delete-next_id a.fault e.id o) h) h
        (λ error. rw (move-next_id a.fault a.now e.id error o) h)
        (λ error. rw (mark_retry-next_id a.fault e.id error o) h)

  pub settle-Own :
      (rest : List Entry)
      → All (λ (j : Entry). Own j o) rest
      → Ends (λ _ o'. All (λ (j : Entry). Own j o') rest) (after_publish publish_fn c a e o r s)
  settle-Own [] h =
      Ends-publish publish_fn (λ _ o'. Unit {0}) s c a e o r (λ _. tt) tt (λ _. tt) (λ _. tt)
  settle-Own (j ∷ rest) h =
      Ends-both {P = λ _ o'. Own j o'} {Q = λ _ o'. All (λ (i : Entry). Own i o') rest}
        {R = λ _ o'. Own j o' × All (λ (i : Entry). Own i o') rest} (λ s' o' x y. (x, y)) _
        (Ends-both {P = λ _ o'. Matches j o'} {Q = λ _ o'. j.id < o'.next_id} {R = λ _ o'. Own j o'}
          (λ s' o' x y. (x, y)) _ (settle-Matches publish_fn Delivered c a e r s o j h.0.0)
          (settle-next_id j.id h.0.1))
        (settle-Own rest h.1)

decode_rows-below :
    (lo hi n : ℕ) (rows : List Row)
    → Rising lo hi rows
    → All (λ (e : Entry). e.id < hi) (map decode (take n rows))
unfolding decode
decode_rows-below lo hi zero rows h = tt
decode_rows-below lo hi (suc n) [] h = tt
decode_rows-below lo hi (suc n) (r ∷ rows) h =
    (omega (arith, Rising-le (suc r.id) hi rows h.1), decode_rows-below (suc r.id) hi n rows h.1)

fetch_batch-below :
    (fault : Fault) (n : ℕ) (o : Outbox)
    → IsValid o
    → (rows : List Entry) → fetch_batch fault n o ≡ ok rows
    → All (λ (e : Entry). e.id < o.next_id) rows
unfolding fetch_batch
fetch_batch-below fine n o v rows q =
    subst (All (λ (e : Entry). e.id < o.next_id)) (ok-injective q)
      (decode_rows-below 0 o.next_id n o.rows v)
fetch_batch-below (execute_fails k t) n o v rows q = cc
fetch_batch-below (commit_fails t) n o v rows q =
    subst (All (λ (e : Entry). e.id < o.next_id)) (ok-injective q)
      (decode_rows-below 0 o.next_id n o.rows v)

All-both :
    (P Q : Entry → Type 0) (rows : List Entry) → All P rows → All Q rows → All (λ e. P e × Q e) rows
All-both P Q [] h k = tt
All-both P Q (e ∷ rows) h k = ((h.0, k.0), All-both P Q rows h.1 k.1)

pub fetch_batch-Own :
    (fault : Fault) (n : ℕ) (o : Outbox)
    → IsValid o
    → (rows : List Entry) → fetch_batch fault n o ≡ ok rows
    → All (λ (e : Entry). Own e o) rows
fetch_batch-Own fault n o v rows q =
    All-both (λ e. Matches e o) (λ e. e.id < o.next_id) rows
      (fetch_batch-Matches fault n o v rows q) (fetch_batch-below fault n o v rows q)
