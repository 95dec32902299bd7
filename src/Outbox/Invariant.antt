-- ===== src/Outbox/Invariant.antt =====
-- The rows are in the order of their ids, and AUTOINCREMENT gives a fresh one.
use horstmann_dnp3_gateway.Base.{
  none, some, ℕ, zero, suc, ◌≤◌, String, ◌≡◌, refl, inl, inr, Option, List, [], ◌∷◌, ◌++◌, map,
  arith, leb, Bool-cases, ◌==◌, nat_eq, text_eq, pair_eq,
}
use horstmann_dnp3_gateway.Outbox.{
  Outbox, Row, Message, Fault, fine, execute_fails, commit_fails, enqueue, delete, mark_retry,
  move_to_dead_letter, move_found, bump, without, find_row, new_row,
}
use horstmann_dnp3_gateway.Outbox.Operations.{
  Op, Call, enqueues, deletes, marks, moves, perform, perform_all,
}

-- The ids rise along the list, from `lo` on, and stay below `hi`.
abbrev pub Rising : ℕ → ℕ → List Row → Type 0
Rising lo hi [] = lo ≤ hi
Rising lo hi (r ∷ rows) = (lo ≤ r.id) × Rising (suc r.id) hi rows

abbrev pub IsValid : Outbox → Type 0
IsValid o = Rising 0 o.next_id o.rows

pub Rising-le : (lo hi : ℕ) (rows : List Row) → Rising lo hi rows → lo ≤ hi
Rising-le lo hi [] h = h
Rising-le lo hi (r ∷ rows) h = omega (arith, Rising-le (suc r.id) hi rows h.1)

Rising-mono : (lo lo' hi : ℕ) (rows : List Row) → lo ≤ lo' → Rising lo' hi rows → Rising lo hi rows
Rising-mono lo lo' hi [] le h = omega arith
Rising-mono lo lo' hi (r ∷ rows) le h = (omega arith, h.1)

pub Rising-without :
    (id lo hi : ℕ) (rows : List Row) → Rising lo hi rows → Rising lo hi (without id rows)
unfolding without
Rising-without id lo hi [] h = h
Rising-without id lo hi (r ∷ rows) h = elim (Bool-cases (r.id == id)) [
  | inl e ↦ rw e (
      Rising-mono lo (suc r.id) hi (without id rows) (omega arith)
        (Rising-without id (suc r.id) hi rows h.1))
  | inr e ↦ rw e (h.0, Rising-without id (suc r.id) hi rows h.1)
]

Rising-bump :
    (id : ℕ) (error : String) (lo hi : ℕ) (rows : List Row)
    → Rising lo hi rows
    → Rising lo hi (map (bump id error) rows)
Rising-bump id error lo hi [] h = h
Rising-bump id error lo hi (r ∷ rows) h = elim (Bool-cases (r.id == id)) [
  | inl e ↦ rw e (h.0, Rising-bump id error (suc r.id) hi rows h.1)
  | inr e ↦ rw e (h.0, Rising-bump id error (suc r.id) hi rows h.1)
]

Rising-append :
    (lo hi : ℕ) (rows : List Row) (r : Row)
    → r.id ≡ hi
    → Rising lo hi rows
    → Rising lo (suc hi) (rows ++ r ∷ [])
Rising-append lo hi [] r e h = (omega arith, omega arith)
Rising-append lo hi (x ∷ rows) r e h = (h.0, Rising-append (suc x.id) hi rows r e h.1)

pub enqueue-IsValid :
    (fault : Fault) (now : ℕ) (m : Message) (error : Option String) (o : Outbox)
    → IsValid o
    → IsValid (enqueue fault now m error o).1
unfolding enqueue new_row
enqueue-IsValid fine now m error o h = elim (Bool-cases (leb o.max_pending o.pending_estimate)) [
  | inl e ↦ rw e h
  | inr e ↦ rw e (Rising-append 0 o.next_id o.rows _ refl h)
]
enqueue-IsValid (execute_fails n e) now m error o h =
    elim (Bool-cases (leb o.max_pending o.pending_estimate)) [ inl e ↦ rw e h | inr e ↦ rw e h ]
enqueue-IsValid (commit_fails t) now m error o h =
    elim (Bool-cases (leb o.max_pending o.pending_estimate)) [
      | inl e ↦ rw e h
      | inr e ↦ rw e (Rising-append 0 o.next_id o.rows _ refl h)
    ]

pub delete-IsValid :
    (fault : Fault) (id : ℕ) (o : Outbox) → IsValid o → IsValid (delete fault id o).1
unfolding delete
delete-IsValid fine id o h = Rising-without id 0 o.next_id o.rows h
delete-IsValid (execute_fails n e) id o h = h
delete-IsValid (commit_fails e) id o h = Rising-without id 0 o.next_id o.rows h

pub mark_retry-IsValid :
    (fault : Fault) (id : ℕ) (error : String) (o : Outbox)
    → IsValid o
    → IsValid (mark_retry fault id error o).1
unfolding mark_retry
mark_retry-IsValid fine id error o h = Rising-bump id error 0 o.next_id o.rows h
mark_retry-IsValid (execute_fails n e) id error o h = h
mark_retry-IsValid (commit_fails e) id error o h = Rising-bump id error 0 o.next_id o.rows h

move_found-IsValid :
    (fault : Fault) (now id : ℕ) (error : String) (found : Option Row) (o : Outbox)
    → IsValid o
    → IsValid (move_found fault now error id found o).1
unfolding move_found
move_found-IsValid fault now id error none o h = h
move_found-IsValid fine now id error (some r) o h = Rising-without id 0 o.next_id o.rows h
move_found-IsValid (execute_fails n e) now id error (some r) o h = elim (Bool-cases (leb 2 n)) [
  | inl t ↦ rw t h
  | inr t ↦ rw t h
]
move_found-IsValid (commit_fails e) now id error (some r) o h =
    Rising-without id 0 o.next_id o.rows h

pub move-IsValid :
    (fault : Fault) (now id : ℕ) (error : String) (o : Outbox)
    → IsValid o
    → IsValid (move_to_dead_letter fault now id error o).1
unfolding move_to_dead_letter
move-IsValid (execute_fails zero e) now id error o h = h
move-IsValid (execute_fails (suc n) e) now id error o h =
    move_found-IsValid (execute_fails (suc n) e) now id error (find_row id o.rows) o h
move-IsValid fine now id error o h = move_found-IsValid fine now id error (find_row id o.rows) o h
move-IsValid (commit_fails e) now id error o h =
    move_found-IsValid (commit_fails e) now id error (find_row id o.rows) o h

pub perform-IsValid :
    (fault : Fault) (now : ℕ) (op : Op) (o : Outbox) → IsValid o → IsValid (perform fault now op o)
unfolding perform
perform-IsValid fault now (enqueues m error) o h = enqueue-IsValid fault now m error o h
perform-IsValid fault now (deletes id) o h = delete-IsValid fault id o h
perform-IsValid fault now (marks id error) o h = mark_retry-IsValid fault id error o h
perform-IsValid fault now (moves id error) o h = move-IsValid fault now id error o h

-- Whatever calls are made, in whatever order and with whatever faults of the database, the rows
-- stay in strictly rising order of their ids, all below the next AUTOINCREMENT value.
pub perform_all-IsValid :
    (calls : List Call) (o : Outbox) → IsValid o → IsValid (perform_all calls o)
unfolding perform_all
perform_all-IsValid [] o h = h
perform_all-IsValid (c ∷ calls) o h =
    perform_all-IsValid calls (perform c.fault c.now c.op o)
      (perform-IsValid c.fault c.now c.op o h)
