-- ===== src/Outbox/Capacity.antt =====
-- The counter `_pending_estimate` against the table, and the limit `max_pending`.
use horstmann_dnp3_gateway.Base.{
  ℕ, zero, suc, ◌≤◌, ◌<◌, max, String, ◌≡◌, refl, ◌⊎◌, inl, inr, false, Option, none, some, List,
  [], ◌∷◌, ◌++◌, arith, leb, Bool-cases, nat_eq, text_eq, pair_eq, length, All, length-append,
  length-keep-le, length-map,
}
use horstmann_dnp3_gateway.Exception.{ok, raise, outbox_full}
use horstmann_dnp3_gateway.Outbox.{
  Outbox, Row, Message, Fault, fine, execute_fails, commit_fails, enqueue, delete, mark_retry,
  move_to_dead_letter, move_found, bump, other_than, without, find_row, new_row, full_text, init,
  DeadRow,
}
use horstmann_dnp3_gateway.Outbox.Operations.{
  Op, Call, enqueues, deletes, marks, moves, perform, perform_all, Commits,
}

-- The counter is COUNT(*), and the table is within the limit.
pub record IsExact (o : Outbox) : Type 0 where
  pub exact : o.pending_estimate ≡ length o.rows
  pub bounded : length o.rows ≤ o.max_pending

without-le : (id : ℕ) (rows : List Row) → length (without id rows) ≤ length rows
unfolding without
without-le id rows = length-keep-le (other_than id) rows

enqueue-IsExact :
    (fault : Fault) (now : ℕ) (m : Message) (error : Option String) (o : Outbox)
    → Commits fault
    → IsExact o
    → IsExact (enqueue fault now m error o).1
unfolding enqueue
enqueue-IsExact fine now m error o c h =
    ground (arith, length-append o.rows (new_row o.next_id now m error ∷ []))
enqueue-IsExact (execute_fails n e) now m error o c h = ground arith
enqueue-IsExact (commit_fails e) now m error o c h = absurd c

move_found-IsExact :
    (fault : Fault) (now id : ℕ) (error : String) (found : Option Row) (o : Outbox)
    → Commits fault
    → IsExact o
    → IsExact (move_found fault now error id found o).1
unfolding move_found
move_found-IsExact fault now id error none o c h = h
move_found-IsExact fine now id error (some r) o c h = ground (arith, without-le id o.rows)
move_found-IsExact (execute_fails n e) now id error (some r) o c h = ground arith
move_found-IsExact (commit_fails e) now id error (some r) o c h = absurd c

move-IsExact :
    (fault : Fault) (now id : ℕ) (error : String) (o : Outbox)
    → Commits fault
    → IsExact o
    → IsExact (move_to_dead_letter fault now id error o).1
unfolding move_to_dead_letter
move-IsExact (execute_fails zero e) now id error o c h = h
move-IsExact (execute_fails (suc n) e) now id error o c h =
    move_found-IsExact (execute_fails (suc n) e) now id error (find_row id o.rows) o c h
move-IsExact fine now id error o c h =
    move_found-IsExact fine now id error (find_row id o.rows) o c h
move-IsExact (commit_fails e) now id error o c h = absurd c

pub perform-IsExact :
    (fault : Fault) (now : ℕ) (op : Op) (o : Outbox)
    → Commits fault
    → IsExact o
    → IsExact (perform fault now op o)
unfolding perform delete mark_retry
perform-IsExact fault now (enqueues m error) o c h = enqueue-IsExact fault now m error o c h
perform-IsExact fine now (deletes id) o c h = ground (arith, without-le id o.rows)
perform-IsExact (execute_fails n e) now (deletes id) o c h = h
perform-IsExact (commit_fails e) now (deletes id) o c h = absurd c
perform-IsExact fine now (marks id error) o c h = ground (arith, length-map (bump id error) o.rows)
perform-IsExact (execute_fails n e) now (marks id error) o c h = h
perform-IsExact (commit_fails e) now (marks id error) o c h = absurd c
perform-IsExact fault now (moves id error) o c h = move-IsExact fault now id error o c h

-- As long as no COMMIT fails, the counter stays equal to COUNT(*) and the table never grows past
-- the limit, whatever calls are made and whatever statements fail.
pub perform_all-IsExact :
    (calls : List Call) (o : Outbox)
    → All (λ (c : Call). Commits c.fault) calls
    → IsExact o
    → IsExact (perform_all calls o)
unfolding perform_all
perform_all-IsExact [] o c h = h
perform_all-IsExact (call ∷ calls) o c h =
    perform_all-IsExact calls (perform call.fault call.now call.op o) c.1
      (perform-IsExact call.fault call.now call.op o c.0 h)

-- A restart whose COUNT(*) works begins with an exact counter, on any table within the limit.
pub init-IsExact :
    (max_pending next_id next_dead_id : ℕ) (rows : List Row) (dead : List DeadRow)
    → length rows ≤ max 1000 max_pending
    → IsExact (init max_pending rows next_id dead next_dead_id false)
unfolding init
init-IsExact max_pending next_id next_dead_id rows dead h = record { exact = refl; bounded = h }

-- With an exact counter and no fault, `enqueue` raises OutboxFullError exactly when the table has
-- reached the limit; it then changes nothing, and otherwise it appends one row, with the
-- message's fields, under the next id.
pub enqueue_full_iff :
    (now : ℕ) (m : Message) (error : Option String) (o : Outbox)
    → IsExact o
    → ((length o.rows ≡ o.max_pending)
        × (enqueue fine now m error o
            ≡ (raise (outbox_full (full_text o.pending_estimate o.max_pending)), o)))
      ⊎ ((length o.rows < o.max_pending)
          × ((enqueue fine now m error o).0 ≡ ok o.next_id)
          × ((enqueue fine now m error o).1.rows ≡ o.rows ++ new_row o.next_id now m error ∷ []))
unfolding enqueue
enqueue_full_iff now m error o h = elim (Bool-cases (leb o.max_pending o.pending_estimate)) [
  | inl e ↦ inl (ground arith, rw e)
  | inr e ↦ inr (ground arith, rw e, rw e)
]
