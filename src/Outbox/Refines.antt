-- ===== src/Outbox/Refines.antt =====
-- Class Outbox implements the queue of Outbox.Abstract.
use mathlib.Core.Option
use mathlib.Core.List.{map-append}
use horstmann_dnp3_gateway.Base.{
  ℕ, zero, suc, ◌+◌, ◌≡◌, refl, sym, ap, ◌∙◌, inl, inr, Option, none, some, List, [], ◌∷◌, ◌++◌,
  map, String, ◌==◌, nat_eq, text_eq, pair_eq, leb, if◌then◌else◌, length, keep, Bool-cases, All,
  length-map, arith,
}
use horstmann_dnp3_gateway.Base.Json.{Fields, end, field}
use horstmann_dnp3_gateway.Outbox.{
  dead_row, Outbox, Row, DeadRow, Message, Fault, fine, execute_fails, commit_fails, enqueue,
  delete, mark_retry, move_to_dead_letter, move_found, bump, without, find_row, new_row,
  dump_headers, load_headers,
}
use horstmann_dnp3_gateway.Outbox.Operations.{
  Op, Call, enqueues, deletes, marks, moves, perform, perform_all, Commits,
}
use horstmann_dnp3_gateway.Outbox.Messages.{row_message, dead_message}
use horstmann_dnp3_gateway.Outbox.Capacity.{IsExact, perform-IsExact}
use horstmann_dnp3_gateway.Outbox.Abstract.{
  Item, Buried, Queue, kept_headers, kept, other_item, again, find_item, move_item, copy_item, act,
  fail, act_on, act_on_all,
}

-- The queue that the tables stand for.
abbrev pub item : Row → Item
item r = record { id = r.id; message = row_message r; retries = r.retry_count }

abbrev pub buried_row : DeadRow → Buried
buried_row d = record { message = dead_message d; retries = d.retry_count }

unfoldable pub view : Outbox → Queue
view o = record {
  waiting = map item o.rows;
  buried = map buried_row o.dead;
  next_id = o.next_id;
  limit = o.max_pending;
}

item-without :
    (id : ℕ) (rows : List Row) → map item (without id rows) ≡ keep (other_item id) (map item rows)
unfolding without keep
item-without id [] = refl
item-without id (r ∷ rows) = elim (Bool-cases (r.id == id)) [
  | inl e ↦ rw e (item-without id rows)
  | inr e ↦ rw e (ap (λ (items : List Item). item r ∷ items) (item-without id rows))
]

item-bump :
    (id : ℕ) (error : String) (rows : List Row)
    → map item (map (bump id error) rows) ≡ map (again id) (map item rows)
item-bump id error [] = refl
item-bump id error (r ∷ rows) = elim (Bool-cases (r.id == id)) [
  | inl e ↦ rw e (
      ap (λ (items : List Item). record (item r) { retries = r.retry_count + 1 } ∷ items)
        (item-bump id error rows))
  | inr e ↦ rw e (ap (λ (items : List Item). item r ∷ items) (item-bump id error rows))
]

item-find_row :
    (id : ℕ) (rows : List Row) → Option.map item (find_row id rows) ≡ find_item id (map item rows)
unfolding find_row find_item
item-find_row id [] = refl
item-find_row id (r ∷ rows) = elim (Bool-cases (r.id == id)) [
  | inl e ↦ rw e refl
  | inr e ↦ rw e (item-find_row id rows)
]

load_headers-dump_headers :
    (headers : Option Fields) → load_headers (dump_headers headers) ≡ kept_headers headers
unfolding load_headers dump_headers kept_headers
load_headers-dump_headers none = refl
load_headers-dump_headers (some end) = refl
load_headers-dump_headers (some (field k v rest)) = refl

item-new_row :
    (id now : ℕ) (m : Message) (error : Option String)
    → item (new_row id now m error) ≡ record { id = id; message = kept m; retries = 0 }
unfolding new_row
item-new_row id now m error =
    ap
      (λ (headers : Option Fields).
        let m' : Message = record m { headers = headers } in
        let i : Item = record { id = id; message = m'; retries = 0 } in i)
      (load_headers-dump_headers m.headers)

enqueue-view :
    (now : ℕ) (m : Message) (error : Option String) (o : Outbox)
    → IsExact o
    → view (enqueue fine now m error o).1 ≡ act (enqueues m error) (view o)
unfolding enqueue view act
enqueue-view now m error o h =
    let same : length (map item o.rows) ≡ o.pending_estimate =
      length-map item o.rows ∙ sym h.exact in
    elim (Bool-cases (leb o.max_pending o.pending_estimate)) [
      | inl e ↦ rw (same, e) refl
      | inr e ↦
          rw (same, e)
            (ap
              (λ (items : List Item). record (view o) { waiting = items; next_id = suc o.next_id })
              (map-append item o.rows (new_row o.next_id now m error ∷ [])
                ∙ ap (λ (i : Item). map item o.rows ++ i ∷ [])
                    (item-new_row o.next_id now m error)))
    ]

move_found-view :
    (now id : ℕ) (error : String) (found : Option Row) (o : Outbox)
    → view (move_found fine now error id found o).1 ≡ move_item id (Option.map item found) (view o)
unfolding move_found move_item view dead_row
move_found-view now id error none o = refl
move_found-view now id error (some r) o =
    rw
      (
        item-without id o.rows,
        map-append buried_row o.dead (dead_row o.next_dead_id now error r ∷ []),
      )
      refl

copied-view :
    (n now id : ℕ) (e error : String) (found : Option Row) (o : Outbox)
    → view (move_found (execute_fails n e) now error id found o).1
      ≡ (if leb 2 n then copy_item (Option.map item found) (view o) else view o)
unfolding move_found copy_item view dead_row
copied-view n now id e error none o = ground arith
copied-view n now id e error (some r) o = elim (Bool-cases (leb 2 n)) [
  | inl q ↦ rw (q, map-append buried_row o.dead (dead_row o.next_dead_id now error r ∷ [])) refl
  | inr q ↦ rw q refl
]

move-view :
    (fault : Fault) (now id : ℕ) (error : String) (o : Outbox)
    → Commits fault
    → view (move_to_dead_letter fault now id error o).1 ≡ act_on fault (moves id error) (view o)
unfolding move_to_dead_letter act_on act fail view
move-view fine now id error o c =
    move_found-view now id error (find_row id o.rows) o
    ∙ ap (λ (found : Option Item). move_item id found (view o)) (item-find_row id o.rows)
move-view (execute_fails zero e) now id error o c = refl
move-view (execute_fails (suc n) e) now id error o c =
    copied-view (suc n) now id e error (find_row id o.rows) o
    ∙ ap (λ (found : Option Item). if leb 2 (suc n) then copy_item found (view o) else view o)
        (item-find_row id o.rows)
move-view (commit_fails e) now id error o c = absurd c

failed_enqueue :
    (n now : ℕ) (e : String) (m : Message) (error : Option String) (o : Outbox)
    → (enqueue (execute_fails n e) now m error o).1 ≡ o
unfolding enqueue
failed_enqueue n now e m error o = ground arith

perform-view :
    (fault : Fault) (now : ℕ) (op : Op) (o : Outbox)
    → Commits fault
    → IsExact o
    → view (perform fault now op o) ≡ act_on fault op (view o)
unfolding perform act_on act fail delete mark_retry enqueue view
perform-view fault now (moves id error) o c h = move-view fault now id error o c
perform-view fine now (enqueues m error) o c h = enqueue-view now m error o h
perform-view fine now (deletes id) o c h = rw (item-without id o.rows) refl
perform-view fine now (marks id error) o c h = rw (item-bump id error o.rows) refl
perform-view (execute_fails n e) now (enqueues m error) o c h =
    ap view (failed_enqueue n now e m error o)
perform-view (execute_fails n e) now (deletes id) o c h = refl
perform-view (execute_fails n e) now (marks id error) o c h = refl
perform-view (commit_fails e) now op o c h = absurd c

-- While no COMMIT fails, the tables implement a queue of messages by id: from an exact counter, any
-- calls, each of them fault-free or failing at a statement, take the queue that the tables stand for
-- to the one that the same calls make of it. A call that fails leaves that queue as it is, but for a
-- move whose DELETE fails, which leaves a copy among the dead letters.
pub perform_all-view :
    (calls : List Call) (o : Outbox)
    → All (λ (c : Call). Commits c.fault) calls
    → IsExact o
    → view (perform_all calls o) ≡ act_on_all calls (view o)
unfolding perform_all act_on_all
perform_all-view [] o c h = refl
perform_all-view (call ∷ calls) o c h =
    perform_all-view calls (perform call.fault call.now call.op o) c.1
      (perform-IsExact call.fault call.now call.op o c.0 h)
    ∙ ap (act_on_all calls) (perform-view call.fault call.now call.op o c.0 h)
