-- ===== src/Tests/Queue.antt =====
-- The queue on concrete rows.
use horstmann_dnp3_gateway.Base.{
  refl, ◌<◌, String, ◌≡◌, ◌⊎◌, none, List, [], ◌∷◌, ◌++◌, arith, length, decimal, keep,
}
use horstmann_dnp3_gateway.Base.Json.{null, dumps}
use horstmann_dnp3_gateway.Exception.{ok, raise, outbox_full}
use horstmann_dnp3_gateway.Outbox.Refines.{view, perform_all-view}
use horstmann_dnp3_gateway.Outbox.Abstract.{act_on_all, act_on, act, fail, move_item, find_item}
use horstmann_dnp3_gateway.Outbox.{
  Row, Outbox, Message, fine, execute_fails, enqueue, new_row, full_text,
}
use horstmann_dnp3_gateway.Outbox.Operations.{Call, enqueues, deletes, moves, perform_all}
use horstmann_dnp3_gateway.Outbox.Invariant.{IsValid, perform_all-IsValid}
use horstmann_dnp3_gateway.Outbox.Capacity.{IsExact, perform_all-IsExact, enqueue_full_iff}

abbrev pub reading : String → Message
reading id = record { message_id = id; correlation_id = none; headers = none; payload = null }

abbrev pub empty : Outbox
empty = record {
  rows = [];
  next_id = 1;
  dead = [];
  next_dead_id = 1;
  pending_estimate = 0;
  max_pending = 1000;
}

abbrev pub first_row : Row
first_row = record {
  id = 1;
  message_id = "a";
  correlation_id = none;
  headers = none;
  payload = dumps null;
  enqueued_at = 50;
  retry_count = 0;
  last_error = none;
}

abbrev pub one : Outbox
one = record empty { rows = first_row ∷ []; next_id = 2; pending_estimate = 1 }

abbrev calls : List Call
calls =
    record { fault = fine; now = 60; op = enqueues (reading "b") none }
    ∷ record { fault = execute_fails 0 "locked"; now = 61; op = deletes 1 }
    ∷ record { fault = fine; now = 62; op = moves 1 "refused" }
    ∷ []

perform_all-IsValid_example : IsValid (perform_all calls one)
perform_all-IsValid_example = perform_all-IsValid calls one (omega arith, omega arith)

perform_all-IsExact_example : IsExact (perform_all calls one)
perform_all-IsExact_example =
    perform_all-IsExact calls one (tt, (tt, (tt, tt)))
      (record { exact = refl; bounded = omega arith })

perform_all-view_example : view (perform_all calls one) ≡ act_on_all calls (view one)
perform_all-view_example =
    perform_all-view calls one (tt, (tt, (tt, tt))) (record { exact = refl; bounded = omega arith })

-- The move makes one dead letter, and the failing delete none.
act_on_all_run : length (act_on_all calls (view one)).buried ≡ 1
unfolding act_on_all act_on act fail view move_item find_item keep
act_on_all_run = refl

enqueue_full_iff_example :
    ((length one.rows ≡ one.max_pending)
      × (enqueue fine 70 (reading "b") none one
          ≡ (raise (outbox_full (full_text one.pending_estimate one.max_pending)), one)))
    ⊎ ((length one.rows < one.max_pending)
        × ((enqueue fine 70 (reading "b") none one).0 ≡ ok one.next_id)
        × ((enqueue fine 70 (reading "b") none one).1.rows
            ≡ one.rows ++ new_row one.next_id 70 (reading "b") none ∷ []))
enqueue_full_iff_example =
    enqueue_full_iff 70 (reading "b") none one (record { exact = refl; bounded = omega arith })

decimal_runs : decimal 500170 ≡ "500170"
unfolding decimal
decimal_runs = refl
