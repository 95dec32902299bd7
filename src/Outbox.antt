-- ===== src/Outbox.antt =====
-- The persistent queue: class Outbox of src/dnp3_gateway/messaging/outbox.py. Each method takes the
-- fault that SQLite meets in it, if any, and the clock; it returns its outcome and the new state.
-- The tables are as the one connection sees them: a row that is not yet committed is there.

pub mod Operations
pub mod Invariant
pub mod Capacity
pub mod Messages
pub mod Keeps
pub mod Abstract
pub mod Refines
use horstmann_dnp3_gateway.Base.{
  ℕ, zero, suc, ◌+◌, ◌-◌, Bool, true, false, not, Option, none, some, List, [], ◌∷◌, ◌++◌, map,
  String, ◌==◌, nat_eq, leb, if◌then◌else◌, length, take, keep, prefix, max, append_text, decimal,
  ◌*◌, text_eq, pair_eq,
}
use horstmann_dnp3_gateway.Base.Json.{Json, Fields, end, field, JsonText, dumps, loads}
use horstmann_dnp3_gateway.Exception.{Result, ok, raise, outbox_full, sqlite}

-- What `publish` and `enqueue` are called with.
pub record Message : Type 0 where
  pub message_id : String
  pub correlation_id : Option String
  pub headers : Option Fields
  pub payload : Json

pub record Row : Type 0 where
  pub id : ℕ
  pub message_id : String
  pub correlation_id : Option String
  pub headers : Option (JsonText Fields)
  pub payload : JsonText Json
  pub enqueued_at : ℕ
  pub retry_count : ℕ
  pub last_error : Option String

pub record DeadRow : Type 0 where
  pub id : ℕ
  pub message_id : String
  pub correlation_id : Option String
  pub headers : Option (JsonText Fields)
  pub payload : JsonText Json
  pub enqueued_at : ℕ
  pub moved_at : ℕ
  pub retry_count : ℕ
  pub last_error : String

-- `next_id` and `next_dead_id` are the AUTOINCREMENT counters of the two tables.
pub record Outbox : Type 0 where
  pub rows : List Row
  pub next_id : ℕ
  pub dead : List DeadRow
  pub next_dead_id : ℕ
  pub pending_estimate : ℕ
  pub max_pending : ℕ

-- The `n`-th statement of the method fails, or the commit does: then the transaction stays open,
-- and what was executed is there for the connection.
pub data Fault : Type 0 where
  fine : Fault
  execute_fails : ℕ → String → Fault
  commit_fails : String → Fault

-- `__init__` on the tables that the file holds, and an optional failure of COUNT(*).
unfoldable pub init : ℕ → List Row → ℕ → List DeadRow → ℕ → Bool → Outbox
init max_pending rows next_id dead next_dead_id count_fails = record {
  rows = rows;
  next_id = next_id;
  dead = dead;
  next_dead_id = next_dead_id;
  pending_estimate = if count_fails then 0 else length rows;
  max_pending = max 1000 max_pending;
}

-- json.dumps(headers, ...) if headers else None
unfoldable pub dump_headers : Option Fields → Option (JsonText Fields)
dump_headers none = none
dump_headers (some end) = none
dump_headers (some (field k v rest)) = some (dumps (field k v rest))

unfoldable pub load_headers : Option (JsonText Fields) → Option Fields
load_headers none = none
load_headers (some t) = some (loads t)

unfoldable pub new_row : ℕ → ℕ → Message → Option String → Row
unfolding dump_headers
new_row id now m last_error = record {
  id = id;
  message_id = m.message_id;
  correlation_id = m.correlation_id;
  headers = dump_headers m.headers;
  payload = dumps m.payload;
  enqueued_at = now;
  retry_count = 0;
  last_error = last_error;
}

insert_row : Fault → Row → Outbox → Result ℕ × Outbox
insert_row fine row o = (
  ok o.next_id,
  record o {
    rows = o.rows ++ row ∷ [];
    next_id = suc o.next_id;
    pending_estimate = o.pending_estimate + 1;
  },
)
insert_row (execute_fails n e) row o = (raise (sqlite e), o)
insert_row (commit_fails e) row o =
    (raise (sqlite e), record o { rows = o.rows ++ row ∷ []; next_id = suc o.next_id })

-- The text of OutboxFullError.
unfoldable pub full_text : ℕ → ℕ → String
full_text pending limit = append_text "outbox dolu (pending~=" (
    append_text (decimal pending) (
      append_text ", limit=" (
        append_text (decimal limit)
          "); broker (NATS JetStream) uzun suredir erisilemiyor olabilir")))

unfoldable pub enqueue : Fault → ℕ → Message → Option String → Outbox → Result ℕ × Outbox
unfolding insert_row
enqueue fault now m last_error o =
    if leb o.max_pending o.pending_estimate
    then (raise (outbox_full (full_text o.pending_estimate o.max_pending)), o)
    else insert_row fault (new_row o.next_id now m last_error) o

-- One dictionary of `fetch_batch`.
pub record Entry : Type 0 where
  pub id : ℕ
  pub message_id : String
  pub correlation_id : Option String
  pub headers : Option Fields
  pub payload : Json
  pub retry_count : ℕ
  pub enqueued_at : ℕ
  pub last_error : Option String

-- The arguments that `publish_outbox_row` gives to the broker.
abbrev pub entry_message : Entry → Message
entry_message e = record {
  message_id = e.message_id;
  correlation_id = e.correlation_id;
  headers = e.headers;
  payload = e.payload;
}

unfoldable pub decode : Row → Entry
unfolding load_headers
decode r = record {
  id = r.id;
  message_id = r.message_id;
  correlation_id = r.correlation_id;
  headers = load_headers r.headers;
  payload = loads r.payload;
  retry_count = r.retry_count;
  enqueued_at = r.enqueued_at;
  last_error = r.last_error;
}

-- The rows are stored by rising id (Outbox.Invariant), so ORDER BY id LIMIT is a prefix.
unfoldable pub fetch_batch : Fault → ℕ → Outbox → Result (List Entry)
fetch_batch (execute_fails n e) limit o = raise (sqlite e)
fetch_batch _ limit o = ok (map decode (take limit o.rows))

-- WHERE id = ?
abbrev pub other_than : ℕ → Row → Bool
other_than row_id r = not (r.id == row_id)

unfoldable pub without : ℕ → List Row → List Row
unfolding keep
without row_id = keep (other_than row_id)

-- cur.rowcount
abbrev pub rowcount : ℕ → List Row → ℕ
rowcount row_id rows = length rows - length (without row_id rows)

unfoldable pub delete : Fault → ℕ → Outbox → Result (Unit {0}) × Outbox
delete fine row_id o = (
  ok tt,
  record o {
    rows = without row_id o.rows;
    pending_estimate = o.pending_estimate - rowcount row_id o.rows;
  },
)
delete (execute_fails n e) row_id o = (raise (sqlite e), o)
delete (commit_fails e) row_id o = (raise (sqlite e), record o { rows = without row_id o.rows })

abbrev pub bump : ℕ → String → Row → Row
bump row_id error r =
    if r.id == row_id
    then record r { retry_count = r.retry_count + 1; last_error = some (prefix 2000 error) }
    else r

unfoldable pub mark_retry : Fault → ℕ → String → Outbox → Result (Unit {0}) × Outbox
mark_retry fine row_id error o = (ok tt, record o { rows = map (bump row_id error) o.rows })
mark_retry (execute_fails n e) row_id error o = (raise (sqlite e), o)
mark_retry (commit_fails e) row_id error o =
    (raise (sqlite e), record o { rows = map (bump row_id error) o.rows })

-- SELECT ... WHERE id = ?
unfoldable pub find_row : ℕ → List Row → Option Row
find_row row_id [] = none
find_row row_id (r ∷ rows) = if r.id == row_id then some r else find_row row_id rows

unfoldable pub dead_row : ℕ → ℕ → String → Row → DeadRow
dead_row id now error r = record {
  id = id;
  message_id = r.message_id;
  correlation_id = r.correlation_id;
  headers = r.headers;
  payload = r.payload;
  enqueued_at = r.enqueued_at;
  moved_at = now;
  retry_count = r.retry_count;
  last_error = prefix 2000 error;
}

bury : ℕ → String → Row → Outbox → Outbox
bury now error r o = record o {
  dead = o.dead ++ dead_row o.next_dead_id now error r ∷ [];
  next_dead_id = suc o.next_dead_id;
}

-- The SELECT is statement 0, the INSERT 1 and the DELETE 2.
move_row : Fault → ℕ → String → ℕ → Row → Outbox → Result Bool × Outbox
unfolding bury
move_row fine now error row_id r o = (
  ok true,
  record (bury now error r o) {
    rows = without row_id o.rows;
    pending_estimate = o.pending_estimate - rowcount row_id o.rows;
  },
)
move_row (execute_fails n e) now error row_id r o =
    (raise (sqlite e), if leb 2 n then bury now error r o else o)
move_row (commit_fails e) now error row_id r o =
    (raise (sqlite e), record (bury now error r o) { rows = without row_id o.rows })

-- if row is None: return False
unfoldable pub move_found : Fault → ℕ → String → ℕ → Option Row → Outbox → Result Bool × Outbox
unfolding move_row
move_found fault now error row_id none o = (ok false, o)
move_found fault now error row_id (some r) o = move_row fault now error row_id r o

unfoldable pub move_to_dead_letter : Fault → ℕ → ℕ → String → Outbox → Result Bool × Outbox
unfolding move_found
move_to_dead_letter (execute_fails ℕ.zero e) now row_id error o = (raise (sqlite e), o)
move_to_dead_letter fault now row_id error o =
    move_found fault now error row_id (find_row row_id o.rows) o

unfoldable pub pending_count : Outbox → ℕ
pending_count o = o.pending_estimate

unfoldable pub pending_count_exact : Outbox → ℕ
pending_count_exact o = length o.rows

unfoldable pub dead_letter_count : Outbox → ℕ
dead_letter_count o = length o.dead
