-- ===== src/Outbox/Abstract.antt =====
-- The queue as its users see it: messages by id, in order, with the number of their retries.

use horstmann_dnp3_gateway.Base.{
  ℕ, suc, ◌+◌, Bool, Option, none, some, List, [], ◌∷◌, ◌++◌, map, not, ◌==◌, nat_eq, text_eq,
  pair_eq, leb, if◌then◌else◌, length, keep,
}
use horstmann_dnp3_gateway.Base.Json.{Fields, end, field}
use horstmann_dnp3_gateway.Outbox.{Message, Fault, fine, execute_fails, commit_fails}
use horstmann_dnp3_gateway.Outbox.Operations.{Op, Call, enqueues, deletes, marks, moves}

pub record Item : Type 0 where
  pub id : ℕ
  pub message : Message
  pub retries : ℕ

pub record Buried : Type 0 where
  pub message : Message
  pub retries : ℕ

pub record Queue : Type 0 where
  pub waiting : List Item
  pub buried : List Buried
  pub next_id : ℕ
  pub limit : ℕ

-- No dictionary of headers is kept for an empty one.
unfoldable pub kept_headers : Option Fields → Option Fields
kept_headers none = none
kept_headers (some end) = none
kept_headers (some (field k v rest)) = some (field k v rest)

abbrev pub kept : Message → Message
kept m = record m { headers = kept_headers m.headers }

abbrev pub other_item : ℕ → Item → Bool
other_item id i = not (i.id == id)

abbrev pub again : ℕ → Item → Item
again id i = if i.id == id then record i { retries = i.retries + 1 } else i

unfoldable pub find_item : ℕ → List Item → Option Item
find_item id [] = none
find_item id (i ∷ items) = if i.id == id then some i else find_item id items

abbrev pub bury_item : Item → Queue → Queue
bury_item i q = record q {
  buried = q.buried ++ record { message = i.message; retries = i.retries } ∷ [];
}

unfoldable pub move_item : ℕ → Option Item → Queue → Queue
move_item id none q = q
move_item id (some i) q = record (bury_item i q) { waiting = keep (other_item id) q.waiting }

-- The row was copied, but stays.
unfoldable pub copy_item : Option Item → Queue → Queue
copy_item none q = q
copy_item (some i) q = bury_item i q

-- What an operation means when nothing fails.
unfoldable pub act : Op → Queue → Queue
unfolding move_item
act (enqueues m error) q = if leb q.limit (length q.waiting) then q else record q {
  waiting = q.waiting ++ record { id = q.next_id; message = kept m; retries = 0 } ∷ [];
  next_id = suc q.next_id;
}
act (deletes id) q = record q { waiting = keep (other_item id) q.waiting }
act (marks id error) q = record q { waiting = map (again id) q.waiting }
act (moves id error) q = move_item id (find_item id q.waiting) q

-- What it means when its n-th statement fails: nothing, but for a move whose DELETE fails after its
-- INSERT.
unfoldable pub fail : ℕ → Op → Queue → Queue
unfolding copy_item
fail n (moves id error) q = if leb 2 n then copy_item (find_item id q.waiting) q else q
fail n (enqueues m error) q = q
fail n (deletes id) q = q
fail n (marks id error) q = q

unfoldable pub act_on : Fault → Op → Queue → Queue
unfolding act fail
act_on fine op q = act op q
act_on (execute_fails n e) op q = fail n op q
act_on (commit_fails e) op q = q

unfoldable pub act_on_all : List Call → Queue → Queue
act_on_all [] q = q
act_on_all (c ∷ calls) q = act_on_all calls (act_on c.fault c.op q)
