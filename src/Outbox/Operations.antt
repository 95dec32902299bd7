-- ===== src/Outbox/Operations.antt =====
-- The methods of Outbox that change its tables, as one type of operations, and runs of them.
use horstmann_dnp3_gateway.Base.{ℕ, String, Option, List, [], ◌∷◌, nat_eq, text_eq, pair_eq}
use horstmann_dnp3_gateway.Outbox.{
  Outbox, Message, Fault, fine, execute_fails, commit_fails, enqueue, delete, mark_retry,
  move_to_dead_letter,
}

pub data Op : Type 0 where
  enqueues : Message → Option String → Op
  deletes : ℕ → Op
  marks : ℕ → String → Op
  moves : ℕ → String → Op

pub record Call : Type 0 where
  pub fault : Fault
  pub now : ℕ
  pub op : Op

unfoldable pub perform : Fault → ℕ → Op → Outbox → Outbox
perform fault now (enqueues m error) o = (enqueue fault now m error o).1
perform fault now (deletes row_id) o = (delete fault row_id o).1
perform fault now (marks row_id error) o = (mark_retry fault row_id error o).1
perform fault now (moves row_id error) o = (move_to_dead_letter fault now row_id error o).1

unfoldable pub perform_all : List Call → Outbox → Outbox
perform_all [] o = o
perform_all (c ∷ calls) o = perform_all calls (perform c.fault c.now c.op o)

-- No COMMIT of the run fails.
abbrev pub Commits : Fault → Type 0
Commits fine = Unit
Commits (execute_fails n e) = Unit
Commits (commit_fails e) = ⊥
