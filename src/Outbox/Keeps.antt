-- ===== src/Outbox/Keeps.antt =====
-- What each method of the queue does to a message that the tables hold: it stays, or it is the
-- message of the row that is deleted.
use horstmann_dnp3_gateway.Base.{
  ◌∙◌, Any-append_right, Any-append_left, [], ◌∷◌, ◌++◌, zero, refl, leb, Bool-cases, Any, some,
  suc, Option, String, ℕ, ◌≡◌, ◌⊎◌, inl, inr, nat_eq, text_eq, pair_eq, none,
}
use horstmann_dnp3_gateway.Outbox.{
  DeadRow, without, find_row, Row, move_found, move_to_dead_letter, mark_retry, dead_row, Outbox,
  entry_message, Message, Entry, Fault, fine, execute_fails, commit_fails, delete,
}
use horstmann_dnp3_gateway.Outbox.Messages.{
  dead_message, find_row-Carries, Waits, row_message, Waits-bump, Carries-bump, Carries-without,
  IsPending, IsDead, Carries, Waits-without,
}

-- A message is in the queue or among the dead letters.
abbrev pub IsKept : Message → Outbox → Type 0
IsKept m o = IsPending m o ⊎ IsDead m o

-- Each entry's id carries its message.
abbrev pub Matches : Entry → Outbox → Type 0
Matches e o = Carries e.id (entry_message e) o.rows

pub delete-IsKept :
    (fault : Fault) (m : Message) (e : Entry) (o : Outbox)
    → Matches e o
    → IsKept m o
    → (entry_message e ≡ m) ⊎ IsKept m (delete fault e.id o).1
unfolding delete
delete-IsKept fault m e o c (inr d) = inr (inr (dead-same fault))
  where
    dead-same : (f : Fault) → IsDead m (delete f e.id o).1
    dead-same fine = d
    dead-same (execute_fails n t) = d
    dead-same (commit_fails t) = d
delete-IsKept fine m e o c (inl p) = elim (Waits-without e.id m (entry_message e) o.rows c p) [
  | inl q ↦ inl q
  | inr w ↦ inr (inl w)
]
delete-IsKept (execute_fails n t) m e o c (inl p) = inr (inl p)
delete-IsKept (commit_fails t) m e o c (inl p) =
    elim (Waits-without e.id m (entry_message e) o.rows c p) [ inl q ↦ inl q | inr w ↦ inr (inl w) ]

dead_row-message :
    (id now : ℕ) (error : String) (r : Row) (m : Message)
    → row_message r ≡ m
    → dead_message (dead_row id now error r) ≡ m
unfolding dead_row
dead_row-message id now error r m h = h

module _ (now : ℕ) (error : String) (m : Message) (e : Entry) (o : Outbox) (c : Matches e o) where
  buried :
      (r : Row)
      → row_message r ≡ entry_message e
      → IsKept m o
      → Waits m (without e.id o.rows)
        ⊎ Any
            (λ (d : DeadRow). dead_message d ≡ m)
            (o.dead ++ dead_row o.next_dead_id now error r ∷ [])
  buried r q (inr d) = inr (Any-append_left _ o.dead _ d)
  buried r q (inl p) = elim (Waits-without e.id m (entry_message e) o.rows c p) [
    | inl g ↦
        inr (
          Any-append_right _ o.dead _ (inl (dead_row-message o.next_dead_id now error r m (q ∙ g))))
    | inr w ↦ inl w
  ]

  kept_or_dead :
      (r : Row)
      → IsKept m o
      → Waits m o.rows
        ⊎ Any
            (λ (d : DeadRow). dead_message d ≡ m)
            (o.dead ++ dead_row o.next_dead_id now error r ∷ [])
  kept_or_dead r (inr d) = inr (Any-append_left _ o.dead _ d)
  kept_or_dead r (inl p) = inl p

  move_found-IsKept :
      (fault : Fault) (found : Option Row)
      → find_row e.id o.rows ≡ found
      → IsKept m o
      → IsKept m (move_found fault now error e.id found o).1
  unfolding move_found
  move_found-IsKept fault none q k = k
  move_found-IsKept fine (some r) q k =
      buried r (find_row-Carries e.id (entry_message e) o.rows r c q) k
  move_found-IsKept (execute_fails n t) (some r) q k = elim (Bool-cases (leb 2 n)) [
    | inl b ↦ rw b (kept_or_dead r k)
    | inr b ↦ rw b k
  ]
  move_found-IsKept (commit_fails t) (some r) q k =
      buried r (find_row-Carries e.id (entry_message e) o.rows r c q) k

  pub move-IsKept :
      (fault : Fault) → IsKept m o → IsKept m (move_to_dead_letter fault now e.id error o).1
  unfolding move_to_dead_letter
  move-IsKept (execute_fails zero t) k = k
  move-IsKept (execute_fails (suc n) t) k = move_found-IsKept (execute_fails (suc n) t) _ refl k
  move-IsKept fine k = move_found-IsKept fine _ refl k
  move-IsKept (commit_fails t) k = move_found-IsKept (commit_fails t) _ refl k

pub mark-IsKept :
    (fault : Fault) (id : ℕ) (error : String) (m : Message) (o : Outbox)
    → IsKept m o
    → IsKept m (mark_retry fault id error o).1
unfolding mark_retry
mark-IsKept fine id error m o (inl p) = inl (Waits-bump id error m o.rows p)
mark-IsKept (execute_fails n t) id error m o (inl p) = inl p
mark-IsKept (commit_fails t) id error m o (inl p) = inl (Waits-bump id error m o.rows p)
mark-IsKept fine id error m o (inr d) = inr d
mark-IsKept (execute_fails n t) id error m o (inr d) = inr d
mark-IsKept (commit_fails t) id error m o (inr d) = inr d

module _ (id j : ℕ) (n : Message) (o : Outbox) (c : Carries j n o.rows) where
  pub delete-Carries : (fault : Fault) → Carries j n (delete fault id o).1.rows
  unfolding delete
  delete-Carries fine = Carries-without id j n o.rows c
  delete-Carries (execute_fails k t) = c
  delete-Carries (commit_fails t) = Carries-without id j n o.rows c

  pub mark-Carries :
      (fault : Fault) (error : String) → Carries j n (mark_retry fault id error o).1.rows
  unfolding mark_retry
  mark-Carries fine error = Carries-bump id j error n o.rows c
  mark-Carries (execute_fails k t) error = c
  mark-Carries (commit_fails t) error = Carries-bump id j error n o.rows c

  move_found-Carries :
      (fault : Fault) (now : ℕ) (error : String) (found : Option Row)
      → Carries j n (move_found fault now error id found o).1.rows
  unfolding move_found
  move_found-Carries fault now error none = c
  move_found-Carries fine now error (some r) = Carries-without id j n o.rows c
  move_found-Carries (execute_fails k t) now error (some r) = elim (Bool-cases (leb 2 k)) [
    | inl b ↦ rw b c
    | inr b ↦ rw b c
  ]
  move_found-Carries (commit_fails t) now error (some r) = Carries-without id j n o.rows c

  pub move-Carries :
      (fault : Fault) (now : ℕ) (error : String)
      → Carries j n (move_to_dead_letter fault now id error o).1.rows
  unfolding move_to_dead_letter
  move-Carries (execute_fails zero t) now error = c
  move-Carries (execute_fails (suc k) t) now error =
      move_found-Carries (execute_fails (suc k) t) now error (find_row id o.rows)
  move-Carries fine now error = move_found-Carries fine now error (find_row id o.rows)
  move-Carries (commit_fails t) now error =
      move_found-Carries (commit_fails t) now error (find_row id o.rows)
