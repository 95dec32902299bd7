-- ===== src/Retrier/Poison.antt =====
-- A message that the broker refuses each time: its retries are counted, and it becomes a dead letter.
use horstmann_dnp3_gateway.Exception.{Exc, Result, ok, raise, message}
use horstmann_dnp3_gateway.Base.{
  ℕ, refl, suc, ◌+◌, ◌<◌, String, ◌≡◌, ap, ◌∙◌, some, List, [], ◌∷◌, ◌++◌, map, arith, ==_self,
  prefix, subst, zero, ◌≤◌, false, Bool, true, leb, sym,
}
use horstmann_dnp3_gateway.Outbox.{
  Row, DeadRow, Entry, Outbox, fine, decode, mark_retry, move_to_dead_letter, without, bump,
  find_row, dead_row, move_found,
}
use horstmann_dnp3_gateway.Outbox.Invariant.{IsValid, Rising, mark_retry-IsValid}
use horstmann_dnp3_gateway.Outbox.Messages.{row_message, dead_message}
use horstmann_dnp3_gateway.Retrier.{
  Config, Attempt, is_not_ready, after_publish, Visit, broken, poison, after_move, after_mark,
}
use horstmann_dnp3_gateway.Retrier.Turns.{without_first}

-- The queue after a visit, however it ended.
abbrev pub outbox_after {ℓ} : {S : Type ℓ} → Visit S → Outbox
outbox_after (Visit.sent s o) = o
outbox_after (poison s o) = o
outbox_after (broken b s o) = o
outbox_after (Visit.crashed exc s o) = o

le→leb : {m n : ℕ} → m ≤ n → leb m n ≡ true
le→leb h = ground arith

lt→leb_false : {m n : ℕ} → n < m → leb m n ≡ false
lt→leb_false h = ground arith

outbox-after_move {ℓ} :
    {S : Type ℓ} (s : S) (r : Result Bool × Outbox) → outbox_after (after_move s r) ≡ r.1
unfolding after_move
outbox-after_move s (ok b, o) = refl
outbox-after_move s (raise exc, o) = refl

outbox-after_mark {ℓ} :
    {S : Type ℓ} (s : S) (r : Result (Unit {0}) × Outbox) → outbox_after (after_mark s r) ≡ r.1
unfolding after_mark
outbox-after_mark s (ok u, o) = refl
outbox-after_mark s (raise exc, o) = refl

bump_above :
    (id lo hi : ℕ) (error : String) (rows : List Row)
    → id < lo
    → Rising lo hi rows
    → map (bump id error) rows ≡ rows
bump_above id lo hi error [] lt h = refl
bump_above id lo hi error (r ∷ rows) lt h = ground (arith, bump_above id (suc r.id) hi error rows)

module _ (error : String) (now : ℕ) (r : Row) (rest : List Row) (o : Outbox) (v : IsValid o)
    (q : o.rows ≡ r ∷ rest) where
  ordered : Rising 0 o.next_id (r ∷ rest)
  ordered = subst (Rising 0 o.next_id) q v

  rows-mark_retry :
      (mark_retry fine r.id error o).1.rows
      ≡ record r { retry_count = r.retry_count + 1; last_error = some (prefix 2000 error) } ∷ rest
  unfolding mark_retry
  rows-mark_retry =
      ap (map (bump r.id error)) q
      ∙ rw (==_self r.id, bump_above r.id (suc r.id) o.next_id error rest (omega arith) ordered.1)
          refl

  find_first : find_row r.id o.rows ≡ some r
  unfolding find_row
  find_first = ap (find_row r.id) q ∙ rw (==_self r.id) refl

  moved :
      ((move_to_dead_letter fine now r.id error o).1.rows ≡ rest)
      × ((move_to_dead_letter fine now r.id error o).1.dead
          ≡ o.dead ++ dead_row o.next_dead_id now error r ∷ [])
  unfolding move_to_dead_letter move_found
  moved = rw find_first (ap (without r.id) q ∙ without_first 0 o.next_id r rest ordered, refl)

module _ {ℓ κ} {S : Type ℓ} {E : Type κ} (publish_fn : E → Entry → S → Result (Unit {0}) × S)
    (c : Config) (a : Attempt E) (exc : Exc) (s : S) where
  -- A visit of the oldest row whose publish raises `exc`.
  refuse_first : List Row → Outbox → Outbox
  refuse_first [] o = o
  refuse_first (r ∷ rest) o = outbox_after (after_publish publish_fn c a (decode r) o (raise exc) s)

  -- `n` such visits.
  unfoldable pub refusals : ℕ → Outbox → Outbox
  unfolding refuse_first
  refusals zero o = o
  refusals (suc n) o = refusals n (refuse_first o.rows o)

  -- What becomes of the first row.
  unfoldable pub Buried : Row → List Row → Outbox → Outbox → Type 0
  Buried r rest o o' =
      (o'.rows ≡ rest)
      × ((d : DeadRow) × (o'.dead ≡ o.dead ++ d ∷ [])
          × (d.retry_count + 1 ≡ c.max_retries)
          × (dead_message d ≡ row_message r))

  module _ (ready : is_not_ready exc ≡ false) (no_fault : a.fault ≡ fine) where
    refuse_last :
        (r : Row) (o : Outbox)
        → c.max_retries ≤ r.retry_count + 1
        → outbox_after (after_publish publish_fn c a (decode r) o (raise exc) s)
          ≡ (move_to_dead_letter fine a.now r.id (message exc) o).1
    unfolding after_publish decode
    refuse_last r o h = rw ready (
        rw (le→leb h) (
          outbox-after_move s (move_to_dead_letter a.fault a.now r.id (message exc) o)
          ∙ ap (λ f. (move_to_dead_letter f a.now r.id (message exc) o).1) no_fault))

    refuse_again :
        (r : Row) (o : Outbox)
        → r.retry_count + 1 < c.max_retries
        → outbox_after (after_publish publish_fn c a (decode r) o (raise exc) s)
          ≡ (mark_retry fine r.id (message exc) o).1
    unfolding after_publish decode
    refuse_again r o h = rw ready (
        rw (lt→leb_false h) (
          outbox-after_mark s (mark_retry a.fault r.id (message exc) o)
          ∙ ap (λ f. (mark_retry f r.id (message exc) o).1) no_fault))

    -- A message that the broker refuses (with an exception that is no lost connection) becomes a dead
    -- letter at the refusal that uses up its retries, not before and with its content; the dead
    -- letter's count is one below max_retries. The rows behind it stay.
    pub refusals-bury :
        (n : ℕ) (r : Row) (rest : List Row) (o : Outbox)
        → IsValid o
        → o.rows ≡ r ∷ rest
        → r.retry_count + suc n ≡ c.max_retries
        → Buried r rest o (refusals (suc n) o)
    unfolding refusals Buried mark_retry dead_row
    refusals-bury zero r rest o v q h =
        subst (Buried r rest o)
          (sym (ap (λ rows. refuse_first rows o) q ∙ refuse_last r o (omega arith)))
          (
            (moved (message exc) a.now r rest o v q).0,
            (
              dead_row o.next_dead_id a.now (message exc) r,
              (moved (message exc) a.now r rest o v q).1,
              omega arith,
              refl,
            ),
          )
    refusals-bury (suc n) r rest o v q h =
        subst (λ x. Buried r rest o (refusals (suc n) x))
          (sym (ap (λ rows. refuse_first rows o) q ∙ refuse_again r o (omega arith)))
          (refusals-bury n
            (record r {
              retry_count = r.retry_count + 1;
              last_error = some (prefix 2000 (message exc));
            })
            rest (mark_retry fine r.id (message exc) o).1
            (mark_retry-IsValid fine r.id (message exc) o v)
            (rows-mark_retry (message exc) a.now r rest o v q) (omega arith))
