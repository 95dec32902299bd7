-- ===== src/Retrier/Drains.antt =====
-- The broker answers and nothing fails: the retrier empties the queue, oldest rows first.
use mathlib.Core.List.{append-nil, append_assoc}
use native.Mathlib.Nat.{suc-mul, zero-mul}
use horstmann_dnp3_gateway.Base.{
  ℕ, refl, ◌++◌, suc, ◌≡◌, List, [], ◌∷◌, arith, zero, take, drop, ◌+◌, ap, ◌∙◌, ◌*◌, sym, length,
  All,
}
use horstmann_dnp3_gateway.Exception.{Result, ok, raise}
use horstmann_dnp3_gateway.Outbox.{DeadRow, Row, Entry, Outbox, decode}
use horstmann_dnp3_gateway.Outbox.Invariant.{IsValid}
use horstmann_dnp3_gateway.Retrier.Turns.{Answers, items, IsCalmTurn, Left, turn-Left}
use horstmann_dnp3_gateway.Retrier.{Config, Turn, run, turn, after_turn}

module _ {ℓ κ} {S : Type ℓ} {E : Type κ} {L : Type 0}
    (publish_fn : E → Entry → S → Result (Unit {0}) × S) (Good : E → Type 0) (I : S → Type 0)
    (log : S → List L) (item : Entry → L) (d : Answers publish_fn Good I log item)
    (c : Config) where
  drop-drop : (m n k : ℕ) (rows : List Row) → k ≡ m + n → drop n (drop m rows) ≡ drop k rows
  drop-drop zero n k rows h = ap (λ x. drop x rows) (omega arith)
  drop-drop (suc m) n zero rows h = absurd (omega arith)
  drop-drop (suc m) zero (suc k) [] h = refl
  drop-drop (suc m) (suc n) (suc k) [] h = refl
  drop-drop (suc m) n (suc k) (r ∷ rows) h = drop-drop m n k rows (omega arith)

  items-take :
      (m n k : ℕ) (rows : List Row)
      → k ≡ m + n
      → items item (take m rows) ++ items item (take n (drop m rows)) ≡ items item (take k rows)
  items-take zero n k rows h = ap (λ x. items item (take x rows)) (omega arith)
  items-take (suc m) n zero rows h = absurd (omega arith)
  items-take (suc m) zero (suc k) [] h = refl
  items-take (suc m) (suc n) (suc k) [] h = refl
  items-take (suc m) n (suc k) (r ∷ rows) h =
      ap (λ (xs : List L). item (decode r) ∷ xs) (items-take m n k rows (omega arith))

  -- How a run ends, what it leaves, and what it has sent.
  unfoldable pub Ended : List Row → List DeadRow → List L → Result (Unit {0}) × S × Outbox → Type 0
  Ended rows dead out (r, s, o) =
      (r ≡ ok tt) × I s × (o.rows ≡ rows) × (o.dead ≡ dead) × (log s ≡ out)

  after_turn-Ended :
      (next : ℕ → S → Outbox → Result (Unit {0}) × S × Outbox) (n : ℕ) (rows : List Row)
      (dead : List DeadRow) (out : List L)
      → ((backoff : ℕ) (s : S) (o : Outbox)
          → I s
          → IsValid o
          → Ended (drop n o.rows) o.dead (log s ++ items item (take n o.rows)) (next backoff s o))
      → (x : Result ℕ × ℕ × S × Outbox) → Left publish_fn Good I log item d c rows dead out x
      → Ended (drop n rows) dead (out ++ items item (take n rows)) (after_turn next x)
  unfolding after_turn Left Ended
  after_turn-Ended next n rows dead out k (ok w, backoff, s, o) h =
      let (r, i, left, buried, logged) = k backoff s o h.2 h.3 in
      (
        r,
        i,
        left ∙ ap (drop n) h.4,
        buried ∙ h.5,
        logged
            ∙ ap (λ (xs : List L). xs ++ items item (take n o.rows)) h.6
            ∙ ap (λ (xs : List Row). out ++ items item (take n xs)) h.4,
      )
  after_turn-Ended next n rows dead out k (raise exc, backoff, s, o) h = cc

  -- While the broker answers and nothing fails, the thread does not end: `k` turns send the messages
  -- of the oldest `k * batch_size` rows, each of them once and in order, and leave the other rows, in
  -- order; nothing becomes a dead letter.
  pub run-drains :
      (turns : List (Turn E)) (backoff : ℕ) (s : S) (o : Outbox)
      → All (IsCalmTurn publish_fn Good I log item d c) turns
      → I s
      → IsValid o
      → let n = length turns * c.batch_size in
        Ended
          (drop n o.rows)
          o.dead
          (log s ++ items item (take n o.rows))
          (run publish_fn c turns backoff s o)
  unfolding run Ended
  run-drains [] backoff s o h i v =
      rw (zero-mul c.batch_size) (refl, i, refl, refl, sym (append-nil (log s)))
  run-drains (t ∷ turns) backoff s o h i v =
      let n = length turns * c.batch_size in
      let m = length (t ∷ turns) * c.batch_size in
      let sum : m ≡ c.batch_size + n = omega (arith, suc-mul (length turns) c.batch_size) in
      let (r, i', left, buried, logged) =
        after_turn-Ended (run publish_fn c turns) n (drop c.batch_size o.rows) o.dead
          (log s ++ items item (take c.batch_size o.rows))
          (λ b' s' o' j v'. run-drains turns b' s' o' h.1 j v') (turn publish_fn c t backoff s o)
          (turn-Left publish_fn Good I log item d c t backoff s o h.0 i v) in
      (
        r,
        i',
        left ∙ drop-drop c.batch_size n m o.rows sum,
        buried,
        logged
            ∙ append_assoc (log s) (items item (take c.batch_size o.rows))
                (items item (take n (drop c.batch_size o.rows)))
            ∙ ap (λ (xs : List L). log s ++ xs) (items-take c.batch_size n m o.rows sum),
      )
