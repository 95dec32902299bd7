-- ===== src/Delivery/Threads.antt =====
-- At least once: what `publish` has accepted is not lost, in any schedule of the two threads.
use horstmann_dnp3_gateway.Base.{
  All, String, ◌≡◌, Option, none, some, List, [], ◌∷◌, All-map, subst, sym, inl, inr,
}
use horstmann_dnp3_gateway.Base.Json.{Json}
use horstmann_dnp3_gateway.Exception.{Result, ok}
use horstmann_dnp3_gateway.Outbox.{enqueue, Message, Entry, entry_message}
use horstmann_dnp3_gateway.Outbox.Invariant.{IsValid, enqueue-IsValid}
use horstmann_dnp3_gateway.Publisher.{Publisher, Env, publish, publish_outbox_row}
use horstmann_dnp3_gateway.Publisher.Acceptance.{publish_keeps, publish_keeps}
use horstmann_dnp3_gateway.Publisher.Retries.{Sent, publish-Sent, publish_outbox_row-Delivers}
use horstmann_dnp3_gateway.Retrier.{
  Config, Attempt, Visit, sent, poison, broken, crashed, after_publish,
}
use horstmann_dnp3_gateway.Retrier.Visits.{Ends, Ends-both}
use horstmann_dnp3_gateway.Retrier.Safety.{IsSafe, settle-IsSafe, settle-IsValid}
use horstmann_dnp3_gateway.Delivery.{System, after_visit, send, settle}
use horstmann_dnp3_gateway.Delivery.Rows.{Own, enqueue-Own, settle-Own}

-- When the answer for the first row is `ok`, the broker has stored its message.
abbrev pub Told : (Json → String) → Option (Result (Unit {0})) → List Entry → Publisher → Type 0
Told str none rows p = Unit
Told str (some r) [] p = Unit
Told str (some r) (e ∷ rest) p = r ≡ ok tt → Sent str (entry_message e) p

-- The queue is in order, the retrier's batch is of its rows, and the answer is the broker's.
pub record IsSound (str : Json → String) (s : System) : Type 0 where
  pub valid : IsValid s.outbox
  pub own : All (λ (e : Entry). Own e s.outbox) s.batch
  pub told : Told str s.answer s.batch s.publisher

-- The message is on the server, a row of the queue, or a dead letter.
abbrev pub IsHeld : (Json → String) → Message → System → Type 0
IsHeld str m s = IsSafe (Sent str) m s.publisher s.outbox

module _ (str : Json → String) where
  pub Told-map :
      (answer : Option (Result (Unit {0}))) (rows : List Entry) (p q : Publisher)
      → ((m : Message) → Sent str m p → Sent str m q)
      → Told str answer rows p
      → Told str answer rows q
  Told-map none rows p q f t = tt
  Told-map (some r) [] p q f t = tt
  Told-map (some r) (e ∷ rest) p q f t = λ h. f (entry_message e) (t h)

  after_visit-IsSound :
      (v : Visit Publisher) (rest : List Entry) (s : System)
      → Ends (λ _ o. IsValid o × All (λ (e : Entry). Own e o) rest) v
      → IsSound str (after_visit v rest s)
  unfolding after_visit
  after_visit-IsSound (sent p o) rest s h = record { valid = h.0; own = h.1; told = tt }
  after_visit-IsSound (poison p o) rest s h = record { valid = h.0; own = h.1; told = tt }
  after_visit-IsSound (broken b p o) rest s h = record { valid = h.0; own = tt; told = tt }
  after_visit-IsSound (crashed exc p o) rest s h = record { valid = h.0; own = tt; told = tt }

  after_visit-IsHeld :
      (v : Visit Publisher) (rest : List Entry) (s : System) (m : Message)
      → Ends (IsSafe (Sent str) m) v
      → IsHeld str m (after_visit v rest s)
  unfolding after_visit
  after_visit-IsHeld (sent p o) rest s m h = h
  after_visit-IsHeld (poison p o) rest s m h = h
  after_visit-IsHeld (broken b p o) rest s m h = h
  after_visit-IsHeld (crashed exc p o) rest s m h = h

  pub publish-IsSound :
      (env : Env) (m : Message) (s : System)
      → IsSound str s
      → let (r, p, o) = publish str env m s.publisher s.outbox in
        IsSound str (record s { publisher = p; outbox = o })
  publish-IsSound env m s h = record {
    valid =
        publish_keeps IsValid (λ f now n x o. enqueue-IsValid f now n x o) str env m s.publisher
          s.outbox h.valid;
    own =
        publish_keeps (λ o. All (λ (e : Entry). Own e o) s.batch)
          (λ f now n x o.
            All-map (λ e. Own e o) (λ e. Own e (enqueue f now n x o).1) s.batch
              (λ e. enqueue-Own f now n x e o))
          str env m s.publisher s.outbox h.own;
    told =
        Told-map s.answer s.batch s.publisher (publish str env m s.publisher s.outbox).1
          (λ n. publish-Sent str env m n s.publisher s.outbox) h.told;
  }

  module _ (c : Config) where
    pub settle-IsSound :
        (a : Attempt Env) (rows : List Entry) (answer : Option (Result (Unit {0}))) (s : System)
        → s.batch ≡ rows
        → IsSound str s
        → IsSound str (settle str c a rows answer s)
    unfolding settle
    settle-IsSound a [] answer s q h = h
    settle-IsSound a (e ∷ rest) none s q h = h
    settle-IsSound a (e ∷ rest) (some r) s q h =
        after_visit-IsSound (after_publish (publish_outbox_row str) c a e s.outbox r s.publisher)
          rest s
          (Ends-both {P = λ _ o. IsValid o} {Q = λ _ o. All (λ (i : Entry). Own i o) rest}
            {R = λ _ o. IsValid o × All (λ (i : Entry). Own i o) rest} (λ p o x y. (x, y)) _
            (settle-IsValid (publish_outbox_row str) (Sent str) c a e r s.publisher s.outbox
              h.valid)
            (settle-Own (publish_outbox_row str) (Sent str) c a e r s.publisher s.outbox rest
              (owned h.own).1))
      where
        owned :
            All (λ (i : Entry). Own i s.outbox) s.batch
            → All (λ (i : Entry). Own i s.outbox) (e ∷ rest)
        owned = subst (All (λ (i : Entry). Own i s.outbox)) q

    pub settle-IsHeld :
        (a : Attempt Env) (rows : List Entry) (answer : Option (Result (Unit {0}))) (s : System)
        (m : Message)
        → s.batch ≡ rows
        → s.answer ≡ answer
        → IsSound str s
        → IsHeld str m s
        → IsHeld str m (settle str c a rows answer s)
    unfolding settle
    settle-IsHeld a [] answer s m q q' h k = k
    settle-IsHeld a (e ∷ rest) none s m q q' h k = k
    settle-IsHeld a (e ∷ rest) (some r) s m q q' h k =
        after_visit-IsHeld (after_publish (publish_outbox_row str) c a e s.outbox r s.publisher)
          rest s m
          (settle-IsSafe (publish_outbox_row str) (Sent str) c a e r s.publisher s.outbox m
            (subst (All (λ (i : Entry). Own i s.outbox)) q h.own).0.0 (told q q' h.told) k)
      where
        told :
            s.batch ≡ e ∷ rest
            → s.answer ≡ some r
            → Told str s.answer s.batch s.publisher
            → Told str (some r) (e ∷ rest) s.publisher
        told b w t =
            subst (λ x. Told str (some r) x s.publisher) b
              (subst (λ x. Told str x s.batch s.publisher) w t)

    pub send-IsSound :
        (env : Env) (rows : List Entry) (answer : Option (Result (Unit {0}))) (s : System)
        → s.batch ≡ rows
        → IsSound str s
        → IsSound str (send str c env rows answer s)
    unfolding send
    send-IsSound env [] answer s q h = h
    send-IsSound env (e ∷ rest) (some r) s q h = h
    send-IsSound env (e ∷ rest) none s q h = record {
      valid = h.valid;
      own = h.own;
      told =
          subst
            (λ x.
              Told str (some (publish_outbox_row str env e s.publisher).0) x
                (publish_outbox_row str env e s.publisher).1)
            (sym q) ((publish_outbox_row-Delivers str).returns env e s.publisher);
    }

    pub send-IsHeld :
        (env : Env) (rows : List Entry) (answer : Option (Result (Unit {0}))) (s : System)
        (m : Message)
        → IsHeld str m s
        → IsHeld str m (send str c env rows answer s)
    unfolding send
    send-IsHeld env [] answer s m k = k
    send-IsHeld env (e ∷ rest) (some r) s m k = k
    send-IsHeld env (e ∷ rest) none s m (inl k) =
        inl ((publish_outbox_row-Delivers str).stays env e s.publisher m k)
    send-IsHeld env (e ∷ rest) none s m (inr k) = inr k
