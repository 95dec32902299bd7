-- ===== src/Delivery/AtLeastOnce.antt =====
-- At least once, over every schedule of the two threads.
use horstmann_dnp3_gateway.Base.{refl, String, ◌≡◌, inl, inr, List, [], ◌∷◌, Bool-cases}
use horstmann_dnp3_gateway.Base.Json.{Json}
use horstmann_dnp3_gateway.Exception.{Result, ok, raise}
use horstmann_dnp3_gateway.Outbox.{Message, Entry, Fault, fetch_batch}
use horstmann_dnp3_gateway.Outbox.Keeps.{IsKept}
use horstmann_dnp3_gateway.JetStream.{Event, JetStream}
use horstmann_dnp3_gateway.JetStream
use horstmann_dnp3_gateway.JetStream.Storage.{Stored, event-Stored}
use horstmann_dnp3_gateway.Publisher.{Env, publish}
use horstmann_dnp3_gateway.Publisher.Acceptance.{
  publish-accepts, publish_keeps, normal, wire-normal, enqueue-IsKept,
}
use horstmann_dnp3_gateway.Publisher.Retries.{publish-Sent}
use horstmann_dnp3_gateway.Retrier.{Config}
use horstmann_dnp3_gateway.Delivery.{
  System, Step, publishes, fetches, sends, settles, stops, happens, step, steps, after_fetch,
}
use horstmann_dnp3_gateway.Delivery.Rows.{fetch_batch-Own}
use horstmann_dnp3_gateway.Delivery.Threads.{
  IsSound, IsHeld, Told-map, publish-IsSound, settle-IsSound, settle-IsHeld, send-IsSound,
  send-IsHeld,
}

module _ (str : Json → String) (c : Config) where
  fetch-IsSound :
      (fault : Fault) (s : System) → IsSound str s → IsSound str (step str c (fetches fault) s)
  unfolding step
  fetch-IsSound fault s h = elim (Bool-cases s.alive) [
    | inl q ↦ rw (q, step) (fetched (fetch_batch fault c.batch_size s.outbox) refl)
    | inr q ↦ rw (q, step) h
  ]
    where
      fetched :
          (r : Result (List Entry))
          → fetch_batch fault c.batch_size s.outbox ≡ r
          → IsSound str (after_fetch r s)
      fetched (ok rows) q = record {
        valid = h.valid;
        own = fetch_batch-Own fault c.batch_size s.outbox h.valid rows q;
        told = tt;
      }
      fetched (raise exc) q = record { valid = h.valid; own = tt; told = tt }

  fetch-IsHeld :
      (fault : Fault) (s : System) (m : Message)
      → IsHeld str m s
      → IsHeld str m (step str c (fetches fault) s)
  unfolding step
  fetch-IsHeld fault s m k = elim (Bool-cases s.alive) [
    | inl q ↦ rw (q, step) (fetched (fetch_batch fault c.batch_size s.outbox))
    | inr q ↦ rw (q, step) k
  ]
    where
      fetched : (r : Result (List Entry)) → IsHeld str m (after_fetch r s)
      fetched (ok rows) = k
      fetched (raise exc) = k

  step-IsSound : (a : Step) (s : System) → IsSound str s → IsSound str (step str c a s)
  unfolding step
  step-IsSound (publishes env m) s h = publish-IsSound str env m s h
  step-IsSound (fetches fault) s h = fetch-IsSound fault s h
  step-IsSound (sends env) s h = send-IsSound str c env s.batch s.answer s refl h
  step-IsSound (settles a) s h = settle-IsSound str c a s.batch s.answer s refl h
  step-IsSound stops s h = record { valid = h.valid; own = tt; told = tt }
  step-IsSound (happens ev) s h = record {
    valid = h.valid;
    own = h.own;
    told =
        Told-map str s.answer s.batch s.publisher
          (record s.publisher { broker = JetStream.event ev s.publisher.broker })
          (λ m. event-Stored str ev m s.publisher.broker) h.told;
  }

  step-IsHeld :
      (a : Step) (s : System) (m : Message)
      → IsSound str s
      → IsHeld str m s
      → IsHeld str m (step str c a s)
  unfolding step
  step-IsHeld (publishes env n) s m h (inl k) =
      inl (publish-Sent str env n m s.publisher s.outbox k)
  step-IsHeld (publishes env n) s m h (inr k) = inr (
      publish_keeps (IsKept m) (λ f now x y o. enqueue-IsKept f now x m y o) str env n s.publisher
        s.outbox k)
  step-IsHeld (fetches fault) s m h k = fetch-IsHeld fault s m k
  step-IsHeld (sends env) s m h k = send-IsHeld str c env s.batch s.answer s m k
  step-IsHeld (settles a) s m h k = settle-IsHeld str c a s.batch s.answer s m refl refl h k
  step-IsHeld stops s m h k = k
  step-IsHeld (happens ev) s m h (inl k) = inl (event-Stored str ev m s.publisher.broker k)
  step-IsHeld (happens ev) s m h (inr k) = inr k

  -- The queue stays in order, the retrier's batch of its rows, and the answer the broker's.
  pub steps-IsSound :
      (schedule : List Step) (s : System) → IsSound str s → IsSound str (steps str c schedule s)
  unfolding steps
  steps-IsSound [] s h = h
  steps-IsSound (a ∷ schedule) s h = steps-IsSound schedule (step str c a s) (step-IsSound a s h)

  -- What is on the server, in the queue or a dead letter stays in one of the three.
  pub steps-IsHeld :
      (schedule : List Step) (s : System) (m : Message)
      → IsSound str s
      → IsHeld str m s
      → IsHeld str m (steps str c schedule s)
  unfolding steps
  steps-IsHeld [] s m h k = k
  steps-IsHeld (a ∷ schedule) s m h k =
      steps-IsHeld schedule (step str c a s) m (step-IsSound a s h) (step-IsHeld a s m h k)

  Stored-normal : (m : Message) (j : JetStream) → Stored str m j → Stored str (normal m) j
  Stored-normal m j h = rw (wire-normal str j.subject m) h

  publish-IsHeld :
      (env : Env) (m : Message) (s : System)
      → (publish str env m s.publisher s.outbox).0 ≡ ok tt
      → IsHeld str (normal m) (step str c (publishes env m) s)
  unfolding step
  publish-IsHeld env m s q = elim (publish-accepts str env m s.publisher s.outbox q) [
    | inl k ↦ inl (Stored-normal m (publish str env m s.publisher s.outbox).1.broker k)
    | inr k ↦ inr (inl k)
  ]

  -- At least once: when `publish` returns without an exception, the message is on the server, a row
  -- of the queue or a dead letter after every schedule of the two threads, whatever the broker
  -- answers and whatever faults the database has; also when an exception ends the retrier's thread.
  pub at_least_once :
      (before after : List Step) (env : Env) (m : Message) (s : System)
      → IsSound str s
      → let s' = steps str c before s in
        (publish str env m s'.publisher s'.outbox).0 ≡ ok tt
        → IsHeld str (normal m) (steps str c after (step str c (publishes env m) s'))
  at_least_once before after env m s h q =
      let s' = steps str c before s in
      let h' = steps-IsSound before s h in
      steps-IsHeld after (step str c (publishes env m) s') (normal m)
        (step-IsSound (publishes env m) s' h') (publish-IsHeld env m s' q)
