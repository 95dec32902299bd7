-- ===== src/Poller/Parallel.antt =====
-- The end of a cycle on the path of the thread pool (src/dnp3_gateway/poller.py): what the main
-- thread does with each device's future. How a future ends is an argument; what its `poll_device` does
-- to the publisher goes on in the pool.
use horstmann_dnp3_gateway.Base.{
  subst, ℕ, ◌+◌, ◌≡◌, refl, ◌∙◌, inl, inr, Bool, true, false, List, [], ◌∷◌, map, keep, All,
  All-map,
}
use horstmann_dnp3_gateway.Config.{DeviceConfig}
use horstmann_dnp3_gateway.State.{GatewayState, mark_read, is_due, due_devices}
use horstmann_dnp3_gateway.State.Due.{mark_read-not_due}
use horstmann_dnp3_gateway.Poller.Reads.{IsRead-none_due, mark_read-devices}

-- The future was cancelled at the device's timeout; it is done, with a count, with OutboxFullError or
-- with another exception; or it was pending when the cycle's time was up or the stop event was set.
pub data Ending : Type 0 where
  timed_out : Ending
  returned : ℕ → Ending
  out_of_space : Ending
  failed : Ending
  pending : Ending

is_timed_out : DeviceConfig × Ending → Bool
is_timed_out (d, timed_out) = true
is_timed_out (d, e) = false

is_pending : DeviceConfig × Ending → Bool
is_pending (d, pending) = true
is_pending (d, e) = false

is_done : DeviceConfig × Ending → Bool
is_done (d, timed_out) = false
is_done (d, pending) = false
is_done (d, e) = true

-- count
count_of : Ending → ℕ
count_of (returned n) = n
count_of e = 0

mark_all : ℕ → List (DeviceConfig × Ending) → GatewayState → GatewayState
mark_all now [] s = s
mark_all now ((d, e) ∷ futures) s = mark_all now futures (mark_read d.code now s)

total_of : List (DeviceConfig × Ending) → ℕ
unfolding count_of
total_of [] = 0
total_of ((d, e) ∷ futures) = count_of e + total_of futures

-- The loop of wait() marks what has timed out; then the done futures are marked and counted, and then
-- what was pending is marked.
unfoldable pub finish_parallel : ℕ → List (DeviceConfig × Ending) → GatewayState → ℕ × GatewayState
unfolding mark_all total_of is_timed_out is_pending is_done
finish_parallel now futures s = (
  total_of (keep is_done futures),
  mark_all now (keep is_pending futures)
      (mark_all now (keep is_done futures) (mark_all now (keep is_timed_out futures) s)),
)

-- The future's device is not due.
NotDue : ℕ → GatewayState → DeviceConfig × Ending → Type 0
NotDue now s f = is_due now s f.0 ≡ false

-- What marks keep: the configuration, and what is not due; and a marked device is not due.
record Marked (now : ℕ) (futures : List (DeviceConfig × Ending)) (s s' : GatewayState)
    : Type 0 where
  read : All (NotDue now s') futures
  rest : (d : DeviceConfig) → is_due now s d ≡ false → is_due now s' d ≡ false
  devices : s'.devices ≡ s.devices

mark_all-Marked :
    (now : ℕ) (futures : List (DeviceConfig × Ending)) (s : GatewayState)
    → Marked now futures s (mark_all now futures s)
unfolding mark_all NotDue
mark_all-Marked now [] s = record { read = tt; rest = λ d q. q; devices = refl }
mark_all-Marked now ((d, e) ∷ futures) s =
    let h = mark_all-Marked now futures (mark_read d.code now s) in
    record {
      read = (h.rest d (mark_read-not_due d.code now s d (inl refl)), h.read);
      rest = λ c q. h.rest c (mark_read-not_due d.code now s c (inr q));
      devices = h.devices ∙ mark_read-devices d.code now s;
    }

-- Every future is of one of the three kinds.
gather :
    (P : DeviceConfig × Ending → Type 0) (futures : List (DeviceConfig × Ending))
    → All P (keep is_timed_out futures)
    → All P (keep is_done futures)
    → All P (keep is_pending futures)
    → All P futures
unfolding keep is_timed_out is_pending is_done
gather P [] t d p = tt
gather P ((x, timed_out) ∷ futures) t d p = (t.0, gather P futures t.1 d p)
gather P ((x, returned n) ∷ futures) t d p = (d.0, gather P futures t d.1 p)
gather P ((x, out_of_space) ∷ futures) t d p = (d.0, gather P futures t d.1 p)
gather P ((x, failed) ∷ futures) t d p = (d.0, gather P futures t d.1 p)
gather P ((x, pending) ∷ futures) t d p = (p.0, gather P futures t d p.1)

All-first :
    (now : ℕ) (s : GatewayState) (futures : List (DeviceConfig × Ending))
    → All (NotDue now s) futures
    → All (λ (d : DeviceConfig). is_due now s d ≡ false) (map (λ f. f.0) futures)
unfolding NotDue
All-first now s [] h = tt
All-first now s (f ∷ futures) h = (h.0, All-first now s futures h.1)

-- However the futures of the due devices end (timed out, done with a count or an exception, or
-- pending when the cycle ends), no device is due at the cycle's time afterwards.
pub finish_parallel-reads :
    (now : ℕ) (futures : List (DeviceConfig × Ending)) (s : GatewayState)
    → map (λ (f : DeviceConfig × Ending). f.0) futures ≡ due_devices now s
    → due_devices now (finish_parallel now futures s).1 ≡ []
unfolding finish_parallel NotDue
finish_parallel-reads now futures s q =
    let s1 = mark_all now (keep is_timed_out futures) s in
    let s2 = mark_all now (keep is_done futures) s1 in
    let s3 = mark_all now (keep is_pending futures) s2 in
    let h1 = mark_all-Marked now (keep is_timed_out futures) s in
    let h2 = mark_all-Marked now (keep is_done futures) s1 in
    let h3 = mark_all-Marked now (keep is_pending futures) s2 in
    IsRead-none_due now s s3 (record {
      read = subst (All (λ (d : DeviceConfig). is_due now s3 d ≡ false)) q (
          All-first now s3 futures (
            gather (NotDue now s3) futures
              (All-map (NotDue now s1) (NotDue now s3) (keep is_timed_out futures)
                (λ f g. h3.rest f.0 (h2.rest f.0 g)) h1.read)
              (All-map (NotDue now s2) (NotDue now s3) (keep is_done futures) (λ f g. h3.rest f.0 g)
                h2.read)
              h3.read));
      rest = λ d g. h3.rest d (h2.rest d (h1.rest d g));
      devices = h3.devices ∙ h2.devices ∙ h1.devices;
    })
