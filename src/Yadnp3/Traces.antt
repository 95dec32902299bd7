-- ===== src/Yadnp3/Traces.antt =====
-- The life of one device's cache, as a list of what happens to it: calls of OpenDNP3's threads, and
-- reads with such calls in their gaps.
use horstmann_dnp3_gateway.Base.{ℕ, List, [], ◌∷◌, All}
use horstmann_dnp3_gateway.Base.Number.{FloatOps}
use horstmann_dnp3_gateway.Config.{SignalConfig}
use horstmann_dnp3_gateway.Yadnp3.Cache.{DeviceCache}
use horstmann_dnp3_gateway.Yadnp3.Read.{Arrival, arrive_one, Timing, Intervals, read_cache}
use horstmann_dnp3_gateway.Yadnp3.Keeps.{IsKept, read_cache-keeps}

pub data Event : Type 0 where
  arrival : Arrival → Event
  read : (ℕ → List Arrival) → Timing → List SignalConfig → Event

-- The other threads do only what A allows, also in the gaps of the reads.
abbrev pub Allowed : (Arrival → Type 0) → Event → Type 0
Allowed A (arrival a) = A a
Allowed A (read between t signals) = (n : ℕ) → All A (between n)

all_arrivals : (A : Arrival → Type 0) → ((a : Arrival) → A a) → (as' : List Arrival) → All A as'
all_arrivals A any [] = tt
all_arrivals A any (a ∷ rest) = (any a, all_arrivals A any rest)

all-Allowed :
    (A : Arrival → Type 0) → ((a : Arrival) → A a) → (events : List Event) → All (Allowed A) events
all-Allowed A any [] = tt
all-Allowed A any (arrival a ∷ events) = (any a, all-Allowed A any events)
all-Allowed A any (read between t signals ∷ events) =
    (λ n. all_arrivals A any (between n), all-Allowed A any events)

module _ (ops : FloatOps) (i : Intervals) where
  unfoldable pub happen : Event → DeviceCache → DeviceCache
  unfolding arrive_one read_cache
  happen (arrival a) c = arrive_one a c
  happen (read between t signals) c = (read_cache ops between i t signals c).2

  unfoldable pub run : List Event → DeviceCache → DeviceCache
  unfolding happen
  run [] c = c
  run (e ∷ events) c = run events (happen e c)

  module _ (A : Arrival → Type 0) (P : DeviceCache → Type 0) (k : IsKept A P) where
    pub run-keeps :
        (events : List Event) (c : DeviceCache) → All (Allowed A) events → P c → P (run events c)
    unfolding run happen
    run-keeps [] c g h = h
    run-keeps (arrival a ∷ events) c g h =
        run-keeps events (happen (arrival a) c) g.1 (k.arrival a c g.0 h)
    run-keeps (read between t signals ∷ events) c g h =
        run-keeps events (happen (read between t signals) c) g.1
          (read_cache-keeps A P k ops between g.0 i t signals c h)

    -- What all threads may do needs no condition on the events.
    pub run_all-keeps :
        ((a : Arrival) → A a) → (events : List Event) (c : DeviceCache) → P c → P (run events c)
    run_all-keeps any events c h = run-keeps events c (all-Allowed A any events) h
