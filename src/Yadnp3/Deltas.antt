-- ===== src/Yadnp3/Deltas.antt =====
-- The loop over the signals, when no other thread runs: it gives the dirty values of the cache as
-- it stands, each once.
use mathlib.Core.Bool.{Bool, true, false}
use horstmann_dnp3_gateway.Base.{
  ℕ, ◌≡◌, Option, none, some, List, [], ◌∷◌, map, arith, if◌then◌else◌, ◌==◌, nat_eq, text_eq,
  pair_eq, contains, ◌+◌, refl, All,
}
use horstmann_dnp3_gateway.Base.Number.{FloatOps}
use horstmann_dnp3_gateway.Points.{Point, point_eq, contains-discard}
use horstmann_dnp3_gateway.Config.{SignalConfig}
use horstmann_dnp3_gateway.Poller.{SignalReading}
use horstmann_dnp3_gateway.Yadnp3.Cache.{DeviceCache, Value, get, is_dirty, clear_dirty}
use horstmann_dnp3_gateway.Yadnp3.Read.{
  read_signals, arrive, good, unread, point_of, read_dirty, read_entry, read_signal,
}
use horstmann_dnp3_gateway.Yadnp3.Quiet.{quiet}

-- No two signals are of the same point.
abbrev pub Distinct : List SignalConfig → Type 0
Distinct [] = Unit
Distinct (s ∷ signals) = (contains (point_of s) (map point_of signals) ≡ false) × Distinct signals

abbrev pub dirty_value : Option Value → Bool → Option Value
dirty_value (some v) true = some v
dirty_value _ _ = none

abbrev pub reading_of : FloatOps → SignalConfig → Option Value → SignalReading
reading_of ops s none = unread "no_change" s
reading_of ops s (some v) = good ops s v

-- The value of a dirty point.
unfoldable pub waiting : DeviceCache → Point → Option Value
waiting c p = dirty_value (get p c) (is_dirty p c)

-- The reading that a cache has for a signal.
unfoldable pub shown : FloatOps → DeviceCache → SignalConfig → SignalReading
unfolding waiting
shown ops c s = reading_of ops s (waiting c (point_of s))

contains-cons :
    (p q : Point) (points : List Point)
    → contains p (q ∷ points) ≡ false
    → ((q == p) ≡ false) × (contains p points ≡ false)
unfolding contains
contains-cons p q points h = ground (arith, point_eq.test_iff p q, point_eq.test_iff q p)

module _ (ops : FloatOps) where
  shown-read_signal :
      (n : ℕ) (s : SignalConfig) (c : DeviceCache) → (read_signal ops quiet n s c).0 ≡ shown ops c s
  unfolding read_signal read_entry read_dirty arrive shown waiting
  shown-read_signal n s c = ground arith

  waiting-read_signal :
      (n : ℕ) (s : SignalConfig) (c : DeviceCache) (p : Point)
      → waiting (read_signal ops quiet n s c).1 p ≡ (if p == point_of s then none else waiting c p)
  unfolding read_signal read_entry read_dirty arrive waiting clear_dirty get is_dirty
  waiting-read_signal n s c p =
      ground (arith, contains-discard p (point_of s) c.dirty, point_eq.test_iff p (point_of s))

  map-shown :
      (p : Point) (c d : DeviceCache) (signals : List SignalConfig)
      → contains p (map point_of signals) ≡ false
      → ((q : Point) → waiting d q ≡ (if q == p then none else waiting c q))
      → map (shown ops d) signals ≡ map (shown ops c) signals
  unfolding shown contains
  map-shown p c d [] h g = refl
  map-shown p c d (s ∷ signals) h g =
      let (apart, h') = contains-cons p (point_of s) (map point_of signals) h in
      rw (g (point_of s), apart, map-shown p c d signals h' g)

  pub read_signals-shown :
      (n : ℕ) (signals : List SignalConfig) (c : DeviceCache)
      → Distinct signals
      → (read_signals ops quiet n signals c).0 ≡ map (shown ops c) signals
  unfolding read_signals
  read_signals-shown n [] c h = refl
  read_signals-shown n (s ∷ signals) c h =
      let d = (read_signal ops quiet n s c).1 in
      rw (
        shown-read_signal n s c,
        read_signals-shown (n + 3) signals d h.1,
        map-shown (point_of s) c d signals h.0 (waiting-read_signal n s c),
      )

  pub waiting-read_signals :
      (n : ℕ) (signals : List SignalConfig) (c : DeviceCache) (q : Point)
      → waiting (read_signals ops quiet n signals c).1 q
        ≡ (if contains q (map point_of signals) then none else waiting c q)
  unfolding read_signals contains
  waiting-read_signals n [] c q = refl
  waiting-read_signals n (s ∷ signals) c q =
      let d = (read_signal ops quiet n s c).1 in
      rw (waiting-read_signals (n + 3) signals d q, waiting-read_signal n s c q) (ground arith)

  pub nothing_waits :
      (c : DeviceCache) (signals : List SignalConfig)
      → All (λ s. waiting c (point_of s) ≡ none) signals
      → map (shown ops c) signals ≡ map (unread "no_change") signals
  unfolding shown
  nothing_waits c [] h = refl
  nothing_waits c (s ∷ signals) h = rw (h.0, nothing_waits c signals h.1)

-- What a loop without frames leaves as it is.
pub record SameLink (c d : DeviceCache) : Type 0 where
  pub same_values : d.values ≡ c.values
  pub same_connected : d.connected ≡ c.connected
  pub same_update : d.last_update_at ≡ c.last_update_at
  pub same_announced : d.stale_announced ≡ c.stale_announced
  pub same_state : d.state ≡ c.state
  pub same_pending : d.pending_recovery_publish ≡ c.pending_recovery_publish

read_signal-SameLink :
    (ops : FloatOps) (n : ℕ) (s : SignalConfig) (c : DeviceCache)
    → SameLink c (read_signal ops quiet n s c).1
unfolding read_signal read_entry read_dirty arrive clear_dirty
read_signal-SameLink ops n s c = ground arith

SameLink-trans : (c d e : DeviceCache) → SameLink c d → SameLink d e → SameLink c e
SameLink-trans c d e g h = ground arith

pub read_signals-SameLink :
    (ops : FloatOps) (n : ℕ) (signals : List SignalConfig) (c : DeviceCache)
    → SameLink c (read_signals ops quiet n signals c).1
unfolding read_signals
read_signals-SameLink ops n [] c = ground arith
read_signals-SameLink ops n (s ∷ signals) c =
    let d = (read_signal ops quiet n s c).1 in
    SameLink-trans c d (read_signals ops quiet (n + 3) signals d).1 (read_signal-SameLink ops n s c)
      (read_signals-SameLink ops (n + 3) signals d)
