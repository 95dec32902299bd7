-- ===== src/Yadnp3/Values.antt =====
-- What a read gives is what the frames have brought.
use mathlib.Core.Bool.{true, false}
use horstmann_dnp3_gateway.Base.{
  ℕ, ◌≡◌, some, refl, ap, ◌∙◌, ◌⊎◌, inl, inr, List, [], ◌∷◌, arith, nat_eq, text_eq, pair_eq, Dict,
  lookup, insert, lookup-insert, subst, ◌+◌, Option, none, if◌then◌else◌, All,
}
use horstmann_dnp3_gateway.Base.Number.{FloatOps}
use horstmann_dnp3_gateway.Points.{Point, point_eq}
use horstmann_dnp3_gateway.Config.{SignalConfig}
use horstmann_dnp3_gateway.Poller.{SignalReading}
use horstmann_dnp3_gateway.Yadnp3.Cache.{
  lost, recovering, online, DeviceCache, Value, init, get, set, store, confirm, is_dirty,
  clear_dirty, mark_all_dirty, set_connected, begin_recovery, fail_recovery,
  consume_recovery_publish,
}
use horstmann_dnp3_gateway.Yadnp3.Read.{
  Arrival, frame, link_up, link_down, recovery_begins, arrive_one, arrive, Intervals, Timing,
  take_recovery, good, unread, point_of, announce, read_dirty, read_entry, read_signal,
  read_signals, read_state, read_cache, recover, observe,
}
use horstmann_dnp3_gateway.Yadnp3.Keeps.{
  IsKept, read_signal-keeps, arrive-keeps, recover-keeps, observe-keeps,
}
use horstmann_dnp3_gateway.Yadnp3.Traces.{Event, run, run-keeps, Allowed}

lookup-insert-some :
    (p q : Point) (v w : Value) (d : Dict Point Value)
    → lookup q (insert p v d) ≡ some w
    → ((p ≡ q) × (v ≡ w)) ⊎ (lookup q d ≡ some w)
lookup-insert-some p q v w d e = ground (arith, lookup-insert p q v d, point_eq.test_iff p q)

get-set :
    (p q : Point) (v w : Value) (now : ℕ) (c : DeviceCache)
    → get q (set p v now c) ≡ some w
    → ((p ≡ q) × (v ≡ w)) ⊎ (get q c ≡ some w)
unfolding get set store confirm
get-set p q v w now c e = ground (arith, lookup-insert-some p q v w c.values)

module _ (R : Point → Value → Type 0) where
  -- A frame that brings a value of R.
  abbrev pub Brings : Arrival → Type 0
  Brings (frame p v now) = R p v
  Brings _ = Unit

  pub record Holds (c : DeviceCache) : Type 0 where
    pub holds : (p : Point) (v : Value) → get p c ≡ some v → R p v

  set-Holds :
      (p : Point) (v : Value) (now : ℕ) (c : DeviceCache) → R p v → Holds c → Holds (set p v now c)
  set-Holds p v now c g h = record {
    holds = λ q w e. elim (get-set p q v w now c e) [
      | inl both ↦ subst (λ x. R x w) both.0 (subst (λ x. R p x) both.1 g)
      | inr old ↦ h.holds q w old
    ];
  }

  same_values-Holds : (c d : DeviceCache) → c.values ≡ d.values → Holds c → Holds d
  unfolding get
  same_values-Holds c d e h = record { holds = λ p v g. h.holds p v (ap (lookup p) e ∙ g) }

  arrive_one-Holds : (a : Arrival) (c : DeviceCache) → Brings a → Holds c → Holds (arrive_one a c)
  unfolding arrive_one set_connected begin_recovery
  arrive_one-Holds (frame p v now) c g h = set-Holds p v now c g h
  arrive_one-Holds link_up c g h = same_values-Holds c _ refl h
  arrive_one-Holds (recovery_begins now) c g h = same_values-Holds c _ (ground arith) h
  arrive_one-Holds link_down c g h = same_values-Holds c _ refl h

  Holds-IsKept : IsKept Brings Holds
  unfolding arrive_one fail_recovery take_recovery consume_recovery_publish mark_all_dirty
      clear_dirty
  Holds-IsKept = record {
    arrival = arrive_one-Holds;
    begun = λ now c d e g h. arrive_one-Holds (recovery_begins now) d tt h;
    failed = λ c h. same_values-Holds c _ (ground arith) h;
    announced = λ c m h. same_values-Holds c _ refl h;
    taken = λ c h. same_values-Holds c _ (ground arith) h;
    all_dirty = λ c h. same_values-Holds c _ refl h;
    cleared = λ p c h. same_values-Holds c _ refl h;
  }

  -- A reading of a signal: without a value, or good with a value of R.
  pub data Shows (ops : FloatOps) (s : SignalConfig) : SignalReading → Type 0 where
    silent : Shows ops s (unread "no_change" s)
    down : Shows ops s (unread "comm_lost" s)
    fresh : (v : Value) → R (point_of s) v → Shows ops s (good ops s v)

  -- One reading for each signal, in order.
  unfoldable pub AllShow : FloatOps → List SignalConfig → List SignalReading → Type 0
  AllShow ops [] [] = Unit
  AllShow ops (s ∷ signals) (r ∷ readings) = Shows ops s r × AllShow ops signals readings
  AllShow ops _ _ = ⊥

  module _ (ops : FloatOps) (between : ℕ → List Arrival)
      (allowed : (n : ℕ) → All Brings (between n)) where
    gap-Holds : (n : ℕ) (c : DeviceCache) → Holds c → Holds (arrive (between n) c)
    gap-Holds n c h = arrive-keeps Brings Holds Holds-IsKept (between n) c (allowed n) h

    read_dirty-Shows :
        (n : ℕ) (s : SignalConfig) (v : Value) (c : DeviceCache)
        → R (point_of s) v
        → Shows ops s (read_dirty ops between n s v c).0
    unfolding read_dirty
    read_dirty-Shows n s v c g =
        elim (is_dirty (point_of s) c)
          as (λ b.
            Shows ops s
              (if◌then◌else◌ {A = SignalReading × DeviceCache} b
                (good ops s v, clear_dirty (point_of s) (arrive (between (n + 2)) c))
                (unread "no_change" s, c)).0) [ true ↦ fresh v g | false ↦ silent ]

    read_entry-Shows :
        (n : ℕ) (s : SignalConfig) (entry : Option Value) (c : DeviceCache)
        → ((v : Value) → entry ≡ some v → R (point_of s) v)
        → Shows ops s (read_entry ops between n s entry c).0
    unfolding read_entry
    read_entry-Shows n s none c g = silent
    read_entry-Shows n s (some v) c g =
        read_dirty-Shows n s v (arrive (between (n + 1)) c) (g v refl)

    read_signals-AllShow :
        (n : ℕ) (signals : List SignalConfig) (c : DeviceCache)
        → Holds c
        → AllShow ops signals (read_signals ops between n signals c).0
    unfolding AllShow read_signals read_signal
    read_signals-AllShow n [] c h = tt
    read_signals-AllShow n (s ∷ signals) c h =
        let c' = arrive (between n) c in
        (
          read_entry-Shows n s (get (point_of s) c') c' ((gap-Holds n c h).holds (point_of s)),
          read_signals-AllShow (n + 3) signals (read_signal ops between n s c).1
              (read_signal-keeps Brings Holds Holds-IsKept ops between allowed n s c h),
        )

    announce-AllShow :
        (signals : List SignalConfig) (c : DeviceCache) → AllShow ops signals (announce signals c).0
    unfolding AllShow announce
    announce-AllShow [] c = tt
    announce-AllShow (s ∷ signals) c = (
      elim c.stale_announced
          as (λ b. Shows ops s (unread (if b then "no_change" else "comm_lost") s)) [
            | true ↦ silent
            | false ↦ down
          ],
      announce-AllShow signals c,
    )

    read_state-AllShow :
        (signals : List SignalConfig) (st : _) (c : DeviceCache)
        → Holds c
        → AllShow ops signals (read_state ops between signals st c).0
    unfolding read_state
    read_state-AllShow signals online c h =
        read_signals-AllShow 7 signals (recover between (arrive (between 5) c)) (
          recover-keeps Brings Holds Holds-IsKept ops between allowed (arrive (between 5) c)
            (gap-Holds 5 c h))
    read_state-AllShow signals lost c h = announce-AllShow signals (arrive (between 5) c)
    read_state-AllShow signals recovering c h = announce-AllShow signals (arrive (between 5) c)

    read_cache-AllShow :
        (i : Intervals) (t : Timing) (signals : List SignalConfig) (c : DeviceCache)
        → Holds c
        → AllShow ops signals (read_cache ops between i t signals c).1
    unfolding read_cache
    read_cache-AllShow i t signals c h =
        let o = observe i between t c in
        read_state-AllShow signals o.cache_state o.cache
          (observe-keeps Brings Holds Holds-IsKept ops between allowed i t c h).0

  -- In every life of a device, in whose frames every value is one of R for its point, a read gives a
  -- reading for each signal in order, which is no_change or comm_lost and has no value, or is good
  -- and has a value of R for the signal's point; also when frames come in the middle of the read.
  pub good_from_frames :
      (ops : FloatOps) (i : Intervals) (events : List Event) (between : ℕ → List Arrival)
      (t : Timing) (signals : List SignalConfig)
      → All (Allowed Brings) events
      → ((n : ℕ) → All Brings (between n))
      → AllShow ops signals (read_cache ops between i t signals (run ops i events init)).1
  unfolding get init lookup
  good_from_frames ops i events between t signals g allowed =
      read_cache-AllShow ops between allowed i t signals (run ops i events init)
        (run-keeps ops i Brings Holds Holds-IsKept events init g (record { holds = λ p v e. cc }))
