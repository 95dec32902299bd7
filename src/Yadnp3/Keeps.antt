-- ===== src/Yadnp3/Keeps.antt =====
-- What a read keeps: a rule for the predicates on the cache that every step under the lock keeps.
use horstmann_dnp3_gateway.Base.{
  ℕ, ◌≡◌, true, false, List, [], ◌∷◌, arith, if◌then◌else◌, ◌+◌, Bool, Option, none, some, ◌≢◌, ltb,
  refl, All,
}
use horstmann_dnp3_gateway.Base.Number.{FloatOps}
use horstmann_dnp3_gateway.Points.{Point, point_eq}
use horstmann_dnp3_gateway.Config.{SignalConfig}
use horstmann_dnp3_gateway.Poller.{SignalReading}
use horstmann_dnp3_gateway.Yadnp3.Cache.{
  recovery_age, LinkState, lost, recovering, online, Value, DeviceCache, set, clear_dirty, store,
  confirm, get, is_dirty, mark_all_dirty, set_connected, begin_recovery, fail_recovery,
}
use horstmann_dnp3_gateway.Yadnp3.Read.{
  recovery_grace, Arrival, frame, link_up, recovery_begins, link_down, arrive_one, arrive, Timing,
  Intervals, Observed, stale_edge, grace_timeout, observe, good, unread, point_of, is_stale,
  announce, take_recovery, recover, read_dirty, read_entry, read_signal, read_signals, read_state,
  read_cache,
}

-- A device that is online and has not been read so yet.
pub record IsMarked (c : DeviceCache) : Type 0 where
  pub marked : c.state ≡ online → c.pending_recovery_publish ≡ true

arrive_one-IsMarked : (a : Arrival) (c : DeviceCache) → IsMarked c → IsMarked (arrive_one a c)
unfolding arrive_one set store confirm set_connected begin_recovery
arrive_one-IsMarked (frame p v now) c h = ground arith
arrive_one-IsMarked link_up c h = ground arith
arrive_one-IsMarked (recovery_begins now) c h = ground arith
arrive_one-IsMarked link_down c h = ground arith

-- The steps of a read keep P, and so do the steps of the other threads that A allows.
pub record IsKept (A : Arrival → Type 0) (P : DeviceCache → Type 0) : Type 0 where
  pub arrival : (a : Arrival) (c : DeviceCache) → A a → P c → P (arrive_one a c)
  pub begun :
      (now : ℕ) (c d : DeviceCache) → c.state ≡ online → P c → P d → P (begin_recovery now d)
  pub failed : (c : DeviceCache) → P c → P (fail_recovery c)
  pub announced : (c : DeviceCache) → IsMarked c → P c → P (record c { stale_announced = true })
  pub taken : (c : DeviceCache) → P c → P (take_recovery c).1
  pub all_dirty : (c : DeviceCache) → P c → P (mark_all_dirty c).1
  pub cleared : (p : Point) (c : DeviceCache) → P c → P (clear_dirty p c)

arrive-IsMarked : (as' : List Arrival) (c : DeviceCache) → IsMarked c → IsMarked (arrive as' c)
unfolding arrive
arrive-IsMarked [] c h = h
arrive-IsMarked (a ∷ rest) c h = arrive-IsMarked rest (arrive_one a c) (arrive_one-IsMarked a c h)

failed-IsMarked : (c : DeviceCache) → IsMarked c → IsMarked (fail_recovery c)
unfolding fail_recovery
failed-IsMarked c h = ground arith

begun-IsMarked : (now : ℕ) (c : DeviceCache) → IsMarked (begin_recovery now c)
unfolding begin_recovery
begun-IsMarked now c = ground arith

abbrev IsOffline : LinkState → Type 0
IsOffline st = st ≢ online

offline-IsMarked : (c : DeviceCache) → IsOffline c.state → IsMarked c
offline-IsMarked c off = ground arith

-- What the first part of a read comes to: offline only with a cache that is marked.
abbrev IsObserved : (DeviceCache → Type 0) → Observed → Type 0
IsObserved P o = P o.cache × (IsOffline o.cache_state → IsMarked o.cache)

module _ (A : Arrival → Type 0) (P : DeviceCache → Type 0) (k : IsKept A P) where
  pub arrive-keeps : (as' : List Arrival) (c : DeviceCache) → All A as' → P c → P (arrive as' c)
  unfolding arrive
  arrive-keeps [] c g h = h
  arrive-keeps (a ∷ rest) c g h = arrive-keeps rest (arrive_one a c) g.1 (k.arrival a c g.0 h)

  module _ (ops : FloatOps) (between : ℕ → List Arrival)
      (allowed : (n : ℕ) → All A (between n)) where
    gap-keeps : (n : ℕ) (c : DeviceCache) → P c → P (arrive (between n) c)
    gap-keeps n c h = arrive-keeps (between n) c (allowed n) h

    pub recover-keeps : (c : DeviceCache) → P c → P (recover between c)
    unfolding recover
    recover-keeps c h =
        elim (take_recovery c).0
          as (λ b. P (
            if b
            then (mark_all_dirty (arrive (between 6) (take_recovery c).1)).1
            else (take_recovery c).1)) [
              | true ↦
                  k.all_dirty (arrive (between 6) (take_recovery c).1)
                    (gap-keeps 6 (take_recovery c).1 (k.taken c h))
              | false ↦ k.taken c h
            ]

    read_dirty-keeps :
        (n : ℕ) (s : SignalConfig) (v : Value) (c : DeviceCache)
        → P c
        → P (read_dirty ops between n s v c).1
    unfolding read_dirty
    read_dirty-keeps n s v c h =
        let c' = arrive (between (n + 2)) c in
        elim (is_dirty (point_of s) c)
          as (λ b.
            P
              (if◌then◌else◌ {A = SignalReading × DeviceCache} b
                (good ops s v, clear_dirty (point_of s) c') (unread "no_change" s, c)).1) [
                  | true ↦ k.cleared (point_of s) c' (gap-keeps (n + 2) c h)
                  | false ↦ h
                ]

    read_entry-keeps :
        (n : ℕ) (s : SignalConfig) (entry : Option Value) (c : DeviceCache)
        → P c
        → P (read_entry ops between n s entry c).1
    unfolding read_entry
    read_entry-keeps n s none c h = h
    read_entry-keeps n s (some v) c h =
        read_dirty-keeps n s v (arrive (between (n + 1)) c) (gap-keeps (n + 1) c h)

    pub read_signal-keeps :
        (n : ℕ) (s : SignalConfig) (c : DeviceCache) → P c → P (read_signal ops between n s c).1
    unfolding read_signal
    read_signal-keeps n s c h =
        let c' = arrive (between n) c in
        read_entry-keeps n s (get (point_of s) c') c' (gap-keeps n c h)

    read_signals-keeps :
        (n : ℕ) (signals : List SignalConfig) (c : DeviceCache)
        → P c
        → P (read_signals ops between n signals c).1
    unfolding read_signals
    read_signals-keeps n [] c h = h
    read_signals-keeps n (s ∷ signals) c h =
        read_signals-keeps (n + 3) signals (read_signal ops between n s c).1
          (read_signal-keeps n s c h)

    stale_edge-keeps :
        (i : Intervals) (t : Timing) (connected stale : Bool) (st : LinkState) (d c : DeviceCache)
        → d.state ≡ st
        → P d
        → (IsOffline st → IsMarked c)
        → P c
        → IsObserved P (stale_edge i between t connected stale st c)
    unfolding stale_edge
    stale_edge-keeps i t true true online d c e g m h =
        (k.begun t.begun d c e g h, λ off. begun-IsMarked t.begun c)
    stale_edge-keeps i t _ _ _ d c e g m h = (h, m)

    timeout-keeps :
        (i : Intervals) (t : Timing) (asked_poll : Bool) (c : DeviceCache)
        → IsMarked c
        → P c
        → IsObserved P (
            grace_timeout i between t
              (record { cache_state = recovering; asked_poll = asked_poll; cache = c }))
    unfolding grace_timeout
    timeout-keeps i t asked_poll c m h =
        let c' = arrive (between 3) c in
        let h' = gap-keeps 3 c h in
        let m' = arrive-IsMarked (between 3) c m in
        elim (ltb recovery_grace (recovery_age t.aged c'))
          as (λ b. IsObserved P (
            if◌then◌else◌ {A = Observed} b
              (record {
                cache_state = lost;
                asked_poll = asked_poll;
                cache = fail_recovery (arrive (between 4) c');
              })
              (record { cache_state = recovering; asked_poll = asked_poll; cache = c' }))) [
                | true ↦ (
                  k.failed (arrive (between 4) c') (gap-keeps 4 c' h'),
                  λ off.
                      failed-IsMarked (arrive (between 4) c') (arrive-IsMarked (between 4) c' m'),
                )
                | false ↦ (h', λ off. m')
              ]

    grace_timeout-keeps :
        (i : Intervals) (t : Timing) (st : LinkState) (asked_poll : Bool) (c : DeviceCache)
        → (IsOffline st → IsMarked c)
        → P c
        → IsObserved P (
            grace_timeout i between t
              (record { cache_state = st; asked_poll = asked_poll; cache = c }))
    unfolding grace_timeout
    grace_timeout-keeps i t recovering asked_poll c m h =
        timeout-keeps i t asked_poll c (m (λ e. cc)) h
    grace_timeout-keeps i t lost asked_poll c m h = (h, m)
    grace_timeout-keeps i t online asked_poll c m h = (h, m)

    pub observe-keeps :
        (i : Intervals) (t : Timing) (c : DeviceCache) → P c → IsObserved P (observe i between t c)
    unfolding observe
    observe-keeps i t c h =
        let c1 = arrive (between 0) c in
        let c2 = arrive (between 1) c1 in
        let c3 = arrive (between 2) c2 in
        let h2 = gap-keeps 1 c1 (gap-keeps 0 c h) in
        let stale = is_stale i t.now c1.last_update_at in
        let o = stale_edge i between t c.connected stale c2.state c3 in
        let (g, m) =
          stale_edge-keeps i t c.connected stale c2.state c2 c3 refl h2
            (λ off. arrive-IsMarked (between 2) c2 (offline-IsMarked c2 off)) (gap-keeps 2 c2 h2) in
        grace_timeout-keeps i t o.cache_state o.asked_poll o.cache m g

    read_state-keeps :
        (signals : List SignalConfig) (st : LinkState) (c : DeviceCache)
        → (IsOffline st → IsMarked c)
        → P c
        → P (read_state ops between signals st c).1
    unfolding read_state announce
    read_state-keeps signals online c m h =
        read_signals-keeps 7 signals (recover between (arrive (between 5) c))
          (recover-keeps (arrive (between 5) c) (gap-keeps 5 c h))
    read_state-keeps signals lost c m h =
        k.announced (arrive (between 5) c) (arrive-IsMarked (between 5) c (m (λ e. cc)))
          (gap-keeps 5 c h)
    read_state-keeps signals recovering c m h =
        k.announced (arrive (between 5) c) (arrive-IsMarked (between 5) c (m (λ e. cc)))
          (gap-keeps 5 c h)

    pub read_cache-keeps :
        (i : Intervals) (t : Timing) (signals : List SignalConfig) (c : DeviceCache)
        → P c
        → P (read_cache ops between i t signals c).2
    unfolding read_cache
    read_cache-keeps i t signals c h =
        let o = observe i between t c in
        let (g, m) = observe-keeps i t c h in read_state-keeps signals o.cache_state o.cache m g
