-- ===== src/Yadnp3/Read.antt =====
-- Yadnp3TelemetryReader.read_device of src/dnp3_gateway/adapters/dnp3_yadnp3_master.py on the cache
-- of its device. It takes the cache's lock for each call, and the threads of OpenDNP3 take it in
-- between: `between n` is what they do in the n-th of these gaps.
use horstmann_dnp3_gateway.Base.{
  ℕ, ◌+◌, ◌-◌, ◌*◌, max, String, Bool, true, false, ◌||◌, Option, none, some, List, [], ◌∷◌, map,
  ltb, if◌then◌else◌, ◌==◌, nat_eq, text_eq, pair_eq,
}
use horstmann_dnp3_gateway.Base.Number.{ℤ, pos, FloatOps, float_zero}
use horstmann_dnp3_gateway.Points.{Point, point_eq}
use horstmann_dnp3_gateway.Config.{SignalConfig}
use horstmann_dnp3_gateway.Poller.{SignalReading}
use horstmann_dnp3_gateway.Yadnp3.Cache.{
  LinkState, lost, recovering, online, Value, DeviceCache, set, get, is_dirty, clear_dirty,
  mark_all_dirty, set_connected, begin_recovery, recovery_age, fail_recovery,
  consume_recovery_publish,
}

-- A call of OpenDNP3's threads that takes the lock: OnOpen is `link_up`, then `recovery_begins`.
pub data Arrival : Type 0 where
  frame : Point → Value → ℕ → Arrival
  link_up : Arrival
  recovery_begins : ℕ → Arrival
  link_down : Arrival

unfoldable pub arrive_one : Arrival → DeviceCache → DeviceCache
unfolding set set_connected begin_recovery
arrive_one (frame p v now) c = set p v now c
arrive_one link_up c = set_connected true c
arrive_one (recovery_begins now) c = begin_recovery now c
arrive_one link_down c = set_connected false c

unfoldable pub arrive : List Arrival → DeviceCache → DeviceCache
unfolding arrive_one
arrive [] c = c
arrive (a ∷ rest) c = arrive rest (arrive_one a c)

-- The clock when `read_device`, begin_recovery and recovery_age ask for it.
pub record Timing : Type 0 where
  pub now : ℕ
  pub begun : ℕ
  pub aged : ℕ

-- The intervals of the reader, in seconds.
pub record Intervals : Type 0 where
  pub scan : ℤ
  pub baseline : ℤ

seconds_of : ℕ → ℤ → ℕ
seconds_of factor (pos n) = factor * n
seconds_of factor _ = 0

-- max(baseline * 4, scan * 10, 60), in milliseconds
unfoldable pub threshold : Intervals → ℕ
unfolding seconds_of
threshold i = 1000 * max (seconds_of 4 i.baseline) (max (seconds_of 10 i.scan) 60)

-- _RECOVERY_GRACE_SEC
abbrev pub recovery_grace : ℕ
recovery_grace = 15000

unfoldable pub is_stale : Intervals → ℕ → ℕ → Bool
unfolding threshold
is_stale i now last_update = last_update == 0 || ltb (threshold i) (now - last_update)

abbrev pub unread : String → SignalConfig → SignalReading
unread quality s = record {
  signal_key = s.key;
  source = s.source;
  data_type = s.data_type;
  raw_value = float_zero;
  scaled_value = float_zero;
  quality = quality;
  value_string = none;
}

module _ (ops : FloatOps) where
  unfoldable pub good : SignalConfig → Value → SignalReading
  good s v = record {
    signal_key = s.key;
    source = s.source;
    data_type = s.data_type;
    raw_value = v.0;
    scaled_value = ops.round (ops.add (ops.mul v.0 s.scale) s.offset) 6;
    quality = "good";
    value_string = v.1;
  }

abbrev pub point_of : SignalConfig → Point
point_of s = (s.dnp3_object_group, s.dnp3_index)

-- What the first part of `read_device` comes to: the state it goes on with, and whether it has
-- asked for an integrity poll.
pub record Observed : Type 0 where
  pub cache_state : LinkState
  pub asked_poll : Bool
  pub cache : DeviceCache

module _ (i : Intervals) (between : ℕ → List Arrival) (t : Timing) where
  -- The stale edge.
  unfoldable pub stale_edge : Bool → Bool → LinkState → DeviceCache → Observed
  unfolding begin_recovery
  stale_edge true true online c = record {
    cache_state = recovering;
    asked_poll = true;
    cache = begin_recovery t.begun c;
  }
  stale_edge connected stale cache_state c = record {
    cache_state = cache_state;
    asked_poll = false;
    cache = c;
  }

  -- The grace timeout.
  unfoldable pub grace_timeout : Observed → Observed
  unfolding recovery_age fail_recovery arrive
  grace_timeout o = elim o.cache_state [
    | recovering ↦
        let c = arrive (between 3) o.cache in
        if ltb recovery_grace (recovery_age t.aged c)
        then record o { cache_state = lost; cache = fail_recovery (arrive (between 4) c) }
        else record o { cache = c }
    | _ ↦ o
  ]

  unfoldable pub observe : DeviceCache → Observed
  unfolding stale_edge grace_timeout is_stale arrive
  observe c =
      let c1 = arrive (between 0) c in
      let c2 = arrive (between 1) c1 in
      grace_timeout (
        stale_edge c.connected (is_stale i t.now c1.last_update_at) c2.state
          (arrive (between 2) c2))

-- What is read of a device that is not online.
unfoldable pub announce : List SignalConfig → DeviceCache → List SignalReading × DeviceCache
announce signals c = (
  map (unread (if c.stale_announced then "no_change" else "comm_lost")) signals,
  record c { stale_announced = true },
)

-- The flags of a recovery that is confirmed: `_stale_announced` is written with no lock, and no
-- other thread uses it.
unfoldable pub take_recovery : DeviceCache → Bool × DeviceCache
unfolding consume_recovery_publish
take_recovery c =
    let (recovered, c') = consume_recovery_publish c in
    (recovered, if recovered then record c' { stale_announced = false } else c')

module _ (between : ℕ → List Arrival) where
  unfoldable pub recover : DeviceCache → DeviceCache
  unfolding take_recovery mark_all_dirty arrive
  recover c =
      let (recovered, c') = take_recovery c in
      if recovered then (mark_all_dirty (arrive (between 6) c')).1 else c'

module _ (ops : FloatOps) (between : ℕ → List Arrival) where
  -- One signal, whose gaps are the n-th and the two that follow.
  unfoldable pub read_dirty : ℕ → SignalConfig → Value → DeviceCache → SignalReading × DeviceCache
  unfolding good is_dirty clear_dirty arrive
  read_dirty n s v c =
      if is_dirty (point_of s) c
      then (good ops s v, clear_dirty (point_of s) (arrive (between (n + 2)) c))
      else (unread "no_change" s, c)

  unfoldable pub read_entry :
      ℕ → SignalConfig → Option Value → DeviceCache → SignalReading × DeviceCache
  unfolding read_dirty arrive
  read_entry n s none c = (unread "no_change" s, c)
  read_entry n s (some v) c = read_dirty n s v (arrive (between (n + 1)) c)

  unfoldable pub read_signal : ℕ → SignalConfig → DeviceCache → SignalReading × DeviceCache
  unfolding read_entry get arrive
  read_signal n s c = let c' = arrive (between n) c in read_entry n s (get (point_of s) c') c'

  -- for s in signals
  unfoldable pub read_signals :
      ℕ → List SignalConfig → DeviceCache → List SignalReading × DeviceCache
  unfolding read_signal
  read_signals n [] c = ([], c)
  read_signals n (s ∷ signals) c =
      let (r, c1) = read_signal n s c in
      let (readings, c2) = read_signals (n + 3) signals c1 in (r ∷ readings, c2)

  -- The readings, and whether an integrity poll was asked for.
  unfoldable pub read_state :
      List SignalConfig → LinkState → DeviceCache → List SignalReading × DeviceCache
  unfolding announce recover read_signals arrive
  read_state signals online c = read_signals 7 signals (recover between (arrive (between 5) c))
  read_state signals _ c = announce signals (arrive (between 5) c)

  unfoldable pub read_cache :
      Intervals → Timing → List SignalConfig → DeviceCache → Bool × List SignalReading × DeviceCache
  unfolding observe read_state
  read_cache i t signals c =
      let o = observe i between t c in
      let (readings, c') = read_state signals o.cache_state o.cache in (o.asked_poll, readings, c')
