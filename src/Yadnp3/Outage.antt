-- ===== src/Yadnp3/Outage.antt =====
-- What the reads of a device that is not online give.
use mathlib.Core.Bool.{Bool, true, false}
use horstmann_dnp3_gateway.Base.{
  ◌≡◌, refl, ◌∙◌, ◌≢◌, List, [], ◌∷◌, map, arith, if◌then◌else◌, ap, All, ◌-◌, ◌<◌,
}
use horstmann_dnp3_gateway.Base.Number.{FloatOps}
use horstmann_dnp3_gateway.Points.{point_eq}
use horstmann_dnp3_gateway.Config.{SignalConfig}
use horstmann_dnp3_gateway.Poller.{SignalReading}
use horstmann_dnp3_gateway.Yadnp3.Cache.{
  lost, recovering, online, DeviceCache, set, store, confirm, set_connected, begin_recovery,
  recovery_age, fail_recovery, mark_all_dirty, consume_recovery_publish, clear_dirty,
}
use horstmann_dnp3_gateway.Yadnp3.Read.{
  recovery_grace, Arrival, frame, link_up, recovery_begins, link_down, arrive_one, arrive, Timing,
  Intervals, unread, recover, take_recovery, announce, read_cache,
}
use horstmann_dnp3_gateway.Yadnp3.Keeps.{IsKept}
use horstmann_dnp3_gateway.Yadnp3.Traces.{Event, run, run-keeps, Allowed}
use horstmann_dnp3_gateway.Yadnp3.Invariant.{IsPhased}
use horstmann_dnp3_gateway.Yadnp3.Quiet.{quiet, IsHealthy, timed_out, read-online, read-offline}
use horstmann_dnp3_gateway.Yadnp3.Deltas.{read_signals-SameLink}

recover-announced :
    (c : DeviceCache) → IsPhased c → c.state ≡ online → (recover quiet c).stale_announced ≡ false
unfolding recover take_recovery consume_recovery_publish mark_all_dirty arrive
recover-announced c h e = ground arith

arrive_one-announced :
    (a : Arrival) (c : DeviceCache) → (arrive_one a c).stale_announced ≡ c.stale_announced
unfolding arrive_one set store confirm set_connected begin_recovery
arrive_one-announced (frame p v now) c = ground arith
arrive_one-announced link_up c = refl
arrive_one-announced (recovery_begins now) c = ground arith
arrive_one-announced link_down c = refl

arrive-announced :
    (as' : List Arrival) (c : DeviceCache) → (arrive as' c).stale_announced ≡ c.stale_announced
unfolding arrive
arrive-announced [] c = refl
arrive-announced (a ∷ rest) c = arrive-announced rest (arrive_one a c) ∙ arrive_one-announced a c

timed_out_lem :
    (t : Timing) (c : DeviceCache)
    → c.state ≢ online
    → ((timed_out t c).state ≢ online) × ((timed_out t c).stale_announced ≡ c.stale_announced)
unfolding timed_out fail_recovery
timed_out_lem t c h = ground arith

read_announces :
    (ops : FloatOps) (i : Intervals) (t : Timing) (signals : List SignalConfig) (c : DeviceCache)
    → c.state ≢ online
    → let (asked, readings, d) = read_cache ops quiet i t signals c in
      (readings ≡ map (unread (if c.stale_announced then "no_change" else "comm_lost")) signals)
      × (d.stale_announced ≡ true)
      × (d.state ≢ online)
unfolding announce
read_announces ops i t signals c h =
    let (still, same) = timed_out_lem t c h in
    rw (read-offline ops i t signals c h) (rw same refl, refl, still)

online_clears :
    (ops : FloatOps) (i : Intervals) (t : Timing) (signals : List SignalConfig) (c : DeviceCache)
    → IsPhased c
    → IsHealthy i t c
    → (read_cache ops quiet i t signals c).2.stale_announced ≡ false
online_clears ops i t signals c phased h = rw (read-online ops i t signals c h) (
    (read_signals-SameLink ops 7 signals (recover quiet c)).same_announced
    ∙ recover-announced c phased h.is_online)

abbrev quality_of : List SignalConfig → Bool → List SignalReading
quality_of signals announced = map (unread (if announced then "no_change" else "comm_lost")) signals

-- After a read of a device that is online and not in doubt, whatever OpenDNP3's threads do until the
-- device is not online any more, the next read gives comm_lost for every signal, and the one after
-- it no_change for every signal; no other thread runs in the gaps of the three reads.
pub announced_once :
    (ops : FloatOps) (i : Intervals) (t t1 t2 : Timing) (signals : List SignalConfig)
    (c : DeviceCache) (as' : List Arrival)
    → IsPhased c
    → IsHealthy i t c
    → let d = arrive as' (read_cache ops quiet i t signals c).2 in
      d.state ≢ online
      → let (asked, readings, e) = read_cache ops quiet i t1 signals d in
        (readings ≡ map (unread "comm_lost") signals)
        × ((read_cache ops quiet i t2 signals e).1 ≡ map (unread "no_change") signals)
announced_once ops i t t1 t2 signals c as' phased h off =
    let d = arrive as' (read_cache ops quiet i t signals c).2 in
    let (first, flag, still) = read_announces ops i t1 signals d off in
    let second = read_announces ops i t2 signals (read_cache ops quiet i t1 signals d).2 still in
    let clear =
      arrive-announced as' (read_cache ops quiet i t signals c).2
      ∙ online_clears ops i t signals c phased h in
    (first ∙ ap (quality_of signals) clear, second.0 ∙ ap (quality_of signals) flag)

-- Everything but the start of a recovery, which OnOpen brings.
abbrev pub IsNoOpen : Arrival → Type 0
IsNoOpen (recovery_begins now) = ⊥
IsNoOpen _ = Unit

pub record IsLost (c : DeviceCache) : Type 0 where
  pub is_lost : c.state ≡ lost

arrive_one-IsLost :
    (a : Arrival) (c : DeviceCache) → IsNoOpen a → IsLost c → IsLost (arrive_one a c)
unfolding arrive_one set store confirm set_connected
arrive_one-IsLost (frame p v now) c g h = ground arith
arrive_one-IsLost link_up c g h = ground arith
arrive_one-IsLost (recovery_begins now) c g h = absurd g
arrive_one-IsLost link_down c g h = ground arith

IsLost-IsKept : IsKept IsNoOpen IsLost
unfolding fail_recovery take_recovery consume_recovery_publish mark_all_dirty clear_dirty
IsLost-IsKept = record {
  arrival = arrive_one-IsLost;
  begun = λ now c d e g h. cc;
  failed = λ c h. ground arith;
  announced = λ c m h. ground arith;
  taken = λ c h. ground arith;
  all_dirty = λ c h. ground arith;
  cleared = λ p c h. ground arith;
}

-- A device that is lost stays lost until a recovery begins, whatever frames and reads follow, and
-- every read after them, in whose gaps nothing else runs, gives comm_lost or no_change for every
-- signal.
pub lost_stays :
    (ops : FloatOps) (i : Intervals) (t : Timing) (signals : List SignalConfig) (c : DeviceCache)
    (events : List Event)
    → c.state ≡ lost
    → All (Allowed IsNoOpen) events
    → let d = run ops i events c in
      (d.state ≡ lost)
      × ((read_cache ops quiet i t signals d).1
          ≡ map (unread (if d.stale_announced then "no_change" else "comm_lost")) signals)
lost_stays ops i t signals c events h g =
    let d = run ops i events c in
    let e =
      (run-keeps ops i IsNoOpen IsLost IsLost-IsKept events c g (record { is_lost = h })).is_lost in
    (e, (read_announces ops i t signals d (λ o. cc)).0)

timeout_lem :
    (t : Timing) (c : DeviceCache)
    → c.state ≡ recovering
    → c.recovery_started_at ≢ 0
    → recovery_grace < t.aged - c.recovery_started_at
    → (timed_out t c).state ≡ lost × (timed_out t c).connected ≡ c.connected
unfolding timed_out recovery_age fail_recovery
timeout_lem t c h started late = ground arith

-- When the grace of a recovery has passed without a frame, a read, in whose gaps nothing else runs,
-- leaves the device lost with its link as it was; and it stays lost until another recovery begins,
-- whatever frames and reads follow.
pub timeout_stays :
    (ops : FloatOps) (i : Intervals) (t : Timing) (signals : List SignalConfig) (c : DeviceCache)
    (events : List Event)
    → c.state ≡ recovering
    → c.recovery_started_at ≢ 0
    → recovery_grace < t.aged - c.recovery_started_at
    → All (Allowed IsNoOpen) events
    → let d = (read_cache ops quiet i t signals c).2 in
      (d.connected ≡ c.connected) × ((run ops i events d).state ≡ lost)
unfolding announce
timeout_stays ops i t signals c events h started late g =
    let (is_lost, link) = timeout_lem t c h started late in
    rw (read-offline ops i t signals c (λ o. cc)) (
      link,
      (run-keeps ops i IsNoOpen IsLost IsLost-IsKept events (announce signals (timed_out t c)).1 g
          (record { is_lost = is_lost })).is_lost,
    )
