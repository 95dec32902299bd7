-- ===== src/Yadnp3/Invariant.antt =====
-- What holds of a device's cache at every moment.
use mathlib.Core.Bool.{true}
use horstmann_dnp3_gateway.Base.{◌≡◌, List, arith, nat_eq, text_eq, pair_eq}
use horstmann_dnp3_gateway.Base.Number.{FloatOps}
use horstmann_dnp3_gateway.Points.{Point, point_eq}
use horstmann_dnp3_gateway.Yadnp3.Cache.{
  lost, online, DeviceCache, init, set, store, confirm, clear_dirty, mark_all_dirty, set_connected,
  begin_recovery, fail_recovery, consume_recovery_publish,
}
use horstmann_dnp3_gateway.Yadnp3.Read.{
  Arrival, frame, link_up, link_down, recovery_begins, arrive_one, Intervals, take_recovery,
}
use horstmann_dnp3_gateway.Yadnp3.Keeps.{IsKept, IsMarked}
use horstmann_dnp3_gateway.Yadnp3.Traces.{Event, run, run_all-keeps}

-- The flags of the recovery: a recovery that is to be published is confirmed, an outage that was
-- announced ends with one, and the two times of a recovery agree.
pub record IsPhased (c : DeviceCache) : Type 0 where
  pub confirmed : c.pending_recovery_publish ≡ true → c.state ≡ online
  pub ends : c.state ≡ online → c.stale_announced ≡ true → c.pending_recovery_publish ≡ true
  pub anchored : c.recovery_anchor_at ≡ c.recovery_started_at
  pub idle : c.state ≡ lost → c.recovery_started_at ≡ 0

arrive_one-IsPhased : (a : Arrival) (c : DeviceCache) → IsPhased c → IsPhased (arrive_one a c)
unfolding arrive_one set store confirm set_connected begin_recovery
arrive_one-IsPhased (frame p v now) c h = ground arith
arrive_one-IsPhased link_up c h = ground arith
arrive_one-IsPhased (recovery_begins now) c h = ground arith
arrive_one-IsPhased link_down c h = ground arith

announced-IsPhased :
    (c : DeviceCache) → IsMarked c → IsPhased c → IsPhased (record c { stale_announced = true })
announced-IsPhased c m h = ground arith

taken-IsPhased : (c : DeviceCache) → IsPhased c → IsPhased (take_recovery c).1
unfolding take_recovery consume_recovery_publish
taken-IsPhased c h = ground arith

failed-IsPhased : (c : DeviceCache) → IsPhased c → IsPhased (fail_recovery c)
unfolding fail_recovery
failed-IsPhased c h = ground arith

all_dirty-IsPhased : (c : DeviceCache) → IsPhased c → IsPhased (mark_all_dirty c).1
unfolding mark_all_dirty
all_dirty-IsPhased c h = ground arith

cleared-IsPhased : (p : Point) (c : DeviceCache) → IsPhased c → IsPhased (clear_dirty p c)
unfolding clear_dirty
cleared-IsPhased p c h = ground arith

IsPhased-IsKept : IsKept (λ a. Unit) IsPhased
unfolding arrive_one
IsPhased-IsKept = record {
  arrival = λ a c g h. arrive_one-IsPhased a c h;
  begun = λ now c d e g h. arrive_one-IsPhased (recovery_begins now) d h;
  failed = failed-IsPhased;
  announced = announced-IsPhased;
  taken = taken-IsPhased;
  all_dirty = all_dirty-IsPhased;
  cleared = cleared-IsPhased;
}

init-IsPhased : IsPhased init
unfolding init
init-IsPhased = ground arith

pub run-IsPhased :
    (ops : FloatOps) (i : Intervals) (events : List Event) → IsPhased (run ops i events init)
run-IsPhased ops i events =
    run_all-keeps ops i (λ a. Unit) IsPhased IsPhased-IsKept (λ a. tt) events init init-IsPhased
