-- ===== src/Yadnp3/Delivers.antt =====
-- What the reads of a device that is online give: each change once, and everything after a recovery.
use mathlib.Core.Bool.{true, false}
use horstmann_dnp3_gateway.Base.{
  contains-keys, ℕ, ◌≡◌, ◌&&◌, none, List, map, arith, All, ap, ◌∙◌, [], ◌∷◌, nat_eq, text_eq,
  pair_eq, ==_self, contains, All-map, subst, ◌≤◌, refl, keys,
}
use horstmann_dnp3_gateway.Base.Number.{FloatOps}
use horstmann_dnp3_gateway.Points.{contains-add_points, Point, point_eq}
use horstmann_dnp3_gateway.Config.{SignalConfig}
use horstmann_dnp3_gateway.Yadnp3.Cache.{
  online, confirm, is_dirty, store, recovering, Value, set, get, DeviceCache, mark_all_dirty,
  consume_recovery_publish,
}
use horstmann_dnp3_gateway.Yadnp3.Read.{
  arrive, Timing, Intervals, is_stale, unread, point_of, recover, take_recovery, read_signals,
  read_cache,
}
use horstmann_dnp3_gateway.Yadnp3.Quiet.{quiet, IsHealthy, read-online}
use horstmann_dnp3_gateway.Yadnp3.Deltas.{
  reading_of, Distinct, waiting, shown, read_signals-shown, waiting-read_signals, nothing_waits,
  read_signals-SameLink,
}

pub recover-SameLink :
    (c : DeviceCache)
    → let d = recover quiet c in
      (d.state ≡ c.state)
      × (d.connected ≡ c.connected)
      × (d.last_update_at ≡ c.last_update_at)
      × (d.values ≡ c.values)
      × (d.pending_recovery_publish ≡ false)
unfolding recover take_recovery consume_recovery_publish mark_all_dirty arrive
recover-SameLink c = ground arith

read-IsHealthy :
    (ops : FloatOps) (i : Intervals) (t t' : Timing) (signals : List SignalConfig) (c : DeviceCache)
    → IsHealthy i t c
    → ((c.connected && is_stale i t'.now c.last_update_at) ≡ false)
    → IsHealthy i t' (read_cache ops quiet i t signals c).2
read-IsHealthy ops i t t' signals c h g =
    let same = recover-SameLink c in
    let rest = read_signals-SameLink ops 7 signals (recover quiet c) in
    rw (read-online ops i t signals c h) (record {
      is_online = rest.same_state ∙ same.0 ∙ h.is_online;
      undoubted = rw (rest.same_connected, rest.same_update, same.1, same.2) g;
    })

recover_once : (c : DeviceCache) → c.pending_recovery_publish ≡ false → recover quiet c ≡ c
unfolding recover take_recovery consume_recovery_publish
recover_once c h = ground arith

read_recovers :
    (ops : FloatOps) (n : ℕ) (signals : List SignalConfig) (c : DeviceCache)
    → let d = (read_signals ops quiet n signals (recover quiet c)).1 in recover quiet d ≡ d
read_recovers ops n signals c =
    let d = (read_signals ops quiet n signals (recover quiet c)).1 in
    recover_once d (
      (read_signals-SameLink ops n signals (recover quiet c)).same_pending ∙ (recover-SameLink c).4)

all_contained :
    (signals : List SignalConfig)
    → All (λ s. contains (point_of s) (map point_of signals) ≡ true) signals
unfolding contains
all_contained [] = tt
all_contained (s ∷ signals) = (
  ground (arith, ==_self (point_of s)),
  All-map (λ r. contains (point_of r) (map point_of signals) ≡ true)
      (λ r. contains (point_of r) (map point_of (s ∷ signals)) ≡ true) signals (λ r h. ground arith)
      (all_contained signals),
)

none_waits :
    (ops : FloatOps) (n : ℕ) (signals : List SignalConfig) (c : DeviceCache)
    → All (λ s. waiting (read_signals ops quiet n signals c).1 (point_of s) ≡ none) signals
none_waits ops n signals c =
    All-map (λ s. contains (point_of s) (map point_of signals) ≡ true)
      (λ s. waiting (read_signals ops quiet n signals c).1 (point_of s) ≡ none) signals
      (λ s h. rw (waiting-read_signals ops n signals c (point_of s), h)) (all_contained signals)

-- A read, in whose gaps nothing else runs, of a device that is online and not in doubt, and of
-- signals of different points, gives for each signal the value of its point if it is dirty (after a
-- recovery every value is), and no_change otherwise; and a second such read, as long as the link is
-- not in doubt, gives no_change for every signal.
pub delivered_once :
    (ops : FloatOps) (i : Intervals) (t t' : Timing) (signals : List SignalConfig) (c : DeviceCache)
    → IsHealthy i t c
    → ((c.connected && is_stale i t'.now c.last_update_at) ≡ false)
    → Distinct signals
    → let (asked, readings, d) = read_cache ops quiet i t signals c in
      (readings ≡ map (shown ops (recover quiet c)) signals)
      × ((read_cache ops quiet i t' signals d).1 ≡ map (unread "no_change") signals)
delivered_once ops i t t' signals c h g distinct =
    let d = (read_signals ops quiet 7 signals (recover quiet c)).1 in
    let healthy =
      subst (λ x. IsHealthy i t' x) (ap (λ x. x.2) (read-online ops i t signals c h))
        (read-IsHealthy ops i t t' signals c h g) in
    rw (read-online ops i t signals c h) (
      read_signals-shown ops 7 signals (recover quiet c) distinct,
      rw
          (
            read-online ops i t' signals d healthy,
            read_recovers ops 7 signals c,
            read_signals-shown ops 7 signals d distinct,
          )
          (nothing_waits ops d signals (none_waits ops 7 signals (recover quiet c))),
    )

recover_all :
    (c : DeviceCache) (q : Point)
    → c.pending_recovery_publish ≡ true
    → waiting (recover quiet c) q ≡ get q c
unfolding recover take_recovery consume_recovery_publish mark_all_dirty arrive waiting get is_dirty
recover_all c q h =
    ground (arith, contains-add_points q (keys c.values) c.dirty, contains-keys q c.values)

confirmed_set :
    (p : Point) (v : Value) (now : ℕ) (c : DeviceCache)
    → c.state ≡ recovering
    → c.recovery_anchor_at ≤ now
    → let d = set p v now c in (d.state ≡ online) × (d.pending_recovery_publish ≡ true)
unfolding set store confirm
confirmed_set p v now c h g = ground arith

map_recovered :
    (ops : FloatOps) (c : DeviceCache) (signals : List SignalConfig)
    → c.pending_recovery_publish ≡ true
    → map (shown ops (recover quiet c)) signals
      ≡ map (λ s. reading_of ops s (get (point_of s) c)) signals
unfolding shown
map_recovered ops c [] h = refl
map_recovered ops c (s ∷ signals) h =
    rw (recover_all c (point_of s) h, map_recovered ops c signals h)

-- When a frame reaches a device in recovery, at a time no earlier than the recovery's start, the next
-- read, in whose gaps nothing else runs, gives for each of the signals, of different points, the
-- last value of its point, changed or not, and no_change only for a point without a value. At the
-- read the link is not in doubt: it is not connected, or the frame is not too old.
pub republished :
    (ops : FloatOps) (i : Intervals) (t : Timing) (signals : List SignalConfig) (p : Point)
    (v : Value) (now : ℕ) (c : DeviceCache)
    → c.state ≡ recovering
    → c.recovery_anchor_at ≤ now
    → let d = set p v now c in
      ((d.connected && is_stale i t.now d.last_update_at) ≡ false)
      → Distinct signals
      → (read_cache ops quiet i t signals d).1
        ≡ map (λ s. reading_of ops s (get (point_of s) d)) signals
republished ops i t signals p v now c h g undoubted distinct =
    let d = set p v now c in
    let (online', pending) = confirmed_set p v now c h g in
    rw (
      read-online ops i t signals d (record { is_online = online'; undoubted = undoubted }),
      read_signals-shown ops 7 signals (recover quiet d) distinct,
      map_recovered ops d signals pending,
    )
