-- ===== src/Yadnp3/Quiet.antt =====
-- Reads in whose gaps no other thread runs: what a read gives of a device that is online, and of one
-- that is not.
use mathlib.Core.Bool.{Bool, true, false}
use horstmann_dnp3_gateway.Base.{
  ℕ, ◌≡◌, refl, ◌&&◌, List, [], ◌≢◌, ltb, if◌then◌else◌, ◌⊎◌, inl, inr, arith, Bool-cases,
}
use horstmann_dnp3_gateway.Base.Number.{FloatOps}
use horstmann_dnp3_gateway.Config.{SignalConfig}
use horstmann_dnp3_gateway.Yadnp3.Cache.{
  LinkState, lost, recovering, online, DeviceCache, recovery_age, fail_recovery,
}
use horstmann_dnp3_gateway.Yadnp3.Read.{
  Arrival, arrive, Timing, Intervals, observe, stale_edge, grace_timeout, is_stale, recovery_grace,
  announce, recover, read_signals, read_state, read_cache,
}

abbrev pub quiet : ℕ → List Arrival
quiet n = []

-- The device is online, and its link is not in doubt.
pub record IsHealthy (i : Intervals) (t : Timing) (c : DeviceCache) : Type 0 where
  pub is_online : c.state ≡ online
  pub undoubted : (c.connected && is_stale i t.now c.last_update_at) ≡ false

observed_online :
    (i : Intervals) (t : Timing) (connected stale : Bool) (st : LinkState) (c : DeviceCache)
    → st ≡ online
    → (connected && stale) ≡ false
    → grace_timeout i quiet t (stale_edge i quiet t connected stale st c)
      ≡ record { cache_state = online; asked_poll = false; cache = c }
unfolding stale_edge grace_timeout
observed_online i t true true online c e h = cc
observed_online i t true false online c e h = refl
observed_online i t false stale online c e h = refl
observed_online i t connected stale lost c e h = cc
observed_online i t connected stale recovering c e h = cc

observed_lost :
    (i : Intervals) (t : Timing) (connected stale : Bool) (st : LinkState) (c : DeviceCache)
    → st ≡ lost
    → grace_timeout i quiet t (stale_edge i quiet t connected stale st c)
      ≡ record { cache_state = lost; asked_poll = false; cache = c }
unfolding stale_edge grace_timeout
observed_lost i t connected stale online c e = cc
observed_lost i t true true lost c e = refl
observed_lost i t true false lost c e = refl
observed_lost i t false stale lost c e = refl
observed_lost i t connected stale recovering c e = cc

observed_recovering :
    (i : Intervals) (t : Timing) (connected stale : Bool) (st : LinkState) (c : DeviceCache)
    → st ≡ recovering
    → grace_timeout i quiet t (stale_edge i quiet t connected stale st c) ≡ (
        if ltb recovery_grace (recovery_age t.aged c)
        then record { cache_state = lost; asked_poll = false; cache = fail_recovery c }
        else record { cache_state = recovering; asked_poll = false; cache = c })
unfolding stale_edge grace_timeout arrive
observed_recovering i t connected stale online c e = cc
observed_recovering i t connected stale lost c e = cc
observed_recovering i t true true recovering c e = refl
observed_recovering i t true false recovering c e = refl
observed_recovering i t false stale recovering c e = refl

observe-online :
    (i : Intervals) (t : Timing) (c : DeviceCache)
    → IsHealthy i t c
    → observe i quiet t c ≡ record { cache_state = online; asked_poll = false; cache = c }
unfolding observe arrive
observe-online i t c h =
    observed_online i t c.connected (is_stale i t.now c.last_update_at) c.state c h.is_online
      h.undoubted

pub read-online :
    (ops : FloatOps) (i : Intervals) (t : Timing) (signals : List SignalConfig) (c : DeviceCache)
    → IsHealthy i t c
    → let (readings, d) = read_signals ops quiet 7 signals (recover quiet c) in
      read_cache ops quiet i t signals c ≡ (false, readings, d)
unfolding read_cache read_state arrive
read-online ops i t signals c h = rw (observe-online i t c h)

-- What a read leaves of a device that is not online.
unfoldable pub timed_out : Timing → DeviceCache → DeviceCache
unfolding fail_recovery
timed_out t c = if ltb recovery_grace (recovery_age t.aged c) then fail_recovery c else c

not_timed_out : (t : Timing) (c : DeviceCache) → c.state ≡ lost → timed_out t c ≡ c
unfolding timed_out recovery_age
not_timed_out t c h = ground arith

offline-cases : (st : LinkState) → st ≢ online → (st ≡ lost) ⊎ (st ≡ recovering)
offline-cases lost h = inl refl
offline-cases recovering h = inr refl
offline-cases online h = absurd (h refl)

read-lost :
    (ops : FloatOps) (i : Intervals) (t : Timing) (signals : List SignalConfig) (c : DeviceCache)
    → c.state ≡ lost
    → let (readings, d) = announce signals (timed_out t c) in
      read_cache ops quiet i t signals c ≡ (false, readings, d)
unfolding read_cache observe read_state arrive
read-lost ops i t signals c h =
    let o = observed_lost i t c.connected (is_stale i t.now c.last_update_at) c.state c h in
    rw (o, not_timed_out t c h)

timed_out_is :
    (t : Timing) (c : DeviceCache) (b : Bool)
    → ltb recovery_grace (recovery_age t.aged c) ≡ b
    → timed_out t c ≡ (if b then fail_recovery c else c)
unfolding timed_out
timed_out_is t c b e = rw e

read-recovering :
    (ops : FloatOps) (i : Intervals) (t : Timing) (signals : List SignalConfig) (c : DeviceCache)
    → c.state ≡ recovering
    → let (readings, d) = announce signals (timed_out t c) in
      read_cache ops quiet i t signals c ≡ (false, readings, d)
unfolding read_cache observe read_state arrive
read-recovering ops i t signals c h =
    let o = observed_recovering i t c.connected (is_stale i t.now c.last_update_at) c.state c h in
    elim (Bool-cases (ltb recovery_grace (recovery_age t.aged c))) [
      | inl e ↦ rw (o, timed_out_is t c true e, e)
      | inr e ↦ rw (o, timed_out_is t c false e, e)
    ]

pub read-offline :
    (ops : FloatOps) (i : Intervals) (t : Timing) (signals : List SignalConfig) (c : DeviceCache)
    → c.state ≢ online
    → let (readings, d) = announce signals (timed_out t c) in
      read_cache ops quiet i t signals c ≡ (false, readings, d)
read-offline ops i t signals c h = elim (offline-cases c.state h) [
  | inl e ↦ read-lost ops i t signals c e
  | inr e ↦ read-recovering ops i t signals c e
]
