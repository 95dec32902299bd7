-- ===== src/Yadnp3/Masters.antt =====
-- The masters of the devices: one each, apart from each other, and only those of the configuration.
use horstmann_dnp3_gateway.Base.{
  contains-keys, contains-keep, is_some, ℕ, String, ◌≡◌, ◌≢◌, Option, arith, nat_eq, text_eq,
  pair_eq, lookup, refl, none, some, ◌+◌, ap, ◌∙◌, List, [], ◌∷◌, if◌then◌else◌, ==_self, ==_ne,
  contains, Dict, remove, lookup-insert, lookup-remove, false, not, keep, keys, Bool,
}
use horstmann_dnp3_gateway.Base.Number.{ℤ, pos, negsuc, FloatOps, int_ltb}
use horstmann_dnp3_gateway.Exception.{ok-injective, Result, ok, raise}
use horstmann_dnp3_gateway.Config.{DeviceConfig, SignalConfig}
use horstmann_dnp3_gateway.Config.Values.{Within}
use horstmann_dnp3_gateway.Yadnp3.Read.{Arrival, Timing}
use horstmann_dnp3_gateway.Yadnp3.Reader.{
  forget_devices, new_master, Channel, ManagedMaster, Reader, resolved_threads, int_max, int_min,
  open_master, ensure_found, ensure_master, read_master, read_device, forget_codes,
}

-- The threads of OpenDNP3's manager are between 1 and 64, whatever the setting.
pub resolved_threads-Within : (n : ℤ) → Within 1 64 (resolved_threads n)
unfolding resolved_threads int_max int_min int_ltb
resolved_threads-Within (pos n) = ground arith
resolved_threads-Within (negsuc n) = ground arith

module _ (strip lower : String → String) (opens : Channel → Option String) where
  opened_found :
      (m : ManagedMaster) (fault : Option String) (r : Reader) (mm : ManagedMaster)
      → (open_master strip lower opens m fault r).0 ≡ ok mm
      → lookup m.device.code (open_master strip lower opens m fault r).1.masters ≡ some mm
  unfolding open_master
  opened_found m (some t) r mm h = cc
  opened_found m none r mm h =
      rw (lookup-insert m.device.code m.device.code m r.masters, ==_self m.device.code)
        (ap some (ok-injective h))

  opened_others :
      (m : ManagedMaster) (fault : Option String) (r : Reader) (code : String)
      → m.device.code ≢ code
      → lookup code (open_master strip lower opens m fault r).1.masters ≡ lookup code r.masters
  unfolding open_master
  opened_others m (some t) r code h = refl
  opened_others m none r code h =
      rw (lookup-insert m.device.code code m r.masters, ==_ne m.device.code code h)

  -- After a call that gives a master, the master is in the dictionary, under the device's code.
  found_after :
      (device : DeviceConfig) (entry : Option ManagedMaster) (r : Reader) (mm : ManagedMaster)
      → lookup device.code r.masters ≡ entry
      → (ensure_found strip lower opens device entry r).0 ≡ ok mm
      → lookup device.code (ensure_found strip lower opens device entry r).1.masters ≡ some mm
  unfolding ensure_found new_master
  found_after device none r mm e h = opened_found _ _ r mm h
  found_after device (some m) r mm e h = cc

  -- A device's master, once it is there, is the one that every later call gives: the call opens no
  -- channel and changes nothing.
  pub ensure_twice :
      (device : DeviceConfig) (r : Reader) (mm : ManagedMaster)
      → (ensure_master strip lower opens device r).0 ≡ ok mm
      → let r' = (ensure_master strip lower opens device r).1 in
        ensure_master strip lower opens device r' ≡ (ok mm, r')
  unfolding ensure_master ensure_found
  ensure_twice device r mm h =
      let found = found_after device (lookup device.code r.masters) r mm refl h in rw found

  others_after :
      (device : DeviceConfig) (entry : Option ManagedMaster) (r : Reader) (code : String)
      → device.code ≢ code
      → lookup code (ensure_found strip lower opens device entry r).1.masters
        ≡ lookup code r.masters
  unfolding ensure_found new_master
  others_after device none r code h = opened_others _ _ r code h
  others_after device (some m) r code h = refl

  module _ (ops : FloatOps) (between : ℕ → List Arrival) (t : Timing) where
    read_master-others :
        (device : DeviceConfig) (signals : List SignalConfig) (m : Result ManagedMaster)
        (r : Reader) (code : String)
        → device.code ≢ code
        → lookup code (read_master strip lower opens ops between t device signals (m, r)).1.masters
          ≡ lookup code r.masters
    unfolding read_master
    read_master-others device signals (raise exc) r code h = refl
    read_master-others device signals (ok mm) r code h =
        rw (lookup-insert device.code code _ r.masters, ==_ne device.code code h)

    -- A read of one device leaves the masters of all others, and their caches, as they are, whether
    -- it gives readings or raises.
    pub read_device-others :
        (device : DeviceConfig) (signals : List SignalConfig) (r : Reader) (code : String)
        → device.code ≢ code
        → lookup code (read_device strip lower opens ops between t device signals r).1.masters
          ≡ lookup code r.masters
    unfolding read_device ensure_master
    read_device-others device signals r code h =
        let (m, r') = ensure_found strip lower opens device (lookup device.code r.masters) r in
        read_master-others device signals m r' code h
        ∙ others_after device (lookup device.code r.masters) r code h

forget_codes-lookup :
    (codes : List String) (n : ℕ) (masters : Dict String ManagedMaster) (code : String)
    → lookup code (forget_codes codes n masters).1
      ≡ (if contains code codes then none else lookup code masters)
unfolding forget_codes contains
forget_codes-lookup [] n masters code = refl
forget_codes-lookup (c ∷ codes) n masters code = ground (
  arith,
  forget_codes-lookup codes n masters code,
  forget_codes-lookup codes (n + 1) (remove c masters) code,
  lookup-remove c code masters,
  text_eq.test_iff code c,
  text_eq.test_iff c code,
)

not_some : {A : Type 0} (o : Option A) → is_some o ≡ false → o ≡ none
not_some none h = refl
not_some (some a) h = cc

-- forget_devices keeps the masters of the active devices as they are and drops all others.
forget_devices-exact :
    (active : List String) (r : Reader) (code : String)
    → lookup code (forget_devices active r).1.masters
      ≡ (if contains code active then lookup code r.masters else none)
unfolding forget_devices
forget_devices-exact active r code =
    let stale : String → Bool = λ c. not (contains c active) in
    ground (
      arith,
      forget_codes-lookup (keep stale (keys r.masters)) 0 r.masters code,
      contains-keep stale code (keys r.masters),
      contains-keys code r.masters,
    )
