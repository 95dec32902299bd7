-- ===== src/Config/Parse/Whole.antt =====
-- The whole answer: bounds on the configuration that it gives.
use horstmann_dnp3_gateway.Base.{
  sym, ℕ, ◌≤◌, String, ◌≡◌, refl, ap, Bool, Option, none, some, List, arith, length, All, subst,
}
use horstmann_dnp3_gateway.Base.Json.{Items, Fields}
use horstmann_dnp3_gateway.Config.{DeviceConfig, SignalConfig, GatewayConfig}
use horstmann_dnp3_gateway.Config.Values.{
  good-injective, Conv, good, refused, overflow, Python, get,
}
use horstmann_dnp3_gateway.Config.Parse.{
  config_error, uncaught, Parsed, parsed, devices_of, signals_of, parse_gateway_config, take_items,
  uncaught_or, with_devices, with_signals, finish, list_of,
}
use horstmann_dnp3_gateway.Config.Parse.Bounds.{
  IsBoundedDevice, IsBoundedSignal, Listed, bind-good, count, count-take_items-le, devices-Listed,
  signals-Listed,
}

pub record IsBounded (config : GatewayConfig) : Type 0 where
  pub devices : All IsBoundedDevice config.devices
  pub device_count : length config.devices ≤ 1000
  pub signals : All IsBoundedSignal config.signals
  pub signal_count : length config.signals ≤ 5000

Gives : Parsed → Type 0
Gives (parsed config) = IsBounded config
Gives (config_error t) = Unit
Gives uncaught = Unit

uncaught_or-Gives {ℓ} :
    {A : Type ℓ} (c : Conv A) (f : A → Parsed)
    → ((a : A) → c ≡ good a → Gives (f a))
    → Gives (uncaught_or c f)
unfolding uncaught_or Gives
uncaught_or-Gives (good a) f k = k a refl
uncaught_or-Gives refused f k = tt
uncaught_or-Gives overflow f k = tt

-- The list of a loop over the first `n` items.
listed {ℓ} :
    {A : Type ℓ} (P : A → Type 0) (n : ℕ) (items : Items) (r : Conv (List A)) (xs : List A)
    → Listed P (count (take_items n items)) r
    → r ≡ good xs
    → All P xs × (length xs ≤ n)
listed P n items r xs h q =
    let (members, few) = subst (Listed P (count (take_items n items))) q h in
    (members, omega (arith, few, count-take_items-le n items))

module _ (python : Python) (default_code : String) (answer : Fields) where
  finish-lists :
      (devices : List DeviceConfig) (signals : List SignalConfig) (config : GatewayConfig)
      → finish python default_code answer devices signals ≡ good config
      → (config.devices ≡ devices) × (config.signals ≡ signals)
  unfolding finish
  finish-lists devices signals config h =
      let (nonce, e1, h1) = bind-good _ _ config h in
      let (interval, e2, h2) = bind-good _ _ config h1 in
      let (max_devices, e3, h3) = bind-good _ _ config h2 in
      (
        sym (ap (λ (c : GatewayConfig). c.devices) (good-injective h3)),
        sym (ap (λ (c : GatewayConfig). c.signals) (good-injective h3)),
      )

  with_signals-Gives :
      (devices : List DeviceConfig) (items : Option Items)
      → All IsBoundedDevice devices × (length devices ≤ 1000)
      → Gives (with_signals python default_code answer devices items)
  unfolding with_signals Gives
  with_signals-Gives devices none h = tt
  with_signals-Gives devices (some items) h =
      uncaught_or-Gives (signals_of python (take_items 5000 items)) _ (λ signals q.
        uncaught_or-Gives (finish python default_code answer devices signals) parsed (λ config e.
          let (same_devices, same_signals) = finish-lists devices signals config e in
          let (members, few) =
            listed IsBoundedSignal 5000 items (signals_of python (take_items 5000 items)) signals
              (signals-Listed python (take_items 5000 items)) q in
          record {
            devices = rw same_devices h.0;
            device_count = rw same_devices h.1;
            signals = rw same_signals members;
            signal_count = rw same_signals few;
          }))

  with_devices-Gives :
      (rewrite : Bool) (items : Option Items)
      → Gives (with_devices python rewrite default_code answer items)
  unfolding with_devices Gives
  with_devices-Gives rewrite none = tt
  with_devices-Gives rewrite (some items) =
      uncaught_or-Gives (devices_of python rewrite (take_items 1000 items)) _ (λ devices q.
        with_signals-Gives devices (list_of (get "signals" answer)) (
          listed IsBoundedDevice 1000 items (devices_of python rewrite (take_items 1000 items))
            devices (devices-Listed python rewrite (take_items 1000 items)) q))

  -- Whatever the backend answers and however Python converts its values: a configuration that comes
  -- out has at most 1000 devices and 5000 signals, each with its addresses, ports, intervals and
  -- indices in range, its scale and offset finite, and its code, name and profile, or its key, label,
  -- unit, source, class and type, cut to their limits.
  pub parse_gateway_config-IsBounded :
      (rewrite : Bool) (config : GatewayConfig)
      → parse_gateway_config python rewrite default_code answer ≡ parsed config
      → IsBounded config
  unfolding parse_gateway_config Gives
  parse_gateway_config-IsBounded rewrite config h =
      subst Gives h (with_devices-Gives rewrite (list_of (get "devices" answer)))
