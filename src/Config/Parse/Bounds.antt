-- ===== src/Config/Parse/Bounds.antt =====
-- The bounds that every configuration keeps, whatever the backend answers.
use horstmann_dnp3_gateway.Base.{
  ℕ, ◌≤◌, ◌≡◌, refl, inl, inr, true, ◌||◌, Option, List, arith, Bool-cases, size, size-prefix-le,
  subst, zero, suc, Bool, not, length, All, none, some, String,
}
use horstmann_dnp3_gateway.Base.Json.{Json, Items, Fields, nil, cons}
use horstmann_dnp3_gateway.Base.Number.{ℤ, is_finite, float_one, float_zero}
use horstmann_dnp3_gateway.Config.{DeviceConfig, SignalConfig}
use horstmann_dnp3_gateway.Config.Values.{
  truthy, is_safe_device_ip, good-injective, Conv, good, refused, overflow, ◌>>=◌, Python, get,
  is_blank, is_zero, in_range, in_range-Within, Within, safe_int-Within, truncate,
}
use horstmann_dnp3_gateway.Config.Values.Ranges.{OptionWithin, finite-safe, first_in_range-Within}
use horstmann_dnp3_gateway.Config.Parse.{
  optional_unit, add_device, add_signal, object_of, raw_ip, device, devices_of, signal, signals_of,
  after_item, take_items, listen_port, port_in_range,
}

-- A chain that gives a value has given one at each step.
pub bind-good {ℓ κ} :
    {A : Type ℓ} {B : Type κ} (c : Conv A) (f : A → Conv B) (b : B)
    → (c >>= f) ≡ good b
    → (a : A) × (c ≡ good a) × (f a ≡ good b)
unfolding ◌>>=◌
bind-good (good a) f b h = (a, refl, h)
bind-good refused f b h = cc
bind-good overflow f b h = cc

pub record IsBoundedDevice (d : DeviceConfig) : Type 0 where
  pub address : Within 0 65519 d.dnp3_address
  pub tcp_port : OptionWithin 1 65535 d.dnp3_tcp_port
  pub master : OptionWithin 0 65519 d.master_address
  pub server_port : OptionWithin 1 65535 d.master_ip_port
  pub interval : Within 1 3600 d.poll_interval_sec
  pub timeout : Within 100 60000 d.timeout_ms
  pub retries : Within 0 20 d.retry_count
  pub code_length : size d.code ≤ 64
  pub name_length : size d.name ≤ 256
  pub profile_length : size d.signal_profile ≤ 64

-- The length of a unit, if there is one.
abbrev pub UnitWithin : ℕ → Option String → Type 0
UnitWithin n none = Unit
UnitWithin n (some t) = size t ≤ n

pub record IsBoundedSignal (s : SignalConfig) : Type 0 where
  pub group : Within 0 255 s.dnp3_object_group
  pub index : Within 0 65535 s.dnp3_index
  pub scale_finite : is_finite s.scale ≡ true
  pub offset_finite : is_finite s.offset ≡ true
  pub key_length : size s.key ≤ 64
  pub label_length : size s.label ≤ 256
  pub unit_length : UnitWithin 32 s.unit
  pub source_length : size s.source ≤ 64
  pub class_length : size s.dnp3_class ≤ 64
  pub type_length : size s.data_type ≤ 64

module _ (python : Python) where
  port_in_range-Within : (n : ℤ) → OptionWithin 1 65535 (port_in_range python n)
  unfolding port_in_range
  port_in_range-Within n = elim (Bool-cases (in_range 1 65535 n)) [
    | inl q ↦ rw q (in_range-Within 1 65535 n q)
    | inr q ↦ rw q tt
  ]

  listen_port-Within :
      (item : Fields) (z : Option ℤ) → listen_port python item ≡ good z → OptionWithin 1 65535 z
  unfolding listen_port
  listen_port-Within item z h =
      elim (Bool-cases
        (is_blank (get "master_ip_port" item) || is_zero (get "master_ip_port" item))) [
          | inl q ↦ subst (OptionWithin 1 65535) (good-injective (rw q at h)) tt
          | inr q ↦
              let (n, e, g) =
                bind-good (python.int_of (get "master_ip_port" item))
                  (λ n. good (port_in_range python n)) z (rw q at h) in
              subst (OptionWithin 1 65535) (good-injective g) (port_in_range-Within n)
        ]

  optional_unit-Within : (v : Json) → UnitWithin 32 (optional_unit python v)
  unfolding optional_unit truncate
  optional_unit-Within v = elim (Bool-cases (truthy v)) [
    | inl q ↦ rw q (size-prefix-le 32 _)
    | inr q ↦ rw q tt
  ]

  signal-IsBounded :
      (item : Fields) (s : SignalConfig) → signal python item ≡ good s → IsBoundedSignal s
  unfolding signal truncate is_finite
  signal-IsBounded item s h =
      let (scale, e1, h1) = bind-good _ _ s h in
      let (offset, e2, h2) = bind-good _ _ s h1 in
      let (group, e3, h3) = bind-good _ _ s h2 in
      let (index, e4, h4) = bind-good _ _ s h3 in
      subst IsBoundedSignal (good-injective h4) (record {
        group =
            safe_int-Within python 30 0 255 (get "dnp3_object_group" item) group (omega arith)
              (omega arith) e3;
        index =
            safe_int-Within python 0 0 65535 (get "dnp3_index" item) index (omega arith)
              (omega arith) e4;
        scale_finite = finite-safe python float_one (get "scale" item) scale refl e1;
        offset_finite = finite-safe python float_zero (get "offset" item) offset refl e2;
        key_length = size-prefix-le 64 _;
        label_length = size-prefix-le 256 _;
        unit_length = optional_unit-Within (get "unit" item);
        source_length = size-prefix-le 64 _;
        class_length = size-prefix-le 64 _;
        type_length = size-prefix-le 64 _;
      })

  device-IsBounded :
      (rewrite : Bool) (item : Fields) (d : DeviceConfig)
      → device python rewrite item ≡ good d
      → IsBoundedDevice d
  unfolding device truncate
  device-IsBounded rewrite item d h =
      let (address, e1, h1) = bind-good _ _ d h in
      let (checked, e2, h2) = bind-good _ _ d h1 in
      let (tcp_port, e3, h3) = bind-good _ _ d h2 in
      let (master, e4, h4) = bind-good _ _ d h3 in
      let (server_port, e5, h5) = bind-good (listen_port python item) _ d h4 in
      let (interval, e6, h6) = bind-good _ _ d h5 in
      let (timeout, e7, h7) = bind-good _ _ d h6 in
      let (retries, e8, h8) = bind-good _ _ d h7 in
      subst IsBoundedDevice (good-injective h8) (record {
        address =
            safe_int-Within python 1 0 65519 (get "dnp3_address" item) address (omega arith)
              (omega arith) e1;
        tcp_port = first_in_range-Within python 1 65535 _ item tcp_port e3;
        master = first_in_range-Within python 0 65519 _ item master e4;
        server_port = listen_port-Within item server_port e5;
        interval =
            safe_int-Within python 5 1 3600 (get "poll_interval_sec" item) interval (omega arith)
              (omega arith) e6;
        timeout =
            safe_int-Within python 3000 100 60000 (get "timeout_ms" item) timeout (omega arith)
              (omega arith) e7;
        retries =
            safe_int-Within python 2 0 20 (get "retry_count" item) retries (omega arith)
              (omega arith) e8;
        code_length = size-prefix-le 64 _;
        name_length = size-prefix-le 256 _;
        profile_length = size-prefix-le 64 _;
      })

-- The number of items.
abbrev pub count : Items → ℕ
count nil = 0
count (cons v rest) = suc (count rest)

pub count-take_items-le : (n : ℕ) (items : Items) → count (take_items n items) ≤ n
unfolding take_items
count-take_items-le zero items = omega arith
count-take_items-le (suc n) nil = omega arith
count-take_items-le (suc n) (cons v rest) = omega (arith, count-take_items-le n rest)

-- What one item adds to a list of at most `n` members that all satisfy `P`.
abbrev pub Listed {ℓ} : {A : Type ℓ} → (A → Type 0) → ℕ → Conv (List A) → Type 0
Listed P n (good xs) = All P xs × (length xs ≤ n)
Listed P n refused = Unit
Listed P n overflow = Unit

Listed-suc {ℓ} :
    {A : Type ℓ} (P : A → Type 0) (n : ℕ) (r : Conv (List A)) → Listed P n r → Listed P (suc n) r
Listed-suc P n (good xs) h = (h.0, omega (arith, h.1))
Listed-suc P n refused h = tt
Listed-suc P n overflow h = tt

after_item-Listed {ℓ} :
    {A : Type ℓ} (P : A → Type 0) (n : ℕ) (c : Conv A) (rest : Conv (List A))
    → ((a : A) → c ≡ good a → P a)
    → Listed P n rest
    → Listed P (suc n) (after_item c rest)
unfolding after_item ◌>>=◌
after_item-Listed P n (good a) (good xs) k h = ((k a refl, h.0), omega (arith, h.1))
after_item-Listed P n (good a) refused k h = tt
after_item-Listed P n (good a) overflow k h = tt
after_item-Listed P n refused rest k h = Listed-suc P n rest h
after_item-Listed P n overflow rest k h = tt

module _ (python : Python) where
  add_device-Listed :
      (rewrite : Bool) (n : ℕ) (item : Option Fields) (found : Conv (List DeviceConfig))
      → Listed IsBoundedDevice n found
      → Listed IsBoundedDevice (suc n) (add_device python rewrite item found)
  unfolding add_device
  add_device-Listed rewrite n none found h = Listed-suc IsBoundedDevice n found h
  add_device-Listed rewrite n (some item) found h =
      elim (Bool-cases
        (not (truthy (get "code" item)) || not (is_safe_device_ip python (raw_ip python item)))) [
          | inl q ↦ rw q (Listed-suc IsBoundedDevice n found h)
          | inr q ↦ rw q (
              after_item-Listed IsBoundedDevice n (device python rewrite item) found
                (device-IsBounded python rewrite item) h)
        ]

  pub devices-Listed :
      (rewrite : Bool) (items : Items)
      → Listed IsBoundedDevice (count items) (devices_of python rewrite items)
  unfolding devices_of
  devices-Listed rewrite nil = (tt, omega arith)
  devices-Listed rewrite (cons v rest) =
      add_device-Listed rewrite (count rest) (object_of v) (devices_of python rewrite rest)
        (devices-Listed rewrite rest)

  add_signal-Listed :
      (n : ℕ) (item : Option Fields) (found : Conv (List SignalConfig))
      → Listed IsBoundedSignal n found
      → Listed IsBoundedSignal (suc n) (add_signal python item found)
  unfolding add_signal
  add_signal-Listed n none found h = Listed-suc IsBoundedSignal n found h
  add_signal-Listed n (some item) found h = elim (Bool-cases (truthy (get "key" item))) [
    | inl q ↦ rw q (
        after_item-Listed IsBoundedSignal n (signal python item) found
          (signal-IsBounded python item) h)
    | inr q ↦ rw q (Listed-suc IsBoundedSignal n found h)
  ]

  pub signals-Listed :
      (items : Items) → Listed IsBoundedSignal (count items) (signals_of python items)
  unfolding signals_of
  signals-Listed nil = (tt, omega arith)
  signals-Listed (cons v rest) =
      add_signal-Listed (count rest) (object_of v) (signals_of python rest) (signals-Listed rest)
