-- ===== src/Config/Parse.antt =====
-- `_parse_gateway_config` of src/dnp3_gateway/backend/config_client.py: the backend's answer to a
-- GatewayConfig. The log lines are left out, but not the conversions that they call.
pub mod Bounds
pub mod Whole
use horstmann_dnp3_gateway.Base.{
  ℕ, zero, suc, String, Bool, true, not, ◌||◌, Option, none, some, List, [], ◌∷◌, if◌then◌else◌,
  ◌==◌, nat_eq, text_eq, pair_eq, contains,
}
use horstmann_dnp3_gateway.Base.Json.{
  Json, Items, Fields, null, bool, int, float, text, list, object, nil, cons, end, field,
}
use horstmann_dnp3_gateway.Base.Number.{ℤ, pos, float_one, float_zero}
use horstmann_dnp3_gateway.Config.{DeviceConfig, SignalConfig, GatewayConfig}
use horstmann_dnp3_gateway.Config.Values.{
  Conv, good, refused, overflow, ◌>>=◌, Python, get, truthy, or_else, is_blank, is_zero, in_range,
  safe_int, safe_finite_float, truncate, first_in_range, is_safe_device_ip, rewrite_loopback_ip,
}

-- GatewayConfigError, or an exception of a conversion that nothing here catches.
pub data Parsed : Type 0 where
  parsed : GatewayConfig → Parsed
  config_error : String → Parsed
  uncaught : Parsed

uncaught_or {ℓ} : {A : Type ℓ} → Conv A → (A → Parsed) → Parsed
uncaught_or (good a) f = f a
uncaught_or refused f = uncaught
uncaught_or overflow f = uncaught

-- items[:n]
pub take_items : ℕ → Items → Items
take_items zero items = nil
take_items (suc n) nil = nil
take_items (suc n) (cons v rest) = cons v (take_items n rest)

-- v or [], when that is a list
list_of : Json → Option Items
unfolding truthy
list_of (list items) = some items
list_of v = if truthy v then none else some nil

-- isinstance(item, dict)
unfoldable pub object_of : Json → Option Fields
object_of (object item) = some item
object_of v = none

-- What the loop makes of one item: the rest of the loop, or an exception that ends it.
pub after_item {ℓ} : {A : Type ℓ} → Conv A → Conv (List A) → Conv (List A)
after_item (good a) rest = rest >>= λ found. good (a ∷ found)
after_item refused rest = rest
after_item overflow rest = overflow

module _ (python : Python) where
  -- The int() of the log line on an address out of range.
  check_address : Fields → Conv ℤ
  check_address item =
      let v = get "dnp3_address" item in
      if is_blank v then good (pos 0) else python.int_of (or_else (int (pos 0)) v)

  endpoint_type : Fields → String
  endpoint_type item =
      let v = get "ip_endpoint_type" item in
      if contains (python.lower (python.strip (python.str_of (or_else (text "") v))))
        ("initiating" ∷ "listening" ∷ [])
      then python.lower (python.strip (python.str_of (or_else (text "listening") v)))
      else "listening"

  -- Only a port in range is kept.
  port_in_range : ℤ → Option ℤ
  port_in_range n = if in_range 1 65535 n then some n else none

  listen_port : Fields → Conv (Option ℤ)
  unfolding port_in_range
  listen_port item =
      let v = get "master_ip_port" item in
      if is_blank v || is_zero v then good none else python.int_of v >>= λ n. good (port_in_range n)

  abbrev pub raw_ip : Fields → String
  raw_ip item = python.str_of (or_else (text "") (get "ip_address" item))

  unfoldable pub device : Bool → Fields → Conv DeviceConfig
  unfolding check_address endpoint_type listen_port
  device rewrite item = safe_int python (pos 1) 0 65519 (get "dnp3_address" item) >>= λ address.
      check_address item >>= λ checked.
      first_in_range python 1 65535 ("dnp3_tcp_port" ∷ "dnp3_port" ∷ "tcp_port" ∷ []) item
      >>= λ tcp_port.
          first_in_range python 0 65519
            ("master_address" ∷ "dnp3_master_address" ∷ "local_address" ∷ []) item
          >>= λ master_address. listen_port item >>= λ master_ip_port.
              safe_int python (pos 5) 1 3600 (get "poll_interval_sec" item) >>= λ poll_interval.
              safe_int python (pos 3000) 100 60000 (get "timeout_ms" item) >>= λ timeout.
              safe_int python (pos 2) 0 20 (get "retry_count" item) >>= λ retry_count.
              good (record {
                code = truncate python 64 (get "code" item);
                name = truncate python 256 (or_else (get "code" item) (get "name" item));
                ip_address = rewrite_loopback_ip python rewrite (raw_ip item);
                dnp3_address = address;
                dnp3_tcp_port = tcp_port;
                master_address = master_address;
                ip_endpoint_type = endpoint_type item;
                master_ip_port = master_ip_port;
                poll_interval_sec = poll_interval;
                timeout_ms = timeout;
                retry_count = retry_count;
                signal_profile =
                    truncate python 64
                      (or_else (text "horstmann_sn2_fixed") (get "signal_profile" item));
              })

  add_device : Bool → Option Fields → Conv (List DeviceConfig) → Conv (List DeviceConfig)
  unfolding after_item device
  add_device rewrite none found = found
  add_device rewrite (some item) found =
      if not (truthy (get "code" item)) || not (is_safe_device_ip python (raw_ip item))
      then found
      else after_item (device rewrite item) found

  -- for item in devices_raw
  unfoldable pub devices_of : Bool → Items → Conv (List DeviceConfig)
  unfolding add_device
  devices_of rewrite nil = good []
  devices_of rewrite (cons v rest) = add_device rewrite (object_of v) (devices_of rewrite rest)

  optional_unit : Json → Option String
  optional_unit v = if truthy v then some (truncate python 32 v) else none

  unfoldable pub signal : Fields → Conv SignalConfig
  unfolding optional_unit
  signal item = safe_finite_float python float_one (get "scale" item) >>= λ scale.
      safe_finite_float python float_zero (get "offset" item) >>= λ offset.
      safe_int python (pos 30) 0 255 (get "dnp3_object_group" item) >>= λ group.
      safe_int python (pos 0) 0 65535 (get "dnp3_index" item) >>= λ index. good (record {
        key = truncate python 64 (get "key" item);
        label = truncate python 256 (or_else (get "key" item) (get "label" item));
        unit = optional_unit (get "unit" item);
        source = truncate python 64 (or_else (text "master") (get "source" item));
        dnp3_class = truncate python 64 (or_else (text "Class 1") (get "dnp3_class" item));
        data_type = truncate python 64 (or_else (text "analog") (get "data_type" item));
        dnp3_object_group = group;
        dnp3_index = index;
        scale = scale;
        offset = offset;
        supports_alarm = truthy (get "supports_alarm" item);
      })

  add_signal : Option Fields → Conv (List SignalConfig) → Conv (List SignalConfig)
  unfolding after_item signal
  add_signal none found = found
  add_signal (some item) found =
      if truthy (get "key" item) then after_item (signal item) found else found

  -- for item in signals_raw
  unfoldable pub signals_of : Items → Conv (List SignalConfig)
  unfolding add_signal
  signals_of nil = good []
  signals_of (cons v rest) = add_signal (object_of v) (signals_of rest)

  -- The nonce is 0 when it does not convert.
  nonce_of : Conv ℤ → Conv ℤ
  nonce_of (good n) = good n
  nonce_of refused = good (pos 0)
  nonce_of overflow = overflow

  -- bool(data.get("is_active", True))
  active_of : Fields → Bool
  active_of end = true
  active_of (field k v rest) = if k == "is_active" then truthy v else active_of rest

  finish : String → Fields → List DeviceConfig → List SignalConfig → Conv GatewayConfig
  unfolding nonce_of active_of
  finish default_code answer devices signals =
      nonce_of (python.int_of (or_else (int (pos 0)) (get "refresh_nonce" answer))) >>= λ nonce.
      python.int_of (or_else (int (pos 5)) (get "batch_interval_sec" answer)) >>= λ interval.
      python.int_of (or_else (int (pos 200)) (get "max_devices" answer)) >>= λ max_devices.
      good (record {
        gateway_code = python.str_of (or_else (text default_code) (get "gateway_code" answer));
        gateway_name = python.str_of (or_else (text "") (get "gateway_name" answer));
        batch_interval_sec = interval;
        max_devices = max_devices;
        is_active = active_of answer;
        config_version = python.str_of (or_else (text "") (get "config_version" answer));
        devices = devices;
        signals = signals;
        refresh_nonce = nonce;
      })

  with_signals : String → Fields → List DeviceConfig → Option Items → Parsed
  unfolding finish uncaught_or take_items
  with_signals default_code answer devices none =
      config_error "config response 'signals' list olmali"
  with_signals default_code answer devices (some items) =
      uncaught_or (signals_of (take_items 5000 items))
        (λ signals. uncaught_or (finish default_code answer devices signals) parsed)

  with_devices : Bool → String → Fields → Option Items → Parsed
  unfolding with_signals list_of
  with_devices rewrite default_code answer none =
      config_error "config response 'devices' list olmali"
  with_devices rewrite default_code answer (some items) =
      uncaught_or (devices_of rewrite (take_items 1000 items))
        (λ devices. with_signals default_code answer devices (list_of (get "signals" answer)))

  -- `rewrite` is the environment's REWRITE_LOOPBACK_TO_HOST. A GatewayConfigError has only the first
  -- words of its text.
  unfoldable pub parse_gateway_config : Bool → String → Fields → Parsed
  unfolding with_devices
  parse_gateway_config rewrite default_code answer =
      with_devices rewrite default_code answer (list_of (get "devices" answer))
