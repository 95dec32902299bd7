-- ===== src/State.antt =====
-- What the threads share: class GatewayState of src/dnp3_gateway/state.py. Each method holds the one
-- lock, so a method is one step; the clocks are arguments, in milliseconds. CacheFile has the JSON of
-- the cache file.
pub mod Refresh
pub mod Due
pub mod Cache
use horstmann_dnp3_gateway.Base.{
  ℕ, ◌-◌, ◌*◌, max, String, Bool, true, false, not, ◌||◌, Option, none, some, List, [], map, ltb,
  leb, if◌then◌else◌, ◌==◌, nat_eq, text_eq, pair_eq, contains, keep, Dict, lookup, insert,
  keep_keys, prefix,
}
use horstmann_dnp3_gateway.Base.Json.{Json, Fields, null, text, object}
use horstmann_dnp3_gateway.Base.Number.{ℤ, pos, Float, int_ltb, at_least}
use horstmann_dnp3_gateway.Exception.{Result, ok, raise, other}
use horstmann_dnp3_gateway.Config.{DeviceConfig, SignalConfig, GatewayConfig}
use horstmann_dnp3_gateway.Config.Values.{
  Conv, good, refused, overflow, Python, get, or_else, truthy,
}
use horstmann_dnp3_gateway.CacheFile.{payload}
use horstmann_dnp3_gateway.CacheFile.Reading.{
  Read, got, type_error, attribute_error, untyped, find, read_lists,
}

pub record GatewayState : Type 0 where
  pub devices : List DeviceConfig
  pub signals : List SignalConfig
  pub last_read_at : Dict String ℕ
  pub config_version : String
  pub gateway_active : Bool
  pub gateway_name : String
  pub refresh_nonce : ℤ
  pub refresh_pending : Bool
  pub has_cache_path : Bool
  pub cache_max_age : ℕ
  pub config_loaded_at : Option ℕ
  pub last_refresh_error : Option String
  pub last_refresh_ok : Option ℕ
  pub last_refresh_attempt : Option ℕ

-- `__init__`; the age is in milliseconds.
unfoldable pub init : Bool → ℕ → GatewayState
init has_cache_path max_age = record {
  devices = [];
  signals = [];
  last_read_at = [];
  config_version = "";
  gateway_active = false;
  gateway_name = "";
  refresh_nonce = pos 0;
  refresh_pending = false;
  has_cache_path = has_cache_path;
  cache_max_age = max 60000 max_age;
  config_loaded_at = none;
  last_refresh_error = none;
  last_refresh_ok = none;
  last_refresh_attempt = none;
}

-- {device.code for device in devices}
abbrev pub codes : List DeviceConfig → List String
codes = map (λ (d : DeviceConfig). d.code)

-- The comparison of the nonces.
unfoldable pub follow_nonce : ℤ → GatewayState → GatewayState
follow_nonce new_nonce s =
    if int_ltb s.refresh_nonce new_nonce
    then record s { refresh_pending = true; refresh_nonce = new_nonce }
    else if int_ltb new_nonce s.refresh_nonce
    then record s { refresh_nonce = new_nonce }
    else s

unfoldable pub take_config : GatewayConfig → ℕ → GatewayState → GatewayState
take_config config now s = record s {
  devices = config.devices;
  signals = config.signals;
  gateway_active = config.is_active;
  gateway_name = config.gateway_name;
  last_read_at = keep_keys (λ code. contains code (codes config.devices)) s.last_read_at;
  config_version = config.config_version;
  config_loaded_at = some now;
  last_refresh_ok = some now;
  last_refresh_attempt = some now;
  last_refresh_error = none;
}

-- What `update` changes under the lock.
unfoldable pub install : GatewayConfig → ℕ → GatewayState → GatewayState
unfolding follow_nonce take_config
install config now s = follow_nonce config.refresh_nonce (take_config config now s)

-- The cache file: it is not there; it cannot be read, is not UTF-8 or not JSON; or it holds a value.
pub data File : Type 0 where
  absent : File
  unreadable : File
  holds : Json → File

-- How the writing of the file ends: the file is replaced as a whole, or an OSError, or another
-- exception, such as UnicodeEncodeError, leaves it as it was.
pub data Written : Type 0 where
  replaced : Written
  os_error : Written
  write_raises : String → Written

-- time.time() as a float of seconds, and such a float in milliseconds.
pub record Clock : Type 0 where
  pub seconds : ℕ → Float
  pub millis : Float → ℕ

-- What `update` gives when the writing has ended.
unfoldable pub after_persist :
    GatewayState → Result (Unit {0}) × File → Result Bool × GatewayState × File
after_persist s (ok u, f) = (ok true, s, f)
after_persist s (raise exc, f) = (raise exc, s, f)

module _ (clock : Clock) where
  -- `_persist_unsafe`, where only OSError is caught. The time is that of `update`, which is never 0.
  unfoldable pub persist : Bool → GatewayConfig → ℕ → Written → File → Result (Unit {0}) × File
  persist has_path config loaded_at end f = if not has_path then (ok tt, f) else elim end [
    | replaced ↦ (ok tt, holds (object (payload config (clock.seconds loaded_at))))
    | os_error ↦ (ok tt, f)
    | write_raises t ↦ (raise (other t), f)
  ]

  -- `update`: whether the version is new, or the exception; the state, and the file.
  unfoldable pub update :
      GatewayConfig → ℕ → Written → GatewayState → File → Result Bool × GatewayState × File
  unfolding install persist after_persist
  update config now end s f =
      if config.config_version == s.config_version
      then (ok false, install config now s, f)
      else after_persist (install config now s) (persist s.has_cache_path config now end f)

unfoldable pub take_refresh_request : GatewayState → Bool × GatewayState
take_refresh_request s =
    if s.refresh_pending then (true, record s { refresh_pending = false }) else (false, s)

unfoldable pub record_refresh_error : String → ℕ → GatewayState → GatewayState
record_refresh_error error now s = record s {
  last_refresh_error = some (prefix 500 error);
  last_refresh_attempt = some now;
}

-- bool(data.get("is_active", True))
active_of : Option Json → Bool
active_of none = true
active_of (some v) = truthy v

-- How `load_from_cache` ends: it returns True or False, or raises AttributeError or OverflowError.
pub data Loaded : Type 0 where
  loaded : Loaded
  not_loaded : Loaded
  load_raises : Loaded

module _ (python : Python) (clock : Clock) where
  -- str(data.get(key) or "")
  unfoldable pub text_of : String → Fields → String
  text_of key fields = python.str_of (or_else (text "") (get key fields))

  seconds_of : Conv Float → Conv (Option ℕ)
  seconds_of (good x) = good (some (clock.millis x))
  seconds_of refused = good none
  seconds_of overflow = overflow

  -- The time of the file, if float() takes it.
  unfoldable pub cached_at : Json → Conv (Option ℕ)
  unfolding seconds_of
  cached_at null = good none
  cached_at v = seconds_of (python.float_of v)

  -- What is taken under the lock: `t` is the state `s` with the devices and the signals of the file.
  unfoldable pub take_cached :
      Fields → Conv (Option ℕ) → GatewayState → GatewayState → Loaded × GatewayState
  unfolding active_of text_of find
  take_cached fields refused s t = (load_raises, s)
  take_cached fields overflow s t = (load_raises, s)
  take_cached fields (good time) s t = (
    loaded,
    record t {
      gateway_active = active_of (find "is_active" fields);
      gateway_name = text_of "gateway_name" fields;
      config_version = text_of "config_version" fields;
      config_loaded_at = time;
    },
  )

  -- The end after the lists are read. Objects whose fields have other types than their class
  -- declares are installed by Python as they are; this state cannot hold them and keeps its own.
  unfoldable pub take_lists :
      Fields → Read (List DeviceConfig × List SignalConfig) → GatewayState → Loaded × GatewayState
  unfolding take_cached cached_at
  take_lists fields type_error s = (not_loaded, s)
  take_lists fields attribute_error s = (load_raises, s)
  take_lists fields untyped s = take_cached fields (cached_at (get "cached_at_unix" fields)) s s
  take_lists fields (got (devices, signals)) s =
      take_cached fields (cached_at (get "cached_at_unix" fields)) s
        (record s { devices = devices; signals = signals })

  -- The value of the file: only an object has `get`.
  unfoldable pub load_value : Json → GatewayState → Loaded × GatewayState
  unfolding take_lists read_lists
  load_value (object fields) s = take_lists fields (read_lists fields) s
  load_value v s = (load_raises, s)

  unfoldable pub load_from_cache : File → GatewayState → Loaded × GatewayState
  unfolding load_value
  load_from_cache absent s = (not_loaded, s)
  load_from_cache unreadable s = (not_loaded, s)
  load_from_cache (holds v) s = if s.has_cache_path then load_value v s else (not_loaded, s)

unfoldable pub mark_read : String → ℕ → GatewayState → GatewayState
mark_read code now s = record s { last_read_at = insert code now s.last_read_at }

-- d.get(code, 0.0)
abbrev pub or_zero : Option ℕ → ℕ
or_zero none = 0
or_zero (some t) = t

last_read : String → GatewayState → ℕ
last_read code s = or_zero (lookup code s.last_read_at)

unfoldable pub is_due : ℕ → GatewayState → DeviceConfig → Bool
unfolding last_read
is_due now s d = leb (1000 * at_least 1 d.poll_interval_sec) (now - last_read d.code s)

unfoldable pub due_devices : ℕ → GatewayState → List DeviceConfig
unfolding is_due
due_devices now s = keep (is_due now s) s.devices

unfoldable pub cache_age : ℕ → GatewayState → Option ℕ
cache_age now s = elim s.config_loaded_at [ none ↦ none | some t ↦ some (now - t) ]

unfoldable pub is_cache_stale : ℕ → GatewayState → Bool
unfolding cache_age
is_cache_stale now s = elim (cache_age now s) [ none ↦ false | some age ↦ ltb s.cache_max_age age ]
