-- ===== src/Dnp3py/Reader.antt =====
-- Dnp3TelemetryReader of src/dnp3_gateway/adapters/dnp3_master.py: the sessions of the devices, and
-- the caches that outlive them. A session's cache is the one of its device, which both hold.
use mathlib.Core.Bool.{Bool, true}
use horstmann_dnp3_gateway.Base.{
  ℕ, ◌+◌, String, not, ◌&&◌, ◌||◌, Option, none, some, List, [], ◌∷◌, map, if◌then◌else◌, ◌==◌,
  nat_eq, text_eq, pair_eq, contains, keep, Dict, lookup, insert, remove, keys,
}
use horstmann_dnp3_gateway.Base.Number.{ℤ, Float, FloatOps, float_zero, at_least}
use horstmann_dnp3_gateway.Points.{int_test}
use horstmann_dnp3_gateway.Exception.{Result, ok, raise, other}
use horstmann_dnp3_gateway.Config.{DeviceConfig, SignalConfig}
use horstmann_dnp3_gateway.Poller.{SignalReading}
use horstmann_dnp3_gateway.Yadnp3.Reader.{resolve_tcp_port, resolve_local_address}
use horstmann_dnp3_gateway.Dnp3py.Wire.{
  Wire, Key, Work, Outcome, done, adapter_error, uncaught, master_connected,
}
use horstmann_dnp3_gateway.Dnp3py.Direct.{Limits}
use horstmann_dnp3_gateway.Dnp3py.Batch.{Strategy, Entry}
use horstmann_dnp3_gateway.Dnp3py.Session.{read_batch}

-- connection_fingerprint: the code, the address without blanks, the port, and the two addresses.
pub record Fingerprint : Type 0 where
  pub code : String
  pub ip : String
  pub port : ℤ
  pub remote : ℤ
  pub local_addr : ℤ

pub record Session : Type 0 where
  pub fingerprint : Fingerprint
  pub has_master : Bool

pub record Reader : Type 0 where
  pub local_address : ℤ
  pub default_dnp3_tcp_port : ℤ
  pub strategy : Strategy
  pub limits : Limits
  pub event_baseline_interval_sec : ℕ
  pub sessions : Dict String Session
  pub device_event_cache : Dict String (Dict Key Float)
  pub device_baseline_at : Dict String ℕ
  pub calls : ℕ

unfoldable pub init : ℤ → ℤ → Strategy → ℤ → ℤ → ℤ → Reader
unfolding at_least
init local_address default_port strategy max_points sparse_ratio interval = record {
  local_address = local_address;
  default_dnp3_tcp_port = default_port;
  strategy = strategy;
  limits = record { max_points = at_least 1 max_points; sparse_ratio = at_least 2 sparse_ratio };
  event_baseline_interval_sec = at_least 5 interval;
  sessions = [];
  device_event_cache = [];
  device_baseline_at = [];
  calls = 0;
}

same_fingerprint : Fingerprint → Fingerprint → Bool
unfolding int_test
same_fingerprint x y =
    x.code == y.code
    && x.ip == y.ip
    && int_test x.port y.port
    && int_test x.remote y.remote
    && int_test x.local_addr y.local_addr

-- dict.setdefault
unfoldable pub set_default {ℓ} : {V : Type ℓ} → String → V → Dict String V → Dict String V
set_default k v d = elim (lookup k d) [ none ↦ insert k v d | some w ↦ d ]

unfoldable pub value_or {ℓ} : {V : Type ℓ} → V → Option V → V
value_or v none = v
value_or v (some w) = w

-- `_evict_session`
unfoldable pub evict_session : String → Reader → Reader
evict_session code r = record r { sessions = remove code r.sessions }

module _ (strip : String → String) where
  unfoldable pub fingerprint : DeviceConfig → Reader → Fingerprint
  fingerprint device r = record {
    code = device.code;
    ip = strip device.ip_address;
    port = resolve_tcp_port device r.default_dnp3_tcp_port;
    remote = device.dnp3_address;
    local_addr = resolve_local_address device r.local_address;
  }

  -- A session of another address is closed.
  drop_changed : Fingerprint → Option Session → Reader → Reader
  unfolding same_fingerprint
  drop_changed want none r = r
  drop_changed want (some session) r =
      if same_fingerprint session.fingerprint want
      then r
      else record r { sessions = remove want.code r.sessions }

  -- `fault` is what connect raises, if anything; the cache is attached before.
  connect : Fingerprint → Option String → Reader → Result Session × Reader
  unfolding set_default
  connect want fault r =
      let r' = record r {
        device_event_cache = set_default want.code [] r.device_event_cache;
        device_baseline_at = set_default want.code 0 r.device_baseline_at;
        calls = r.calls + 1;
      } in
      connected fault r'
    where
      connected : Option String → Reader → Result Session × Reader
      connected (some t) v = (raise (other t), v)
      connected none v =
          let session : Session = record { fingerprint = want; has_master = true } in
          (ok session, record v { sessions = insert want.code session v.sessions })

  found_session : Fingerprint → Option Session → Option String → Reader → Result Session × Reader
  unfolding connect
  found_session want (some session) fault r = (ok session, r)
  found_session want none fault r = connect want fault r

  -- `_get_session`
  unfoldable pub get_session : (ℕ → Option String) → DeviceConfig → Reader → Result Session × Reader
  unfolding fingerprint drop_changed found_session
  get_session connects device r =
      let want = fingerprint device r in
      let r' = drop_changed want (lookup device.code r.sessions) r in
      found_session want (lookup device.code r'.sessions) (connects r'.calls) r'

module _ (ops : FloatOps) where
  scaled : SignalConfig → Float → Float
  scaled s raw = ops.round (ops.add (ops.mul raw s.scale) s.offset) 4

  unfoldable pub reading_of : SignalConfig → Entry → SignalReading
  unfolding scaled
  reading_of s (raw, quality) =
      let valued = quality == "no_change" || quality == "good" in
      record {
        signal_key = s.key;
        source = s.source;
        data_type = s.data_type;
        raw_value = if valued then raw else float_zero;
        scaled_value = if valued then scaled s raw else float_zero;
        quality = quality;
        value_string = none;
      }

  -- zip(signals, batch, strict=True), which raises on lists of different lengths.
  unfoldable pub readings_of : List SignalConfig → List Entry → Option (List SignalReading)
  unfolding reading_of
  readings_of [] [] = some []
  readings_of (s ∷ signals) (entry ∷ batch) = elim (readings_of signals batch) [
    | none ↦ none
    | some readings ↦ some (reading_of s entry ∷ readings)
  ]
  readings_of _ _ = none

abbrev pub no_change_reading : SignalConfig → SignalReading
no_change_reading s = record {
  signal_key = s.key;
  source = s.source;
  data_type = s.data_type;
  raw_value = float_zero;
  scaled_value = float_zero;
  quality = "no_change";
  value_string = none;
}

-- The device's part of the reader, which a batch works on, and the reader after it.
unfoldable pub work_of : String → Session → Reader → Work
unfolding value_or
work_of code session r = record {
  cache = value_or [] (lookup code r.device_event_cache);
  baseline_at = value_or 0 (lookup code r.device_baseline_at);
  has_master = session.has_master;
  calls = r.calls;
}

unfoldable pub put_work : String → Session → Work → Reader → Reader
put_work code session w r = record r {
  sessions = insert code (record session { has_master = w.has_master }) r.sessions;
  device_event_cache = insert code w.cache r.device_event_cache;
  device_baseline_at = insert code w.baseline_at r.device_baseline_at;
  calls = w.calls;
}

module _ (strip : String → String) (ops : FloatOps) (wire : Wire)
    (connects : ℕ → Option String) where
  or_value_error : Option (List SignalReading) → Result (List SignalReading)
  or_value_error none = raise (other "zip() arguments have different lengths")
  or_value_error (some readings) = ok readings

  after_batch :
      String
      → Session
      → List SignalConfig
      → Reader
      → Outcome (List Entry) × Work
      → Result (List SignalReading) × Reader
  unfolding put_work evict_session or_value_error readings_of
  after_batch code session signals r (adapter_error, w) =
      (ok (map no_change_reading signals), evict_session code (put_work code session w r))
  after_batch code session signals r (uncaught t, w) = (raise (other t), put_work code session w r)
  after_batch code session signals r (done batch, w) =
      let r' = put_work code session w r in
      (
        or_value_error (readings_of ops signals batch),
        if master_connected wire w then r' else evict_session code r',
      )

  unfoldable pub read_session :
      ℕ
      → DeviceConfig
      → List SignalConfig
      → Result Session × Reader
      → Result (List SignalReading) × Reader
  unfolding after_batch read_batch work_of
  read_session now device signals (raise exc, r) = (raise exc, r)
  read_session now device signals (ok session, r) = after_batch device.code session signals r (
      read_batch wire r.limits r.event_baseline_interval_sec now r.strategy signals
        (work_of device.code session r))

  unfoldable pub read_device :
      ℕ → DeviceConfig → List SignalConfig → Reader → Result (List SignalReading) × Reader
  unfolding read_session get_session
  read_device now device signals r =
      read_session now device signals (get_session strip connects device r)

-- for code in stale
unfoldable pub forget_codes : List String → ℕ → Reader → ℕ × Reader
forget_codes [] cleaned r = (cleaned, r)
forget_codes (code ∷ stale) cleaned r = forget_codes stale (cleaned + 1) (record r {
  sessions = remove code r.sessions;
  device_event_cache = remove code r.device_event_cache;
  device_baseline_at = remove code r.device_baseline_at;
})

unfoldable pub forget_devices : List String → Reader → ℕ × Reader
unfolding forget_codes
forget_devices active_device_codes r =
    forget_codes (keep (λ code. not (contains code active_device_codes)) (keys r.sessions)) 0 r

unfoldable pub close : Reader → Reader
close r = record r { sessions = [] }
