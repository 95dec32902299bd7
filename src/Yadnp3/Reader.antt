-- ===== src/Yadnp3/Reader.antt =====
-- Yadnp3TelemetryReader and _ManagedMaster of src/dnp3_gateway/adapters/dnp3_yadnp3_master.py. A
-- channel that OpenDNP3 cannot add raises; strip and lower are Python's.
use mathlib.Core.Bool.{Bool}
use horstmann_dnp3_gateway.Base.{
  ℕ, zero, ◌+◌, String, not, Option, none, some, List, [], ◌∷◌, if◌then◌else◌, ◌==◌, nat_eq,
  text_eq, pair_eq, contains, length, keep, Dict, lookup, insert, remove, keys,
}
use horstmann_dnp3_gateway.Base.Number.{ℤ, pos, FloatOps, int_ltb}
use horstmann_dnp3_gateway.Exception.{Result, ok, raise, other}
use horstmann_dnp3_gateway.Config.{DeviceConfig, SignalConfig}
use horstmann_dnp3_gateway.Config.Values.{in_range}
use horstmann_dnp3_gateway.Poller.{SignalReading}
use horstmann_dnp3_gateway.Yadnp3.Cache.{DeviceCache, init as init_cache}
use horstmann_dnp3_gateway.Yadnp3.Read.{Arrival, arrive_one, Timing, Intervals, read_cache}

-- AddTCPServer and AddTCPClient.
pub data Channel : Type 0 where
  server : ℤ → Channel
  client : String → ℤ → Channel

-- A master; `polls` counts the calls of ScanClasses.
pub record ManagedMaster : Type 0 where
  pub device : DeviceConfig
  pub cache : DeviceCache
  pub scan_interval_sec : ℤ
  pub baseline_interval_sec : ℤ
  pub channel : Channel
  pub local_addr : ℤ
  pub remote_addr : ℤ
  pub polls : ℕ

pub record Reader : Type 0 where
  pub local_address : ℤ
  pub default_dnp3_tcp_port : ℤ
  pub scan_interval_sec : ℤ
  pub baseline_interval_sec : ℤ
  pub manager_threads : ℤ
  pub masters : Dict String ManagedMaster

-- max(x, y) and min(x, y) of two ints
unfoldable pub int_max : ℤ → ℤ → ℤ
int_max x y = if int_ltb x y then y else x

unfoldable pub int_min : ℤ → ℤ → ℤ
int_min x y = if int_ltb y x then y else x

unfoldable pub resolved_threads : ℤ → ℤ
unfolding int_max int_min int_ltb
resolved_threads manager_threads =
    if int_ltb (pos 0) manager_threads
    then int_max (pos 1) (int_min (pos 64) manager_threads)
    else pos 4

unfoldable pub init : ℤ → ℤ → ℤ → ℤ → ℤ → Reader
unfolding resolved_threads
init local_address default_dnp3_tcp_port scan baseline manager_threads = record {
  local_address = local_address;
  default_dnp3_tcp_port = default_dnp3_tcp_port;
  scan_interval_sec = scan;
  baseline_interval_sec = baseline;
  manager_threads = resolved_threads manager_threads;
  masters = [];
}

unfoldable pub in_range_or : ℕ → ℕ → ℤ → Option ℤ → ℤ
in_range_or lo hi default none = default
in_range_or lo hi default (some n) = if in_range lo hi n then n else default

unfoldable pub resolve_tcp_port : DeviceConfig → ℤ → ℤ
unfolding in_range_or
resolve_tcp_port device default_port = in_range_or 1 65535 default_port device.dnp3_tcp_port

unfoldable pub resolve_local_address : DeviceConfig → ℤ → ℤ
unfolding in_range_or
resolve_local_address device default_addr = in_range_or 0 65519 default_addr device.master_address

-- device.master_ip_port or tcp_port
port_or : Option ℤ → ℤ → ℤ
port_or none tcp_port = tcp_port
port_or (some (pos zero)) tcp_port = tcp_port
port_or (some port) tcp_port = port

module _ (strip lower : String → String) where
  unfoldable pub channel_of : DeviceConfig → ℤ → Channel
  unfolding port_or
  channel_of device tcp_port =
      let endpoint_type =
        lower (if device.ip_endpoint_type == "" then "listening" else device.ip_endpoint_type) in
      if endpoint_type == "initiating"
      then server (port_or device.master_ip_port tcp_port)
      else client (strip device.ip_address) tcp_port

  -- _ManagedMaster.__init__
  unfoldable pub new_master : DeviceConfig → ℤ → ℤ → ℤ → ℤ → ManagedMaster
  unfolding channel_of int_max init_cache
  new_master device local_address tcp_port scan baseline =
      let scan_interval = int_max (pos 1) scan in
      record {
        device = device;
        cache = init_cache;
        scan_interval_sec = scan_interval;
        baseline_interval_sec = int_max scan_interval baseline;
        channel = channel_of device tcp_port;
        local_addr = local_address;
        remote_addr = device.dnp3_address;
        polls = 0;
      }

  -- `opens` is the text of what OpenDNP3 raises for a channel, if anything.
  module _ (opens : Channel → Option String) where
    unfoldable pub open_master :
        ManagedMaster → Option String → Reader → Result ManagedMaster × Reader
    open_master mm (some t) r = (raise (other t), r)
    open_master mm none r = (ok mm, record r { masters = insert mm.device.code mm r.masters })

    unfoldable pub ensure_found :
        DeviceConfig → Option ManagedMaster → Reader → Result ManagedMaster × Reader
    unfolding open_master new_master
    ensure_found device (some mm) r = (ok mm, r)
    ensure_found device none r =
        let port = resolve_tcp_port device r.default_dnp3_tcp_port in
        let local_addr = resolve_local_address device r.local_address in
        let mm = new_master device local_addr port r.scan_interval_sec r.baseline_interval_sec in
        open_master mm (opens mm.channel) r

    unfoldable pub ensure_master : DeviceConfig → Reader → Result ManagedMaster × Reader
    unfolding ensure_found
    ensure_master device r = ensure_found device (lookup device.code r.masters) r

    module _ (ops : FloatOps) (between : ℕ → List Arrival) (t : Timing) where
      -- The rest of `read_device` writes to the master's cache.
      unfoldable pub read_master :
          DeviceConfig
          → List SignalConfig
          → Result ManagedMaster × Reader
          → Result (List SignalReading) × Reader
      unfolding read_cache
      read_master device signals (raise exc, r) = (raise exc, r)
      read_master device signals (ok mm, r) =
          let i : Intervals = record {
            scan = r.scan_interval_sec;
            baseline = r.baseline_interval_sec;
          } in
          let (asked, readings, cache) = read_cache ops between i t signals mm.cache in
          let polls = if asked then mm.polls + 1 else mm.polls in
          (
            ok readings,
            record r {
              masters = insert device.code (record mm { cache = cache; polls = polls }) r.masters;
            },
          )

      unfoldable pub read_device :
          DeviceConfig → List SignalConfig → Reader → Result (List SignalReading) × Reader
      unfolding read_master ensure_master
      read_device device signals r = read_master device signals (ensure_master device r)

-- A call of OpenDNP3's threads for a device; the handlers of a master that was shut down are not called.
unfoldable pub deliver : String → Arrival → Reader → Reader
unfolding arrive_one
deliver code a r = elim (lookup code r.masters) [
  | none ↦ r
  | some mm ↦ record r {
    masters = insert code (record mm { cache = arrive_one a mm.cache }) r.masters;
  }
]

-- for code in stale_codes: a shutdown that raises is logged.
unfoldable pub forget_codes :
    List String → ℕ → Dict String ManagedMaster → ℕ × Dict String ManagedMaster
forget_codes [] cleaned masters = (cleaned, masters)
forget_codes (code ∷ stale_codes) cleaned masters = elim (lookup code masters) [
  | none ↦ forget_codes stale_codes cleaned masters
  | some mm ↦ forget_codes stale_codes (cleaned + 1) (remove code masters)
]

unfoldable pub forget_devices : List String → Reader → ℕ × Reader
unfolding forget_codes
forget_devices active_device_codes r =
    let stale_codes = keep (λ c. not (contains c active_device_codes)) (keys r.masters) in
    let (cleaned, masters) = forget_codes stale_codes 0 r.masters in
    (cleaned, record r { masters = masters })

-- `accepts code` says whether ScanClasses of that device's master returns; what it raises is caught.
module _ (accepts : String → Bool) where
  unfoldable pub request_all : Dict String ManagedMaster → ℕ × Dict String ManagedMaster
  request_all [] = (0, [])
  request_all ((code, mm) ∷ masters) =
      let (accepted, rest) = request_all masters in
      let asked = record mm { polls = mm.polls + 1 } in
      ((if accepts code then accepted + 1 else accepted), (code, asked) ∷ rest)

  unfoldable pub refresh_all_devices : Reader → (ℕ × ℕ) × Reader
  unfolding request_all
  refresh_all_devices r =
      let (accepted, masters) = request_all r.masters in
      ((accepted, length r.masters), record r { masters = masters })

unfoldable pub close : Reader → Reader
close r = record r { masters = [] }
