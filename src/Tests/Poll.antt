-- ===== src/Tests/Poll.antt =====
-- The shared state and the poll cycle on concrete data.
use horstmann_dnp3_gateway.Base.{
  ℕ, refl, ◌+◌, ◌-◌, ◌*◌, String, ◌≡◌, ◌≢◌, true, false, ◌||◌, none, some, [], ◌∷◌, leb,
  if◌then◌else◌, nat_eq, text_eq, pair_eq, contains, keep, lookup, length, map, ◌++◌,
}
use horstmann_dnp3_gateway.Base.Number.{pos, float_one, float_zero, at_least, int_ltb}
use horstmann_dnp3_gateway.Exception.{Exc, ok, raise}
use horstmann_dnp3_gateway.Config.{DeviceConfig, SignalConfig, GatewayConfig}
use horstmann_dnp3_gateway.State.{
  GatewayState, File, absent, holds, replaced, os_error, Clock, loaded, load_raises, load_value,
  init, update, take_refresh_request, mark_read, is_due, due_devices, load_from_cache, codes,
}
use horstmann_dnp3_gateway.State.Refresh.{update-refresh, request_taken_once}
use horstmann_dnp3_gateway.State.Due.{mark_read-due, update-last_read}
use horstmann_dnp3_gateway.State.Cache.{load-update, restart-refreshes, SameConfig, IsFaithful}
use horstmann_dnp3_gateway.Config.Values.{Conv, good, refused, Python}
use horstmann_dnp3_gateway.Base.Json.{Json, text, float, list, nil}
use horstmann_dnp3_gateway.Poller.{
  Around, World, SignalReading, run_poll_cycle, publish_readings, filter_readable_signals,
}
use horstmann_dnp3_gateway.Poller.Reads.{run_poll_cycle-reads}
use horstmann_dnp3_gateway.Poller.Cycle.{cycle_messages, device_messages, run_poll_cycle-Ends}
use horstmann_dnp3_gateway.JetStream
use horstmann_dnp3_gateway.Poller.Parallel.{finish_parallel, finish_parallel-reads, out_of_space}
use horstmann_dnp3_gateway.Poller.Deltas.{Sends, messages, is_delta, publish_readings-Sends}
use horstmann_dnp3_gateway.Tests.Queue.{one}
use horstmann_dnp3_gateway.Tests.Chain.{publisher, env, str}

abbrev pub device : DeviceConfig
device = record {
  code = "D1";
  name = "first";
  ip_address = "10.0.0.5";
  dnp3_address = pos 4;
  dnp3_tcp_port = none;
  master_address = none;
  ip_endpoint_type = "listening";
  master_ip_port = none;
  poll_interval_sec = pos 5;
  timeout_ms = pos 3000;
  retry_count = pos 2;
  signal_profile = "horstmann_sn2_fixed";
}

abbrev pub signal : SignalConfig
signal = record {
  key = "current";
  label = "Current";
  unit = some "A";
  source = "master";
  dnp3_class = "Class 1";
  data_type = "analog";
  dnp3_object_group = pos 30;
  dnp3_index = pos 7;
  scale = float_one;
  offset = float_zero;
  supports_alarm = false;
}

abbrev config : GatewayConfig
config = record {
  gateway_code = "GW1";
  gateway_name = "north";
  batch_interval_sec = pos 5;
  max_devices = pos 200;
  is_active = true;
  config_version = "v1";
  devices = device ∷ [];
  signals = signal ∷ [];
  refresh_nonce = pos 3;
}

abbrev fresh : GatewayState
fresh = record {
  devices = [];
  signals = [];
  last_read_at = ("D1", 1000) ∷ ("D9", 2000) ∷ [];
  config_version = "";
  gateway_active = false;
  gateway_name = "";
  refresh_nonce = pos 0;
  refresh_pending = false;
  has_cache_path = true;
  cache_max_age = 60000;
  config_loaded_at = none;
  last_refresh_error = none;
  last_refresh_ok = none;
  last_refresh_attempt = none;
}

abbrev running : GatewayState
running = record fresh { devices = device ∷ []; signals = signal ∷ []; gateway_active = true }

abbrev str_of : Json → String
str_of (text t) = t
str_of v = "?"

abbrev float_of : Json → Conv ℕ
float_of (float x) = good x
float_of v = refused

abbrev python : Python
python = record {
  int_of = λ v. refused;
  float_of = float_of;
  str_of = str_of;
  strip = λ t. t;
  lower = λ t. t;
}

-- A clock whose floats are the milliseconds themselves.
abbrev clock : Clock
clock = record { seconds = λ n. n; millis = λ x. x }

update-refresh_example :
    ((update clock config 10 replaced fresh absent).1.refresh_pending
      ≡ (false || int_ltb (pos 0) (pos 3)))
    × ((update clock config 10 replaced fresh absent).1.refresh_nonce ≡ pos 3)
update-refresh_example = update-refresh clock config 10 replaced fresh absent

request_taken_once_example :
    let taken = (take_refresh_request (update clock config 10 replaced fresh absent).1).1 in
    (take_refresh_request (update clock config 20 os_error taken absent).1).0 ≡ false
request_taken_once_example =
    request_taken_once clock config config 10 20 replaced os_error fresh absent absent refl

mark_read-due_example :
    (is_due 9000 (mark_read "D1" 5000 fresh) device ≡ leb (1000 * at_least 1 (pos 5)) (9000 - 5000))
    × ((e : DeviceConfig)
        → "D1" ≢ e.code
        → is_due 9000 (mark_read "D1" 5000 fresh) e ≡ is_due 9000 fresh e)
mark_read-due_example = mark_read-due device 5000 9000 fresh

update-last_read_example :
    lookup "D9" (update clock config 10 replaced fresh absent).1.last_read_at
    ≡ (if contains "D9" (codes config.devices) then lookup "D9" fresh.last_read_at else none)
update-last_read_example = update-last_read clock config 10 replaced fresh absent "D9"

faithful : IsFaithful python clock
faithful = record { str_text = λ t. refl; float_float = λ x. refl; same_time = λ n. refl }

load-update_example :
    let (changed, s', f') = update clock config 10 replaced fresh absent in
    let (end, restarted) = load_from_cache python clock f' (init true 1000) in
    (changed ≡ ok true) × (end ≡ loaded) × SameConfig restarted s'
load-update_example = load-update python clock faithful config 10 1000 fresh absent (λ e. cc) refl

-- A file whose value is no object.
abbrev odd_file : File
odd_file = holds (list nil)

odd_file_raises : (load_from_cache python clock odd_file (init true 1000)).0 ≡ load_raises
unfolding load_from_cache load_value init
odd_file_raises = refl

restart-refreshes_example :
    let started = (load_from_cache python clock odd_file (init true 1000)).1 in
    (take_refresh_request (update clock config 10 os_error started odd_file).1).0
    ≡ int_ltb (pos 0) (pos 3)
restart-refreshes_example = restart-refreshes python clock config 10 1000 os_error true odd_file

abbrev value : String → SignalReading
value quality = record {
  signal_key = "current";
  source = "master";
  data_type = "analog";
  raw_value = float_one;
  scaled_value = float_one;
  quality = quality;
  value_string = none;
}

abbrev around : Around ℕ
around = record {
  str = str;
  gateway_code = "GW1";
  read_device = λ d signals n. (ok (value "good" ∷ value "no_change" ∷ []), n + 1);
  forget_devices = λ codes n. (ok 0, n);
  uuid4 = λ n. "id";
  now_iso = λ n. "now";
  env = λ n. env;
}

abbrev world : World ℕ
world = record { reader = 0; publisher = publisher true; outbox = one; calls = 0 }

run_poll_cycle-reads_example :
    let (r, s', w') = run_poll_cycle around (λ i. false) 9000 running world in
    ((exc : Exc) → r ≢ raise exc) × (w'.publisher.outbox_full ≡ false → due_devices 9000 s' ≡ [])
unfolding filter_readable_signals keep contains
run_poll_cycle-reads_example =
    run_poll_cycle-reads around (λ i. false) (λ i. refl) 9000 running world refl (λ e. cc) refl

readable : filter_readable_signals running.signals ≡ signal ∷ []
unfolding filter_readable_signals keep contains
readable = refl

run_poll_cycle-Ends_example :
    let ms =
      cycle_messages around
        (λ n. refl)
        signal
        []
        (due_devices 9000 running)
        (around.forget_devices (codes running.devices) 0).1
        0 in
    let (r, s', w') = run_poll_cycle around (λ i. false) 9000 running world in
    (r ≡ ok (length ms))
    × (w'.outbox ≡ one)
    × (w'.publisher.broker.stored ≡ [] ++ map (JetStream.wire str "telemetry") ms)
run_poll_cycle-Ends_example =
    run_poll_cycle-Ends around (λ n. refl) signal [] (λ i. false) (λ i. refl) 9000 running world
      readable refl refl (refl, refl, refl)

-- The device is due and one of its two readings has changed.
one_message :
    length (
      cycle_messages around
        (λ n. refl)
        signal
        []
        (due_devices 9000 running)
        (around.forget_devices (codes running.devices) 0).1
        0)
    ≡ 1
unfolding cycle_messages device_messages messages due_devices is_due lookup at_least keep
one_message = refl

publish_readings-Sends_example :
    Sends around device "corr" "now"
      (λ n. refl)
      0
      (keep is_delta (value "good" ∷ value "no_change" ∷ value "offline" ∷ []))
      world
      (publish_readings around device "corr" "now"
        (value "good" ∷ value "no_change" ∷ value "offline" ∷ [])
        0
        world)
publish_readings-Sends_example =
    publish_readings-Sends around device "corr" "now" (λ n. refl)
      (value "good" ∷ value "no_change" ∷ value "offline" ∷ []) 0 world (refl, refl, refl)

finish_parallel-reads_example :
    due_devices 9000 (finish_parallel 9000 ((device, out_of_space) ∷ []) running).1 ≡ []
unfolding due_devices keep lookup at_least
finish_parallel-reads_example =
    finish_parallel-reads 9000 ((device, out_of_space) ∷ []) running refl
