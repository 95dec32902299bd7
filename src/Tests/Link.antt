-- ===== src/Tests/Link.antt =====
-- The adapter over yadnp3 on concrete data.
use mathlib.Core.Bool.{true, false}
use horstmann_dnp3_gateway.Base.{
  ℕ, ◌≤◌, ◌≡◌, refl, ◌≢◌, ◌&&◌, none, some, List, [], ◌∷◌, map, arith, nat_eq, text_eq, pair_eq,
  contains, lookup,
}
use horstmann_dnp3_gateway.Base.Number.{FloatOps, pos, float_one, float_zero}
use horstmann_dnp3_gateway.Points.{Point, point_eq, point_test, int_test}
use horstmann_dnp3_gateway.Config.{SignalConfig}
use horstmann_dnp3_gateway.Yadnp3.Cache.{
  lost, recovering, online, DeviceCache, Value, init, set, store, confirm, get, is_dirty,
  set_connected,
}
use horstmann_dnp3_gateway.Yadnp3.Read.{
  frame, link_up, recovery_begins, link_down, arrive, arrive_one, Timing, Intervals, threshold,
  is_stale, good, unread, point_of, recover, read_signal, read_cache,
}
use horstmann_dnp3_gateway.Yadnp3.Traces.{Event, arrival, read, run}
use horstmann_dnp3_gateway.Yadnp3.Invariant.{IsPhased}
use horstmann_dnp3_gateway.Yadnp3.Known.{IsKnown, run-IsValid}
use horstmann_dnp3_gateway.Yadnp3.Values.{AllShow, good_from_frames}
use horstmann_dnp3_gateway.Yadnp3.Quiet.{quiet, IsHealthy}
use horstmann_dnp3_gateway.Yadnp3.Deltas.{Distinct, shown, reading_of}
use horstmann_dnp3_gateway.Yadnp3.Delivers.{delivered_once, republished}
use horstmann_dnp3_gateway.Yadnp3.Outage.{announced_once, timeout_stays}
use horstmann_dnp3_gateway.Yadnp3.Race.{late_frame, late_frame_unsent}
use horstmann_dnp3_gateway.Yadnp3.Callbacks.{opens, call, call-arrive, arrivals_of}
use horstmann_dnp3_gateway.Yadnp3.Reader.{Reader, ManagedMaster, client}
use horstmann_dnp3_gateway.Exception.{ok}
use horstmann_dnp3_gateway.Poller.{Around, World, poll_device}
use horstmann_dnp3_gateway.Yadnp3.Polls.{adapter, second_poll_sends_nothing}
use horstmann_dnp3_gateway.Tests.Chain.{str, env, publisher}
use horstmann_dnp3_gateway.Tests.Queue.{one}
use horstmann_dnp3_gateway.Tests.Poll.{signal, device}

-- A processor that is only asked to scale by 1 and shift by 0.
abbrev pub ops : FloatOps
ops = record { mul = λ x y. x; add = λ x y. x; round = λ x n. x }

abbrev intervals : Intervals
intervals = record { scan = pos 5; baseline = pos 60 }

abbrev at : ℕ → Timing
at now = record { now = now; begun = now; aged = now }

abbrev point : Point
point = (pos 30, pos 7)

abbrev closed_value : Value
closed_value = (float_one, none)

abbrev open_value : Value
open_value = (float_zero, none)

abbrev pub signals : List SignalConfig
signals = signal ∷ record signal { key = "voltage"; dnp3_index = pos 8 } ∷ []

abbrev steady : DeviceCache
steady = record {
  values = (point, closed_value) ∷ [];
  dirty = point ∷ [];
  connected = true;
  last_update_at = 2000;
  stale_announced = true;
  state = online;
  recovery_started_at = 1000;
  recovery_anchor_at = 1000;
  pending_recovery_publish = true;
}

abbrev waking : DeviceCache
waking = record steady { state = recovering; dirty = []; pending_recovery_publish = false }

steady-IsPhased : IsPhased steady
steady-IsPhased = ground arith

steady-IsHealthy :
    (now : ℕ) → is_stale intervals now 2000 ≡ false → IsHealthy intervals (at now) steady
steady-IsHealthy now h = record { is_online = refl; undoubted = h }

distinct : Distinct signals
unfolding contains point_test int_test
distinct = (refl, (refl, tt))

fresh_at : (now : ℕ) → now ≤ 242000 → is_stale intervals now 2000 ≡ false
unfolding is_stale threshold
fresh_at now h = ground arith

abbrev events : List Event
events =
    arrival link_up
    ∷ arrival (recovery_begins 1000)
    ∷ arrival (frame point closed_value 2000)
    ∷ read quiet (at 3000) signals
    ∷ []

run-IsValid_example :
    IsPhased (run ops intervals events init) × IsKnown (run ops intervals events init)
run-IsValid_example = run-IsValid ops intervals events

good_from_frames_example :
    AllShow
      (λ p v. v ≡ closed_value)
      ops
      signals
      (read_cache ops quiet intervals (at 4000) signals (run ops intervals events init)).1
good_from_frames_example =
    good_from_frames (λ p v. v ≡ closed_value) ops intervals events quiet (at 4000) signals
      (tt, (tt, (refl, ((λ n. tt), tt)))) (λ n. tt)

delivered_once_example :
    let (asked, readings, d) = read_cache ops quiet intervals (at 3000) signals steady in
    (readings ≡ map (shown ops (recover quiet steady)) signals)
    × ((read_cache ops quiet intervals (at 4000) signals d).1 ≡ map (unread "no_change") signals)
delivered_once_example =
    delivered_once ops intervals (at 3000) (at 4000) signals steady
      (steady-IsHealthy 3000 (fresh_at 3000 (omega arith))) (fresh_at 4000 (omega arith)) distinct

still :
    let d = set point closed_value 5000 waking in
    (d.connected && is_stale intervals 6000 d.last_update_at) ≡ false
unfolding set store confirm is_stale threshold
still = ground arith

republished_example :
    let d = set point closed_value 5000 waking in
    (read_cache ops quiet intervals (at 6000) signals d).1
    ≡ map (λ s. reading_of ops s (get (point_of s) d)) signals
republished_example =
    republished ops intervals (at 6000) signals point closed_value 5000 waking refl (omega arith)
      still distinct

down :
    (arrive (link_down ∷ []) (read_cache ops quiet intervals (at 3000) signals steady).2).state
    ≢ online
unfolding arrive arrive_one set_connected
down h = cc

announced_once_example :
    let d = arrive (link_down ∷ []) (read_cache ops quiet intervals (at 3000) signals steady).2 in
    let (asked, readings, e) = read_cache ops quiet intervals (at 4000) signals d in
    (readings ≡ map (unread "comm_lost") signals)
    × ((read_cache ops quiet intervals (at 5000) signals e).1 ≡ map (unread "no_change") signals)
announced_once_example =
    announced_once ops intervals (at 3000) (at 4000) (at 5000) signals steady (link_down ∷ [])
      steady-IsPhased (steady-IsHealthy 3000 (fresh_at 3000 (omega arith))) down

timeout_stays_example :
    let d = (read_cache ops quiet intervals (at 17000) signals waking).2 in
    (d.connected ≡ true)
    × ((run ops intervals (arrival (frame point open_value 18000) ∷ []) d).state ≡ lost)
timeout_stays_example =
    timeout_stays ops intervals (at 17000) signals waking
      (arrival (frame point open_value 18000) ∷ []) refl (λ h. cc) (omega arith) (tt, tt)

found : get point steady ≡ some closed_value
unfolding get lookup point_test int_test
found = refl

marked : is_dirty point steady ≡ true
unfolding is_dirty contains point_test int_test
marked = refl

late_frame_unsent_example :
    let (r, d) = read_signal ops (late_frame point open_value 3000) 0 signal steady in
    (r ≡ good ops signal closed_value)
    × (get point d ≡ some open_value)
    × ((read_signal ops quiet 0 signal d).0 ≡ unread "no_change" signal)
late_frame_unsent_example =
    late_frame_unsent ops signal closed_value open_value 3000 steady found marked

call-arrive_example :
    call (λ raw. "") (λ n. float_zero) (opens 1000) init
    ≡ arrive (arrivals_of (λ raw. "") (λ n. float_zero) (opens 1000)) init
call-arrive_example = call-arrive (λ raw. "") (λ n. float_zero) (opens 1000) init

abbrev master : ManagedMaster
master = record {
  device = device;
  cache = steady;
  scan_interval_sec = pos 5;
  baseline_interval_sec = pos 60;
  channel = client "10.0.0.5" (pos 20000);
  local_addr = pos 1;
  remote_addr = pos 4;
  polls = 0;
}

abbrev reader : Reader
reader = record {
  local_address = pos 1;
  default_dnp3_tcp_port = pos 20000;
  scan_interval_sec = pos 5;
  baseline_interval_sec = pos 60;
  manager_threads = pos 4;
  masters = ("D1", master) ∷ ("D2", record master { device = record device { code = "D2" } }) ∷ [];
}

abbrev linked : Around Reader
linked = record {
  str = str;
  gateway_code = "GW1";
  read_device = λ d signals r. (ok [], r);
  forget_devices = λ codes r. (ok 0, r);
  uuid4 = λ n. "id";
  now_iso = λ n. "now";
  env = λ n. env;
}

abbrev plant : World Reader
plant = record { reader = reader; publisher = publisher true; outbox = one; calls = 0 }

known_master : lookup "D1" reader.masters ≡ some master
unfolding lookup
known_master = refl

second_poll_sends_nothing_example :
    let v =
      (poll_device
        (adapter (λ t. t) (λ t. t) (λ c. none) ops quiet (at 3000) linked)
        device
        signals
        plant).1 in
    let (n, u) =
      poll_device
        (adapter (λ t. t) (λ t. t) (λ c. none) ops quiet (at 4000) linked)
        device
        signals
        v in
    (n ≡ ok 0) × (u.publisher ≡ v.publisher) × (u.outbox ≡ v.outbox)
second_poll_sends_nothing_example =
    second_poll_sends_nothing (λ t. t) (λ t. t) (λ c. none) ops linked (at 3000) (at 4000) device
      signal (record signal { key = "voltage"; dnp3_index = pos 8 } ∷ []) plant master known_master
      (steady-IsHealthy 3000 (fresh_at 3000 (omega arith))) (fresh_at 4000 (omega arith)) distinct
