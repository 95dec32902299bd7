-- ===== src/Tests/Direct.antt =====
-- The adapter over dnp3py on concrete data.
use mathlib.Core.Bool.{true}
use horstmann_dnp3_gateway.Base.{
  ℕ, ◌+◌, ◌-◌, String, ◌≡◌, refl, ◌≢◌, ◌&&◌, none, some, List, [], ◌∷◌, map, arith, leb,
  if◌then◌else◌, nat_eq, text_eq, pair_eq, contains, lookup, insert,
}
use horstmann_dnp3_gateway.Base.Number.{float_beq, pos, float_one, float_zero}
use horstmann_dnp3_gateway.Config.{SignalConfig}
use horstmann_dnp3_gateway.Dnp3py.Wire.{
  Obj, items, dnp3_error, Wire, Work, done, range_ok, point_raw, group_of, group_string,
}
use horstmann_dnp3_gateway.Dnp3py.Direct.{Limits, fill_range_chunked}
use horstmann_dnp3_gateway.Dnp3py.Batch.{
  absorb_poll_into_cache, poll_classes, by_events, Entry, is_baseline_due, materialize_from_cache,
  read_batch_event_driven, read_events,
}
use horstmann_dnp3_gateway.Dnp3py.Session.{read_batch, read_strategy}
use horstmann_dnp3_gateway.Dnp3py.Reader.{Session, Reader, forget_devices, readings_of}
use horstmann_dnp3_gateway.Dnp3py.Chunks.{Answers, objects, fill_range_chunked-reads}
use horstmann_dnp3_gateway.Dnp3py.Events.{IsTrue, read_events-IsTrue}
use horstmann_dnp3_gateway.Dnp3py.Baseline.{failed_baseline_good}
use horstmann_dnp3_gateway.Dnp3py.Sessions.{is_stale, forget_devices-exact_caches}
use horstmann_dnp3_gateway.Dnp3py.Lengths.{Matches, read_batch-Matches}
use horstmann_dnp3_gateway.Tests.Link.{ops, signals}

abbrev outstation : ℕ → Obj
outstation i = record { index = i; truth = true; number = float_one }

-- A connection that answers all reads of ranges and no poll.
abbrev answering : Wire
answering = record {
  read = λ n group start end'. items (objects outstation start (end' + 1 - start));
  poll = λ n scope. none;
  is_connected = λ n. true;
}

-- A connection that times out.
abbrev silent : Wire
silent = record {
  read = λ n group start end'. dnp3_error;
  poll = λ n scope. none;
  is_connected = λ n. true;
}

-- A connection on which a poll brings one changed value.
abbrev polling : Wire
polling = record silent {
  poll = λ n scope. some (record {
    binary_inputs = [];
    binary_outputs = [];
    analog_inputs = record { index = 7; truth = true; number = float_zero } ∷ [];
    analog_outputs = [];
    counters = [];
  });
}

abbrev limits : Limits
limits = record { max_points = 24; sparse_ratio = 4 }

abbrev cached : Work
cached = record {
  cache = ((30, 7), float_one) ∷ [];
  baseline_at = 1000;
  has_master = true;
  calls = 0;
}

analog : range_ok 30 ≡ true
unfolding range_ok contains
analog = refl

fill_range_chunked-reads_example :
    let (r, v) = fill_range_chunked answering limits 30 0 40 (0 ∷ 20 ∷ 40 ∷ []) cached in
    (r ≡ done tt)
    × ((i : ℕ)
        → lookup (30, i) v.cache ≡ (
            if contains i (0 ∷ 20 ∷ 40 ∷ []) && leb 0 i && leb i 40
            then some (point_raw 30 (outstation i))
            else lookup (30, i) cached.cache))
fill_range_chunked-reads_example =
    fill_range_chunked-reads answering limits 30 outstation 0 40 (0 ∷ 20 ∷ 40 ∷ []) cached answers
      analog (omega arith)
  where
    answers : Answers answering 30 outstation
    answers = record { indexed = λ i. refl; answered = λ n start end'. refl }

read_events-IsTrue_example :
    let (r, v) = read_events polling signals cached in
    (f : SignalConfig → Entry) × (r ≡ done (map f signals))
    × ((s : SignalConfig) → group_of s ≢ group_string → IsTrue cached.cache v.cache s (f s))
read_events-IsTrue_example = read_events-IsTrue polling signals cached

is_due : is_baseline_due silent limits 60 61000 cached ≡ true
unfolding is_baseline_due
is_due = refl

failed_baseline_good_example :
    let (r, v) = read_batch_event_driven silent limits 60 61000 signals cached in
    (r ≡ done (materialize_from_cache none signals cached.cache))
    × (v.cache ≡ cached.cache)
    × (v.baseline_at ≡ 61000)
failed_baseline_good_example =
    failed_baseline_good silent limits 60 61000 signals cached (λ n group start end'. refl) is_due
      refl

abbrev session : Session
session = record {
  fingerprint = record {
    code = "D1";
    ip = "10.0.0.5";
    port = pos 20000;
    remote = pos 4;
    local_addr = pos 1;
  };
  has_master = true;
}

-- D1 has a session; that of D2 was evicted.
abbrev pool : Reader
pool = record {
  local_address = pos 1;
  default_dnp3_tcp_port = pos 20000;
  strategy = by_events;
  limits = limits;
  event_baseline_interval_sec = 60;
  sessions = ("D1", session) ∷ [];
  device_event_cache = ("D1", cached.cache) ∷ ("D2", cached.cache) ∷ [];
  device_baseline_at = ("D1", 1000) ∷ ("D2", 1000) ∷ [];
  calls = 0;
}

forget_devices-exact_caches_example :
    let r' = (forget_devices [] pool).1 in
    (lookup "D2" r'.sessions
      ≡ (if contains {A = String} "D2" [] then lookup "D2" pool.sessions else none))
    × (lookup "D2" r'.device_event_cache
        ≡ (if is_stale [] pool "D2" then none else lookup "D2" pool.device_event_cache))
    × (lookup "D2" r'.device_baseline_at
        ≡ (if is_stale [] pool "D2" then none else lookup "D2" pool.device_baseline_at))
forget_devices-exact_caches_example = forget_devices-exact_caches [] pool "D2"

abbrev entries : List Entry
entries = (float_zero, "good") ∷ (float_zero, "invalid") ∷ []

polled : (read_batch polling limits 60 2000 by_events signals cached).0 ≡ done entries
unfolding read_batch read_strategy read_batch_event_driven is_baseline_due read_events poll_classes
    lookup absorb_poll_into_cache float_beq point_raw insert contains
polled = refl

read_batch-Matches_example : Matches signals (readings_of ops signals entries)
read_batch-Matches_example =
    read_batch-Matches polling ops limits 60 2000 by_events signals cached entries polled
