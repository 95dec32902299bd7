-- ===== src/Yadnp3/Polls.antt =====
-- The poll of a device (src/dnp3_gateway/poller.py) through the adapter over yadnp3.
use horstmann_dnp3_gateway.Yadnp3.Cache.{DeviceCache}
use mathlib.Core.Bool.{true, false}
use horstmann_dnp3_gateway.Base.{
  ℕ, String, ◌≡◌, refl, Option, List, [], ◌∷◌, map, ◌∙◌, some, ◌==◌, nat_eq, text_eq, pair_eq,
  lookup, ◌+◌, sym, if◌then◌else◌, ==_self, lookup-insert, subst, ap, ◌&&◌,
}
use horstmann_dnp3_gateway.Base.Number.{FloatOps}
use horstmann_dnp3_gateway.Exception.{Result, ok, raise}
use horstmann_dnp3_gateway.Config.{DeviceConfig, SignalConfig}
use horstmann_dnp3_gateway.Poller.{
  SignalReading, Around, World, after_reading, publish_reading, publish_readings, after_read,
  poll_device,
}
use horstmann_dnp3_gateway.Yadnp3.Read.{Arrival, Timing, Intervals, is_stale, unread, read_cache}
use horstmann_dnp3_gateway.Yadnp3.Quiet.{quiet, IsHealthy}
use horstmann_dnp3_gateway.Yadnp3.Deltas.{Distinct}
use horstmann_dnp3_gateway.Yadnp3.Delivers.{delivered_once}
use horstmann_dnp3_gateway.Yadnp3.Reader.{
  Channel, ManagedMaster, Reader, ensure_found, ensure_master, read_master, read_device,
  forget_devices,
}

module _ (strip lower : String → String) (opens : Channel → Option String) (ops : FloatOps) where
  -- The surroundings of a cycle, with this adapter at a time of the clock.
  unfoldable pub adapter : (ℕ → List Arrival) → Timing → Around Reader → Around Reader
  unfolding read_device forget_devices
  adapter between t x = record x {
    read_device = λ d signals r. read_device strip lower opens ops between t d signals r;
    forget_devices = λ active r. let (cleaned, r') = forget_devices active r in (ok cleaned, r');
  }

publish_reading-reader :
    (x : Around Reader) (d : DeviceConfig) (c iso : String) (r : SignalReading) (n : ℕ)
    (w : World Reader)
    → (publish_reading x d c iso r n w).1.reader ≡ w.reader
unfolding publish_reading
publish_reading-reader x d c iso r n w = refl

after_reading-reader :
    (next : ℕ → World Reader → Result ℕ × World Reader) (res : Result ℕ × World Reader)
    → ((n : ℕ) (v : World Reader) → (next n v).1.reader ≡ v.reader)
    → (after_reading next res).1.reader ≡ res.1.reader
unfolding after_reading
after_reading-reader next (ok n, v) h = h n v
after_reading-reader next (raise exc, v) h = refl

publish_readings-reader :
    (x : Around Reader) (d : DeviceConfig) (c iso : String) (rs : List SignalReading) (n : ℕ)
    (w : World Reader)
    → (publish_readings x d c iso rs n w).1.reader ≡ w.reader
unfolding publish_readings
publish_readings-reader x d c iso [] n w = refl
publish_readings-reader x d c iso (r ∷ rs) n w =
    let sent = publish_reading x d c iso r n w in
    elim (r.quality == "no_change")
      as (λ b.
        (elim b as (λ _. Result ℕ × World Reader) [
          | true ↦ publish_readings x d c iso rs n w
          | false ↦ after_reading (publish_readings x d c iso rs) sent
        ]).1.reader
        ≡ w.reader) [
          | true ↦ publish_readings-reader x d c iso rs n w
          | false ↦
              after_reading-reader (publish_readings x d c iso rs) sent
                (publish_readings-reader x d c iso rs)
              ∙ publish_reading-reader x d c iso r n w
        ]

silent_readings :
    (x : Around Reader) (d : DeviceConfig) (c iso : String) (signals : List SignalConfig) (n : ℕ)
    (w : World Reader)
    → publish_readings x d c iso (map (unread "no_change") signals) n w ≡ (ok n, w)
unfolding publish_readings
silent_readings x d c iso [] n w = refl
silent_readings x d c iso (s ∷ signals) n w = silent_readings x d c iso signals n w

after_read-reader :
    (x : Around Reader) (d : DeviceConfig) (c iso : String) (readings : Result (List SignalReading))
    (w : World Reader)
    → (after_read x d c iso readings w).1.reader ≡ w.reader
unfolding after_read
after_read-reader x d c iso (ok readings) w = publish_readings-reader x d c iso readings 0 w
after_read-reader x d c iso (raise exc) w = refl

abbrev pub intervals_of : Reader → Intervals
intervals_of r = record { scan = r.scan_interval_sec; baseline = r.baseline_interval_sec }

module _ (d : DeviceConfig) (s : SignalConfig) (signals : List SignalConfig) where
  -- The reader after a poll is the one that its read gives.
  poll_device-reader :
      (y : Around Reader) (w : World Reader)
      → (poll_device y d (s ∷ signals) w).1.reader ≡ (y.read_device d (s ∷ signals) w.reader).1
  unfolding poll_device
  poll_device-reader y w =
      let (readings, reader) = y.read_device d (s ∷ signals) w.reader in
      after_read-reader y d (y.uuid4 w.calls) (y.now_iso w.calls) readings
        (record w { reader = reader; calls = w.calls + 1 })

  -- A poll whose read gives no_change for every signal.
  silent_poll :
      (y : Around Reader) (w : World Reader)
      → (y.read_device d (s ∷ signals) w.reader).0 ≡ ok (map (unread "no_change") (s ∷ signals))
      → let (n, v) = poll_device y d (s ∷ signals) w in
        (n ≡ ok 0) × (v.publisher ≡ w.publisher) × (v.outbox ≡ w.outbox)
  unfolding poll_device after_read
  silent_poll y w h = rw h (
      rw (silent_readings y d (y.uuid4 w.calls) (y.now_iso w.calls) (s ∷ signals) 0 _)
        (refl, refl, refl))

module _ (strip lower : String → String) (opens : Channel → Option String) (ops : FloatOps) where
  ensured :
      (d : DeviceConfig) (r : Reader) (mm : ManagedMaster)
      → lookup d.code r.masters ≡ some mm
      → ensure_master strip lower opens d r ≡ (ok mm, r)
  unfolding ensure_master ensure_found
  ensured d r mm h = rw h

  -- A read of a device that has a master.
  record Found (t : Timing) (d : DeviceConfig) (signals : List SignalConfig) (r : Reader)
      (c : DeviceCache) (res : Result (List SignalReading) × Reader) : Type 0 where
    given : res.0 ≡ ok (read_cache ops quiet (intervals_of r) t signals c).1
    same_intervals : intervals_of res.1 ≡ intervals_of r
    master : ManagedMaster
    stored : lookup d.code res.1.masters ≡ some master
    stored_cache : master.cache ≡ (read_cache ops quiet (intervals_of r) t signals c).2

  master-Found :
      (t : Timing) (d : DeviceConfig) (signals : List SignalConfig) (r : Reader)
      (mm : ManagedMaster)
      → Found t d signals r mm.cache
          (read_master strip lower opens ops quiet t d signals (ok mm, r))
  unfolding read_master
  master-Found t d signals r mm =
      let (asked, readings, cache) = read_cache ops quiet (intervals_of r) t signals mm.cache in
      let mm' : ManagedMaster = record mm {
        cache = cache;
        polls = if asked then mm.polls + 1 else mm.polls;
      } in
      record {
        given = refl;
        same_intervals = refl;
        master = mm';
        stored = rw (lookup-insert d.code d.code mm' r.masters, ==_self d.code);
        stored_cache = refl;
      }

  read-Found :
      (t : Timing) (d : DeviceConfig) (signals : List SignalConfig) (r : Reader)
      (mm : ManagedMaster)
      → lookup d.code r.masters ≡ some mm
      → Found t d signals r mm.cache (read_device strip lower opens ops quiet t d signals r)
  unfolding read_device
  read-Found t d signals r mm h =
      subst
        (λ found.
          Found t d signals r mm.cache (read_master strip lower opens ops quiet t d signals found))
        (sym (ensured d r mm h)) (master-Found t d signals r mm)

  module _ (d : DeviceConfig) (s : SignalConfig) (signals : List SignalConfig) where
    second_read :
        (t t' : Timing) (r : Reader) (mm : ManagedMaster)
        → lookup d.code r.masters ≡ some mm
        → IsHealthy (intervals_of r) t mm.cache
        → (mm.cache.connected && is_stale (intervals_of r) t'.now mm.cache.last_update_at) ≡ false
        → Distinct (s ∷ signals)
        → let r' = (read_device strip lower opens ops quiet t d (s ∷ signals) r).1 in
          (read_device strip lower opens ops quiet t' d (s ∷ signals) r').0
          ≡ ok (map (unread "no_change") (s ∷ signals))
    second_read t t' r mm h healthy still distinct =
        let first = read-Found t d (s ∷ signals) r mm h in
        let r' = (read_device strip lower opens ops quiet t d (s ∷ signals) r).1 in
        let again = read-Found t' d (s ∷ signals) r' first.master first.stored in
        again.given
        ∙ ap (λ (i : Intervals). ok (read_cache ops quiet i t' (s ∷ signals) first.master.cache).1)
            first.same_intervals
        ∙ ap (λ (c : DeviceCache). ok (read_cache ops quiet (intervals_of r) t' (s ∷ signals) c).1)
            first.stored_cache
        ∙ ap ok
            (delivered_once ops (intervals_of r) t t' (s ∷ signals) mm.cache healthy still
              distinct).1

-- After a poll of a device that is online and not in doubt, whatever the broker and the queue made of
-- its messages, also when the queue was full, a second poll before any frame, and before the link
-- comes in doubt by its age, sends nothing: it returns 0, and the publisher and the queue stay as
-- they are. The signals are of different points, and no other thread runs in the gaps of the reads.
pub second_poll_sends_nothing :
    (strip lower : String → String) (opens : Channel → Option String) (ops : FloatOps)
    (x : Around Reader) (t t' : Timing) (d : DeviceConfig) (s : SignalConfig)
    (signals : List SignalConfig) (w : World Reader) (mm : ManagedMaster)
    → lookup d.code w.reader.masters ≡ some mm
    → IsHealthy (intervals_of w.reader) t mm.cache
    → (mm.cache.connected && is_stale (intervals_of w.reader) t'.now mm.cache.last_update_at)
      ≡ false
    → Distinct (s ∷ signals)
    → let v = (poll_device (adapter strip lower opens ops quiet t x) d (s ∷ signals) w).1 in
      let (n, u) = poll_device (adapter strip lower opens ops quiet t' x) d (s ∷ signals) v in
      (n ≡ ok 0) × (u.publisher ≡ v.publisher) × (u.outbox ≡ v.outbox)
unfolding adapter
second_poll_sends_nothing strip lower opens ops x t t' d s signals w mm h healthy still distinct =
    let v = (poll_device (adapter strip lower opens ops quiet t x) d (s ∷ signals) w).1 in
    let moved = poll_device-reader d s signals (adapter strip lower opens ops quiet t x) w in
    silent_poll d s signals (adapter strip lower opens ops quiet t' x) v (
      ap (λ (r : Reader). (read_device strip lower opens ops quiet t' d (s ∷ signals) r).0) moved
      ∙ second_read strip lower opens ops d s signals t t' w.reader mm h healthy still distinct)
