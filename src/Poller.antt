-- ===== src/Poller.antt =====
-- The poll cycle of src/dnp3_gateway/poller.py, on its serial path (max_parallel is 1, or one device
-- is due). The adapter and what surrounds a call (uuid4, the clock's text, the broker's and the
-- database's part of each publish) are arguments; the calls are numbered.
pub mod Breaks
pub mod Reads
pub mod Parallel
pub mod Deltas
pub mod Cycle
use horstmann_dnp3_gateway.Base.{
  ℕ, ◌+◌, String, Bool, true, false, Option, none, some, List, [], ◌∷◌, if◌then◌else◌, ◌==◌, nat_eq,
  text_eq, pair_eq, contains, keep,
}
use horstmann_dnp3_gateway.Base.Json.{Json, Fields, null, float, text, object, end, field}
use horstmann_dnp3_gateway.Base.Number.{Float}
use horstmann_dnp3_gateway.Exception.{
  Exc, Result, ok, raise, outbox_full, jetstream_not_ready, jetstream_publish, sqlite, other,
}
use horstmann_dnp3_gateway.Config.{DeviceConfig, SignalConfig}
use horstmann_dnp3_gateway.State.{GatewayState, codes, due_devices, mark_read}
use horstmann_dnp3_gateway.Outbox.{Outbox, Message}
use horstmann_dnp3_gateway.Publisher.{Publisher, Env, publish}

-- SignalReading of src/dnp3_gateway/adapters/base.py.
pub record SignalReading : Type 0 where
  pub signal_key : String
  pub source : String
  pub data_type : String
  pub raw_value : Float
  pub scaled_value : Float
  pub quality : String
  pub value_string : Option String

-- The adapter (a TelemetryReader with state `R`), and the surroundings of the `n`-th call.
pub record Around {ℓ} (R : Type ℓ) : Type ℓ where
  pub str : Json → String
  pub gateway_code : String
  pub read_device : DeviceConfig → List SignalConfig → R → Result (List SignalReading) × R
  pub forget_devices : List String → R → Result ℕ × R
  pub uuid4 : ℕ → String
  pub now_iso : ℕ → String
  pub env : ℕ → Env

-- What a cycle works on, and the number of the next call.
pub record World {ℓ} (R : Type ℓ) : Type ℓ where
  pub reader : R
  pub publisher : Publisher
  pub outbox : Outbox
  pub calls : ℕ

optional_text : Option String → Json
optional_text none = null
optional_text (some s) = text s

unfoldable pub build_telemetry_payload :
    String → DeviceConfig → SignalReading → String → String → String → Fields
unfolding optional_text
build_telemetry_payload gateway_code d r message_id correlation_id now_iso =
    field "message_id" (text message_id) (
      field "correlation_id" (text correlation_id) (
        field "source_gateway" (text gateway_code) (
          field "device_code" (text d.code) (
            field "signal_key" (text r.signal_key) (
              field "signal_source" (text r.source) (
                field "signal_data_type" (text r.data_type) (
                  field "value" (if r.data_type == "string" then null else float r.scaled_value) (
                    field "value_string" (optional_text r.value_string) (
                      field "quality" (text r.quality)
                        (field "source_timestamp" (text now_iso) end))))))))))

-- The arguments of `publisher.publish`.
unfoldable pub telemetry_message :
    String → DeviceConfig → SignalReading → String → String → String → Message
unfolding build_telemetry_payload
telemetry_message gateway_code d r message_id correlation_id now_iso = record {
  message_id = message_id;
  correlation_id = some correlation_id;
  headers = some (
      field "source_gateway" (text gateway_code)
        (field "device_code" (text d.code) (field "signal_key" (text r.signal_key) end)));
  payload = object (build_telemetry_payload gateway_code d r message_id correlation_id now_iso);
}

is_readable : SignalConfig → Bool
is_readable s =
    contains s.data_type ("analog" ∷ "binary" ∷ "counter" ∷ "analog_output" ∷ "string" ∷ [])

unfoldable pub filter_readable_signals : List SignalConfig → List SignalConfig
unfolding is_readable
filter_readable_signals = keep is_readable

-- published += 1, and the two handlers.
unfoldable pub count_publish : ℕ → Result (Unit {0}) → Result ℕ
count_publish published (ok _) = ok (published + 1)
count_publish published (raise (outbox_full t)) = raise (outbox_full t)
count_publish published (raise exc) = ok published

module _ {ℓ} {R : Type ℓ} where
  -- The rest of the loop over the readings.
  unfoldable pub after_reading :
      (ℕ → World R → Result ℕ × World R) → Result ℕ × World R → Result ℕ × World R
  after_reading next (ok published, w) = next published w
  after_reading next (raise exc, w) = (raise exc, w)

  -- The rest of the loop over the devices, and the handler round `poll_device`.
  unfoldable pub after_device :
      (ℕ → GatewayState → World R → Result ℕ × GatewayState × World R)
      → String
      → ℕ
      → ℕ
      → GatewayState
      → Result ℕ × World R
      → Result ℕ × GatewayState × World R
  after_device next code now total s (ok count, w) = next (total + count) (mark_read code now s) w
  after_device next code now total s (raise (outbox_full t), w) =
      (ok total, mark_read code now s, w)
  after_device next code now total s (raise exc, w) = (raise exc, s, w)

module _ {ℓ} {R : Type ℓ} (x : Around R) where
  -- One publish; the payload's message_id is a fresh uuid4.
  unfoldable pub publish_reading :
      DeviceConfig → String → String → SignalReading → ℕ → World R → Result ℕ × World R
  unfolding telemetry_message count_publish
  publish_reading d correlation_id now_iso r published w =
      let m = telemetry_message x.gateway_code d r (x.uuid4 w.calls) correlation_id now_iso in
      let (result, p, o) = publish x.str (x.env w.calls) m w.publisher w.outbox in
      (count_publish published result, record w { publisher = p; outbox = o; calls = w.calls + 1 })

  -- for reading in readings
  unfoldable pub publish_readings :
      DeviceConfig → String → String → List SignalReading → ℕ → World R → Result ℕ × World R
  unfolding after_reading publish_reading
  publish_readings d c iso [] published w = (ok published, w)
  publish_readings d c iso (r ∷ readings) published w = elim (r.quality == "no_change") [
    | true ↦ publish_readings d c iso readings published w
    | false ↦
        after_reading (publish_readings d c iso readings) (publish_reading d c iso r published w)
  ]

  unfoldable pub after_read :
      DeviceConfig → String → String → Result (List SignalReading) → World R → Result ℕ × World R
  unfolding publish_readings
  after_read d c iso (ok readings) w = publish_readings d c iso readings 0 w
  after_read d c iso (raise exc) w = (ok 0, w)

  unfoldable pub poll_device : DeviceConfig → List SignalConfig → World R → Result ℕ × World R
  unfolding after_read
  poll_device d [] w = (ok 0, w)
  poll_device d (sig ∷ signals) w =
      let (readings, reader) = x.read_device d (sig ∷ signals) w.reader in
      after_read d (x.uuid4 w.calls) (x.now_iso w.calls) readings
        (record w { reader = reader; calls = w.calls + 1 })

  -- The serial loop; `stop i` is the stop event when it is asked for the i-th time.
  unfoldable pub poll_serial :
      (ℕ → Bool)
      → List SignalConfig
      → ℕ
      → ℕ
      → List DeviceConfig
      → ℕ
      → GatewayState
      → World R
      → Result ℕ × GatewayState × World R
  unfolding after_device poll_device
  poll_serial stop signals now i [] total s w = (ok total, s, w)
  poll_serial stop signals now i (d ∷ due) total s w = elim (stop i) [
    | true ↦ (ok total, s, w)
    | false ↦
        after_device (poll_serial stop signals now (i + 1) due) d.code now total s
          (poll_device d signals w)
  ]

  -- The cycle after the readable signals are known and the deleted devices forgotten.
  unfoldable pub poll_due :
      (ℕ → Bool)
      → List SignalConfig
      → ℕ
      → List DeviceConfig
      → GatewayState
      → World R
      → Result ℕ × GatewayState × World R
  unfolding poll_serial
  poll_due stop signals now [] s w = (ok 0, s, w)
  poll_due stop signals now (d ∷ due) s w = elim w.publisher.outbox_full [
    | true ↦ (ok 0, s, w)
    | false ↦ poll_serial stop signals now 0 (d ∷ due) 0 s w
  ]

  poll_signals :
      (ℕ → Bool)
      → List SignalConfig
      → ℕ
      → GatewayState
      → World R
      → Result ℕ × GatewayState × World R
  unfolding poll_due
  poll_signals stop [] now s w = (ok 0, s, w)
  poll_signals stop (sig ∷ signals) now s w =
      poll_due stop (sig ∷ signals) now (due_devices now s) s
        (record w { reader = (x.forget_devices (codes s.devices) w.reader).1 })

  unfoldable pub run_poll_cycle :
      (ℕ → Bool) → ℕ → GatewayState → World R → Result ℕ × GatewayState × World R
  unfolding poll_signals
  run_poll_cycle stop now s w = elim s.gateway_active [
    | true ↦ poll_signals stop (filter_readable_signals s.signals) now s w
    | false ↦ (ok 0, s, w)
  ]
