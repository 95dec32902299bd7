-- ===== src/CacheFile.antt =====
-- The file that keeps the configuration for the next start: the JSON of `_persist_unsafe`
-- (src/dnp3_gateway/state.py). CacheFile.Reading has how `load_from_cache` reads it.
pub mod Reading
pub mod Reads
use horstmann_dnp3_gateway.Base.{
  ℕ, String, Bool, Option, none, some, List, [], ◌∷◌, true, if◌then◌else◌, ◌==◌, nat_eq, text_eq,
  pair_eq,
}
use horstmann_dnp3_gateway.Base.Json.{
  Json, Items, Fields, null, bool, int, float, text, list, object, nil, cons, end, field,
}
use horstmann_dnp3_gateway.Base.Number.{ℤ, pos, Float}
use horstmann_dnp3_gateway.Config.{DeviceConfig, SignalConfig, GatewayConfig}

optional_int : Option ℤ → Json
optional_int none = null
optional_int (some n) = int n

optional_text : Option String → Json
optional_text none = null
optional_text (some t) = text t

-- asdict(device)
unfoldable pub device_fields : DeviceConfig → Fields
unfolding optional_int
device_fields d = field "code" (text d.code) (
    field "name" (text d.name) (
      field "ip_address" (text d.ip_address) (
        field "dnp3_address" (int d.dnp3_address) (
          field "dnp3_tcp_port" (optional_int d.dnp3_tcp_port) (
            field "master_address" (optional_int d.master_address) (
              field "ip_endpoint_type" (text d.ip_endpoint_type) (
                field "master_ip_port" (optional_int d.master_ip_port) (
                  field "poll_interval_sec" (int d.poll_interval_sec) (
                    field "timeout_ms" (int d.timeout_ms) (
                      field "retry_count" (int d.retry_count)
                        (field "signal_profile" (text d.signal_profile) end)))))))))))

-- asdict(signal)
unfoldable pub signal_fields : SignalConfig → Fields
unfolding optional_text
signal_fields s = field "key" (text s.key) (
    field "label" (text s.label) (
      field "unit" (optional_text s.unit) (
        field "source" (text s.source) (
          field "dnp3_class" (text s.dnp3_class) (
            field "data_type" (text s.data_type) (
              field "dnp3_object_group" (int s.dnp3_object_group) (
                field "dnp3_index" (int s.dnp3_index) (
                  field "scale" (float s.scale) (
                    field "offset" (float s.offset)
                      (field "supports_alarm" (bool s.supports_alarm) end))))))))))

unfoldable pub items_json {ℓ} : {A : Type ℓ} → (A → Fields) → List A → Items
items_json f [] = nil
items_json f (a ∷ rest) = cons (object (f a)) (items_json f rest)

-- The payload; `cached_at` is the time in seconds.
unfoldable pub payload : GatewayConfig → Float → Fields
unfolding device_fields signal_fields items_json
payload c cached_at = field "config_version" (text c.config_version) (
    field "gateway_code" (text c.gateway_code) (
      field "gateway_name" (text c.gateway_name) (
        field "is_active" (bool c.is_active) (
          field "batch_interval_sec" (int c.batch_interval_sec) (
            field "max_devices" (int c.max_devices) (
              field "cached_at_unix" (float cached_at) (
                field "devices" (list (items_json device_fields c.devices))
                  (field "signals" (list (items_json signal_fields c.signals)) end))))))))
