-- ===== src/CacheFile/Reads.antt =====
-- What is read of what was written.
use horstmann_dnp3_gateway.Base.{
  String, ◌≡◌, refl, Option, none, some, List, [], ◌∷◌, nat_eq, text_eq, pair_eq,
}
use horstmann_dnp3_gateway.Base.Json.{Fields}
use horstmann_dnp3_gateway.Base.Number.{ℤ, Float}
use horstmann_dnp3_gateway.Config.{DeviceConfig, SignalConfig, GatewayConfig}
use horstmann_dnp3_gateway.CacheFile.{
  optional_int, optional_text, device_fields, signal_fields, items_json, payload,
}
use horstmann_dnp3_gateway.CacheFile.Reading.{
  Read, got, ◌<*>◌, find, device_of, signal_of, read_all, read_list, read_lists, as_optional_int,
  as_optional_text,
}

as_optional_int-optional_int : (n : Option ℤ) → as_optional_int (optional_int n) ≡ got n
unfolding as_optional_int optional_int
as_optional_int-optional_int none = refl
as_optional_int-optional_int (some n) = refl

as_optional_text-optional_text : (t : Option String) → as_optional_text (optional_text t) ≡ got t
unfolding as_optional_text optional_text
as_optional_text-optional_text none = refl
as_optional_text-optional_text (some t) = refl

-- A device is read back as it was.
device_of-device_fields : (d : DeviceConfig) → device_of (device_fields d) ≡ got d
unfolding device_of device_fields find ◌<*>◌
device_of-device_fields d =
    rw
      (
        as_optional_int-optional_int d.dnp3_tcp_port,
        as_optional_int-optional_int d.master_address,
        as_optional_int-optional_int d.master_ip_port,
      )
      refl

signal_of-signal_fields : (s : SignalConfig) → signal_of (signal_fields s) ≡ got s
unfolding signal_of signal_fields find ◌<*>◌
signal_of-signal_fields s = rw (as_optional_text-optional_text s.unit) refl

read_all-items_json {ℓ} :
    {A : Type ℓ} (f : Fields → Read A) (g : A → Fields) (xs : List A)
    → ((a : A) → f (g a) ≡ got a)
    → read_all f (items_json g xs) ≡ got xs
unfolding read_all items_json ◌<*>◌
read_all-items_json f g [] h = refl
read_all-items_json f g (a ∷ rest) h = rw (h a, read_all-items_json f g rest h) refl

-- The devices and the signals of a payload are read back as they were.
pub read_lists-payload :
    (c : GatewayConfig) (cached_at : Float)
    → read_lists (payload c cached_at) ≡ got (c.devices, c.signals)
unfolding read_lists read_list payload find ◌<*>◌
read_lists-payload c cached_at =
    rw
      (
        read_all-items_json device_of device_fields c.devices device_of-device_fields,
        read_all-items_json signal_of signal_fields c.signals signal_of-signal_fields,
      )
      refl
