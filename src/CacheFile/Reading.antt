-- ===== src/CacheFile/Reading.antt =====
-- How `load_from_cache` of src/dnp3_gateway/state.py reads the devices and the signals of the file.
use horstmann_dnp3_gateway.Base.{
  String, Bool, Option, none, some, List, [], ◌∷◌, if◌then◌else◌, ◌==◌, nat_eq, text_eq, pair_eq,
}
use horstmann_dnp3_gateway.Base.Json.{
  Json, Items, Fields, null, bool, int, float, text, list, object, nil, cons, end, field,
}
use horstmann_dnp3_gateway.Base.Number.{ℤ, pos, Float}
use horstmann_dnp3_gateway.Config.{DeviceConfig, SignalConfig}

-- What reading a part gives: its value; TypeError, which `load_from_cache` catches; AttributeError,
-- which it does not; or an object whose fields are not of the types that its class declares, which
-- Python does not check.
pub data Read {ℓ} (A : Type ℓ) : Type ℓ where
  got : A → Read A
  type_error : Read A
  attribute_error : Read A
  untyped : Read A

-- The second part is read after the first; an exception ends the reading.
infixl 20 ◌<*>◌
unfoldable pub ◌<*>◌ {ℓ κ} : {A : Type ℓ} {B : Type κ} → Read (A → B) → Read A → Read B
got f <*> got a = got (f a)
got f <*> type_error = type_error
got f <*> attribute_error = attribute_error
got f <*> untyped = untyped
type_error <*> r = type_error
attribute_error <*> r = attribute_error
untyped <*> got a = untyped
untyped <*> type_error = type_error
untyped <*> attribute_error = attribute_error
untyped <*> untyped = untyped

unfoldable pub find : String → Fields → Option Json
find key end = none
find key (field k v rest) = if k == key then some v else find key rest

unfoldable pub as_text : Json → Read String
as_text (text t) = got t
as_text v = untyped

unfoldable pub as_int : Json → Read ℤ
as_int (int n) = got n
as_int v = untyped

unfoldable pub as_float : Json → Read Float
as_float (float x) = got x
as_float v = untyped

unfoldable pub as_bool : Json → Read Bool
as_bool (bool b) = got b
as_bool v = untyped

unfoldable pub as_optional_int : Json → Read (Option ℤ)
as_optional_int null = got none
as_optional_int (int n) = got (some n)
as_optional_int v = untyped

unfoldable pub as_optional_text : Json → Read (Option String)
as_optional_text null = got none
as_optional_text (text t) = got (some t)
as_optional_text v = untyped

-- An argument that the constructor misses, or has a default for.
required {ℓ} : {A : Type ℓ} → String → (Json → Read A) → Fields → Read A
unfolding find
required key as_type item = elim (find key item) [ none ↦ type_error | some v ↦ as_type v ]

default_to {ℓ} : {A : Type ℓ} → A → String → (Json → Read A) → Fields → Read A
unfolding find
default_to a key as_type item = elim (find key item) [ none ↦ got a | some v ↦ as_type v ]

abbrev make_device :
    String
    → String
    → String
    → ℤ
    → Option ℤ
    → Option ℤ
    → String
    → Option ℤ
    → ℤ
    → ℤ
    → ℤ
    → String
    → DeviceConfig
make_device code name ip address tcp_port master endpoint server_port interval timeout retries
      profile =
    record {
      code = code;
      name = name;
      ip_address = ip;
      dnp3_address = address;
      dnp3_tcp_port = tcp_port;
      master_address = master;
      ip_endpoint_type = endpoint;
      master_ip_port = server_port;
      poll_interval_sec = interval;
      timeout_ms = timeout;
      retry_count = retries;
      signal_profile = profile;
    }

-- DeviceConfig(**{k: v for k, v in d.items() if k in DeviceConfig.__dataclass_fields__})
unfoldable pub device_of : Fields → Read DeviceConfig
unfolding ◌<*>◌ required default_to as_text as_int as_optional_int
device_of d =
    got make_device
    <*> required "code" as_text d
    <*> required "name" as_text d
    <*> required "ip_address" as_text d
    <*> default_to (pos 1) "dnp3_address" as_int d
    <*> default_to none "dnp3_tcp_port" as_optional_int d
    <*> default_to none "master_address" as_optional_int d
    <*> default_to "listening" "ip_endpoint_type" as_text d
    <*> default_to none "master_ip_port" as_optional_int d
    <*> default_to (pos 5) "poll_interval_sec" as_int d
    <*> default_to (pos 3000) "timeout_ms" as_int d
    <*> default_to (pos 2) "retry_count" as_int d
    <*> default_to "horstmann_sn2_fixed" "signal_profile" as_text d

abbrev make_signal :
    String
    → String
    → Option String
    → String
    → String
    → String
    → ℤ
    → ℤ
    → Float
    → Float
    → Bool
    → SignalConfig
make_signal key label unit source dnp3_class data_type group index scale offset alarm = record {
  key = key;
  label = label;
  unit = unit;
  source = source;
  dnp3_class = dnp3_class;
  data_type = data_type;
  dnp3_object_group = group;
  dnp3_index = index;
  scale = scale;
  offset = offset;
  supports_alarm = alarm;
}

-- SignalConfig(**{k: v for k, v in s.items() if k in SignalConfig.__dataclass_fields__})
unfoldable pub signal_of : Fields → Read SignalConfig
unfolding ◌<*>◌ required as_text as_int as_float as_bool as_optional_text
signal_of s =
    got make_signal
    <*> required "key" as_text s
    <*> required "label" as_text s
    <*> required "unit" as_optional_text s
    <*> required "source" as_text s
    <*> required "dnp3_class" as_text s
    <*> required "data_type" as_text s
    <*> required "dnp3_object_group" as_int s
    <*> required "dnp3_index" as_int s
    <*> required "scale" as_float s
    <*> required "offset" as_float s
    <*> required "supports_alarm" as_bool s

abbrev pub prepended {ℓ} : {A : Type ℓ} → A → List A → List A
prepended a rest = a ∷ rest

-- An item that is no object has no `items`.
unfoldable pub read_all {ℓ} : {A : Type ℓ} → (Fields → Read A) → Items → Read (List A)
unfolding ◌<*>◌
read_all f nil = got []
read_all f (cons (object item) rest) = got prepended <*> f item <*> read_all f rest
read_all f (cons v rest) = attribute_error

-- The comprehension over data.get(key, []): null, numbers and Booleans are not iterable, and a text
-- and an object give texts.
unfoldable pub read_list {ℓ} : {A : Type ℓ} → (Fields → Read A) → Option Json → Read (List A)
unfolding read_all
read_list f none = got []
read_list f (some (list items)) = read_all f items
read_list f (some (object end)) = got []
read_list f (some (object (field k v rest))) = attribute_error
read_list f (some (text t)) = if t == "" then got [] else attribute_error
read_list f (some null) = type_error
read_list f (some (bool b)) = type_error
read_list f (some (int n)) = type_error
read_list f (some (float x)) = type_error

abbrev pub both {ℓ κ} : {A : Type ℓ} {B : Type κ} → A → B → A × B
both a b = (a, b)

-- The devices and the signals.
unfoldable pub read_lists : Fields → Read (List DeviceConfig × List SignalConfig)
unfolding ◌<*>◌ find read_list device_of signal_of
read_lists fields =
    got both
    <*> read_list device_of (find "devices" fields)
    <*> read_list signal_of (find "signals" fields)
