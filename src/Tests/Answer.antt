-- ===== src/Tests/Answer.antt =====
-- An answer of the backend.
use horstmann_dnp3_gateway.Base.{
  refl, String, ◌≡◌, true, none, some, [], ◌∷◌, nat_eq, text_eq, pair_eq, contains, prefix,
  occurs_in, ℕ, ap, List, if◌then◌else◌, ◌==◌,
}
use horstmann_dnp3_gateway.Base.Json.{
  null, Json, Fields, int, text, list, object, nil, cons, end, field,
}
use horstmann_dnp3_gateway.Base.Number.{ℤ, pos}
use horstmann_dnp3_gateway.Config.{GatewayConfig}
use horstmann_dnp3_gateway.Config.Values.{
  Conv, good, refused, Python, truncate, safe_int, first_in_range, get, is_blank, or_else, in_range,
  is_safe_device_ip, rewrite_loopback_ip, ◌>>=◌,
}
use horstmann_dnp3_gateway.Config.Parse.{
  devices_of, signals_of, parsed, parse_gateway_config, object_of,
}
use horstmann_dnp3_gateway.Config.Fetch.{
  Response, response, Loaded, loaded, fetched, max_bytes, declared_length, read_body, prepend,
  end_of, of_parsed, of_root, of_loaded, of_body, of_status, of_length, fetch_config,
}
use horstmann_dnp3_gateway.Config.Fetch.Accepts.{IsAccepted, fetch_config-IsAccepted}
use horstmann_dnp3_gateway.Config.Parse.Whole.{IsBounded, parse_gateway_config-IsBounded}

abbrev int_of : Json → Conv ℤ
int_of (int z) = good z
int_of v = refused

abbrev str_of : Json → String
str_of (text s) = s
str_of v = "?"

abbrev python : Python
python = record {
  int_of = int_of;
  float_of = λ v. refused;
  str_of = str_of;
  strip = λ s. s;
  lower = λ s. s;
}

abbrev answer : Fields
answer = field "config_version" (text "v7") (
    field "devices"
      (list (
        cons
          (object (
            field "code" (text "D1")
              (field "dnp3_address" (int (pos 70000)) (field "dnp3_port" (int (pos 20000)) end))))
          (cons (object (field "code" (text "D2") (field "ip_address" (text "http://x") end)))
            nil)))
      end)

abbrev result : GatewayConfig
result = record {
  gateway_code = "GW1";
  gateway_name = "";
  batch_interval_sec = pos 5;
  max_devices = pos 200;
  is_active = true;
  config_version = "v7";
  devices =
      record {
        code = "D1";
        name = "D1";
        ip_address = "";
        dnp3_address = pos 1;
        dnp3_tcp_port = some (pos 20000);
        master_address = none;
        ip_endpoint_type = "listening";
        master_ip_port = none;
        poll_interval_sec = pos 5;
        timeout_ms = pos 3000;
        retry_count = pos 2;
        signal_profile = "horstmann_sn2_fixed";
      }
      ∷ [];
  signals = [];
  refresh_nonce = pos 0;
}

parse_runs : parse_gateway_config python true "GW1" answer ≡ parsed result
unfolding parse_gateway_config get devices_of object_of is_safe_device_ip or_else ◌>>=◌ safe_int
    is_blank first_in_range in_range occurs_in signals_of truncate rewrite_loopback_ip contains
    prefix
parse_runs = refl

parse_gateway_config-IsBounded_example : IsBounded result
parse_gateway_config-IsBounded_example =
    parse_gateway_config-IsBounded python "GW1" answer true result parse_runs

-- An answer in three chunks, one of them empty.
abbrev in_chunks : Response
in_chunks = record {
  content_length = null;
  status_code = 200;
  preview = none;
  chunks = (123 ∷ []) ∷ [] ∷ (10 ∷ 125 ∷ []) ∷ [];
  broken = none;
}

abbrev replace : String → String → String → String
replace t old new = if t == old then new else t

abbrev loads : List ℕ → Loaded
loads bytes = loaded (object answer)

fetch_runs :
    fetch_config python replace loads "secret-token" true "GW1" (pos 10) (response in_chunks)
    ≡ fetched result
unfolding fetch_config of_length declared_length max_bytes of_status read_body of_body of_loaded
    of_root of_parsed prepend end_of or_else
fetch_runs = ap (of_parsed python replace loads "secret-token" true "GW1") parse_runs

fetch_config-IsAccepted_example :
    (r : Response) × (response in_chunks ≡ response r
      × IsAccepted python replace loads "secret-token" true "GW1" (max_bytes (pos 10)) r result)
fetch_config-IsAccepted_example =
    fetch_config-IsAccepted python replace loads "secret-token" true "GW1" (pos 10)
      (response in_chunks) result fetch_runs
