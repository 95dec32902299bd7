-- ===== src/Config/Fetch.antt =====
-- BackendConfigClient.fetch_config of src/dnp3_gateway/backend/config_client.py. What requests gives
-- is an argument: an exception, or the parts of a response that the code looks at.
pub mod Accepts
use mathlib.Core.Bool.{Bool}
use horstmann_dnp3_gateway.Base.{
  ℕ, ◌+◌, String, Option, none, some, List, [], ◌∷◌, ◌++◌, ltb, if◌then◌else◌, ◌==◌, nat_eq,
  text_eq, pair_eq, length, prefix, size, append_text, decimal, ◌*◌, max, not,
}
use horstmann_dnp3_gateway.Base.Json.{Json, null, bool, int, float, text, list, object}
use horstmann_dnp3_gateway.Base.Number.{ℤ, pos, negsuc, at_least}
use horstmann_dnp3_gateway.Config.{GatewayConfig}
use horstmann_dnp3_gateway.Config.Values.{Conv, good, refused, overflow, Python, or_else}
use horstmann_dnp3_gateway.Config.Parse.{
  Parsed, parsed, config_error, uncaught, parse_gateway_config,
}

-- A response: the Content-Length header (null when it is missing), the status, the first 2048 bytes
-- as a text (none when their read raises), the chunks of the body, and the RequestException that
-- ends them, if any.
pub record Response : Type 0 where
  pub content_length : Json
  pub status_code : ℕ
  pub preview : Option String
  pub chunks : List (List ℕ)
  pub broken : Option String

pub data Got : Type 0 where
  request_error : String → Got
  response : Response → Got

-- json.loads of the bytes: a value, or the text of what it raises.
pub data Loaded : Type 0 where
  loaded : Json → Loaded
  not_json : String → Loaded

-- A configuration, a GatewayConfigError with its text, or another exception.
pub data Fetched : Type 0 where
  fetched : GatewayConfig → Fetched
  failed : String → Fetched
  escaped : Fetched

-- max(64 * 1024, response_max_bytes)
unfoldable pub max_bytes : ℤ → ℕ
unfolding at_least
max_bytes response_max_bytes = at_least 65536 response_max_bytes

-- What the loop over the chunks comes to.
pub data Body : Type 0 where
  whole : List ℕ → Body
  too_large : ℕ → Body
  broken_off : String → Body

unfoldable pub prepend : List ℕ → Body → Body
prepend chunk (whole bytes) = whole (chunk ++ bytes)
prepend chunk (too_large n) = too_large n
prepend chunk (broken_off t) = broken_off t

unfoldable pub end_of : Option String → Body
end_of none = whole []
end_of (some t) = broken_off t

-- An empty chunk adds nothing to the total.
unfoldable pub read_body : ℕ → ℕ → List (List ℕ) → Option String → Body
unfolding prepend end_of
read_body limit total [] broken = end_of broken
read_body limit total (chunk ∷ chunks) broken =
    let received = total + length chunk in
    let rest = read_body limit received chunks broken in
    if length chunk == 0
    then rest
    else if ltb limit received
    then too_large received
    else prepend chunk rest

-- type(data).__name__
type_name : Json → String
type_name null = "NoneType"
type_name (bool b) = "bool"
type_name (int n) = "int"
type_name (float x) = "float"
type_name (text s) = "str"
type_name (list items) = "list"
type_name (object fields) = "dict"

abbrev pub joined : String → String → String → String
joined a b c = append_text a (append_text b c)

-- `replace` is str.replace, and `loads` decodes the bytes and reads them as JSON.
module _ (python : Python) (replace : String → String → String → String) (loads : List ℕ → Loaded)
    (token : String) where
  -- `_scrub_token_from_text`
  unfoldable pub scrub_token_from_text : String → String
  scrub_token_from_text t = if ltb (size token) 6 then t else replace t token "***REDACTED***"

  -- int(response.headers.get("Content-Length", "0") or "0")
  unfoldable pub declared_length : Json → Conv ℤ
  declared_length header = elim (python.int_of (or_else (text "0") header)) [
    | good n ↦ good n
    | refused ↦ good (pos 0)
    | overflow ↦ overflow
  ]

  module _ (rewrite : Bool) (gateway_code : String) where
    unfoldable pub of_parsed : Parsed → Fetched
    of_parsed (parsed config) = fetched config
    of_parsed (config_error t) = failed t
    of_parsed uncaught = escaped

    unfoldable pub of_root : Json → Fetched
    unfolding of_parsed type_name
    of_root (object answer) = of_parsed (parse_gateway_config python rewrite gateway_code answer)
    of_root v = failed (append_text "config response root must be object, got " (type_name v))

    unfoldable pub of_loaded : Loaded → Fetched
    unfolding of_root
    of_loaded (loaded v) = of_root v
    of_loaded (not_json t) = failed (append_text "config response is not json: " t)

    unfoldable pub of_body : ℕ → Body → Fetched
    unfolding of_loaded scrub_token_from_text
    of_body limit (whole bytes) = of_loaded (loads bytes)
    of_body limit (too_large received) = failed (
        joined "config response exceeded limit during streaming: received=" (decimal received)
          (joined " bytes limit=" (decimal limit) ""))
    of_body limit (broken_off t) =
        failed (append_text "config response read failed: " (scrub_token_from_text t))

    preview_of : Option String → String
    preview_of none = ""
    preview_of (some t) = prefix 200 t

    unfoldable pub of_status : ℕ → Response → Fetched
    unfolding of_body read_body scrub_token_from_text preview_of
    of_status limit r =
        if r.status_code == 200
        then of_body limit (read_body limit 0 r.chunks r.broken)
        else failed (
            joined "config request returned " (decimal r.status_code)
              (append_text ": " (scrub_token_from_text (preview_of r.preview))))

    unfoldable pub of_length : ℕ → Response → Conv ℤ → Fetched
    unfolding of_status
    of_length limit r refused = escaped
    of_length limit r overflow = escaped
    of_length limit r (good (negsuc n)) = of_status limit r
    of_length limit r (good (pos n)) =
        if ltb limit n
        then failed (
            joined "config response too large: content_length=" (decimal n)
              (joined " bytes (limit=" (decimal limit) ")"))
        else of_status limit r

    unfoldable pub fetch_config : ℤ → Got → Fetched
    unfolding of_length declared_length max_bytes scrub_token_from_text
    fetch_config response_max_bytes (request_error t) =
        failed (append_text "config request failed: " (scrub_token_from_text t))
    fetch_config response_max_bytes (response r) =
        of_length (max_bytes response_max_bytes) r (declared_length r.content_length)
