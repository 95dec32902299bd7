-- ===== src/Config/Fetch/Accepts.antt =====
-- When fetch_config accepts an answer of the backend.
use mathlib.Core.Bool.{Bool, false}
use horstmann_dnp3_gateway.Base.{
  ℕ, ◌+◌, ◌≤◌, String, ◌≡◌, refl, sym, ap, ◌∙◌, Option, none, some, List, [], ◌∷◌, ◌++◌, arith,
  ◌==◌, nat_eq, text_eq, pair_eq, length, length-append, inl, inr, ltb, Bool-cases,
}
use horstmann_dnp3_gateway.Base.Json.{Fields, null, bool, int, float, text, list, object}
use horstmann_dnp3_gateway.Base.Number.{ℤ, pos, negsuc}
use horstmann_dnp3_gateway.Config.{GatewayConfig}
use horstmann_dnp3_gateway.Config.Values.{Conv, good, refused, overflow, Python}
use horstmann_dnp3_gateway.Config.Parse.{
  Parsed, parsed, config_error, uncaught, parse_gateway_config,
}
use horstmann_dnp3_gateway.Config.Fetch.{
  Response, Got, request_error, response, Loaded, loaded, not_json, fetched, failed, max_bytes,
  Body, whole, too_large, broken_off, prepend, end_of, read_body, declared_length, of_parsed,
  of_root, of_loaded, of_body, of_status, of_length, fetch_config,
}

abbrev pub concat : List (List ℕ) → List ℕ
concat [] = []
concat (chunk ∷ chunks) = chunk ++ concat chunks

whole-injective : (xs ys : List ℕ) → whole xs ≡ whole ys → xs ≡ ys
whole-injective xs ys e = cc

-- A body that was read as a whole.
record IsWhole (limit total : ℕ) (chunks : List (List ℕ)) (broken : Option String) (bytes : List ℕ)
    : Type 0 where
  pub joined : bytes ≡ concat chunks
  pub bounded : total + length bytes ≤ limit
  pub unbroken : broken ≡ none

whole_chunk :
    (limit total : ℕ) (chunk : List ℕ) (chunks : List (List ℕ)) (broken : Option String)
    (body : Body) (bytes : List ℕ)
    → ((rest : List ℕ)
        → body ≡ whole rest
        → IsWhole limit (total + length chunk) chunks broken rest)
    → prepend chunk body ≡ whole bytes
    → IsWhole limit total (chunk ∷ chunks) broken bytes
unfolding prepend
whole_chunk limit total chunk chunks broken (whole rest) bytes h e =
    let g = h rest refl in
    let same = sym (whole-injective (chunk ++ rest) bytes e) in
    record {
      joined = same ∙ ap (λ (b : List ℕ). chunk ++ b) g.joined;
      bounded = rw same (omega (arith, length-append chunk rest, g.bounded));
      unbroken = g.unbroken;
    }
whole_chunk limit total chunk chunks broken (too_large n) bytes h e = cc
whole_chunk limit total chunk chunks broken (broken_off t) bytes h e = cc

read_body-IsWhole :
    (limit total : ℕ) (chunks : List (List ℕ)) (broken : Option String) (bytes : List ℕ)
    → total ≤ limit
    → read_body limit total chunks broken ≡ whole bytes
    → IsWhole limit total chunks broken bytes
unfolding read_body end_of
read_body-IsWhole limit total [] none bytes low e =
    let same = whole-injective [] bytes e in
    record { joined = sym same; bounded = rw (sym same) (omega (arith, low)); unbroken = refl }
read_body-IsWhole limit total [] (some t) bytes low e = cc
read_body-IsWhole limit total ([] ∷ chunks) broken bytes low e =
    let g = read_body-IsWhole limit (total + 0) chunks broken bytes (omega (arith, low)) e in
    record { joined = g.joined; bounded = omega (arith, g.bounded); unbroken = g.unbroken }
read_body-IsWhole limit total ((b ∷ chunk) ∷ chunks) broken bytes low e =
    let received = total + length (b ∷ chunk) in
    let rest = read_body limit received chunks broken in
    let some_bytes : (length (b ∷ chunk) == 0) ≡ false = ground arith in
    elim (Bool-cases (ltb limit received)) [
      | inl g ↦ let bad : too_large received ≡ whole bytes = rw (some_bytes, g) at e in cc
      | inr g ↦
          whole_chunk limit total (b ∷ chunk) chunks broken rest bytes
            (λ (more : List ℕ) (same : rest ≡ whole more).
              read_body-IsWhole limit received chunks broken more (ground arith) same)
            (rw (some_bytes, g) at e)
    ]

module _ (python : Python) (replace : String → String → String → String) (loads : List ℕ → Loaded)
    (token : String) (rewrite : Bool) (gateway_code : String) where
  parsed-of_parsed :
      (p : Parsed) (config : GatewayConfig)
      → of_parsed python replace loads token rewrite gateway_code p ≡ fetched config
      → p ≡ parsed config
  unfolding of_parsed
  parsed-of_parsed (parsed other) config e = cc
  parsed-of_parsed (config_error t) config e = cc
  parsed-of_parsed uncaught config e = cc

  -- What an accepted value is.
  pub record IsConfig (v : Loaded) (config : GatewayConfig) : Type 0 where
    pub fields : Fields
    pub decoded : v ≡ loaded (object fields)
    pub config_of : parse_gateway_config python rewrite gateway_code fields ≡ parsed config

  of_loaded-IsConfig :
      (v : Loaded) (config : GatewayConfig)
      → of_loaded python replace loads token rewrite gateway_code v ≡ fetched config
      → IsConfig v config
  unfolding of_loaded of_root
  of_loaded-IsConfig (loaded (object fields)) config e = record {
    fields = fields;
    decoded = refl;
    config_of = parsed-of_parsed (parse_gateway_config python rewrite gateway_code fields) config e;
  }
  of_loaded-IsConfig (loaded null) config e = cc
  of_loaded-IsConfig (loaded (bool b)) config e = cc
  of_loaded-IsConfig (loaded (int n)) config e = cc
  of_loaded-IsConfig (loaded (float x)) config e = cc
  of_loaded-IsConfig (loaded (text s)) config e = cc
  of_loaded-IsConfig (loaded (list items)) config e = cc
  of_loaded-IsConfig (not_json t) config e = cc

  -- What an accepted response is.
  pub record IsAccepted (limit : ℕ) (r : Response) (config : GatewayConfig) : Type 0 where
    pub status : r.status_code ≡ 200
    pub unbroken : r.broken ≡ none
    pub bounded : length (concat r.chunks) ≤ limit
    pub value : IsConfig (loads (concat r.chunks)) config

  of_body-IsAccepted :
      (limit : ℕ) (r : Response) (config : GatewayConfig) (body : Body)
      → r.status_code ≡ 200
      → read_body limit 0 r.chunks r.broken ≡ body
      → of_body python replace loads token rewrite gateway_code limit body ≡ fetched config
      → IsAccepted limit r config
  unfolding of_body
  of_body-IsAccepted limit r config (whole bytes) ok read e =
      let g = read_body-IsWhole limit 0 r.chunks r.broken bytes (omega arith) read in
      record {
        status = ok;
        unbroken = g.unbroken;
        bounded = rw (sym g.joined) (omega (arith, g.bounded));
        value = of_loaded-IsConfig (loads (concat r.chunks)) config (rw g.joined at e);
      }
  of_body-IsAccepted limit r config (too_large n) ok read e = cc
  of_body-IsAccepted limit r config (broken_off t) ok read e = cc

  not_failed :
      (t : String) (limit : ℕ) (r : Response) (config : GatewayConfig)
      → failed t ≡ fetched config
      → IsAccepted limit r config
  not_failed t limit r config e = cc

  of_status-IsAccepted :
      (limit : ℕ) (r : Response) (config : GatewayConfig)
      → of_status python replace loads token rewrite gateway_code limit r ≡ fetched config
      → IsAccepted limit r config
  unfolding of_status
  of_status-IsAccepted limit r config e = elim (Bool-cases (r.status_code == 200)) [
    | inl q ↦
        of_body-IsAccepted limit r config (read_body limit 0 r.chunks r.broken) (ground arith) refl
          (rw q at e)
    | inr q ↦ not_failed _ limit r config (rw q at e)
  ]

  of_length-IsAccepted :
      (limit : ℕ) (r : Response) (n : Conv ℤ) (config : GatewayConfig)
      → of_length python replace loads token rewrite gateway_code limit r n ≡ fetched config
      → IsAccepted limit r config
  unfolding of_length
  of_length-IsAccepted limit r refused config e = cc
  of_length-IsAccepted limit r overflow config e = cc
  of_length-IsAccepted limit r (good (negsuc n)) config e = of_status-IsAccepted limit r config e
  of_length-IsAccepted limit r (good (pos n)) config e = elim (Bool-cases (ltb limit n)) [
    | inl q ↦ not_failed _ limit r config (rw q at e)
    | inr q ↦ of_status-IsAccepted limit r config (rw q at e)
  ]

  -- When fetch_config returns a configuration, the backend has answered with status 200, the body
  -- was read to its end and is no longer than the limit, its JSON is an object, and the
  -- configuration is what `_parse_gateway_config` makes of that object.
  pub fetch_config-IsAccepted :
      (response_max_bytes : ℤ) (got : Got) (config : GatewayConfig)
      → fetch_config python replace loads token rewrite gateway_code response_max_bytes got
        ≡ fetched config
      → (r : Response) × (got ≡ response r × IsAccepted (max_bytes response_max_bytes) r config)
  unfolding fetch_config
  fetch_config-IsAccepted response_max_bytes (request_error t) config e = cc
  fetch_config-IsAccepted response_max_bytes (response r) config e = (
    r,
    (
      refl,
      of_length-IsAccepted (max_bytes response_max_bytes) r
          (declared_length python replace loads token r.content_length) config e,
    ),
  )
