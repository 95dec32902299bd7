-- ===== src/Identity.antt =====
-- The identity of a process: src/dnp3_gateway/auth/identity.py, and the headers of
-- src/dnp3_gateway/auth/headers.py.
pub mod Instance
use mathlib.Core.Bool.{Bool, true, false, not, ◌&&◌, ◌||◌}
use horstmann_dnp3_gateway.Base.{
  ℕ, String, Option, none, some, List, [], ◌∷◌, map, if◌then◌else◌, ◌==◌, nat_eq, text_eq, pair_eq,
  contains, size, prefix, append_text, Dict, lookup, insert, ◌/◌,
}
use horstmann_dnp3_gateway.Base.Number.{ℤ, pos, int_ltb}

-- str.strip and str.lower, re.match and re.sub by the text of the pattern, and base / name.
pub record Texts : Type 0 where
  pub strip : String → String
  pub lower : String → String
  pub matches : String → String → Bool
  pub sub : String → String → String → String
  pub path : String → String → String

-- The settings that the identity is made of.
pub record Settings : Type 0 where
  pub gateway_code : String
  pub gateway_token : String
  pub gateway_instance_id : Option String
  pub gateway_state_dir : String
  pub app_environment : String
  pub gateway_token_min_length_staging : ℤ
  pub gateway_token_min_length_production : ℤ

pub record GatewayIdentity : Type 0 where
  pub gateway_code : String
  pub token : String
  pub instance_id : String
  pub app_version : String
  pub app_environment : String

-- What each SystemExit says, with the values in its text.
pub data Exit : Type 0 where
  bad_instance_id : String → Exit
  no_state_dir : String → String → Exit
  unreadable : String → String → Exit
  unwritable : String → String → Exit
  bad_code : String → Exit
  empty_token : Exit
  bad_environment : Exit
  placeholder_token : String → Exit
  short_token : ℤ → String → Exit

pub data Outcome {ℓ} (A : Type ℓ) : Type ℓ where
  done : A → Outcome A
  exit : Exit → Outcome A

-- write_text raises before it has opened the file, or after, with a part of the text written.
pub data WriteFault : Type 0 where
  not_opened : String → WriteFault
  cut_short : String → String → WriteFault

-- The OSErrors of mkdir, read_text and write_text.
pub record Faults : Type 0 where
  pub mkdir : Option String
  pub read : Option String
  pub write : Option WriteFault

-- The files by their paths, all of them texts in UTF-8.
abbrev pub Disk : Type 0
Disk = Dict String String

abbrev pub placeholder_tokens : List String
placeholder_tokens = "gw-default-token" ∷ "change-me" ∷ "changeme" ∷ []

abbrev pub code_safe : String
code_safe = "^[\\w][\\w-]{0,62}$"

abbrev pub instance_safe : String
instance_safe = "^[\\w.-]{0,120}$"

abbrev pub or_empty : Option String → String
or_empty none = ""
or_empty (some t) = t

module _ (x : Texts) where
  unfoldable pub write_id : Option WriteFault → String → String → Disk → Outcome String × Disk
  write_id none path new_id disk = (done new_id, insert path (append_text new_id "\n") disk)
  write_id (some (not_opened e)) path new_id disk = (exit (unwritable path e), disk)
  write_id (some (cut_short part e)) path new_id disk =
      (exit (unwritable path e), insert path part disk)

  unfoldable pub usable : String → Bool
  usable existing = not (existing == "") && x.matches instance_safe existing

  unfoldable pub from_content :
      Option String → Option WriteFault → String → String → String → Disk → Outcome String × Disk
  unfolding write_id usable
  from_content (some e) write uuid path content disk = (exit (unreadable path e), disk)
  from_content none write uuid path content disk =
      let existing = x.strip content in
      if usable existing then (done existing, disk) else write_id write path uuid disk

  -- The file's content, if it is there.
  unfoldable pub from_file : Faults → String → String → Option String → Disk → Outcome String × Disk
  unfolding write_id from_content
  from_file f uuid path none disk = write_id f.write path uuid disk
  from_file f uuid path (some content) disk = from_content f.read f.write uuid path content disk

  -- re.sub(...)[:50] or "gw"
  unfoldable pub safe_code : String → String
  safe_code gateway_code =
      let code = prefix 50 (x.sub "[^\\w-]+" "_" (x.strip gateway_code)) in
      if code == "" then "gw" else code

  unfoldable pub id_path : Settings → String
  unfolding safe_code
  id_path s =
      x.path s.gateway_state_dir
        (append_text "instance_" (append_text (safe_code s.gateway_code) ".id"))

  unfoldable pub from_state_dir :
      Option String → Faults → String → Settings → Disk → Outcome String × Disk
  unfolding from_file id_path
  from_state_dir (some e) f uuid s disk = (exit (no_state_dir s.gateway_state_dir e), disk)
  from_state_dir none f uuid s disk = from_file f uuid (id_path s) (lookup (id_path s) disk) disk

  unfoldable pub resolve_instance_id : Faults → String → Settings → Disk → Outcome String × Disk
  unfolding from_state_dir
  resolve_instance_id f uuid s disk =
      let raw = x.strip (or_empty s.gateway_instance_id) in
      if raw == ""
      then from_state_dir f.mkdir f uuid s disk
      else if x.matches instance_safe raw
      then (done raw, disk)
      else (exit (bad_instance_id raw), disk)

  unfoldable pub is_development : String → Bool
  is_development env = contains env ("dev" ∷ "development" ∷ [])

  unfoldable pub min_length : String → Settings → ℤ
  min_length env s =
      if contains env ("staging" ∷ "stg" ∷ [])
      then s.gateway_token_min_length_staging
      else s.gateway_token_min_length_production

  -- The exit of a credential check, if any.
  unfoldable pub check_token : String → String → Settings → Option Exit
  unfolding min_length
  check_token env token s =
      if contains (x.lower token) (map x.lower placeholder_tokens)
      then some (placeholder_token env)
      else if int_ltb (pos (size token)) (min_length env s)
      then some (short_token (min_length env s) env)
      else none

  unfoldable pub check_environment : String → String → Settings → Option Exit
  unfolding check_token is_development
  check_environment env token s =
      if contains env ("development" ∷ "staging" ∷ "production" ∷ "dev" ∷ "stg" ∷ "prod" ∷ [])
      then (if is_development env then none else check_token env token s)
      else some bad_environment

  unfoldable pub is_valid_code : String → Bool
  is_valid_code value = not (value == "") && x.matches code_safe (x.strip value)

  unfoldable pub ensure_credentials_allowed : Settings → Option Exit
  unfolding check_environment is_valid_code
  ensure_credentials_allowed s =
      let code = x.strip s.gateway_code in
      let token = x.strip s.gateway_token in
      if is_valid_code code
      then (if token == ""
          then some empty_token
          else check_environment (x.lower (x.strip s.app_environment)) token s)
      else some (bad_code code)

  unfoldable pub env_out : String → String
  unfolding is_development
  env_out env =
      if is_development env
      then "development"
      else if contains env ("stg" ∷ "staging" ∷ [])
      then "staging"
      else if contains env ("prod" ∷ "production" ∷ [])
      then "production"
      else env

  unfoldable pub identity_of : Settings → String → String → GatewayIdentity
  unfolding env_out
  identity_of s app_version instance = record {
    gateway_code = x.strip s.gateway_code;
    token = x.strip s.gateway_token;
    instance_id = instance;
    app_version = app_version;
    app_environment = env_out (x.lower (x.strip s.app_environment));
  }

  unfoldable pub after_resolve :
      Settings → String → Outcome String × Disk → Outcome GatewayIdentity × Disk
  unfolding identity_of
  after_resolve s app_version (done instance, disk) =
      (done (identity_of s app_version instance), disk)
  after_resolve s app_version (exit e, disk) = (exit e, disk)

  unfoldable pub bootstrap_gateway_identity :
      Faults → String → Settings → String → Disk → Outcome GatewayIdentity × Disk
  unfolding ensure_credentials_allowed after_resolve resolve_instance_id
  bootstrap_gateway_identity f uuid s app_version disk = elim (ensure_credentials_allowed s) [
    | some e ↦ (exit e, disk)
    | none ↦ after_resolve s app_version (resolve_instance_id f uuid s disk)
  ]

-- `correlation` is str(uuid4()).
unfoldable pub build_config_request_headers : String → GatewayIdentity → Dict String String
build_config_request_headers correlation i =
    ("X-Gateway-Token", i.token)
    ∷ ("X-Gateway-Code", i.gateway_code)
    ∷ ("X-Gateway-Instance-Id", i.instance_id)
    ∷ ("X-Request-Id", correlation)
    ∷ (
      "User-Agent",
      append_text "EnerjiOne-Dnp3Gateway/"
          (append_text i.app_version (append_text " (env=" (append_text i.app_environment ")"))),
    )
    ∷ ("X-Gateway-Client", append_text "dnp3-gateway/" i.app_version)
    ∷ []
