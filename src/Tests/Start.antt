-- ===== src/Tests/Start.antt =====
-- The first start of a process and a later one.
use mathlib.Core.Bool.{true}
use horstmann_dnp3_gateway.Base.{
  ◌≡◌, refl, none, [], ◌∷◌, if◌then◌else◌, ◌==◌, nat_eq, text_eq, pair_eq, append_text, lookup,
  insert, prefix,
}
use horstmann_dnp3_gateway.Base.Number.{pos}
use horstmann_dnp3_gateway.Identity.{
  Texts, Settings, Faults, Disk, done, write_id, usable, from_content, from_file, id_path,
  safe_code, from_state_dir, resolve_instance_id,
}
use horstmann_dnp3_gateway.Identity.Instance.{resolve_again}

abbrev texts : Texts
texts = record {
  strip = λ t. if t == "u1\n" then "u1" else t;
  lower = λ t. t;
  matches = λ pattern t. true;
  sub = λ pattern new t. t;
  path = λ base name. append_text base (append_text "/" name);
}

abbrev settings : Settings
settings = record {
  gateway_code = "GW1";
  gateway_token = "a-long-secret-token";
  gateway_instance_id = none;
  gateway_state_dir = "state";
  app_environment = "prod";
  gateway_token_min_length_staging = pos 8;
  gateway_token_min_length_production = pos 16;
}

abbrev no_faults : Faults
no_faults = record { mkdir = none; read = none; write = none }

abbrev written : Disk
written = ("state/instance_GW1.id", "u1\n") ∷ []

first_start : resolve_instance_id texts no_faults "u1" settings [] ≡ (done "u1", written)
unfolding resolve_instance_id from_state_dir from_file from_content id_path safe_code write_id
    lookup insert append_text prefix
first_start = refl

usable_id : usable texts "u1" ≡ true
unfolding usable
usable_id = refl

stripped_id : texts.strip (append_text "u1" "\n") ≡ "u1"
unfolding append_text
stripped_id = refl

resolve_again_example :
    resolve_instance_id texts no_faults "u2" settings written ≡ (done "u1", written)
resolve_again_example =
    resolve_again texts no_faults "u1" "u2" refl usable_id stripped_id no_faults settings "u1" []
      written refl first_start
