-- ===== src/Exception.antt =====
-- The exceptions that cross the components (src/dnp3_gateway/messaging), and a call's outcome.
use horstmann_dnp3_gateway.Base.{String, ◌≡◌, ◌≢◌}

-- One constructor for each class that a handler tells apart, with its text. `sqlite` is
-- sqlite3.Error, and `other` is every class that only `except Exception` catches.
pub data Exc : Type 0 where
  outbox_full : String → Exc
  jetstream_not_ready : String → Exc
  jetstream_publish : String → Exc
  sqlite : String → Exc
  other : String → Exc

-- str(exc)
abbrev pub message : Exc → String
message (outbox_full t) = t
message (jetstream_not_ready t) = t
message (jetstream_publish t) = t
message (sqlite t) = t
message (other t) = t

pub data Result {ℓ} (A : Type ℓ) : Type ℓ where
  ok : A → Result A
  raise : Exc → Result A

pub ok-injective {ℓ} : {A : Type ℓ} {a b : A} → ok a ≡ ok b → a ≡ b
ok-injective h = cc

pub raise-ne-ok {ℓ} : {A : Type ℓ} (exc : Exc) (a : A) → raise exc ≢ ok a
raise-ne-ok exc a h = cc
