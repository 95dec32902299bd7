-- ===== src/Config/Values.antt =====
-- The values that an answer of the backend may hold, and the helpers that bring them into bounds
-- (src/dnp3_gateway/backend/config_client.py). Python's own conversions are a parameter.
pub mod Ranges
use horstmann_dnp3_gateway.Base.{
  ℕ, ◌≤◌, String, ◌≡◌, inl, inr, Bool, true, false, not, ◌&&◌, ◌||◌, Option, none, some, List, [],
  ◌∷◌, arith, leb, if◌then◌else◌, Bool-cases, ◌==◌, nat_eq, text_eq, pair_eq, contains, keys,
  prefix, occurs_in, subst,
}
use horstmann_dnp3_gateway.Base.Json.{
  Json, Fields, null, bool, int, float, text, list, object, nil, cons, end, field,
}
use horstmann_dnp3_gateway.Base.Number.{ℤ, pos, negsuc, Float, float_beq, float_zero, is_finite}

-- What a conversion gives: a value; TypeError or ValueError; or OverflowError (of an infinite or too
-- large number), which the helpers do not catch.
pub data Conv {ℓ} (A : Type ℓ) : Type ℓ where
  good : A → Conv A
  refused : Conv A
  overflow : Conv A

pub good-injective {ℓ} : {A : Type ℓ} {a b : A} → good a ≡ good b → a ≡ b
good-injective h = cc

infixl 20 ◌>>=◌
unfoldable pub ◌>>=◌ {ℓ κ} : {A : Type ℓ} {B : Type κ} → Conv A → (A → Conv B) → Conv B
good a >>= f = f a
refused >>= f = refused
overflow >>= f = overflow

-- int, float, str, str.strip and str.lower.
pub record Python : Type 0 where
  pub int_of : Json → Conv ℤ
  pub float_of : Json → Conv Float
  pub str_of : Json → String
  pub strip : String → String
  pub lower : String → String

-- item.get(key), which is None for a key that is not there.
unfoldable pub get : String → Fields → Json
get key end = null
get key (field k v rest) = if k == key then v else get key rest

-- bool(v)
unfoldable pub truthy : Json → Bool
truthy null = false
truthy (bool b) = b
truthy (int (pos n)) = not (n == 0)
truthy (int (negsuc n)) = true
truthy (float x) = not (float_beq x float_zero)
truthy (text s) = not (s == "")
truthy (list nil) = false
truthy (list (cons v rest)) = true
truthy (object end) = false
truthy (object (field k v rest)) = true

-- v or default
unfoldable pub or_else : Json → Json → Json
unfolding truthy
or_else default v = if truthy v then v else default

-- v in (None, "")
unfoldable pub is_blank : Json → Bool
is_blank null = true
is_blank (text s) = s == ""
is_blank v = false

-- v == 0
unfoldable pub is_zero : Json → Bool
is_zero (bool b) = not b
is_zero (int (pos n)) = n == 0
is_zero (float x) = float_beq x float_zero
is_zero v = false

-- lo <= z <= hi
unfoldable pub in_range : ℕ → ℕ → ℤ → Bool
in_range lo hi (pos n) = leb lo n && leb n hi
in_range lo hi (negsuc n) = false

abbrev pub Within : ℕ → ℕ → ℤ → Type 0
Within lo hi (pos n) = (lo ≤ n) × (n ≤ hi)
Within lo hi (negsuc n) = ⊥

pub in_range-Within : (lo hi : ℕ) (z : ℤ) → in_range lo hi z ≡ true → Within lo hi z
unfolding in_range
in_range-Within lo hi (pos n) h = ground arith
in_range-Within lo hi (negsuc n) h = cc

module _ (python : Python) where
  -- What `_safe_int` makes of the conversion.
  clamp : ℤ → ℕ → ℕ → Conv ℤ → Conv ℤ
  clamp default lo hi (good n) = good (if in_range lo hi n then n else default)
  clamp default lo hi refused = good default
  clamp default lo hi overflow = overflow

  unfoldable pub safe_int : ℤ → ℕ → ℕ → Json → Conv ℤ
  unfolding clamp
  safe_int default lo hi v =
      if is_blank v then good default else clamp default lo hi (python.int_of v)

  finite_or : Float → Conv Float → Conv Float
  finite_or default (good f) = good (if is_finite f then f else default)
  finite_or default refused = good default
  finite_or default overflow = overflow

  unfoldable pub safe_finite_float : Float → Json → Conv Float
  unfolding finite_or
  safe_finite_float default v =
      if is_blank v then good default else finite_or default (python.float_of v)

  -- `_truncate` of a value that is not None.
  unfoldable pub truncate : ℕ → Json → String
  truncate max_len v = prefix max_len (python.str_of v)

  -- The first key whose value converts and is in range.
  after_key : ℕ → ℕ → Conv (Option ℤ) → Conv ℤ → Conv (Option ℤ)
  after_key lo hi rest (good n) = if in_range lo hi n then good (some n) else rest
  after_key lo hi rest refused = rest
  after_key lo hi rest overflow = overflow

  unfoldable pub first_in_range : ℕ → ℕ → List String → Fields → Conv (Option ℤ)
  unfolding after_key
  first_in_range lo hi [] item = good none
  first_in_range lo hi (key ∷ keys) item =
      let rest = first_in_range lo hi keys item in
      if is_blank (get key item) then rest else after_key lo hi rest (python.int_of (get key item))

  unfoldable pub is_safe_device_ip : String → Bool
  is_safe_device_ip ip =
      let s = python.strip ip in
      if s == ""
      then true
      else not (occurs_in "://" s || occurs_in "/" s || occurs_in "\\" s || occurs_in " " s)

  -- `_rewrite_loopback_ip`
  unfoldable pub rewrite_loopback_ip : Bool → String → String
  rewrite_loopback_ip enabled ip =
      if enabled
        && contains (python.lower (python.strip ip))
            ("127.0.0.1" ∷ "localhost" ∷ "0.0.0.0" ∷ "::1" ∷ [])
      then "host.docker.internal"
      else ip

  pub safe_int-Within :
      (n lo hi : ℕ) (v : Json) (z : ℤ)
      → lo ≤ n
      → n ≤ hi
      → safe_int (pos n) lo hi v ≡ good z
      → Within lo hi z
  unfolding safe_int
  safe_int-Within n lo hi v z low high h = elim (Bool-cases (is_blank v)) [
    | inl q ↦ default (rw q at h)
    | inr q ↦ converted (python.int_of v) (rw q at h)
  ]
    where
      default : good (pos n) ≡ good z → Within lo hi z
      default e = subst (Within lo hi) (good-injective e) (low, high)

      converted : (r : Conv ℤ) → clamp (pos n) lo hi r ≡ good z → Within lo hi z
      converted (good k) e = elim (Bool-cases (in_range lo hi k)) [
        | inl q ↦ subst (Within lo hi) (good-injective (rw q at e)) (in_range-Within lo hi k q)
        | inr q ↦ default (rw q at e)
      ]
      converted refused e = default e
      converted overflow e = cc
