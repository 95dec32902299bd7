-- ===== src/Config/Values/Ranges.antt =====
-- What the helpers give is in range.
use horstmann_dnp3_gateway.Base.{
  ℕ, String, ◌≡◌, inl, inr, true, Option, none, some, List, [], ◌∷◌, Bool-cases, keys, subst,
}
use horstmann_dnp3_gateway.Base.Json.{Json, Fields}
use horstmann_dnp3_gateway.Base.Number.{ℤ, Float, is_finite}
use horstmann_dnp3_gateway.Config.Values.{
  good-injective, Conv, good, refused, overflow, Python, get, is_blank, in_range, in_range-Within,
  Within, safe_finite_float, first_in_range, after_key, finite_or,
}

-- An optional number, when it is there, is in the range.
abbrev pub OptionWithin : ℕ → ℕ → Option ℤ → Type 0
OptionWithin lo hi none = Unit
OptionWithin lo hi (some z) = Within lo hi z

module _ (python : Python) where
  pub finite-safe :
      (default : Float) (v : Json) (f : Float)
      → is_finite default ≡ true
      → safe_finite_float python default v ≡ good f
      → is_finite f ≡ true
  unfolding safe_finite_float
  finite-safe default v f fine h = elim (Bool-cases (is_blank v)) [
    | inl q ↦ whole (rw q at h)
    | inr q ↦ converted (python.float_of v) (rw q at h)
  ]
    where
      whole : good default ≡ good f → is_finite f ≡ true
      whole e = subst (λ x. is_finite x ≡ true) (good-injective e) fine

      converted : (r : Conv Float) → finite_or python default r ≡ good f → is_finite f ≡ true
      converted (good x) e = elim (Bool-cases (is_finite x)) [
        | inl q ↦ subst (λ y. is_finite y ≡ true) (good-injective (rw q at e)) q
        | inr q ↦ whole (rw q at e)
      ]
      converted refused e = whole e
      converted overflow e = cc

  after_key-Within :
      (lo hi : ℕ) (rest : Conv (Option ℤ)) (r : Conv ℤ) (z : Option ℤ)
      → (rest ≡ good z → OptionWithin lo hi z)
      → after_key python lo hi rest r ≡ good z
      → OptionWithin lo hi z
  unfolding after_key
  after_key-Within lo hi rest (good n) z k h = elim (Bool-cases (in_range lo hi n)) [
    | inl q ↦ subst (OptionWithin lo hi) (good-injective (rw q at h)) (in_range-Within lo hi n q)
    | inr q ↦ k (rw q at h)
  ]
  after_key-Within lo hi rest refused z k h = k h
  after_key-Within lo hi rest overflow z k h = cc

  pub first_in_range-Within :
      (lo hi : ℕ) (keys : List String) (item : Fields) (z : Option ℤ)
      → first_in_range python lo hi keys item ≡ good z
      → OptionWithin lo hi z
  unfolding first_in_range
  first_in_range-Within lo hi [] item z h = subst (OptionWithin lo hi) (good-injective h) tt
  first_in_range-Within lo hi (key ∷ keys) item z h = elim (Bool-cases (is_blank (get key item))) [
    | inl q ↦ first_in_range-Within lo hi keys item z (rw q at h)
    | inr q ↦
        after_key-Within lo hi (first_in_range python lo hi keys item)
          (python.int_of (get key item)) z (first_in_range-Within lo hi keys item z) (rw q at h)
  ]
