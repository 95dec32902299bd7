-- ===== src/Base/Equality.antt =====
-- Python's `==` as an interface: a Boolean test that decides equality. The keys of the program's
-- dictionaries are texts, numbers and pairs of numbers.
use Prim.Native.Nat.{ℕ}
use Prim.Native.String.{String}
use mathlib.Core.Path.{◌≡◌, refl}
use mathlib.Core.Logic.{◌↔◌, ◌≢◌}
use mathlib.Core.Bool.{Bool, true, false, ◌&&◌}
use mathlib.Core.List.{List, [], ◌∷◌}
use native.Mathlib.Omega.{arith}
use text.Mathlib.Text.{◌==◌ as text_beq}
use text.Mathlib.TextEquality.{eq_iff}
use horstmann_dnp3_gateway.Base.Tests.{nat_beq, nat_beq_iff, if◌then◌else◌}

-- A key type with its test.
pub record Eq {κ} (K : Type κ) : Type κ where
  pub test : K → K → Bool
  pub test_iff : (x y : K) → (test x y ≡ true) ↔ (x ≡ y)

abbrev pair_test : ℕ × ℕ → ℕ × ℕ → Bool
pair_test (a, b) (c, d) = nat_beq a c && nat_beq b d

pub pair_test_iff : (p q : ℕ × ℕ) → (pair_test p q ≡ true) ↔ (p ≡ q)
pair_test_iff (a, b) (c, d) = ground arith

instance abbrev pub pair_eq : Eq (ℕ × ℕ)
pair_eq = record { test = pair_test; test_iff = pair_test_iff }

instance abbrev pub text_eq : Eq String
text_eq = record { test = text_beq; test_iff = eq_iff }

instance abbrev pub nat_eq : Eq ℕ
nat_eq = record { test = nat_beq; test_iff = nat_beq_iff }

infix 50 ◌==◌
abbrev pub ◌==◌ {κ} : {K : Type κ} ⦃keys : Eq K⦄ (x y : K) → Bool
◌==◌ ⦃keys⦄ x y = keys.test x y

module _ {ℓ} {A : Type ℓ} ⦃e : Eq A⦄ where
  pub ==_self : (a : A) → (a == a) ≡ true
  ==_self a = (e.test_iff a a).1 refl

  pub ==_ne : (a b : A) → a ≢ b → (a == b) ≡ false
  ==_ne a b h = ground (arith, e.test_iff a b)

  -- `x in xs`, for a list or a set.
  unfoldable pub contains : A → List A → Bool
  contains a [] = false
  contains a (x ∷ xs) = if a == x then true else contains a xs
