-- ===== src/Base/Number.antt =====
-- Python's `int` and `float`. A float is its binary64 bit pattern; the arithmetic of the processor
-- is a parameter, since the program only passes on what it gives.
use Prim.Native.Nat.{ℕ, ◌/◌, ◌%◌, ◌^◌, max}
use mathlib.Core.Path.{◌≡◌}
use native.Mathlib.Omega.{arith}
use mathlib.Core.Bool.{Bool, true, false, not, ◌&&◌, ◌||◌}
use horstmann_dnp3_gateway.Base.Tests.{nat_beq, ltb}

-- `negsuc n` is -(n + 1).
pub data ℤ : Type 0 where
  pos : ℕ → ℤ
  negsuc : ℕ → ℤ

abbrev pub Float : Type 0
Float = ℕ

-- 0.0 and 1.0
abbrev pub float_zero : Float
float_zero = 0

abbrev pub float_one : Float
float_one = 0x3ff0000000000000

exponent : Float → ℕ
exponent x = (x / 2 ^ 52) % 2 ^ 11

fraction : Float → ℕ
fraction x = x % 2 ^ 52

-- math.isfinite
unfoldable pub is_finite : Float → Bool
unfolding exponent
is_finite x = not (nat_beq (exponent x) 2047)

is_nan : Float → Bool
unfolding exponent fraction
is_nan x = nat_beq (exponent x) 2047 && not (nat_beq (fraction x) 0)

is_zero : Float → Bool
is_zero x = nat_beq (x % 2 ^ 63) 0

-- x == y: no NaN equals anything, and both zeros are equal.
unfoldable pub float_beq : Float → Float → Bool
unfolding is_nan is_zero
float_beq x y = not (is_nan x) && not (is_nan y) && (nat_beq x y || (is_zero x && is_zero y))

-- The processor's operations, and CPython's round(x, digits).
pub record FloatOps : Type 0 where
  pub mul : Float → Float → Float
  pub add : Float → Float → Float
  pub round : Float → ℕ → Float

-- x < y of two ints.
unfoldable pub int_ltb : ℤ → ℤ → Bool
int_ltb (pos m) (pos n) = ltb m n
int_ltb (pos m) (negsuc n) = false
int_ltb (negsuc m) (pos n) = true
int_ltb (negsuc m) (negsuc n) = ltb n m

pub int_ltb_irrefl : (x : ℤ) → int_ltb x x ≡ false
unfolding int_ltb
int_ltb_irrefl (pos n) = ground arith
int_ltb_irrefl (negsuc n) = ground arith

-- max(lo, x) for a natural number `lo`.
unfoldable pub at_least : ℕ → ℤ → ℕ
at_least lo (pos n) = max lo n
at_least lo (negsuc n) = lo
