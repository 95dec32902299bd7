-- ===== src/Base/Text.antt =====
-- Texts: `s[:n]`, `len(s)`, and the search of an ASCII word in `s.lower()`.
use Prim.Native.Nat.{ℕ, zero, suc, ◌+◌, ◌/◌, ◌%◌, ◌≤◌}
use Prim.Native.Char.{code}
use Prim.Native.String.{String}
use mathlib.Core.Path.{◌≡◌, refl}
use mathlib.Core.Bool.{Bool, true, false, ◌&&◌, ◌||◌}
use mathlib.Core.List.{List, [], ◌∷◌, map}
use native.Mathlib.Omega.{arith}
use horstmann_dnp3_gateway.Base.Tests.{leb, ltb, if◌then◌else◌, nat_beq}

-- s[:n], in code points.
unfoldable pub prefix : ℕ → String → String
prefix zero s = String.[]
prefix (suc n) String.[] = String.[]
prefix (suc n) (String.◌∷◌ c s) = String.◌∷◌ c (prefix n s)

-- len(s), in code points.
unfoldable pub size : String → ℕ
size String.[] = 0
size (String.◌∷◌ c s) = suc (size s)

pub size-prefix-le : (n : ℕ) (s : String) → size (prefix n s) ≤ n
unfolding size prefix
size-prefix-le zero s = omega arith
size-prefix-le (suc n) String.[] = omega arith
size-prefix-le (suc n) (String.◌∷◌ c s) = omega (arith, size-prefix-le n s)

pub prefix_of_size-le : (n : ℕ) (s : String) → size s ≤ n → prefix n s ≡ s
unfolding size prefix
prefix_of_size-le zero String.[] h = refl
prefix_of_size-le zero (String.◌∷◌ c s) h = absurd (omega arith)
prefix_of_size-le (suc n) String.[] h = refl
prefix_of_size-le (suc n) (String.◌∷◌ c s) h = rw (prefix_of_size-le n s (omega arith))

codes : String → List ℕ
codes String.[] = []
codes (String.◌∷◌ c s) = code c ∷ codes s

-- `lower` on ASCII letters. No other character has one of the letters of "not ready" as its
-- lower case, so the search below gives what Python gives.
lower_code : ℕ → ℕ
lower_code c = if leb b'A' c && leb c b'Z' then c + 32 else c

is_prefix : List ℕ → List ℕ → Bool
is_prefix [] s = true
is_prefix (w ∷ ws) [] = false
is_prefix (w ∷ ws) (c ∷ cs) = nat_beq w c && is_prefix ws cs

occurs : List ℕ → List ℕ → Bool
unfolding is_prefix
occurs w [] = is_prefix w []
occurs w (c ∷ cs) = is_prefix w (c ∷ cs) || occurs w cs

-- w in s.lower()
unfoldable pub occurs_lower : String → String → Bool
unfolding codes lower_code occurs
occurs_lower w s = occurs (codes w) (map lower_code (codes s))

-- s + t
unfoldable pub append_text : String → String → String
append_text String.[] t = t
append_text (String.◌∷◌ c s) t = String.◌∷◌ c (append_text s t)

-- s[n:]
unfoldable pub suffix : ℕ → String → String
suffix zero s = s
suffix (suc n) String.[] = String.[]
suffix (suc n) (String.◌∷◌ c s) = suffix n s

digit : ℕ → String
unfolding prefix suffix
digit n = prefix 1 (suffix n "0123456789")

digits : ℕ → ℕ → String → String
unfolding digit append_text
digits zero n rest = rest
digits (suc fuel) n rest = elim (ltb n 10) [
  | true ↦ append_text (digit n) rest
  | false ↦ digits fuel (n / 10) (append_text (digit (n % 10)) rest)
]

-- str(n); a number has no more digits than `suc n`.
unfoldable pub decimal : ℕ → String
unfolding digits
decimal n = digits (suc n) n ""

-- w in s
unfoldable pub occurs_in : String → String → Bool
unfolding codes occurs
occurs_in w s = occurs (codes w) (codes s)
