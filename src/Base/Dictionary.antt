-- ===== src/Base/Dictionary.antt =====
-- Python's `dict` as an association list in insertion order, over any key with an equality test.
use mathlib.Core.Path.{◌≡◌, refl}
use mathlib.Core.Bool.{Bool, true, false, ◌&&◌}
use horstmann_dnp3_gateway.Base.Lists.{keep}
use mathlib.Core.List.{List, [], ◌∷◌, map}
use mathlib.Core.Option.{Option, none, some}
use native.Mathlib.Omega.{arith}
use horstmann_dnp3_gateway.Base.Tests.{if◌then◌else◌}
use horstmann_dnp3_gateway.Base.Equality.{Eq, ◌==◌, contains}

abbrev pub Dict {ℓ κ} : Type ℓ → Type κ → Type (ℓ ⊔ κ)
Dict K V = List (K × V)

module _ {ℓ κ} {K : Type ℓ} {V : Type κ} ⦃e : Eq K⦄ where
  -- d.get(k)
  unfoldable pub lookup : K → Dict K V → Option V
  lookup k [] = none
  lookup k ((j, v) ∷ d) = if j == k then some v else lookup k d

  -- d[k] = v: the place of a key that is there is kept.
  unfoldable pub insert : K → V → Dict K V → Dict K V
  insert k v [] = (k, v) ∷ []
  insert k v ((j, w) ∷ d) = if j == k then (k, v) ∷ d else (j, w) ∷ insert k v d

  -- d.pop(k, None)
  unfoldable pub remove : K → Dict K V → Dict K V
  remove k [] = []
  remove k ((j, v) ∷ d) = let rest = remove k d in if j == k then rest else (j, v) ∷ rest

  -- Entries whose key passes a test.
  unfoldable pub keep_keys : (K → Bool) → Dict K V → Dict K V
  keep_keys p [] = []
  keep_keys p ((j, v) ∷ d) = let rest = keep_keys p d in if p j then (j, v) ∷ rest else rest

  pub lookup-insert :
      (k j : K) (v : V) (d : Dict K V)
      → lookup j (insert k v d) ≡ (if k == j then some v else lookup j d)
  unfolding lookup insert
  lookup-insert k j v [] = refl
  lookup-insert k j v ((i, w) ∷ d) =
      ground (arith, e.test_iff k j, e.test_iff i k, e.test_iff i j, lookup-insert k j v d)

  pub lookup-remove :
      (k j : K) (d : Dict K V) → lookup j (remove k d) ≡ (if k == j then none else lookup j d)
  unfolding lookup remove
  lookup-remove k j [] = ground arith
  lookup-remove k j ((i, w) ∷ d) =
      ground (arith, e.test_iff k j, e.test_iff i k, e.test_iff i j, lookup-remove k j d)

  pub lookup-keep_keys :
      (p : K → Bool) (j : K) (d : Dict K V)
      → lookup j (keep_keys p d) ≡ (if p j then lookup j d else none)
  unfolding lookup keep_keys
  lookup-keep_keys p j [] = ground arith
  lookup-keep_keys p j ((i, w) ∷ d) = ground (arith, e.test_iff i j, lookup-keep_keys p j d)

module _ {ℓ κ} {K : Type ℓ} {V : Type κ} where
  abbrev pub keys : Dict K V → List K
  keys = map (λ entry. entry.0)

abbrev pub is_some {ℓ} : {A : Type ℓ} → Option A → Bool
is_some none = false
is_some (some a) = true

module _ {ℓ κ} {K : Type ℓ} {V : Type κ} ⦃e : Eq K⦄ where
  pub contains-keys : (k : K) (d : Dict K V) → contains k (keys d) ≡ is_some (lookup k d)
  unfolding contains lookup
  contains-keys k [] = refl
  contains-keys k ((j, v) ∷ d) = ground (arith, e.test_iff k j, e.test_iff j k, contains-keys k d)

module _ {ℓ} {K : Type ℓ} ⦃e : Eq K⦄ where
  pub contains-keep :
      (p : K → Bool) (k : K) (ks : List K) → contains k (keep p ks) ≡ (p k && contains k ks)
  unfolding contains keep
  contains-keep p k [] = ground arith
  contains-keep p k (j ∷ ks) = ground (arith, e.test_iff k j, contains-keep p k ks)
