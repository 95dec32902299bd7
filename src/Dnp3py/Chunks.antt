-- ===== src/Dnp3py/Chunks.antt =====
-- The read of a range in chunks, from a device that answers.
use mathlib.Core.Bool.{Bool, true, false}
use horstmann_dnp3_gateway.Base.{
  insert, ℕ, zero, suc, ◌+◌, ◌-◌, ◌≡◌, ◌&&◌, some, List, [], ◌∷◌, ltb, leb, if◌then◌else◌, nat_eq,
  text_eq, pair_eq, Dict, lookup, ◌∙◌, inl, inr, arith, Bool-cases, ◌==◌, nat_beq→eq, ◌≤◌, refl,
  Option, contains, lookup-insert, subst, ◌<◌, min, leb→le, sym,
}
use horstmann_dnp3_gateway.Base.Number.{Float}
use horstmann_dnp3_gateway.Dnp3py.Wire.{
  Obj, items, Wire, Key, Work, Outcome, done, range_ok, chunk_size, point_raw, put_items,
  read_range_one,
}
use horstmann_dnp3_gateway.Dnp3py.Direct.{
  Limits, after_chunk, read_chunk, fill_chunks, fill_range_chunked,
}

-- The objects of n indices from `start`, where `raw` is what the device has.
abbrev pub objects : (ℕ → Obj) → ℕ → ℕ → List Obj
objects device start zero = []
objects device start (suc n) = device start ∷ objects device (start + 1) n

-- A device that has an object for each index of the group, and a connection that answers each read
-- of it with all objects of the range.
pub record Answers (wire : Wire) (group : ℕ) (device : ℕ → Obj) : Type 0 where
  pub indexed : (i : ℕ) → (device i).index ≡ i
  pub answered :
      (n start end' : ℕ)
      → wire.read n group start end' ≡ items (objects device start (end' + 1 - start))

in_span : ℕ → ℕ → ℕ → Bool
in_span a n i = leb a i && ltb i (a + n)

span_suc :
    {A : Type 0} (wanted : Bool) (x y : A) (start n i : ℕ)
    → (if wanted && in_span (start + 1) n i then x else (if wanted && start == i then x else y))
      ≡ (if wanted && in_span start (suc n) i then x else y)
unfolding in_span
span_suc wanted x y start n i = ground arith

put_one :
    (wanted : Bool) (group start i : ℕ) (v : Float) (cache : Dict Key Float)
    → lookup (group, i) (if wanted then insert (group, start) v cache else cache)
      ≡ (if wanted && start == i then some v else lookup (group, i) cache)
put_one wanted group start i v cache =
    ground (arith, lookup-insert (group, start) (group, i) v cache)

at_index :
    (wanted : ℕ → Bool) (f : ℕ → Float) (start i : ℕ) (y : Option Float)
    → (if wanted start && start == i then some (f start) else y)
      ≡ (if wanted i && start == i then some (f i) else y)
at_index wanted f start i y = elim (Bool-cases (start == i)) [
  | inl e ↦
      subst
        (λ k.
          (if wanted start && start == i then some (f start) else y)
          ≡ (if wanted k && start == i then some (f k) else y))
        (nat_beq→eq start i e) refl
  | inr e ↦ ground arith
]

lookup-put_one :
    (group : ℕ) (wanted : ℕ → Bool) (device : ℕ → Obj) (start : ℕ) (cache : Dict Key Float) (i : ℕ)
    → lookup
        (group, i)
        (if wanted start
          then insert (group, start) (point_raw group (device start)) cache
          else cache)
      ≡ (if wanted i && start == i
          then some (point_raw group (device i))
          else lookup (group, i) cache)
lookup-put_one group wanted device start cache i =
    put_one (wanted start) group start i (point_raw group (device start)) cache
    ∙ at_index wanted (λ k. point_raw group (device k)) start i (lookup (group, i) cache)

lookup-put_items :
    (group : ℕ) (wanted : ℕ → Bool) (device : ℕ → Obj) (start n : ℕ) (cache : Dict Key Float)
    (i : ℕ)
    → ((j : ℕ) → (device j).index ≡ j)
    → lookup (group, i) (put_items group wanted (objects device start n) cache) ≡ (
        if wanted i && in_span start n i
        then some (point_raw group (device i))
        else lookup (group, i) cache)
unfolding put_items in_span
lookup-put_items group wanted device start zero cache i h = ground arith
lookup-put_items group wanted device start (suc n) cache i h = rw (h start) (
    lookup-put_items group wanted device (start + 1) n _ i h
    ∙ rw (lookup-put_one group wanted device start cache i) (
        span_suc (wanted i) (some (point_raw group (device i))) (lookup (group, i) cache) start n
          i))

spans :
    {A : Type 0} (c : Bool) (x y : A) (a b hi i : ℕ)
    → a ≤ b
    → b ≤ hi
    → (if c && leb (b + 1) i && leb i hi
        then x
        else (if c && in_span a (b + 1 - a) i then x else y))
      ≡ (if c && leb a i && leb i hi then x else y)
unfolding in_span
spans c x y a b hi i low high = ground arith

positive : (limit group : ℕ) → 1 ≤ limit → 1 ≤ chunk_size limit group
unfolding chunk_size
positive limit group h = ground arith

module _ (wire : Wire) (limits : Limits) (group : ℕ) (device : ℕ → Obj)
    (g : Answers wire group device) (readable : range_ok group ≡ true) where
  -- A chunk is read with its first attempt.
  read_chunk_lem :
      (a b : ℕ) (idxs : List ℕ) (w : Work)
      → read_chunk wire limits group a b idxs w ≡ (
        done tt,
        record w {
          cache = put_items group (λ i. contains i idxs) (objects device a (b + 1 - a)) w.cache;
          calls = w.calls + 1;
        },
      )
  unfolding read_chunk after_chunk read_range_one
  read_chunk_lem a b idxs w = rw (readable, g.answered w.calls a b)

  abbrev after_one : ℕ → ℕ → List ℕ → Work → Work
  after_one a b idxs w = record w {
    cache = put_items group (λ i. contains i idxs) (objects device a (b + 1 - a)) w.cache;
    calls = w.calls + 1;
  }

  unfoldable pub Filled : ℕ → ℕ → List ℕ → Work → Outcome Unit × Work → Type 0
  Filled a hi idxs w (r, v) =
      (r ≡ done tt)
      × ((i : ℕ)
          → lookup (group, i) v.cache ≡ (
              if contains i idxs && leb a i && leb i hi
              then some (point_raw group (device i))
              else lookup (group, i) w.cache))

  past : (a hi : ℕ) (idxs : List ℕ) (w : Work) → hi < a → Filled a hi idxs w (done tt, w)
  unfolding Filled
  past a hi idxs w h = (refl, λ i. ground arith)

  no_more :
      (fuel a hi : ℕ) (idxs : List ℕ) (w : Work)
      → leb a hi ≡ false
      → fill_chunks wire limits group (suc fuel) a hi idxs w ≡ (done tt, w)
  unfolding fill_chunks
  no_more fuel a hi idxs w e = rw e

  one_more :
      (fuel a hi : ℕ) (idxs : List ℕ) (w : Work)
      → leb a hi ≡ true
      → let b = min (a + chunk_size limits.max_points group - 1) hi in
        fill_chunks wire limits group (suc fuel) a hi idxs w
        ≡ fill_chunks wire limits group fuel (b + 1) hi idxs (after_one a b idxs w)
  unfolding fill_chunks
  one_more fuel a hi idxs w e =
      let b = min (a + chunk_size limits.max_points group - 1) hi in
      rw (e, read_chunk_lem a b idxs w)

  chunk_then :
      (a b hi : ℕ) (idxs : List ℕ) (w : Work) (res : Outcome Unit × Work)
      → a ≤ b
      → b ≤ hi
      → Filled (b + 1) hi idxs (after_one a b idxs w) res
      → Filled a hi idxs w res
  unfolding Filled
  chunk_then a b hi idxs w res low high h = (
    h.0,
    λ i.
        h.1 i
        ∙ rw
            (lookup-put_items group (λ j. contains j idxs) device a (b + 1 - a) w.cache i g.indexed)
            (spans (contains i idxs) (some (point_raw group (device i))) (lookup (group, i) w.cache)
              a b hi i low high),
  )

  -- With fuel for each point the loop ends, and has read the whole range.
  fill_chunks-Filled :
      (fuel a hi : ℕ) (idxs : List ℕ) (w : Work)
      → 1 ≤ chunk_size limits.max_points group
      → hi + 1 ≤ a + fuel
      → Filled a hi idxs w (fill_chunks wire limits group fuel a hi idxs w)
  unfolding fill_chunks
  fill_chunks-Filled zero a hi idxs w roomy enough = past a hi idxs w (omega arith)
  fill_chunks-Filled (suc fuel) a hi idxs w roomy enough = elim (Bool-cases (leb a hi)) [
    | inl e ↦
        let b = min (a + chunk_size limits.max_points group - 1) hi in
        let low : a ≤ hi = leb→le a hi e in
        subst (λ res. Filled a hi idxs w res) (sym (one_more fuel a hi idxs w e))
          (chunk_then a b hi idxs w
            (fill_chunks wire limits group fuel (b + 1) hi idxs (after_one a b idxs w))
            (omega arith) (omega arith)
            (fill_chunks-Filled fuel (b + 1) hi idxs (after_one a b idxs w) roomy (omega arith)))
    | inr e ↦
        subst (λ res. Filled a hi idxs w res) (sym (no_more fuel a hi idxs w e))
          (past a hi idxs w (ground arith))
  ]

-- Against a device that has an object for each index of a group that is read by ranges, and answers
-- each read with all objects of the range, `_direct_fill_range_chunked` ends within the model's fuel
-- and raises nothing, whatever the chunks' size, of a point at least: afterwards the cache has the
-- device's value for each wanted index of the range, and for every other index what it had.
pub fill_range_chunked-reads :
    (wire : Wire) (limits : Limits) (group : ℕ) (device : ℕ → Obj) (lo hi : ℕ) (idxs : List ℕ)
    (w : Work)
    → Answers wire group device
    → range_ok group ≡ true
    → 1 ≤ limits.max_points
    → let (r, v) = fill_range_chunked wire limits group lo hi idxs w in
      (r ≡ done tt)
      × ((i : ℕ)
          → lookup (group, i) v.cache ≡ (
              if contains i idxs && leb lo i && leb i hi
              then some (point_raw group (device i))
              else lookup (group, i) w.cache))
unfolding fill_range_chunked Filled
fill_range_chunked-reads wire limits group device lo hi idxs w g readable roomy =
    fill_chunks-Filled wire limits group device g readable (hi + 1 - lo) lo hi idxs w
      (positive limits.max_points group roomy) (omega arith)
