-- ===== src/Dnp3py/Direct.antt =====
-- The direct reads of src/dnp3_gateway/adapters/dnp3_master.py: one index at a time, a range in
-- chunks, and the points of all signals, group by group.
use mathlib.Core.Bool.{Bool, true, false}
use horstmann_dnp3_gateway.Base.{
  ℕ, zero, suc, ◌+◌, ◌-◌, min, ◌&&◌, Option, none, some, List, [], ◌∷◌, ◌++◌, ltb, leb,
  if◌then◌else◌, ◌==◌, nat_eq, text_eq, pair_eq, contains, keep, Dict, lookup, insert,
}
use horstmann_dnp3_gateway.Config.{SignalConfig}
use horstmann_dnp3_gateway.Dnp3py.Wire.{
  Answer, items, dnp3_error, io_error, Wire, Work, Outcome, done, adapter_error, uncaught, group_of,
  index_of, range_ok, chunk_size, put_items, read_range_one,
}

-- The settings of a session: the points of one read, and the ratio of a sparse range.
pub record Limits : Type 0 where
  pub max_points : ℕ
  pub sparse_ratio : ℕ

abbrev pub all : ℕ → Bool
all index = true

-- sorted(set(indices))
insert_index : ℕ → List ℕ → List ℕ
insert_index i [] = i ∷ []
insert_index i (j ∷ js) =
    if ltb i j then i ∷ j ∷ js else if i == j then j ∷ js else j ∷ insert_index i js

unfoldable pub sorted_indices : List ℕ → List ℕ
unfolding insert_index
sorted_indices [] = []
sorted_indices (i ∷ is') = insert_index i (sorted_indices is')

unfoldable pub last_or : ℕ → List ℕ → ℕ
last_or i [] = i
last_or i (j ∷ js) = last_or j js

-- by_group[s.dnp3_object_group].append(s.dnp3_index), with the groups in the order they come.
unfoldable pub by_group : List SignalConfig → Dict ℕ (List ℕ)
by_group signals = collect signals []
  where
    append_to : Option (List ℕ) → ℕ → List ℕ
    append_to none i = i ∷ []
    append_to (some is') i = is' ++ (i ∷ [])

    collect : List SignalConfig → Dict ℕ (List ℕ) → Dict ℕ (List ℕ)
    collect [] groups = groups
    collect (s ∷ rest) groups =
        collect rest
          (insert (group_of s) (append_to (lookup (group_of s) groups) (index_of s)) groups)

-- What a loop goes on with after a step that raised nothing.
abbrev pub and_then : Outcome Unit × Work → (Work → Outcome Unit × Work) → Outcome Unit × Work
and_then (done u, w) next = next w
and_then (adapter_error, w) next = (adapter_error, w)
and_then (uncaught t, w) next = (uncaught t, w)

module _ (wire : Wire) where
  -- `_direct_fill_sequential_indices`
  unfoldable pub after_index :
      (Work → Outcome Unit × Work) → ℕ → Answer × Work → Outcome Unit × Work
  after_index next group (items objs, w) =
      next (record w { cache = put_items group all objs w.cache })
  after_index next group (dnp3_error, w) = next w
  after_index next group (io_error t, w) = (uncaught t, w)

  unfoldable pub fill_sequential : ℕ → List ℕ → Work → Outcome Unit × Work
  unfolding after_index read_range_one
  fill_sequential group [] w = (done tt, w)
  fill_sequential group (i ∷ indices) w = elim (range_ok group) [
    | true ↦ after_index (fill_sequential group indices) group (read_range_one wire group i i w)
    | false ↦ (done tt, w)
  ]

  module _ (limits : Limits) (group : ℕ) where
    -- One attempt at a chunk, where `retry` is what follows a DNP3Error.
    unfoldable pub after_chunk :
        (Work → Outcome Unit × Work) → List ℕ → Answer × Work → Outcome Unit × Work
    after_chunk retry need (items objs, w) =
        (done tt, record w { cache = put_items group (λ i. contains i need) objs w.cache })
    after_chunk retry need (dnp3_error, w) = retry w
    after_chunk retry need (io_error t, w) = (uncaught t, w)

    -- A chunk: two attempts, then its indices one by one.
    unfoldable pub read_chunk : ℕ → ℕ → List ℕ → Work → Outcome Unit × Work
    unfolding after_chunk fill_sequential
    read_chunk a b idxs w =
        let sub_need = keep (λ i. leb a i && leb i b) idxs in
        let singly : Work → Outcome Unit × Work = fill_sequential group sub_need in
        let again : Work → Outcome Unit × Work =
          λ v. after_chunk singly idxs (read_range_one wire group a b v) in
        after_chunk again idxs (read_range_one wire group a b w)

    -- `_direct_fill_range_chunked` from `a`; the chunk's size is at least 1.
    unfoldable pub fill_chunks : ℕ → ℕ → ℕ → List ℕ → Work → Outcome Unit × Work
    unfolding read_chunk
    fill_chunks zero a hi idxs w = (done tt, w)
    fill_chunks (suc fuel) a hi idxs w =
        let b = min (a + chunk_size limits.max_points group - 1) hi in
        if leb a hi
        then and_then (read_chunk a b idxs w) (fill_chunks fuel (b + 1) hi idxs)
        else (done tt, w)

    -- Each chunk has a point at least, so the loop ends within the number of points.
    unfoldable pub fill_range_chunked : ℕ → ℕ → List ℕ → Work → Outcome Unit × Work
    unfolding fill_chunks
    fill_range_chunked lo hi idxs w = fill_chunks (hi + 1 - lo) lo hi idxs w
