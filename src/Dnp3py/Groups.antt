-- ===== src/Dnp3py/Groups.antt =====
-- The direct reads of all signals of src/dnp3_gateway/adapters/dnp3_master.py, group by group: for
-- the strategy "direct", and for the baseline of the event-driven one.
use horstmann_dnp3_gateway.Base.{
  ℕ, ◌+◌, ◌-◌, ◌*◌, not, List, [], ◌∷◌, ltb, leb, if◌then◌else◌, ◌==◌, nat_eq, text_eq, pair_eq,
  length, Dict,
}
use horstmann_dnp3_gateway.Config.{SignalConfig}
use horstmann_dnp3_gateway.Dnp3py.Wire.{
  Answer, items, dnp3_error, io_error, Wire, Work, Outcome, done, uncaught, group_string, range_ok,
  chunk_size, put_items, master_connected, read_range_one,
}
use horstmann_dnp3_gateway.Dnp3py.Direct.{
  Limits, all, sorted_indices, last_or, by_group, and_then, fill_sequential, fill_range_chunked,
}

-- priority.get(g, 99)
unfoldable pub priority : ℕ → ℕ
priority group =
    if group == 1
    then 0
    else if group == 30
    then 1
    else if group == 20
    then 2
    else if group == 10
    then 3
    else if group == 40
    then 4
    else 99

insert_group : ℕ × List ℕ → Dict ℕ (List ℕ) → Dict ℕ (List ℕ)
unfolding priority
insert_group entry [] = entry ∷ []
insert_group entry (other ∷ groups) =
    if leb (priority entry.0) (priority other.0)
    then entry ∷ other ∷ groups
    else other ∷ insert_group entry groups

-- sorted(by_group, key=priority), which is stable.
unfoldable pub ordered_groups : Dict ℕ (List ℕ) → Dict ℕ (List ℕ)
unfolding insert_group
ordered_groups [] = []
ordered_groups (entry ∷ groups) = insert_group entry (ordered_groups groups)

-- How the indices of a group, in rising order, are read.
pub data Plan : Type 0 where
  singly : Plan
  at_once : ℕ → ℕ → Plan
  in_chunks : ℕ → ℕ → Plan

unfoldable pub plan : Limits → ℕ → List ℕ → Plan
unfolding range_ok chunk_size last_or
plan limits group [] = singly
plan limits group (lo ∷ idxs) =
    let hi = last_or lo idxs in
    let span = hi - lo + 1 in
    if not (range_ok group)
    then singly
    else if ltb (length (lo ∷ idxs) * limits.sparse_ratio) span
    then singly
    else if leb span (chunk_size limits.max_points group)
    then at_once lo hi
    else in_chunks lo hi

module _ (wire : Wire) (limits : Limits) where
  -- The baseline's read of one range: the rest of the groups is left out after another exception.
  unfoldable pub after_baseline :
      ℕ → List ℕ → (Work → Outcome Unit × Work) → Answer × Work → Outcome Unit × Work
  unfolding fill_sequential
  after_baseline group idxs next (items objs, w) =
      next (record w { cache = put_items group all objs w.cache })
  after_baseline group idxs next (dnp3_error, w) =
      if master_connected wire w then and_then (fill_sequential wire group idxs w) next else next w
  after_baseline group idxs next (io_error t, w) = (done tt, w)

  unfoldable pub baseline_group :
      ℕ → List ℕ → (Work → Outcome Unit × Work) → Plan → Work → Outcome Unit × Work
  unfolding after_baseline fill_range_chunked read_range_one
  baseline_group group idxs next singly w = and_then (fill_sequential wire group idxs w) next
  baseline_group group idxs next (at_once lo hi) w =
      after_baseline group idxs next (read_range_one wire group lo hi w)
  baseline_group group idxs next (in_chunks lo hi) w =
      and_then (fill_range_chunked wire limits group lo hi idxs w) next

  unfoldable pub baseline_groups : Dict ℕ (List ℕ) → Work → Outcome Unit × Work
  unfolding baseline_group plan sorted_indices
  baseline_groups [] w = (done tt, w)
  baseline_groups ((group, indices) ∷ groups) w =
      let idxs = sorted_indices indices in
      let next : Work → Outcome Unit × Work = baseline_groups groups in
      if group == group_string
      then next w
      else if master_connected wire w
      then baseline_group group idxs next (plan limits group idxs) w
      else (done tt, w)

  -- `_absorb_signals_via_direct`
  unfoldable pub absorb_signals_via_direct : List SignalConfig → Work → Outcome Unit × Work
  unfolding baseline_groups ordered_groups by_group
  absorb_signals_via_direct signals w = baseline_groups (ordered_groups (by_group signals)) w

  unfoldable pub after_range :
      ℕ → List ℕ → (Work → Outcome Unit × Work) → Answer × Work → Outcome Unit × Work
  unfolding fill_sequential
  after_range group idxs next (items objs, w) =
      next (record w { cache = put_items group all objs w.cache })
  after_range group idxs next (dnp3_error, w) = and_then (fill_sequential wire group idxs w) next
  after_range group idxs next (io_error t, w) = (uncaught t, w)

  unfoldable pub direct_group :
      ℕ → List ℕ → (Work → Outcome Unit × Work) → Plan → Work → Outcome Unit × Work
  unfolding after_range fill_range_chunked read_range_one
  direct_group group idxs next singly w = and_then (fill_sequential wire group idxs w) next
  direct_group group idxs next (at_once lo hi) w =
      after_range group idxs next (read_range_one wire group lo hi w)
  direct_group group idxs next (in_chunks lo hi) w =
      and_then (fill_range_chunked wire limits group lo hi idxs w) next

  unfoldable pub direct_groups : Dict ℕ (List ℕ) → Work → Outcome Unit × Work
  unfolding direct_group plan sorted_indices
  direct_groups [] w = (done tt, w)
  direct_groups ((group, indices) ∷ groups) w =
      let idxs = sorted_indices indices in
      let next : Work → Outcome Unit × Work = direct_groups groups in
      if group == group_string
      then next w
      else direct_group group idxs next (plan limits group idxs) w
