-- ===== src/Dnp3py/Baseline.antt =====
-- The baseline of the event-driven strategy, when the device answers no read.
use mathlib.Core.Bool.{true, false}
use horstmann_dnp3_gateway.Base.{
  nat_eq, min, none, ◌==◌, leb, ◌&&◌, keep, if◌then◌else◌, zero, suc, Dict, length, ◌-◌, inr, inl,
  ◌+◌, ◌≢◌, Bool-cases, [], ◌∷◌, List, ◌∙◌, ◌≡◌, ap, refl, ℕ,
}
use horstmann_dnp3_gateway.Base.Number.{Float}
use horstmann_dnp3_gateway.Config.{SignalConfig}
use horstmann_dnp3_gateway.Dnp3py.Wire.{
  chunk_size, dnp3_error, Wire, Key, Work, Outcome, done, adapter_error, uncaught, range_ok,
  master_connected, read_range_one, group_string,
}
use horstmann_dnp3_gateway.Dnp3py.Direct.{
  Limits, and_then, after_index, fill_sequential, after_chunk, read_chunk, fill_chunks,
  fill_range_chunked, sorted_indices, by_group,
}
use horstmann_dnp3_gateway.Dnp3py.Groups.{
  Plan, singly, at_once, in_chunks, plan, after_baseline, baseline_group, baseline_groups,
  ordered_groups, absorb_signals_via_direct,
}
use horstmann_dnp3_gateway.Dnp3py.Batch.{
  is_baseline_due, after_absorb, materialize_from_cache, read_batch_event_driven,
}

-- A step that raises nothing and leaves all but the number of the next call.
pub record Idle (w : Work) (res : Outcome Unit × Work) : Type 0 where
  pub returns : res.0 ≡ done tt
  pub same_cache : res.1.cache ≡ w.cache
  pub same_master : res.1.has_master ≡ w.has_master

Idle-trans :
    (w v : Work) (res : Outcome Unit × Work)
    → v.cache ≡ w.cache
    → v.has_master ≡ w.has_master
    → Idle v res
    → Idle w res
Idle-trans w v res c m h = record {
  returns = h.returns;
  same_cache = h.same_cache ∙ c;
  same_master = h.same_master ∙ m;
}

and_then-Idle :
    (w : Work) (res : Outcome Unit × Work) (next : Work → Outcome Unit × Work)
    → Idle w res
    → ((v : Work) → Idle v (next v))
    → Idle w (and_then res next)
and_then-Idle w (done u, v) next h g = Idle-trans w v (next v) h.same_cache h.same_master (g v)
and_then-Idle w (adapter_error, v) next h g = absurd (raised h.returns)
  where
    raised : adapter_error ≢ done tt
    raised e = cc
and_then-Idle w (uncaught t, v) next h g = absurd (raised h.returns)
  where
    raised : uncaught t ≢ done tt
    raised e = cc

called : Work → Work
called w = record w { calls = w.calls + 1 }

module _ (wire : Wire)
    (silent : (n group start end' : ℕ) → wire.read n group start end' ≡ dnp3_error) where
  read_range_one_lem :
      (group start end' : ℕ) (w : Work)
      → range_ok group ≡ true
      → read_range_one wire group start end' w ≡ (dnp3_error, called w)
  unfolding read_range_one called
  read_range_one_lem group start end' w h = rw (h, silent w.calls group start end')

  fill_sequential-Idle :
      (group : ℕ) (indices : List ℕ) (w : Work) → Idle w (fill_sequential wire group indices w)
  unfolding fill_sequential after_index called
  fill_sequential-Idle group [] w = record { returns = refl; same_cache = refl; same_master = refl }
  fill_sequential-Idle group (i ∷ indices) w = elim (Bool-cases (range_ok group)) [
    | inl e ↦
        rw (fill_sequential, e)
          (rw (read_range_one_lem group i i w e) (
            Idle-trans w (called w) (fill_sequential wire group indices (called w)) refl refl
              (fill_sequential-Idle group indices (called w))))
    | inr e ↦
        rw (fill_sequential, e) (record { returns = refl; same_cache = refl; same_master = refl })
  ]

  read_chunk-Idle :
      (limits : Limits) (group a b : ℕ) (idxs : List ℕ) (w : Work)
      → range_ok group ≡ true
      → Idle w (read_chunk wire limits group a b idxs w)
  unfolding read_chunk after_chunk called
  read_chunk-Idle limits group a b idxs w e =
      rw (read_range_one_lem group a b w e, read_range_one_lem group a b (called w) e)
        (Idle-trans w (called (called w)) _ refl refl
          (fill_sequential-Idle group (keep (λ i. leb a i && leb i b) idxs) (called (called w))))

  fill_chunks-Idle :
      (limits : Limits) (group fuel a hi : ℕ) (idxs : List ℕ) (w : Work)
      → range_ok group ≡ true
      → Idle w (fill_chunks wire limits group fuel a hi idxs w)
  unfolding fill_chunks
  fill_chunks-Idle limits group zero a hi idxs w e = record {
    returns = refl;
    same_cache = refl;
    same_master = refl;
  }
  fill_chunks-Idle limits group (suc fuel) a hi idxs w e = elim (Bool-cases (leb a hi)) [
    | inl q ↦
        let b = min (a + chunk_size limits.max_points group - 1) hi in
        rw q (
          and_then-Idle w (read_chunk wire limits group a b idxs w)
            (fill_chunks wire limits group fuel (b + 1) hi idxs)
            (read_chunk-Idle limits group a b idxs w e)
            (λ v. fill_chunks-Idle limits group fuel (b + 1) hi idxs v e))
    | inr q ↦ rw q (record { returns = refl; same_cache = refl; same_master = refl })
  ]

  module _ (limits : Limits) where
    singly_next-Idle :
        (group : ℕ) (idxs : List ℕ) (next : Work → Outcome Unit × Work) (w : Work)
        → ((v : Work) → Idle v (next v))
        → Idle w (and_then (fill_sequential wire group idxs w) next)
    singly_next-Idle group idxs next w g =
        and_then-Idle w (fill_sequential wire group idxs w) next (fill_sequential-Idle group idxs w)
          g

    range_next-Idle :
        (group : ℕ) (idxs : List ℕ) (next : Work → Outcome Unit × Work) (w : Work)
        → ((v : Work) → Idle v (next v))
        → Idle w (after_baseline wire limits group idxs next (dnp3_error, called w))
    unfolding after_baseline called
    range_next-Idle group idxs next w g =
        elim (master_connected wire (called w))
          as (λ b. Idle w (
            if b
            then and_then (fill_sequential wire group idxs (called w)) next
            else next (called w))) [
              | true ↦
                  Idle-trans w (called w) _ refl refl
                    (singly_next-Idle group idxs next (called w) g)
              | false ↦ Idle-trans w (called w) (next (called w)) refl refl (g (called w))
            ]

    group-Idle :
        (group : ℕ) (idxs : List ℕ) (next : Work → Outcome Unit × Work) (p : Plan) (w : Work)
        → range_ok group ≡ true
        → ((v : Work) → Idle v (next v))
        → Idle w (baseline_group wire limits group idxs next p w)
    unfolding baseline_group fill_range_chunked
    group-Idle group idxs next singly w e g = singly_next-Idle group idxs next w g
    group-Idle group idxs next (at_once lo hi) w e g =
        rw (read_range_one_lem group lo hi w e) (range_next-Idle group idxs next w g)
    group-Idle group idxs next (in_chunks lo hi) w e g =
        and_then-Idle w (fill_chunks wire limits group (hi + 1 - lo) lo hi idxs w) next
          (fill_chunks-Idle limits group (hi + 1 - lo) lo hi idxs w e) g

    plan_unreadable :
        (group : ℕ) (idxs : List ℕ) → range_ok group ≡ false → plan limits group idxs ≡ singly
    unfolding plan
    plan_unreadable group [] e = refl
    plan_unreadable group (i ∷ idxs) e = rw e

    planned-Idle :
        (group : ℕ) (idxs : List ℕ) (next : Work → Outcome Unit × Work) (w : Work)
        → ((v : Work) → Idle v (next v))
        → Idle w (baseline_group wire limits group idxs next (plan limits group idxs) w)
    unfolding baseline_group
    planned-Idle group idxs next w g = elim (Bool-cases (range_ok group)) [
      | inl e ↦ group-Idle group idxs next (plan limits group idxs) w e g
      | inr e ↦ rw (plan_unreadable group idxs e) (singly_next-Idle group idxs next w g)
    ]

    baseline_groups-Idle :
        (groups : Dict ℕ (List ℕ)) (w : Work) → Idle w (baseline_groups wire limits groups w)
    unfolding baseline_groups
    baseline_groups-Idle [] w = record { returns = refl; same_cache = refl; same_master = refl }
    baseline_groups-Idle ((group, indices) ∷ groups) w =
        let idxs = sorted_indices indices in
        let next : Work → Outcome Unit × Work = baseline_groups wire limits groups in
        let rest : (v : Work) → Idle v (next v) = baseline_groups-Idle groups in
        let stop : Outcome Unit × Work = (done tt, w) in
        elim (group == group_string)
          as (λ b. Idle w (
            if b
            then next w
            else if master_connected wire w
            then baseline_group wire limits group idxs next (plan limits group idxs) w
            else stop)) [
              | true ↦ rest w
              | false ↦
                  elim (master_connected wire w)
                    as (λ b. Idle w (
                      if b
                      then baseline_group wire limits group idxs next (plan limits group idxs) w
                      else stop)) [
                        | true ↦ planned-Idle group idxs next w rest
                        | false ↦ record { returns = refl; same_cache = refl; same_master = refl }
                      ]
            ]

recorded :
    (wire : Wire) (limits : Limits) (interval now : ℕ) (signals : List SignalConfig) (w : Work)
    (res : Outcome Unit × Work)
    → (length w.cache == 0) ≡ false
    → Idle w res
    → let (r, v) = after_absorb wire limits interval now signals res in
      (r ≡ done (materialize_from_cache none signals w.cache))
      × (v.cache ≡ w.cache)
      × (v.baseline_at ≡ now)
unfolding after_absorb
recorded wire limits interval now signals w (done u, v) full h =
    rw (ap (λ (c : Dict Key Float). length c == 0) h.same_cache ∙ full) (
      ap (λ (c : Dict Key Float). done (materialize_from_cache none signals c)) h.same_cache,
      h.same_cache,
      refl,
    )
recorded wire limits interval now signals w (adapter_error, v) full h = absurd (raised h.returns)
  where
    raised : adapter_error ≢ done tt
    raised e = cc
recorded wire limits interval now signals w (uncaught t, v) full h = absurd (raised h.returns)
  where
    raised : uncaught t ≢ done tt
    raised e = cc

-- When a baseline is due and the device answers no read (each raises DNP3Error, and the link may
-- close at any time), a cache that is not empty is sent as it was: read_batch gives its values as
-- good and records a baseline at this time.
pub failed_baseline_good :
    (wire : Wire) (limits : Limits) (interval now : ℕ) (signals : List SignalConfig) (w : Work)
    → ((n group start end' : ℕ) → wire.read n group start end' ≡ dnp3_error)
    → is_baseline_due wire limits interval now w ≡ true
    → (length w.cache == 0) ≡ false
    → let (r, v) = read_batch_event_driven wire limits interval now signals w in
      (r ≡ done (materialize_from_cache none signals w.cache))
      × (v.cache ≡ w.cache)
      × (v.baseline_at ≡ now)
unfolding read_batch_event_driven absorb_signals_via_direct
failed_baseline_good wire limits interval now signals w silent due full =
    let idle = baseline_groups-Idle wire silent limits (ordered_groups (by_group signals)) w in
    rw (read_batch_event_driven, due)
      (recorded wire limits interval now signals w
        (baseline_groups wire limits (ordered_groups (by_group signals)) w) full idle)
