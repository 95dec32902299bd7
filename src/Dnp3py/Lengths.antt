-- ===== src/Dnp3py/Lengths.antt =====
-- A batch has one entry for each signal, so the strict zip of read_device never raises.
use mathlib.Core.Bool.{true, false}
use horstmann_dnp3_gateway.Base.{
  map, ℕ, suc, ◌≡◌, refl, Option, none, some, List, [], ◌∷◌, if◌then◌else◌, ◌==◌, nat_eq, text_eq,
  pair_eq, length, length-map, Dict, String, sym, ap, ◌∙◌, arith, subst,
}
use horstmann_dnp3_gateway.Base.Number.{FloatOps}
use horstmann_dnp3_gateway.Config.{SignalConfig}
use horstmann_dnp3_gateway.Poller.{SignalReading}
use horstmann_dnp3_gateway.Dnp3py.Wire.{
  Poll, class, integrity, Wire, Key, Work, Outcome, done, adapter_error, uncaught,
}
use horstmann_dnp3_gateway.Dnp3py.Direct.{Limits, by_group}
use horstmann_dnp3_gateway.Dnp3py.Groups.{absorb_signals_via_direct, direct_groups}
use horstmann_dnp3_gateway.Dnp3py.Batch.{
  Strategy, by_integrity, by_class0, by_direct, by_events, Entry, none_read, materialize_from_cache,
  poll_with_retry, read_events, is_baseline_due, after_absorb, read_batch_event_driven,
  after_direct, read_batch_direct,
}
use horstmann_dnp3_gateway.Dnp3py.Events.{read_events-IsTrue}
use horstmann_dnp3_gateway.Dnp3py.Session.{
  push_entry, cons_entry, drop_master, after_poll, read_batch_from_poll, read_strategy, read_batch,
}
use horstmann_dnp3_gateway.Dnp3py.Reader.{readings_of, reading_of}

-- A batch that is returned has n entries.
unfoldable HasLength : ℕ → Outcome (List Entry) × Work → Type 0
HasLength n (done batch, w) = length batch ≡ n
HasLength n (adapter_error, w) = Unit
HasLength n (uncaught t, w) = Unit

push-HasLength :
    (n : ℕ) (entry : Entry) (res : Outcome (List Entry) × Work)
    → HasLength n res
    → HasLength (suc n) (push_entry entry res)
unfolding HasLength push_entry
push-HasLength n entry (done batch, w) h = ap suc h
push-HasLength n entry (adapter_error, w) h = tt
push-HasLength n entry (uncaught t, w) h = tt

module _ (wire : Wire) where
  cons-HasLength :
      (n : ℕ) (entry : Outcome Entry × Work) (next : Work → Outcome (List Entry) × Work)
      → ((w : Work) → HasLength n (next w))
      → HasLength (suc n) (cons_entry wire entry next)
  unfolding HasLength cons_entry
  cons-HasLength n (uncaught t, w) next h = tt
  cons-HasLength n (adapter_error, w) next h = tt
  cons-HasLength n (done entry, w) next h = push-HasLength n entry (next w) (h w)

  from_poll-HasLength :
      (poll : Poll) (signals : List SignalConfig) (w : Work)
      → HasLength (length signals) (read_batch_from_poll wire poll signals w)
  unfolding HasLength read_batch_from_poll
  from_poll-HasLength poll [] w = refl
  from_poll-HasLength poll (s ∷ signals) w =
      cons-HasLength (length signals) _ (read_batch_from_poll wire poll signals)
        (from_poll-HasLength poll signals)

  dropped-HasLength :
      (n : ℕ) (res : Outcome (List Entry) × Work)
      → HasLength n res
      → HasLength n (drop_master wire res)
  unfolding HasLength drop_master
  dropped-HasLength n (done batch, w) h = h
  dropped-HasLength n (adapter_error, w) h = tt
  dropped-HasLength n (uncaught t, w) h = tt

  after_poll-HasLength :
      (signals : List SignalConfig) (polled : Option Poll × Work)
      → HasLength (length signals) (after_poll wire signals polled)
  unfolding HasLength after_poll
  after_poll-HasLength signals (none, w) = length-map _ signals
  after_poll-HasLength signals (some poll, w) =
      dropped-HasLength (length signals) (read_batch_from_poll wire poll signals w)
        (from_poll-HasLength poll signals w)

  direct-HasLength :
      (cache : Dict Key _) (signals : List SignalConfig) (res : Outcome Unit × Work)
      → HasLength (length signals) (after_direct wire cache signals res)
  unfolding HasLength after_direct
  direct-HasLength cache signals (done u, w) = length-map _ signals
  direct-HasLength cache signals (adapter_error, w) = tt
  direct-HasLength cache signals (uncaught t, w) = tt

  module _ (limits : Limits) (interval now : ℕ) where
    absorbed-HasLength :
        (signals : List SignalConfig) (res : Outcome Unit × Work)
        → HasLength (length signals) (after_absorb wire limits interval now signals res)
    unfolding HasLength after_absorb materialize_from_cache
    absorbed-HasLength signals (uncaught t, w) = tt
    absorbed-HasLength signals (adapter_error, w) = tt
    absorbed-HasLength signals (done u, w) =
        elim (length w.cache == 0)
          as (λ b. HasLength (length signals) (
            if b then (done (none_read signals), record w { has_master = false }) else (
              done (materialize_from_cache none signals w.cache),
              record w { baseline_at = now },
            ))) [ true ↦ length-map _ signals | false ↦ length-map _ signals ]

    events-HasLength :
        (signals : List SignalConfig) (w : Work)
        → HasLength (length signals) (read_events wire signals w)
    unfolding HasLength
    events-HasLength signals w =
        let (f, e, _) = read_events-IsTrue wire signals w in
        subst (λ r. HasLength (length signals) (r, (read_events wire signals w).1)) (sym e)
          (length-map f signals)

    strategy-HasLength :
        (strategy : Strategy) (signals : List SignalConfig) (w : Work)
        → HasLength (length signals) (read_strategy wire limits interval now strategy signals w)
    unfolding read_strategy read_batch_direct read_batch_event_driven
    strategy-HasLength by_events signals w =
        elim (is_baseline_due wire limits interval now w)
          as (λ b. HasLength (length signals) (elim b [
            | true ↦
                after_absorb wire limits interval now signals
                  (absorb_signals_via_direct wire limits signals w)
            | false ↦ read_events wire signals w
          ])) [
            | true ↦ absorbed-HasLength signals (absorb_signals_via_direct wire limits signals w)
            | false ↦ events-HasLength signals w
          ]
    strategy-HasLength by_direct signals w =
        direct-HasLength w.cache signals
          (direct_groups wire limits (by_group signals) (record w { cache = [] }))
    strategy-HasLength by_class0 signals w =
        after_poll-HasLength signals (poll_with_retry wire 2 (class 0) w)
    strategy-HasLength by_integrity signals w =
        after_poll-HasLength signals (poll_with_retry wire 2 integrity w)

    opened-HasLength :
        (strategy : Strategy) (signals : List SignalConfig) (w : Work)
        → HasLength (length signals) (elim signals [
          | [] ↦ (done [], w)
          | (s ∷ rest) ↦ read_strategy wire limits interval now strategy (s ∷ rest) w
        ])
    unfolding HasLength
    opened-HasLength strategy [] w = refl
    opened-HasLength strategy (s ∷ signals) w = strategy-HasLength strategy (s ∷ signals) w

    batch-HasLength :
        (strategy : Strategy) (signals : List SignalConfig) (w : Work)
        → HasLength (length signals) (read_batch wire limits interval now strategy signals w)
    unfolding read_batch HasLength
    batch-HasLength strategy signals w =
        elim w.has_master
          as (λ b. HasLength (length signals) (elim b [
            | false ↦ (adapter_error, w)
            | true ↦ elim signals [
              | [] ↦ (done [], w)
              | (s ∷ rest) ↦ read_strategy wire limits interval now strategy (s ∷ rest) w
            ]
          ])) [ true ↦ opened-HasLength strategy signals w | false ↦ tt ]

done-injective : (xs ys : List Entry) → done xs ≡ done ys → xs ≡ ys
done-injective xs ys e = cc

length_of :
    (n : ℕ) (res : Outcome (List Entry) × Work) (batch : List Entry)
    → HasLength n res
    → res.0 ≡ done batch
    → length batch ≡ n
unfolding HasLength
length_of n (done entries, w) batch h e = ap length (sym (done-injective entries batch e)) ∙ h
length_of n (adapter_error, w) batch h e = cc
length_of n (uncaught t, w) batch h e = cc

-- The signals' keys are those of the readings, in order.
unfoldable pub Matches : List SignalConfig → Option (List SignalReading) → Type 0
Matches signals none = ⊥
Matches signals (some readings) =
    map (λ (r : SignalReading). r.signal_key) readings ≡ map (λ (s : SignalConfig). s.key) signals

zipped-Matches :
    (ops : FloatOps) (signals : List SignalConfig) (batch : List Entry)
    → length batch ≡ length signals
    → Matches signals (readings_of ops signals batch)
unfolding Matches readings_of reading_of
zipped-Matches ops [] [] e = refl
zipped-Matches ops [] (b ∷ batch) e = cc
zipped-Matches ops (s ∷ signals) [] e = cc
zipped-Matches ops (s ∷ signals) (b ∷ batch) e =
    next (readings_of ops signals batch) (zipped-Matches ops signals batch (omega (arith, e)))
  where
    next :
        (rest : Option (List SignalReading))
        → Matches signals rest
        → Matches
            (s ∷ signals)
            (elim rest [ none ↦ none | some readings ↦ some (reading_of ops s b ∷ readings) ])
    next none h = absurd h
    next (some readings) h = ap (λ (ks : List String). s.key ∷ ks) h

-- A batch that read_batch returns, by any strategy and whatever dnp3py answers, makes exactly one
-- reading for each signal, with its key and in order; so the strict zip never raises.
pub read_batch-Matches :
    (wire : Wire) (ops : FloatOps) (limits : Limits) (interval now : ℕ) (strategy : Strategy)
    (signals : List SignalConfig) (w : Work) (batch : List Entry)
    → (read_batch wire limits interval now strategy signals w).0 ≡ done batch
    → Matches signals (readings_of ops signals batch)
read_batch-Matches wire ops limits interval now strategy signals w batch e =
    zipped-Matches ops signals batch (
      length_of (length signals) (read_batch wire limits interval now strategy signals w) batch
        (batch-HasLength wire limits interval now strategy signals w) e)
