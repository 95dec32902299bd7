-- ===== src/Dnp3py/Batch.antt =====
-- Dnp3DeviceSession.read_batch of src/dnp3_gateway/adapters/dnp3_master.py: one entry for each
-- signal, a raw value and a quality. The clock is in milliseconds.
use mathlib.Core.Bool.{Bool, true, false}
use horstmann_dnp3_gateway.Base.{
  ℕ, zero, suc, ◌+◌, ◌-◌, ◌*◌, String, not, ◌&&◌, ◌||◌, Option, none, some, List, [], ◌∷◌, map, leb,
  if◌then◌else◌, ◌==◌, nat_eq, text_eq, pair_eq, contains, length, Dict, lookup, insert,
}
use horstmann_dnp3_gateway.Base.Number.{Float, float_zero, float_beq}
use horstmann_dnp3_gateway.Config.{SignalConfig}
use horstmann_dnp3_gateway.Dnp3py.Wire.{
  Obj, Poll, Scope, class, Wire, Key, Work, Outcome, done, adapter_error, uncaught, group_of,
  key_of, group_string, point_raw,
}
use horstmann_dnp3_gateway.Dnp3py.Direct.{Limits, by_group}
use horstmann_dnp3_gateway.Dnp3py.Groups.{absorb_signals_via_direct, direct_groups}

-- `_normalize_read_strategy`; strip and lower are Python's.
pub data Strategy : Type 0 where
  by_integrity by_class0 by_direct by_events : Strategy

unfoldable pub normalize_read_strategy : (String → String) → (String → String) → String → Strategy
normalize_read_strategy strip lower value =
    let s = lower (strip (if value == "" then "event_driven" else value)) in
    if contains s ("integrity" ∷ "full" ∷ "all" ∷ [])
    then by_integrity
    else if contains s ("class0" ∷ "class_0" ∷ "c0" ∷ "static" ∷ [])
    then by_class0
    else if contains s ("direct" ∷ "range" ∷ "by_index" ∷ "points" ∷ [])
    then by_direct
    else by_events

abbrev pub Entry : Type 0
Entry = Float × String

-- (_invalid_raw(), "no_change") for all signals
abbrev pub none_read : List SignalConfig → List Entry
none_read = map (λ s. (float_zero, "no_change"))

-- prev is None or prev != value
abbrev pub has_changed : Option Float → Float → Bool
has_changed none value = true
has_changed (some prev) value = not (float_beq prev value)

-- `_put`, with the keys that have changed.
unfoldable pub put_changed : ℕ → List Obj → List Key × Dict Key Float → List Key × Dict Key Float
put_changed group [] (changed, cache) = (changed, cache)
put_changed group (obj ∷ objs) (changed, cache) =
    let key : Key = (group, obj.index) in
    let value = point_raw group obj in
    put_changed group objs (
      if has_changed (lookup key cache) value
      then (key ∷ changed, insert key value cache)
      else (changed, cache))

-- `_absorb_poll_into_cache`
unfoldable pub absorb_poll_into_cache : Poll → List Key × Dict Key Float → List Key × Dict Key Float
unfolding put_changed
absorb_poll_into_cache poll st = put_changed 20 poll.counters (
    put_changed 40 poll.analog_outputs (
      put_changed 30 poll.analog_inputs
        (put_changed 10 poll.binary_outputs (put_changed 1 poll.binary_inputs st))))

-- `_materialize_from_cache`: with no keys, every value is good.
unfoldable pub materialize_value : Option (List Key) → Key → Option Float → Entry
materialize_value changed key none = (float_zero, "invalid")
materialize_value none key (some value) = (value, "good")
materialize_value (some changed_keys) key (some value) =
    (value, if contains key changed_keys then "good" else "no_change")

unfoldable pub materialize_string : Option (List Key) → Entry
materialize_string none = (float_zero, "good")
materialize_string (some changed_keys) = (float_zero, "no_change")

unfoldable pub materialize : Option (List Key) → Dict Key Float → SignalConfig → Entry
unfolding materialize_value materialize_string
materialize changed cache s =
    if group_of s == group_string
    then materialize_string changed
    else materialize_value changed (key_of s) (lookup (key_of s) cache)

unfoldable pub materialize_from_cache :
    Option (List Key) → List SignalConfig → Dict Key Float → List Entry
unfolding materialize
materialize_from_cache changed signals cache = map (materialize changed cache) signals

module _ (wire : Wire) where
  -- `_poll_with_retry`: whatever a poll raises is caught.
  unfoldable pub after_poll : (Work → Option Poll × Work) → Option Poll → Work → Option Poll × Work
  after_poll again (some poll) w = (some poll, w)
  after_poll again none w = again w

  unfoldable pub poll_with_retry : ℕ → Scope → Work → Option Poll × Work
  unfolding after_poll
  poll_with_retry zero scope w = (none, w)
  poll_with_retry (suc retries) scope w =
      after_poll (poll_with_retry retries scope) (wire.poll w.calls scope)
        (record w { calls = w.calls + 1 })

  unfoldable pub absorb_class : List Key × Bool → Option Poll × Work → (List Key × Bool) × Work
  absorb_class (changed, any_success) (none, w) = ((changed, any_success), w)
  absorb_class (changed, any_success) (some poll, w) =
      let (keys', cache) = absorb_poll_into_cache poll (changed, w.cache) in
      ((keys', true), record w { cache = cache })

  -- for cls in (1, 2, 3)
  unfoldable pub poll_classes : List ℕ → List Key × Bool → Work → (List Key × Bool) × Work
  unfolding absorb_class
  poll_classes [] found w = (found, w)
  poll_classes (cls ∷ classes) found w =
      let (found', w') = absorb_class found (poll_with_retry 2 (class cls) w) in
      poll_classes classes found' w'

  unfoldable pub read_events : List SignalConfig → Work → Outcome (List Entry) × Work
  unfolding poll_classes
  read_events signals w =
      let (found, w') = poll_classes (1 ∷ 2 ∷ 3 ∷ []) ([], false) w in
      if not found.1 && length w'.cache == 0
      then (done (map (λ s. (float_zero, "invalid")) signals), w')
      else (done (materialize_from_cache (some found.0) signals w'.cache), w')

  module _ (limits : Limits) (interval : ℕ) (now : ℕ) where
    unfoldable pub is_baseline_due : Work → Bool
    is_baseline_due w = length w.cache == 0 || leb (1000 * interval) (now - w.baseline_at)

    -- After the direct reads of the baseline.
    unfoldable pub after_absorb :
        List SignalConfig → Outcome Unit × Work → Outcome (List Entry) × Work
    unfolding materialize_from_cache
    after_absorb signals (uncaught t, w) = (uncaught t, w)
    after_absorb signals (adapter_error, w) = (adapter_error, w)
    after_absorb signals (done u, w) =
        if length w.cache == 0
        then (done (none_read signals), record w { has_master = false })
        else (done (materialize_from_cache none signals w.cache), record w { baseline_at = now })

    -- `_read_batch_event_driven`
    unfoldable pub read_batch_event_driven : List SignalConfig → Work → Outcome (List Entry) × Work
    unfolding is_baseline_due after_absorb absorb_signals_via_direct read_events
    read_batch_event_driven signals w = elim (is_baseline_due w) [
      | true ↦ after_absorb signals (absorb_signals_via_direct wire limits signals w)
      | false ↦ read_events signals w
    ]

  direct_value : Option Float → Entry
  direct_value none = (float_zero, "no_change")
  direct_value (some value) = (value, "good")

  direct_entry : Dict Key Float → SignalConfig → Entry
  unfolding direct_value
  direct_entry cache s =
      if group_of s == group_string
      then (float_zero, "good")
      else direct_value (lookup (key_of s) cache)

  unfoldable pub after_direct :
      Dict Key Float → List SignalConfig → Outcome Unit × Work → Outcome (List Entry) × Work
  unfolding direct_entry
  after_direct cache signals (uncaught t, w) = (uncaught t, record w { cache = cache })
  after_direct cache signals (adapter_error, w) = (adapter_error, record w { cache = cache })
  after_direct cache signals (done u, w) =
      (done (map (direct_entry w.cache) signals), record w { cache = cache })

  -- `_read_batch_direct`, whose cache is its own; that of the strings is not looked at.
  unfoldable pub read_batch_direct : Limits → List SignalConfig → Work → Outcome (List Entry) × Work
  unfolding direct_groups by_group after_direct
  read_batch_direct limits signals w =
      after_direct w.cache signals
        (direct_groups wire limits (by_group signals) (record w { cache = [] }))
