-- ===== src/Dnp3py/Events.antt =====
-- What a read between two baselines gives: every change of the cache is sent.
use mathlib.Core.Bool.{Bool, true, false}
use horstmann_dnp3_gateway.Base.{
  ℕ, ◌≡◌, List, [], ◌∷◌, nat_eq, text_eq, pair_eq, contains, Dict, lookup, insert, zero, suc, ◌+◌,
  refl, sym, Option, none, some, arith, if◌then◌else◌, lookup-insert, subst, ◌≢◌, not, map, inl,
  inr, ◌&&◌, Bool-cases, ◌==◌, ==_ne, length,
}
use horstmann_dnp3_gateway.Base.Number.{Float, float_zero}
use horstmann_dnp3_gateway.Config.{SignalConfig}
use horstmann_dnp3_gateway.Dnp3py.Wire.{
  Obj, Poll, Scope, class, Wire, Key, Work, Outcome, done, point_raw, group_of, key_of,
  group_string,
}
use horstmann_dnp3_gateway.Dnp3py.Batch.{
  materialize_value, Entry, has_changed, after_poll, absorb_class, put_changed,
  absorb_poll_into_cache, materialize, materialize_from_cache, poll_with_retry, poll_classes,
  read_events,
}

-- Every key whose value differs from that of `before` is among the changed ones.
pub record IsTracked (before : Dict Key Float) (st : List Key × Dict Key Float) : Type 0 where
  pub tracked : (k : Key) → contains k st.0 ≡ false → lookup k st.1 ≡ lookup k before

module _ (before : Dict Key Float) where
  add-IsTracked :
      (st : List Key × Dict Key Float) (key : Key) (value : Float)
      → IsTracked before st
      → IsTracked before (key ∷ st.0, insert key value st.1)
  unfolding contains
  add-IsTracked st key value h = record {
    tracked = λ k c. ground (
      arith,
      lookup-insert key k value st.1,
      h.tracked k,
      pair_eq.test_iff k key,
      pair_eq.test_iff key k,
    );
  }

  put_changed-IsTracked :
      (group : ℕ) (objs : List Obj) (st : List Key × Dict Key Float)
      → IsTracked before st
      → IsTracked before (put_changed group objs st)
  unfolding put_changed
  put_changed-IsTracked group [] st h = h
  put_changed-IsTracked group (obj ∷ objs) st h =
      let key : Key = (group, obj.index) in
      let value = point_raw group obj in
      put_changed-IsTracked group objs _
        (elim (has_changed (lookup key st.1) value)
          as (λ b. IsTracked before (
            if◌then◌else◌ {A = List Key × Dict Key Float} b (key ∷ st.0, insert key value st.1)
              st)) [ true ↦ add-IsTracked st key value h | false ↦ h ])

  absorb-IsTracked :
      (poll : Poll) (st : List Key × Dict Key Float)
      → IsTracked before st
      → IsTracked before (absorb_poll_into_cache poll st)
  unfolding absorb_poll_into_cache
  absorb-IsTracked poll st h = put_changed-IsTracked 20 poll.counters _ (
      put_changed-IsTracked 40 poll.analog_outputs _ (
        put_changed-IsTracked 30 poll.analog_inputs _ (
          put_changed-IsTracked 10 poll.binary_outputs _
            (put_changed-IsTracked 1 poll.binary_inputs st h))))

  module _ (wire : Wire) where
    after_cache :
        (again : Work → Option Poll × Work) (answer : Option Poll) (w : Work)
        → (again w).1.cache ≡ w.cache
        → (after_poll wire again answer w).1.cache ≡ w.cache
    unfolding after_poll
    after_cache again none w h = h
    after_cache again (some poll) w h = refl

    retry_cache :
        (retries : ℕ) (scope : Scope) (w : Work)
        → (poll_with_retry wire retries scope w).1.cache ≡ w.cache
    unfolding poll_with_retry
    retry_cache zero scope w = refl
    retry_cache (suc retries) scope w =
        let v = record w { calls = w.calls + 1 } in
        after_cache (poll_with_retry wire retries scope) (wire.poll w.calls scope) v
          (retry_cache retries scope v)

    absorb_class-IsTracked :
        (found : List Key × Bool) (answer : Option Poll) (w : Work)
        → IsTracked before (found.0, w.cache)
        → let (found', w') = absorb_class wire found (answer, w) in
          IsTracked before (found'.0, w'.cache)
    unfolding absorb_class
    absorb_class-IsTracked found none w h = h
    absorb_class-IsTracked found (some poll) w h = absorb-IsTracked poll (found.0, w.cache) h

    poll_classes-IsTracked :
        (classes : List ℕ) (found : List Key × Bool) (w : Work)
        → IsTracked before (found.0, w.cache)
        → let (found', w') = poll_classes wire classes found w in
          IsTracked before (found'.0, w'.cache)
    unfolding poll_classes
    poll_classes-IsTracked [] found w h = h
    poll_classes-IsTracked (cls ∷ classes) found w h =
        let polled = poll_with_retry wire 2 (class cls) w in
        poll_classes-IsTracked classes (absorb_class wire found polled).0
          (absorb_class wire found polled).1
          (absorb_class-IsTracked found polled.0 polled.1
            (subst (λ c. IsTracked before (found.0, c)) (sym (retry_cache 2 (class cls) w)) h))

-- What the entry of a signal, not of a text, says of the caches before and after.
pub record IsTrue (before after : Dict Key Float) (s : SignalConfig) (e : Entry) : Type 0 where
  pub unchanged : e.1 ≡ "no_change" → lookup (key_of s) after ≡ lookup (key_of s) before
  pub fresh : e.1 ≡ "good" → lookup (key_of s) after ≡ some e.0

value-IsTrue :
    (before cache : Dict Key Float) (changed : List Key) (s : SignalConfig) (found : Option Float)
    → IsTracked before (changed, cache)
    → lookup (key_of s) cache ≡ found
    → IsTrue before cache s (materialize_value (some changed) (key_of s) found)
unfolding materialize_value
value-IsTrue before cache changed s none h e = record { unchanged = λ q. cc; fresh = λ q. cc }
value-IsTrue before cache changed s (some v) h e = elim (Bool-cases (contains (key_of s) changed)) [
  | inl c ↦ rw c (record { unchanged = λ q. cc; fresh = λ q. e })
  | inr c ↦ rw c (record { unchanged = λ q. h.tracked (key_of s) c; fresh = λ q. cc })
]

entry_if : Bool → List Key → Dict Key Float → SignalConfig → Entry
entry_if true changed cache s = (float_zero, "invalid")
entry_if false changed cache s = materialize (some changed) cache s

entry_if-IsTrue :
    (b : Bool) (before cache : Dict Key Float) (changed : List Key) (s : SignalConfig)
    → IsTracked before (changed, cache)
    → group_of s ≢ group_string
    → IsTrue before cache s (entry_if b changed cache s)
unfolding entry_if materialize
entry_if-IsTrue true before cache changed s h g = record { unchanged = λ q. cc; fresh = λ q. cc }
entry_if-IsTrue false before cache changed s h g =
    rw (==_ne (group_of s) group_string g)
      (value-IsTrue before cache changed s (lookup (key_of s) cache) h refl)

module _ (wire : Wire) (signals : List SignalConfig) (w : Work) where
  abbrev polled : (List Key × Bool) × Work
  polled = poll_classes wire (1 ∷ 2 ∷ 3 ∷ []) ([], false) w

  abbrev fails : Bool
  fails = not polled.0.1 && length polled.1.cache == 0

  abbrev told : (SignalConfig → Entry) → Outcome (List Entry) × Work
  told f = (done (map f signals), polled.1)

  read_events_lem : read_events wire signals w ≡ told (entry_if fails polled.0.0 polled.1.cache)
  unfolding read_events materialize_from_cache entry_if
  read_events_lem =
      elim fails
        as (λ b.
          (if b
            then told (λ s. (float_zero, "invalid"))
            else told (materialize (some polled.0.0) polled.1.cache))
          ≡ told (entry_if b polled.0.0 polled.1.cache)) [ true ↦ refl | false ↦ refl ]

  polled-IsTracked : IsTracked w.cache (polled.0.0, polled.1.cache)
  polled-IsTracked =
      poll_classes-IsTracked w.cache wire (1 ∷ 2 ∷ 3 ∷ []) ([], false) w
        (record { tracked = λ k c. refl })

-- A read between two baselines returns one entry for each signal, in order; an entry of a signal that
-- is not a text's is no_change only if the cache has the value that it had before, and good only with
-- the value that the cache has.
pub read_events-IsTrue :
    (wire : Wire) (signals : List SignalConfig) (w : Work)
    → let (r, v) = read_events wire signals w in
      (f : SignalConfig → Entry) × (r ≡ done (map f signals))
      × ((s : SignalConfig) → group_of s ≢ group_string → IsTrue w.cache v.cache s (f s))
read_events-IsTrue wire signals w = rw (read_events_lem wire signals w) (
  entry_if (fails wire signals w) (polled wire signals w).0.0 (polled wire signals w).1.cache,
  refl,
  λ s g.
      entry_if-IsTrue (fails wire signals w) w.cache (polled wire signals w).1.cache
        (polled wire signals w).0.0 s (polled-IsTracked wire signals w) g,
)
