-- ===== src/Dnp3py/Session.antt =====
-- The strategies "class0" and "integrity" of Dnp3DeviceSession, and read_batch
-- (src/dnp3_gateway/adapters/dnp3_master.py).
use mathlib.Core.Bool.{true, false}
use horstmann_dnp3_gateway.Base.{
  ℕ, Option, none, some, List, [], ◌∷◌, if◌then◌else◌, ◌==◌, nat_eq, text_eq, pair_eq,
}
use horstmann_dnp3_gateway.Base.Number.{Float, float_zero}
use horstmann_dnp3_gateway.Config.{SignalConfig}
use horstmann_dnp3_gateway.Dnp3py.Wire.{
  Obj, Answer, items, dnp3_error, io_error, Poll, class, integrity, Wire, Work, Outcome, done,
  adapter_error, uncaught, group_of, index_of, group_string, range_ok, point_raw, read_range_one,
}
use horstmann_dnp3_gateway.Dnp3py.Direct.{Limits}
use horstmann_dnp3_gateway.Dnp3py.Batch.{
  Strategy, by_integrity, by_class0, by_direct, by_events, Entry, none_read, poll_with_retry,
  read_batch_event_driven, read_batch_direct,
}

-- `_find_index`
unfoldable pub find_index : List Obj → ℕ → Option Obj
find_index [] index = none
find_index (obj ∷ objs) index = if obj.index == index then some obj else find_index objs index

poll_list : Poll → ℕ → List Obj
poll_list poll group =
    if group == 30
    then poll.analog_inputs
    else if group == 40
    then poll.analog_outputs
    else if group == 1
    then poll.binary_inputs
    else if group == 10
    then poll.binary_outputs
    else if group == 20
    then poll.counters
    else []

raw_of : ℕ → Option Obj → Option Float
raw_of group none = none
raw_of group (some obj) = some (point_raw group obj)

-- `_raw_from_poll`, none where it raises Dnp3AdapterError.
unfoldable pub raw_from_poll : Poll → SignalConfig → Option Float
unfolding find_index poll_list raw_of
raw_from_poll poll s =
    if group_of s == group_string
    then some float_zero
    else raw_of (group_of s) (find_index (poll_list poll (group_of s)) (index_of s))

first_of : List Obj → Option Obj
first_of [] = none
first_of (obj ∷ objs) = some obj

or_else : Option Obj → Option Obj → Option Obj
or_else none other = other
or_else (some obj) other = some obj

-- (raw, "good"), or no_change where Dnp3AdapterError is raised.
entry_of : Option Float → Entry
entry_of none = (float_zero, "no_change")
entry_of (some raw) = (raw, "good")

unfoldable pub push_entry : Entry → Outcome (List Entry) × Work → Outcome (List Entry) × Work
push_entry entry (done entries, w) = (done (entry ∷ entries), w)
push_entry entry (uncaught t, w) = (uncaught t, w)
push_entry entry (adapter_error, w) = (adapter_error, w)

module _ (wire : Wire) where
  after_answer : SignalConfig → Answer × Work → Outcome Entry × Work
  unfolding entry_of find_index first_of raw_of or_else
  after_answer s (items objs, w) = (
    done (entry_of (raw_of (group_of s) (or_else (find_index objs (index_of s)) (first_of objs)))),
    w,
  )
  after_answer s (dnp3_error, w) = (done (entry_of none), w)
  after_answer s (io_error t, w) = (uncaught t, w)

  -- `_read_direct`, and the handler of _read_batch_from_poll.
  unfoldable pub read_direct : SignalConfig → Work → Outcome Entry × Work
  unfolding after_answer read_range_one entry_of
  read_direct s w =
      if range_ok (group_of s)
      then after_answer s (read_range_one wire (group_of s) (index_of s) (index_of s) w)
      else (done (entry_of none), w)

  from_poll : Option Float → SignalConfig → Work → Outcome Entry × Work
  unfolding read_direct
  from_poll (some raw) s w = (done (raw, "good"), w)
  from_poll none s w = read_direct s w

  unfoldable pub cons_entry :
      Outcome Entry × Work → (Work → Outcome (List Entry) × Work) → Outcome (List Entry) × Work
  unfolding push_entry
  cons_entry (uncaught t, w) next = (uncaught t, w)
  cons_entry (adapter_error, w) next = (adapter_error, w)
  cons_entry (done entry, w) next = push_entry entry (next w)

  -- `_read_batch_from_poll`
  unfoldable pub read_batch_from_poll :
      Poll → List SignalConfig → Work → Outcome (List Entry) × Work
  unfolding from_poll cons_entry raw_from_poll
  read_batch_from_poll poll [] w = (done [], w)
  read_batch_from_poll poll (s ∷ signals) w =
      cons_entry (from_poll (raw_from_poll poll s) s w) (read_batch_from_poll poll signals)

  -- `_mark_disconnected` after a batch; an exception that is let out passes it by.
  unfoldable pub drop_master : Outcome (List Entry) × Work → Outcome (List Entry) × Work
  drop_master (done entries, w) = (done entries, record w { has_master = false })
  drop_master (adapter_error, w) = (adapter_error, w)
  drop_master (uncaught t, w) = (uncaught t, w)

  unfoldable pub after_poll : List SignalConfig → Option Poll × Work → Outcome (List Entry) × Work
  unfolding read_batch_from_poll drop_master
  after_poll signals (none, w) = (done (none_read signals), record w { has_master = false })
  after_poll signals (some poll, w) = drop_master (read_batch_from_poll poll signals w)

  unfoldable pub read_strategy :
      Limits → ℕ → ℕ → Strategy → List SignalConfig → Work → Outcome (List Entry) × Work
  unfolding after_poll poll_with_retry read_batch_event_driven read_batch_direct
  read_strategy limits interval now by_events signals w =
      read_batch_event_driven wire limits interval now signals w
  read_strategy limits interval now by_direct signals w = read_batch_direct wire limits signals w
  read_strategy limits interval now by_class0 signals w =
      after_poll signals (poll_with_retry wire 2 (class 0) w)
  read_strategy limits interval now by_integrity signals w =
      after_poll signals (poll_with_retry wire 2 integrity w)

  unfoldable pub read_batch :
      Limits → ℕ → ℕ → Strategy → List SignalConfig → Work → Outcome (List Entry) × Work
  unfolding read_strategy
  read_batch limits interval now strategy signals w = elim w.has_master [
    | false ↦ (adapter_error, w)
    | true ↦ elim signals [
      | [] ↦ (done [], w)
      | (s ∷ rest) ↦ read_strategy limits interval now strategy (s ∷ rest) w
    ]
  ]
