-- ===== src/Dnp3py/Wire.antt =====
-- What dnp3py's DNP3Master answers, and the part of a session that a read works on
-- (src/dnp3_gateway/adapters/dnp3_master.py). Groups and indices are natural numbers, since the
-- parser of the configuration gives no others.
use mathlib.Core.Bool.{Bool}
use horstmann_dnp3_gateway.Base.{
  ℕ, ◌+◌, min, String, ◌&&◌, ◌||◌, Option, List, [], ◌∷◌, if◌then◌else◌, ◌==◌, nat_eq, text_eq,
  pair_eq, contains, Dict, insert,
}
use horstmann_dnp3_gateway.Base.Number.{ℤ, pos, negsuc, Float, float_zero, float_one}
use horstmann_dnp3_gateway.Config.{SignalConfig}

-- A measurement: its index, the truth of its value, and float(value).
pub record Obj : Type 0 where
  pub index : ℕ
  pub truth : Bool
  pub number : Float

-- A read of a range returns, raises DNP3Error, or raises another exception.
pub data Answer : Type 0 where
  items : List Obj → Answer
  dnp3_error : Answer
  io_error : String → Answer

pub record Poll : Type 0 where
  pub binary_inputs : List Obj
  pub binary_outputs : List Obj
  pub analog_inputs : List Obj
  pub analog_outputs : List Obj
  pub counters : List Obj

-- What a poll asks for: a class, or all.
pub data Scope : Type 0 where
  class : ℕ → Scope
  integrity : Scope

-- The n-th call: the answer to a read of a group's range, to a poll (none when it raises or is not
-- successful), and to is_connected.
pub record Wire : Type 0 where
  pub read : ℕ → ℕ → ℕ → ℕ → Answer
  pub poll : ℕ → Scope → Option Poll
  pub is_connected : ℕ → Bool

abbrev pub Key : Type 0
Key = ℕ × ℕ

-- The cache of the device, its baseline's time, whether the session has a master, and the number of
-- the next call.
pub record Work : Type 0 where
  pub cache : Dict Key Float
  pub baseline_at : ℕ
  pub has_master : Bool
  pub calls : ℕ

-- A call returns, raises Dnp3AdapterError, or lets another exception out.
pub data Outcome (A : Type 0) : Type 0 where
  done : A → Outcome A
  adapter_error : Outcome A
  uncaught : String → Outcome A

abbrev pub natural : ℤ → ℕ
natural (pos n) = n
natural (negsuc n) = 0

abbrev pub group_of : SignalConfig → ℕ
group_of s = natural s.dnp3_object_group

abbrev pub index_of : SignalConfig → ℕ
index_of s = natural s.dnp3_index

abbrev pub key_of : SignalConfig → Key
key_of s = (group_of s, index_of s)

abbrev pub group_string : ℕ
group_string = 110

-- `_point_raw_from_object`
unfoldable pub point_raw : ℕ → Obj → Float
point_raw group obj =
    if group == 1 || group == 10 then (if obj.truth then float_one else float_zero) else obj.number

-- `_direct_range_ok_for_group`
unfoldable pub range_ok : ℕ → Bool
range_ok group = contains group (1 ∷ 10 ∷ 20 ∷ 30 ∷ 40 ∷ [])

-- `_effective_read_chunk_size`
unfoldable pub chunk_size : ℕ → ℕ → ℕ
chunk_size base_max group = if group == 30 then min base_max 12 else base_max

-- cache[(group, obj.index)] = raw, for each object that is wanted.
unfoldable pub put_items : ℕ → (ℕ → Bool) → List Obj → Dict Key Float → Dict Key Float
unfolding point_raw
put_items group wanted [] cache = cache
put_items group wanted (obj ∷ objs) cache =
    put_items group wanted objs
      (if wanted obj.index then insert (group, obj.index) (point_raw group obj) cache else cache)

module _ (wire : Wire) where
  -- `_master_connected`
  unfoldable pub master_connected : Work → Bool
  master_connected w = w.has_master && wire.is_connected w.calls

  -- `_direct_read_range_one`
  unfoldable pub read_range_one : ℕ → ℕ → ℕ → Work → Answer × Work
  unfolding range_ok
  read_range_one group start end' w =
      if range_ok group
      then (wire.read w.calls group start end', record w { calls = w.calls + 1 })
      else (items [], w)
