-- ===== src/Yadnp3/Cache.antt =====
-- _DeviceCache of src/dnp3_gateway/adapters/dnp3_yadnp3_master.py, and the callbacks of OpenDNP3
-- that write to it. The clock's times are arguments, in milliseconds.
use mathlib.Core.Bool.{Bool, true, false}
use horstmann_dnp3_gateway.Base.{
  ℕ, ◌-◌, String, not, ◌||◌, Option, none, some, List, [], ◌∷◌, leb, if◌then◌else◌, ◌==◌, nat_eq,
  text_eq, pair_eq, contains, length, Dict, lookup, insert, keys,
}
use horstmann_dnp3_gateway.Base.Number.{pos, Float, float_beq, float_one, float_zero}
use horstmann_dnp3_gateway.Points.{Point, point_eq, add_point, add_points, discard}

pub data LinkState : Type 0 where
  lost recovering online : LinkState

-- raw_float and value_string_or_None
abbrev pub Value : Type 0
Value = Float × Option String

pub record DeviceCache : Type 0 where
  pub values : Dict Point Value
  pub dirty : List Point
  pub connected : Bool
  pub last_update_at : ℕ
  pub stale_announced : Bool
  pub state : LinkState
  pub recovery_started_at : ℕ
  pub recovery_anchor_at : ℕ
  pub pending_recovery_publish : Bool

unfoldable pub init : DeviceCache
init = record {
  values = [];
  dirty = [];
  connected = false;
  last_update_at = 0;
  stale_announced = false;
  state = lost;
  recovery_started_at = 0;
  recovery_anchor_at = 0;
  pending_recovery_publish = false;
}

same_text : Option String → Option String → Bool
same_text none none = true
same_text (some s) (some t) = s == t
same_text _ _ = false

-- prev is None or prev[0] != raw or prev[1] != value_string
unfoldable pub has_changed : Option Value → Value → Bool
unfolding same_text
has_changed none v = true
has_changed (some (raw, value_string)) v =
    not (float_beq raw v.0) || not (same_text value_string v.1)

-- The write to `_values`, `_last_update_at` and `_dirty`.
unfoldable pub store : Point → Value → ℕ → DeviceCache → DeviceCache
unfolding has_changed
store p v now c = record c {
  values = insert p v c.values;
  last_update_at = now;
  dirty = if has_changed (lookup p c.values) v then add_point p c.dirty else c.dirty;
}

-- A frame confirms a recovery that began no later.
unfoldable pub confirm : ℕ → DeviceCache → DeviceCache
confirm now c = elim c.state [
  | recovering ↦
      if leb c.recovery_anchor_at now
      then record c {
        state = online;
        pending_recovery_publish = true;
        dirty = add_points (keys c.values) c.dirty;
      }
      else c
  | _ ↦ c
]

unfoldable pub set : Point → Value → ℕ → DeviceCache → DeviceCache
unfolding store confirm
set p v now c = confirm now (store p v now c)

unfoldable pub get : Point → DeviceCache → Option Value
get p c = lookup p c.values

unfoldable pub is_dirty : Point → DeviceCache → Bool
is_dirty p c = contains p c.dirty

unfoldable pub clear_dirty : Point → DeviceCache → DeviceCache
clear_dirty p c = record c { dirty = discard p c.dirty }

-- The count that is returned goes into the log.
unfoldable pub mark_all_dirty : DeviceCache → ℕ × DeviceCache
mark_all_dirty c = (length c.values, record c { dirty = add_points (keys c.values) c.dirty })

unfoldable pub set_connected : Bool → DeviceCache → DeviceCache
set_connected true c = record c { connected = true }
set_connected false c = record c {
  connected = false;
  state = lost;
  recovery_started_at = 0;
  recovery_anchor_at = 0;
  pending_recovery_publish = false;
}

unfoldable pub begin_recovery : ℕ → DeviceCache → DeviceCache
begin_recovery now c = elim c.state [
  | recovering ↦ c
  | _ ↦ record c {
    state = recovering;
    recovery_started_at = now;
    recovery_anchor_at = now;
    pending_recovery_publish = false;
  }
]

-- A difference below 0, of a clock that was set back, counts as 0: it is compared with the grace only.
unfoldable pub recovery_age : ℕ → DeviceCache → ℕ
recovery_age now c = elim c.state [
  | recovering ↦ if c.recovery_started_at == 0 then 0 else now - c.recovery_started_at
  | _ ↦ 0
]

unfoldable pub fail_recovery : DeviceCache → DeviceCache
fail_recovery c = elim c.state [
  | recovering ↦ record c {
    state = lost;
    recovery_started_at = 0;
    recovery_anchor_at = 0;
    pending_recovery_publish = false;
  }
  | _ ↦ c
]

unfoldable pub consume_recovery_publish : DeviceCache → Bool × DeviceCache
consume_recovery_publish c =
    (c.pending_recovery_publish, record c { pending_recovery_publish = false })

-- One measurement of a callback, with the time of its `cache.set`.
pub record Item (A : Type 0) : Type 0 where
  pub index : ℕ
  pub value : A
  pub time : ℕ

-- What OpenDNP3 passes to `Process`: a list of one type. The octets of a string are missing when
-- ToBytes raises.
pub data Batch : Type 0 where
  binaries : List (Item Bool) → Batch
  analogs : List (Item Float) → Batch
  counters : List (Item ℕ) → Batch
  binary_outputs : List (Item Bool) → Batch
  analog_outputs : List (Item Float) → Batch
  octet_strings : List (Item (Option (List ℕ))) → Batch
  other_type : Batch

-- for it in values
unfoldable pub set_all : {A : Type 0} → ℕ → (A → Value) → List (Item A) → DeviceCache → DeviceCache
unfolding set
set_all group of_value [] c = c
set_all group of_value (it ∷ items) c =
    set_all group of_value items (set (pos group, pos it.index) (of_value it.value) it.time c)

abbrev pub truth_value : Bool → Float
truth_value b = if b then float_one else float_zero

-- raw.rstrip(b"\x00")
unfoldable pub rstrip_nul : List ℕ → List ℕ
rstrip_nul [] = []
rstrip_nul (b ∷ bs) = elim (rstrip_nul bs) [
  | [] ↦ if b == 0 then [] else b ∷ []
  | (r ∷ rs) ↦ b ∷ r ∷ rs
]

octets : Option (List ℕ) → List ℕ
octets none = []
octets (some raw) = raw

-- decode is bytes.decode("utf-8", errors="replace"), and of_int is float(n).
module _ (decode : List ℕ → String) (of_int : ℕ → Float) where
  unfoldable pub text_of : Option (List ℕ) → Option String
  unfolding octets
  text_of raw = let t = decode (rstrip_nul (octets raw)) in if t == "" then none else some t

  -- `Process`
  unfoldable pub process : Batch → DeviceCache → DeviceCache
  unfolding set_all text_of
  process (binaries items) c = set_all 1 (λ b. (truth_value b, none)) items c
  process (analogs items) c = set_all 30 (λ x. (x, none)) items c
  process (counters items) c = set_all 20 (λ n. (of_int n, none)) items c
  process (binary_outputs items) c = set_all 10 (λ b. (truth_value b, none)) items c
  process (analog_outputs items) c = set_all 40 (λ x. (x, none)) items c
  process (octet_strings items) c = set_all 110 (λ raw. (float_zero, text_of raw)) items c
  process other_type c = c

unfoldable pub on_open : ℕ → DeviceCache → DeviceCache
unfolding set_connected begin_recovery
on_open now c = begin_recovery now (set_connected true c)

unfoldable pub on_close : DeviceCache → DeviceCache
unfolding set_connected
on_close c = set_connected false c
