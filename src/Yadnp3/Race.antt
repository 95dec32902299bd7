-- ===== src/Yadnp3/Race.antt =====
-- A frame in the gap between `is_dirty` and `clear_dirty` of a read.
use mathlib.Core.Bool.{true, false}
use horstmann_dnp3_gateway.Base.{
  ℕ, ◌≡◌, some, List, [], ◌∷◌, zero, suc, refl, ◌∙◌, arith, ==_self, lookup-insert, ap, Option,
  none,
}
use horstmann_dnp3_gateway.Base.Number.{FloatOps}
use horstmann_dnp3_gateway.Points.{Point, point_eq, contains-discard}
use horstmann_dnp3_gateway.Config.{SignalConfig}
use horstmann_dnp3_gateway.Yadnp3.Cache.{
  DeviceCache, Value, get, set, store, confirm, is_dirty, clear_dirty,
}
use horstmann_dnp3_gateway.Yadnp3.Read.{
  Arrival, frame, arrive, arrive_one, good, unread, point_of, read_dirty, read_entry, read_signal,
}
use horstmann_dnp3_gateway.Yadnp3.Quiet.{quiet}

-- One frame of the point, in the third gap.
abbrev pub late_frame : Point → Value → ℕ → ℕ → List Arrival
late_frame p v now (suc (suc zero)) = frame p v now ∷ []
late_frame p v now _ = []

late_entry :
    (ops : FloatOps) (s : SignalConfig) (entry : Option Value) (old new : Value) (now : ℕ)
    (c : DeviceCache)
    → entry ≡ some old
    → is_dirty (point_of s) c ≡ true
    → read_entry ops (late_frame (point_of s) new now) 0 s entry c
      ≡ (good ops s old, clear_dirty (point_of s) (set (point_of s) new now c))
unfolding read_entry read_dirty arrive arrive_one
late_entry ops s none old new now c h g = cc
late_entry ops s (some v) old new now c h g = rw g (
    ap (λ (x : Value). (good ops s x, clear_dirty (point_of s) (set (point_of s) new now c)))
      (some_lem v old h))
  where
    some_lem : (v w : Value) → some v ≡ some w → v ≡ w
    some_lem v w h = cc

late_read :
    (ops : FloatOps) (s : SignalConfig) (old new : Value) (now : ℕ) (c : DeviceCache)
    → get (point_of s) c ≡ some old
    → is_dirty (point_of s) c ≡ true
    → read_signal ops (late_frame (point_of s) new now) 0 s c
      ≡ (good ops s old, clear_dirty (point_of s) (set (point_of s) new now c))
unfolding read_signal arrive
late_read ops s old new now c h g = late_entry ops s (get (point_of s) c) old new now c h g

get_set_lem : (p : Point) (v : Value) (now : ℕ) (c : DeviceCache) → get p (set p v now c) ≡ some v
unfolding get set store confirm
get_set_lem p v now c = ground (arith, lookup-insert p p v c.values, ==_self p)

clear_dirty_lem :
    (p : Point) (c : DeviceCache)
    → (get p (clear_dirty p c) ≡ get p c) × (is_dirty p (clear_dirty p c) ≡ false)
unfolding get is_dirty clear_dirty
clear_dirty_lem p c = ground (arith, contains-discard p p c.dirty, ==_self p)

clean_read :
    (ops : FloatOps) (s : SignalConfig) (c : DeviceCache)
    → is_dirty (point_of s) c ≡ false
    → (read_signal ops quiet 0 s c).0 ≡ unread "no_change" s
unfolding read_signal read_entry read_dirty arrive
clean_read ops s c h = ground arith

-- When a new value of a signal's point arrives after `is_dirty` and before `clear_dirty`, the read
-- gives the old value; the cache has the new one, and the next read of the signal, in whose gaps
-- nothing else runs, gives no_change.
pub late_frame_unsent :
    (ops : FloatOps) (s : SignalConfig) (old new : Value) (now : ℕ) (c : DeviceCache)
    → get (point_of s) c ≡ some old
    → is_dirty (point_of s) c ≡ true
    → let (r, d) = read_signal ops (late_frame (point_of s) new now) 0 s c in
      (r ≡ good ops s old)
      × (get (point_of s) d ≡ some new)
      × ((read_signal ops quiet 0 s d).0 ≡ unread "no_change" s)
late_frame_unsent ops s old new now c h g =
    let d = set (point_of s) new now c in
    let (kept, clean) = clear_dirty_lem (point_of s) d in
    rw (late_read ops s old new now c h g) (
      refl,
      kept ∙ get_set_lem (point_of s) new now c,
      clean_read ops s (clear_dirty (point_of s) d) clean,
    )
