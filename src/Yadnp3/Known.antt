-- ===== src/Yadnp3/Known.antt =====
-- Only points that a frame has brought are waiting to be sent.
use horstmann_dnp3_gateway.Base.{
  ℕ, ◌≡◌, refl, true, List, [], ◌∷◌, arith, if◌then◌else◌, ◌==◌, nat_eq, text_eq, pair_eq, contains,
  Dict, insert, keys,
}
use horstmann_dnp3_gateway.Base.Number.{FloatOps}
use horstmann_dnp3_gateway.Points.{
  Point, point_eq, contains-add_point, contains-add_points, contains-discard, add_point,
}
use horstmann_dnp3_gateway.Yadnp3.Cache.{
  DeviceCache, init, set, store, confirm, clear_dirty, mark_all_dirty, set_connected,
  begin_recovery, fail_recovery, consume_recovery_publish, Value,
}
use horstmann_dnp3_gateway.Yadnp3.Read.{
  Arrival, frame, link_up, link_down, recovery_begins, arrive_one, Intervals, take_recovery,
}
use horstmann_dnp3_gateway.Yadnp3.Keeps.{IsKept}
use horstmann_dnp3_gateway.Yadnp3.Invariant.{IsPhased, run-IsPhased}
use horstmann_dnp3_gateway.Yadnp3.Traces.{Event, run, run_all-keeps}

-- Every dirty point has a value.
pub record IsKnown (c : DeviceCache) : Type 0 where
  pub known : (p : Point) → contains p c.dirty ≡ true → contains p (keys c.values) ≡ true

contains-keys-insert :
    (q p : Point) (v : Value) (d : Dict Point Value)
    → contains q (keys (insert p v d)) ≡ (if q == p then true else contains q (keys d))
unfolding insert contains
contains-keys-insert q p v [] = refl
contains-keys-insert q p v ((j, w) ∷ d) = ground (
  arith,
  point_eq.test_iff q p,
  point_eq.test_iff j p,
  point_eq.test_iff q j,
  contains-keys-insert q p v d,
)

frame-IsKnown :
    (p : Point) (v : Value) (now : ℕ) (c : DeviceCache) → IsKnown c → IsKnown (set p v now c)
unfolding set store confirm
frame-IsKnown p v now c h = record {
  known = λ q k. grind (
    arith,
    h.known q,
    contains-keys-insert q p v c.values,
    contains-add_point q p c.dirty,
    contains-add_points q (keys (insert p v c.values)) c.dirty,
    contains-add_points q (keys (insert p v c.values)) (add_point p c.dirty),
  );
}

arrive_one-IsKnown : (a : Arrival) (c : DeviceCache) → IsKnown c → IsKnown (arrive_one a c)
unfolding arrive_one set_connected begin_recovery
arrive_one-IsKnown (frame p v now) c h = frame-IsKnown p v now c h
arrive_one-IsKnown link_up c h = record { known = h.known }
arrive_one-IsKnown (recovery_begins now) c h = record { known = λ q k. ground (arith, h.known q) }
arrive_one-IsKnown link_down c h = record { known = h.known }

IsKnown-IsKept : IsKept (λ a. Unit) IsKnown
unfolding arrive_one fail_recovery take_recovery consume_recovery_publish mark_all_dirty clear_dirty
IsKnown-IsKept = record {
  arrival = λ a c g h. arrive_one-IsKnown a c h;
  begun = λ now c d e g h. arrive_one-IsKnown (recovery_begins now) d h;
  failed = λ c h. record { known = λ q k. ground (arith, h.known q) };
  announced = λ c m h. record { known = h.known };
  taken = λ c h. record { known = λ q k. ground (arith, h.known q) };
  all_dirty = λ c h. record {
    known = λ q k. ground (arith, h.known q, contains-add_points q (keys c.values) c.dirty);
  };
  cleared =
      λ p c h. record { known = λ q k. ground (arith, h.known q, contains-discard q p c.dirty) };
}

run-IsKnown :
    (ops : FloatOps) (i : Intervals) (events : List Event) → IsKnown (run ops i events init)
unfolding init contains
run-IsKnown ops i events =
    run_all-keeps ops i (λ a. Unit) IsKnown IsKnown-IsKept (λ a. tt) events init
      (record { known = λ q k. cc })

-- In every life of a device, also when OpenDNP3's threads run in the middle of a read: a recovery
-- that is to be published is confirmed; an outage that was announced ends only with a recovery to
-- be published; a recovery's start and anchor agree; a lost device has no start; and a point that is
-- marked as dirty has a value.
pub run-IsValid :
    (ops : FloatOps) (i : Intervals) (events : List Event)
    → let c = run ops i events init in IsPhased c × IsKnown c
run-IsValid ops i events = (run-IsPhased ops i events, run-IsKnown ops i events)
