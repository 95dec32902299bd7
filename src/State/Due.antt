-- ===== src/State/Due.antt =====
-- When a device is due, and what `update` keeps of the times.
use horstmann_dnp3_gateway.Base.{
  ℕ, refl, ◌-◌, ◌*◌, String, ◌≡◌, ◌≢◌, leb, if◌then◌else◌, ◌==◌, nat_eq, text_eq, pair_eq,
  lookup-insert, ap, ◌∙◌, none, arith, ==_self, ==_ne, contains, lookup, lookup-keep_keys, ◌≤◌, ◌⊎◌,
  inl, inr, false, Bool-cases,
}
use horstmann_dnp3_gateway.Base.Number.{ℤ, pos, negsuc, at_least}
use horstmann_dnp3_gateway.Config.{DeviceConfig, GatewayConfig}
use horstmann_dnp3_gateway.State.Refresh.{update-state}
use horstmann_dnp3_gateway.State.{
  GatewayState, File, Written, Clock, install, update, mark_read, is_due, last_read, or_zero, codes,
  follow_nonce, take_config,
}

last_read-mark_read :
    (code other : String) (now : ℕ) (s : GatewayState)
    → last_read other (mark_read code now s) ≡ (if code == other then now else last_read other s)
unfolding last_read mark_read
last_read-mark_read code other now s =
    ap or_zero (lookup-insert code other now s.last_read_at) ∙ ground arith

-- A device that was marked is due again exactly when its interval (of a second at least) has passed,
-- and no other device is touched.
pub mark_read-due :
    (d : DeviceConfig) (now later : ℕ) (s : GatewayState)
    → (is_due later (mark_read d.code now s) d
        ≡ leb (1000 * at_least 1 d.poll_interval_sec) (later - now))
      × ((e : DeviceConfig)
          → d.code ≢ e.code
          → is_due later (mark_read d.code now s) e ≡ is_due later s e)
unfolding is_due
mark_read-due d now later s = (
  ap (λ t. leb (1000 * at_least 1 d.poll_interval_sec) (later - t))
      (last_read-mark_read d.code d.code now s ∙ rw (==_self d.code) refl),
  λ e ne.
      ap (λ t. leb (1000 * at_least 1 e.poll_interval_sec) (later - t))
        (last_read-mark_read d.code e.code now s ∙ rw (==_ne d.code e.code ne) refl),
)

follow_nonce-last_read_at :
    (n : ℤ) (s : GatewayState) → (follow_nonce n s).last_read_at ≡ s.last_read_at
unfolding follow_nonce
follow_nonce-last_read_at n s = ground arith

-- `update` keeps the time of the last read of every device that stays, and forgets the others.
pub update-last_read :
    (clock : Clock) (config : GatewayConfig) (now : ℕ) (end : Written) (s : GatewayState) (f : File)
    (code : String)
    → lookup code (update clock config now end s f).1.last_read_at
      ≡ (if contains code (codes config.devices) then lookup code s.last_read_at else none)
unfolding install take_config
update-last_read clock config now end s f code =
    ap (λ (t : GatewayState). lookup code t.last_read_at) (update-state clock config now end s f)
    ∙ ap (lookup code) (follow_nonce-last_read_at config.refresh_nonce (take_config config now s))
    ∙ lookup-keep_keys (λ k. contains k (codes config.devices)) code s.last_read_at

is_due-mark_read :
    (code : String) (now later : ℕ) (s : GatewayState) (e : DeviceConfig)
    → is_due later (mark_read code now s) e
      ≡ leb
          (1000 * at_least 1 e.poll_interval_sec)
          (later - (if code == e.code then now else last_read e.code s))
unfolding is_due
is_due-mark_read code now later s e =
    ap (λ t. leb (1000 * at_least 1 e.poll_interval_sec) (later - t))
      (last_read-mark_read code e.code now s)

at_least_one : (x : ℤ) → 1 ≤ at_least 1 x
unfolding at_least
at_least_one (pos n) = omega arith
at_least_one (negsuc n) = omega arith

too_early :
    (e : DeviceConfig) (now : ℕ) → leb (1000 * at_least 1 e.poll_interval_sec) (now - now) ≡ false
too_early e now = ground (arith, at_least_one e.poll_interval_sec)

-- At the time of the mark, the device is not due, and no other device has become due.
pub mark_read-not_due :
    (code : String) (now : ℕ) (s : GatewayState) (e : DeviceConfig)
    → (code ≡ e.code) ⊎ (is_due now s e ≡ false)
    → is_due now (mark_read code now s) e ≡ false
unfolding is_due
mark_read-not_due code now s e h =
    is_due-mark_read code now now s e ∙ elim (Bool-cases (code == e.code)) [
      | inl q ↦ rw q (too_early e now)
      | inr q ↦ rw q (elim h [ inl same ↦ absurd (differ same q) | inr early ↦ early ])
    ]
  where
    differ : code ≡ e.code → (code == e.code) ≡ false → ⊥
    differ same q = cc (==_self code)
