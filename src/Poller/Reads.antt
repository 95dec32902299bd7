-- ===== src/Poller/Reads.antt =====
-- What a cycle makes of the devices that are due.
use horstmann_dnp3_gateway.Base.{
  ℕ, ◌+◌, String, ◌≡◌, refl, ap, ◌∙◌, inl, inr, Bool, false, List, [], ◌∷◌, keep, All, ◌≢◌, true,
  Bool-cases,
}
use horstmann_dnp3_gateway.Exception.{
  Exc, Result, ok, raise, outbox_full, jetstream_not_ready, jetstream_publish, sqlite, other,
}
use horstmann_dnp3_gateway.Config.{DeviceConfig, SignalConfig}
use horstmann_dnp3_gateway.State.{codes, GatewayState, mark_read, is_due, due_devices, codes}
use horstmann_dnp3_gateway.State.Due.{mark_read-not_due}
use horstmann_dnp3_gateway.Poller.{
  Around, World, after_device, poll_device, poll_serial, poll_due, run_poll_cycle, poll_signals,
  filter_readable_signals,
}
use horstmann_dnp3_gateway.Poller.Breaks.{Stops, poll_device-Stops}

pub mark_read-devices :
    (code : String) (now : ℕ) (s : GatewayState) → (mark_read code now s).devices ≡ s.devices
unfolding mark_read
mark_read-devices code now s = refl

-- The state after a loop over `due`: those devices are no longer due, none has become due, and the
-- configuration is the same.
pub record IsRead (now : ℕ) (due : List DeviceConfig) (s s' : GatewayState) : Type 0 where
  pub read : All (λ (d : DeviceConfig). is_due now s' d ≡ false) due
  pub rest : (e : DeviceConfig) → is_due now s e ≡ false → is_due now s' e ≡ false
  pub devices : s'.devices ≡ s.devices

-- The loop gives a count, and unless the breaker is set at its end, it has read all devices.
pub Completes {ℓ} :
    {R : Type ℓ} → ℕ → List DeviceConfig → GatewayState → Result ℕ × GatewayState × World R → Type 0
Completes now due s (ok n, s', w) = w.publisher.outbox_full ≡ false → IsRead now due s s'
Completes now due s (raise exc, s', w) = ⊥

IsRead-cons :
    (now : ℕ) (d : DeviceConfig) (due : List DeviceConfig) (s s' : GatewayState)
    → IsRead now due (mark_read d.code now s) s'
    → IsRead now (d ∷ due) s s'
IsRead-cons now d due s s' h = record {
  read = (h.rest d (mark_read-not_due d.code now s d (inl refl)), h.read);
  rest = λ e q. h.rest e (mark_read-not_due d.code now s e (inr q));
  devices = h.devices ∙ mark_read-devices d.code now s;
}

module _ {ℓ} {R : Type ℓ} (now : ℕ) (d : DeviceConfig) (due : List DeviceConfig) where
  Completes-cons :
      (s : GatewayState) (r : Result ℕ × GatewayState × World R)
      → Completes now due (mark_read d.code now s) r
      → Completes now (d ∷ due) s r
  unfolding Completes
  Completes-cons s (ok n, s', w) h = λ clear. IsRead-cons now d due s s' (h clear)
  Completes-cons s (raise exc, s', w) h = h

  after_device-Completes :
      (next : ℕ → GatewayState → World R → Result ℕ × GatewayState × World R) (total : ℕ)
      (s : GatewayState) (r : Result ℕ × World R)
      → ((n : ℕ) (s' : GatewayState) (w : World R) → Completes now due s' (next n s' w))
      → Stops r
      → Completes now (d ∷ due) s (after_device next d.code now total s r)
  unfolding after_device Completes
  after_device-Completes next total s (ok count, w) k h =
      Completes-cons s (next (total + count) (mark_read d.code now s) w)
        (k (total + count) (mark_read d.code now s) w)
  after_device-Completes next total s (raise (outbox_full t), w) k h = λ clear. cc
  after_device-Completes next total s (raise (jetstream_not_ready t), w) k h = h
  after_device-Completes next total s (raise (jetstream_publish t), w) k h = h
  after_device-Completes next total s (raise (sqlite t), w) k h = h
  after_device-Completes next total s (raise (other t), w) k h = h

keep_none :
    (p : DeviceConfig → Bool) (xs : List DeviceConfig) → All (λ d. p d ≡ false) xs → keep p xs ≡ []
unfolding keep
keep_none p [] h = refl
keep_none p (d ∷ xs) h = rw (h.0, keep_none p xs h.1) refl

All-split :
    (p : DeviceConfig → Bool) (P : DeviceConfig → Type 0) (xs : List DeviceConfig)
    → ((d : DeviceConfig) → p d ≡ false → P d)
    → All P (keep p xs)
    → All P xs
unfolding keep
All-split p P [] f h = tt
All-split p P (d ∷ xs) f h = elim (Bool-cases (p d)) [
  | inl q ↦ ((rw q at h).0, All-split p P xs f (rw q at h).1)
  | inr q ↦ (f d q, All-split p P xs f (rw q at h))
]

-- Then no device is due at the cycle's time.
pub IsRead-none_due :
    (now : ℕ) (s s' : GatewayState) → IsRead now (due_devices now s) s s' → due_devices now s' ≡ []
unfolding due_devices
IsRead-none_due now s s' h =
    ap (keep (is_due now s')) h.devices
    ∙ keep_none (is_due now s') s.devices (
        All-split (is_due now s) (λ d. is_due now s' d ≡ false) s.devices (λ d q. h.rest d q)
          h.read)

module _ {ℓ} {R : Type ℓ} (x : Around R) (stop : ℕ → Bool) (runs : (i : ℕ) → stop i ≡ false) where
  poll_serial-Completes :
      (signals : List SignalConfig) (now i : ℕ) (due : List DeviceConfig) (total : ℕ)
      (s : GatewayState) (w : World R)
      → Completes now due s (poll_serial x stop signals now i due total s w)
  unfolding poll_serial Completes
  poll_serial-Completes signals now i [] total s w =
      λ clear. record { read = tt; rest = λ e q. q; devices = refl }
  poll_serial-Completes signals now i (d ∷ due) total s w =
      rw (runs i, poll_serial)
        (after_device-Completes now d due (poll_serial x stop signals now (i + 1) due) total s
          (poll_device x d signals w)
          (λ n s' w'. poll_serial-Completes signals now (i + 1) due n s' w')
          (poll_device-Stops x d signals w))

  poll_due-Completes :
      (signals : List SignalConfig) (now : ℕ) (due : List DeviceConfig) (s : GatewayState)
      (w : World R)
      → w.publisher.outbox_full ≡ false
      → Completes now due s (poll_due x stop signals now due s w)
  unfolding poll_due Completes
  poll_due-Completes signals now [] s w clear =
      λ _. record { read = tt; rest = λ e q. q; devices = refl }
  poll_due-Completes signals now (d ∷ due) s w clear =
      rw (clear, poll_due) (poll_serial-Completes signals now 0 (d ∷ due) 0 s w)

  -- In an active gateway with a readable signal, and with the breaker clear and the stop event not
  -- set, a cycle raises nothing; and unless the breaker is set at its end, no device is due at the
  -- cycle's time any more, whatever the adapter and the publisher did for each.
  pub run_poll_cycle-reads :
      (now : ℕ) (s : GatewayState) (w : World R)
      → s.gateway_active ≡ true
      → filter_readable_signals s.signals ≢ []
      → w.publisher.outbox_full ≡ false
      → let (r, s', w') = run_poll_cycle x stop now s w in
        ((exc : Exc) → r ≢ raise exc) × (w'.publisher.outbox_full ≡ false → due_devices now s' ≡ [])
  unfolding run_poll_cycle Completes
  run_poll_cycle-reads now s w active some_signal clear =
      rw (active, run_poll_cycle) (go (filter_readable_signals s.signals) some_signal)
    where
      ended :
          (z : Result ℕ × GatewayState × World R)
          → Completes now (due_devices now s) s z
          → ((exc : Exc) → z.0 ≢ raise exc)
            × (z.2.publisher.outbox_full ≡ false → due_devices now z.1 ≡ [])
      ended (ok n, s', w') h = (λ exc e. cc, λ k. IsRead-none_due now s s' (h k))
      ended (raise exc, s', w') h = absurd h

      go :
          (signals : List SignalConfig)
          → signals ≢ []
          → let (r, s', w') = poll_signals x stop signals now s w in
            ((exc : Exc) → r ≢ raise exc)
            × (w'.publisher.outbox_full ≡ false → due_devices now s' ≡ [])
      go [] ne = absurd (ne refl)
      go (sig ∷ signals) ne = ended _ (
          poll_due-Completes (sig ∷ signals) now (due_devices now s) s
            (record w { reader = (x.forget_devices (codes s.devices) w.reader).1 }) clear)
