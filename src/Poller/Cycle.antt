-- ===== src/Poller/Cycle.antt =====
-- What a whole cycle sends while the broker answers.
use mathlib.Core.List.{append-nil, append_assoc, map-append}
use horstmann_dnp3_gateway.Base.{
  ap, ℕ, ◌+◌, String, ◌≡◌, refl, sym, ◌∙◌, subst, Bool, true, false, List, [], ◌∷◌, ◌++◌, map,
  nat_eq, text_eq, pair_eq, length, length-append, keep, arith,
}
use horstmann_dnp3_gateway.Exception.{Result, ok, raise, ok-injective}
use horstmann_dnp3_gateway.Config.{DeviceConfig, SignalConfig}
use horstmann_dnp3_gateway.State.{GatewayState, mark_read, due_devices, codes}
use horstmann_dnp3_gateway.Outbox.{Message}
use horstmann_dnp3_gateway.JetStream.{JetStream, acked}
use horstmann_dnp3_gateway.JetStream
use horstmann_dnp3_gateway.Delivery.Empties.{IsUp}
use horstmann_dnp3_gateway.Poller.{
  Around, World, SignalReading, after_device, after_read, poll_device, poll_serial, poll_due,
  run_poll_cycle, poll_signals, filter_readable_signals,
}
use horstmann_dnp3_gateway.Poller.Deltas.{is_delta, messages, Sends, publish_readings-Sends}

module _ {ℓ} {R : Type ℓ} (x : Around R) (good : (n : ℕ) → (x.env n).ack ≡ acked)
    (sig : SignalConfig) (signals : List SignalConfig) where
  -- The messages of one device: one for each reading that has changed; a read that raises has none.
  unfoldable pub device_messages : DeviceConfig → ℕ → Result (List SignalReading) → List Message
  device_messages d calls (ok readings) =
      messages x d (x.uuid4 calls) (x.now_iso calls) good (calls + 1) (keep is_delta readings)
  device_messages d calls (raise exc) = []

  -- The messages of the devices, one after the other, from a state of the adapter on.
  unfoldable pub cycle_messages : List DeviceConfig → R → ℕ → List Message
  unfolding device_messages
  cycle_messages [] reader calls = []
  cycle_messages (d ∷ due) reader calls =
      let (readings, reader') = x.read_device d (sig ∷ signals) reader in
      let ms = device_messages d calls readings in
      ms ++ cycle_messages due reader' (calls + 1 + length ms)

  -- What the world is after these messages are sent.
  Has : List Message → World R → World R → Type 0
  Has ms w w' =
      (w'.outbox ≡ w.outbox)
      × (w'.publisher.broker.stored
          ≡ w.publisher.broker.stored ++ map (JetStream.wire x.str w.publisher.broker.subject) ms)

  -- How the poll of a device ends.
  Polled : List Message → R → World R → Result ℕ × World R → Type ℓ
  Polled ms reader w (r, w') =
      (r ≡ ok (length ms))
      × Has ms w w'
      × IsUp w'.publisher.broker
      × (w'.publisher.broker.subject ≡ w.publisher.broker.subject)
      × (w'.reader ≡ reader)
      × (w'.calls ≡ w.calls + 1 + length ms)

  length-messages :
      (d : DeviceConfig) (c iso : String) (i : ℕ) (readings : List SignalReading)
      → length (messages x d c iso good i readings) ≡ length readings
  unfolding messages
  length-messages d c iso i [] = refl
  length-messages d c iso i (r ∷ readings) = omega (arith, length-messages d c iso (i + 1) readings)

  after_read-Polled :
      (d : DeviceConfig) (w : World R) (reader : R) (r : Result (List SignalReading))
      → IsUp w.publisher.broker
      → Polled (device_messages d w.calls r) reader w (
          after_read x d
            (x.uuid4 w.calls)
            (x.now_iso w.calls)
            r
            (record w { reader = reader; calls = w.calls + 1 }))
  unfolding Polled Has device_messages after_read Sends
  after_read-Polled d w reader (ok readings) up =
      let v : World R = record w { reader = reader; calls = w.calls + 1 } in
      let (sent, queue, stored, up', subject, same, calls) =
        publish_readings-Sends x d (x.uuid4 w.calls) (x.now_iso w.calls) good readings 0 v up in
      let n =
        length-messages d (x.uuid4 w.calls) (x.now_iso w.calls) (w.calls + 1)
          (keep is_delta readings) in
      (
        sent ∙ ap ok (omega (arith, n)),
        (queue, stored),
        up',
        subject,
        same,
        calls ∙ omega (arith, n),
      )
  after_read-Polled d w reader (raise exc) up =
      (refl, (refl, sym (append-nil w.publisher.broker.stored)), up, refl, refl, omega arith)

  poll_device-Polled :
      (d : DeviceConfig) (w : World R)
      → IsUp w.publisher.broker
      → let (readings, reader) = x.read_device d (sig ∷ signals) w.reader in
        Polled (device_messages d w.calls readings) reader w (poll_device x d (sig ∷ signals) w)
  unfolding poll_device
  poll_device-Polled d w up =
      let (readings, reader) = x.read_device d (sig ∷ signals) w.reader in
      after_read-Polled d w reader readings up

  -- How the loop over the devices ends.
  Ends : List Message → ℕ → World R → Result ℕ × GatewayState × World R → Type 0
  Ends ms total w (r, s, w') = (r ≡ ok (total + length ms)) × Has ms w w'

  after_device-Ends :
      (next : ℕ → GatewayState → World R → Result ℕ × GatewayState × World R) (code : String)
      (now total : ℕ) (s : GatewayState) (due : List DeviceConfig) (ms : List Message) (reader : R)
      (w : World R) (e : Result ℕ × World R)
      → ((n : ℕ) (t : GatewayState) (v : World R)
          → IsUp v.publisher.broker
          → Ends (cycle_messages due v.reader v.calls) n v (next n t v))
      → Polled ms reader w e
      → Ends
          (ms ++ cycle_messages due reader (w.calls + 1 + length ms))
          total
          w
          (after_device next code now total s e)
  unfolding after_device Polled Ends Has
  after_device-Ends next code now total s due ms reader w (raise exc, v) k h = cc
  after_device-Ends next code now total s due ms reader w (ok n, v) k h =
      let (counted, (queue, stored), up, subject, same_reader, calls) = h in
      let (sent, (queue', stored')) = k (total + n) (mark_read code now s) v up in
      let rest = cycle_messages due v.reader v.calls in
      let wires = λ (t : String) (xs : List Message). map (JetStream.wire x.str t) xs in
      let subject' = w.publisher.broker.subject in
      subst
        (λ (xs : List Message). Ends (ms ++ xs) total w (next (total + n) (mark_read code now s) v))
        (ap (λ (r : R). cycle_messages due r v.calls) same_reader
          ∙ ap (λ (c : ℕ). cycle_messages due reader c) calls)
        (
          sent ∙ ap ok (omega (arith, ok-injective counted, length-append ms rest)),
          (
            queue' ∙ queue,
            stored'
                ∙ ap (λ (t : String). v.publisher.broker.stored ++ wires t rest) subject
                ∙ ap (λ (ws : List JetStream.Wire). ws ++ wires subject' rest) stored
                ∙ append_assoc w.publisher.broker.stored (wires subject' ms) (wires subject' rest)
                ∙ ap (λ (ws : List JetStream.Wire). w.publisher.broker.stored ++ ws)
                    (sym (map-append (JetStream.wire x.str subject') ms rest)),
          ),
        )

  module _ (stop : ℕ → Bool) (running : (i : ℕ) → stop i ≡ false) (now : ℕ) where
    poll_serial-Ends :
        (i : ℕ) (due : List DeviceConfig) (total : ℕ) (s : GatewayState) (w : World R)
        → IsUp w.publisher.broker
        → Ends
            (cycle_messages due w.reader w.calls)
            total
            w
            (poll_serial x stop (sig ∷ signals) now i due total s w)
    unfolding poll_serial cycle_messages Ends Has
    poll_serial-Ends i [] total s w up =
        (ap ok (omega arith), (refl, sym (append-nil w.publisher.broker.stored)))
    poll_serial-Ends i (d ∷ due) total s w up =
        let (readings, reader) = x.read_device d (sig ∷ signals) w.reader in
        rw (running i, poll_serial)
          (after_device-Ends (poll_serial x stop (sig ∷ signals) now (i + 1) due) d.code now total s
            due (device_messages d w.calls readings) reader w (poll_device x d (sig ∷ signals) w)
            (λ n t v u. poll_serial-Ends (i + 1) due n t v u) (poll_device-Polled d w up))

    poll_due-Ends :
        (due : List DeviceConfig) (s : GatewayState) (w : World R)
        → w.publisher.outbox_full ≡ false
        → IsUp w.publisher.broker
        → Ends
            (cycle_messages due w.reader w.calls)
            0
            w
            (poll_due x stop (sig ∷ signals) now due s w)
    unfolding poll_due cycle_messages Ends Has
    poll_due-Ends [] s w closed up = (refl, (refl, sym (append-nil w.publisher.broker.stored)))
    poll_due-Ends (d ∷ due) s w closed up =
        let ends = poll_serial x stop (sig ∷ signals) now 0 (d ∷ due) 0 s w in
        subst
          (λ (b : Bool).
            Ends (cycle_messages (d ∷ due) w.reader w.calls) 0 w
              (elim b [ true ↦ (ok 0, s, w) | false ↦ ends ]))
          (sym closed) (poll_serial-Ends 0 (d ∷ due) 0 s w up)

    -- A serial cycle of an active gateway, whose stop event is not set, with the breaker clear, the
    -- connection standing and the server answering: it sends, for each device that is due and in
    -- their order, one message for each reading whose quality is not no_change, in the order of the
    -- readings; a device whose read raises has none. It returns their number, and the queue stays as
    -- it is.
    pub run_poll_cycle-Ends :
        (s : GatewayState) (w : World R)
        → filter_readable_signals s.signals ≡ sig ∷ signals
        → s.gateway_active ≡ true
        → w.publisher.outbox_full ≡ false
        → IsUp w.publisher.broker
        → let reader = (x.forget_devices (codes s.devices) w.reader).1 in
          let ms = cycle_messages (due_devices now s) reader w.calls in
          let (r, s', w') = run_poll_cycle x stop now s w in
          (r ≡ ok (length ms))
          × (w'.outbox ≡ w.outbox)
          × (w'.publisher.broker.stored
              ≡ w.publisher.broker.stored
                ++ map (JetStream.wire x.str w.publisher.broker.subject) ms)
    unfolding run_poll_cycle poll_signals Ends Has
    run_poll_cycle-Ends s w readable active closed up =
        let reader = (x.forget_devices (codes s.devices) w.reader).1 in
        let ms = cycle_messages (due_devices now s) reader w.calls in
        let (sent, (queue, stored)) =
          subst
            (λ (b : Bool). Ends ms 0 w (elim b [
              | true ↦ poll_signals x stop (filter_readable_signals s.signals) now s w
              | false ↦ (ok 0, s, w)
            ]))
            (sym active)
            (subst (λ (xs : List SignalConfig). Ends ms 0 w (poll_signals x stop xs now s w))
              (sym readable)
              (poll_due-Ends (due_devices now s) s (record w { reader = reader }) closed up)) in
        (sent ∙ ap ok (omega arith), queue, stored)
