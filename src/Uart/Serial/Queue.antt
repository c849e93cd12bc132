-- ===== src/Uart/Serial/Queue.antt =====
-- src/nuki_uart_proto.c: what the bounded queue between the interrupt handler and the thread costs.
use nuki_nrf52_bridge.Base.{
  ℕ, ◌+◌, ◌<◌, ◌≤◌, ◌≡◌, refl, sym, ap, subst, ◌∙◌, inl, inr, Bool-cases, Option, none, some, List,
  [], ◌∷◌, ◌++◌, length, map, map-append, length-append, append_assoc, append-nil, ltb, arith,
}
use nuki_nrf52_bridge.Uart.Rx.{RxFrame, wait_sof, rx_byte, serial_cb}
use nuki_nrf52_bridge.Uart.Rx.Collect.{Request, view}
use nuki_nrf52_bridge.Uart.Rx.Frames.{wire, IsWire, wire-Received}
use nuki_nrf52_bridge.Uart.Api.{AppApi}
use nuki_nrf52_bridge.Uart.Tx.{thread}
use nuki_nrf52_bridge.Uart.Serial.{
  Msgq, Tick, byte, turn, handed_now, Serial, put_all, on_byte, on_turn, serve, serial,
}
use nuki_nrf52_bridge.Uart.Serial.Order.{Served, Kept, sublists, equals, serial-Served}
use mathlib.Core.List.{Sublist, sublist-append_left, append_cancel_left}
use mathlib.Core.List.Sublist

-- The bytes that the interrupt handler is given.
abbrev pub bytes : List Tick → List ℕ
bytes [] = []
bytes (byte c ∷ ticks) = c ∷ bytes ticks
bytes (turn ∷ ticks) = bytes ticks

module _ (queues : Msgq) (api : AppApi) where
  open queues use {Queue, put, get, waiting}

  -- A frame that is put, put or dropped.
  put-Sublist : (f : RxFrame) (q : Queue) → Sublist (waiting (put f q)) (waiting q ++ f ∷ [])
  put-Sublist f q = elim (Bool-cases (ltb (length (waiting q)) 4)) [
    | inl room ↦
        subst (λ k. Sublist k (waiting q ++ f ∷ [])) (sym (queues.put_room f q (ground arith)))
          (Sublist.refl (waiting q ++ f ∷ []))
    | inr full ↦
        subst (λ k. Sublist k (waiting q ++ f ∷ [])) (sym (queues.put_full f q (ground arith)))
          (sublist-append_left (waiting q) (f ∷ []))
  ]

  put_bound : (f : RxFrame) (q : Queue) → length (waiting q) ≤ 4 → length (waiting (put f q)) ≤ 4
  put_bound f q h = elim (Bool-cases (ltb (length (waiting q)) 4)) [
    | inl room ↦
        let fewer : length (waiting q) < 4 = ground arith in
        omega
          (arith, fewer, ap length (queues.put_room f q fewer), length-append (waiting q) (f ∷ []))
    | inr full ↦
        let most : 4 ≤ length (waiting q) = ground arith in
        omega (arith, h, ap length (queues.put_full f q most))
  ]

  put_all-Sublist :
      (fs : List RxFrame) (q : Queue)
      → Sublist (waiting (put_all queues api fs q)) (waiting q ++ fs)
  put_all-Sublist [] q =
      subst (Sublist (waiting q)) (sym (append-nil (waiting q))) (Sublist.refl (waiting q))
  put_all-Sublist (f ∷ fs) q = Sublist.trans (put_all-Sublist fs (put f q)) (
      subst (Sublist (waiting (put f q) ++ fs)) (append_assoc (waiting q) (f ∷ []) fs)
        (Sublist.append (put-Sublist f q) (Sublist.refl fs)))

  put_all_bound :
      (fs : List RxFrame) (q : Queue)
      → length (waiting q) ≤ 4
      → length (waiting (put_all queues api fs q)) ≤ 4
  put_all_bound [] q h = h
  put_all_bound (f ∷ fs) q h = put_all_bound fs (put f q) (put_bound f q h)

  put_all_room :
      (fs : List RxFrame) (q : Queue)
      → length (waiting q) + length fs ≤ 4
      → waiting (put_all queues api fs q) ≡ waiting q ++ fs
  put_all_room [] q h = sym (append-nil (waiting q))
  put_all_room (f ∷ fs) q h =
      let fewer : length (waiting q) < 4 = omega (arith, h) in
      let one = queues.put_room f q fewer in
      put_all_room fs (put f q)
        (omega (arith, h, ap length one, length-append (waiting q) (f ∷ [])))
      ∙ ap (λ k. k ++ fs) one
      ∙ append_assoc (waiting q) (f ∷ []) fs

  -- The queue has room for every frame when it is handed over.
  abbrev pub Roomy : List Tick → Serial queues api → Type 0
  Roomy [] s = Unit
  Roomy (byte c ∷ ticks) s =
      (length (waiting s.queue) + length (handed_now s.receiver (rx_byte s.receiver c)) ≤ 4)
      × Roomy ticks (on_byte queues api c s)
  Roomy (turn ∷ ticks) s = Roomy ticks (on_turn queues api s)

  always-Kept : (ticks : List Tick) (s : Serial queues api) → Kept queues api Sublist ticks s
  unfolding on_byte
  always-Kept [] s = tt
  always-Kept (byte c ∷ ticks) s = (
    put_all-Sublist (handed_now s.receiver (rx_byte s.receiver c)) s.queue,
    always-Kept ticks (on_byte queues api c s),
  )
  always-Kept (turn ∷ ticks) s = always-Kept ticks (on_turn queues api s)

  Roomy-Kept :
      (ticks : List Tick) (s : Serial queues api)
      → Roomy ticks s
      → Kept queues api (λ xs ys. xs ≡ ys) ticks s
  unfolding on_byte
  Roomy-Kept [] s h = tt
  Roomy-Kept (byte c ∷ ticks) s h = (
    put_all_room (handed_now s.receiver (rx_byte s.receiver c)) s.queue h.0,
    Roomy-Kept ticks (on_byte queues api c s) h.1,
  )
  Roomy-Kept (turn ∷ ticks) s h = Roomy-Kept ticks (on_turn queues api s) h

  turn_bound :
      (s : Serial queues api) (ws : List RxFrame)
      → waiting s.queue ≡ ws
      → length ws ≤ 4
      → length (waiting (on_turn queues api s).queue) ≤ 4
  unfolding on_turn
  turn_bound s [] e h =
      subst (λ g. length (waiting (serve queues api g s).queue) ≤ 4)
        (sym (queues.get_nothing s.queue e)) (omega (arith, ap length e))
  turn_bound s (f ∷ fs) e h =
      let (q, got, left) = queues.get_first s.queue f fs e in
      subst (λ g. length (waiting (serve queues api g s).queue) ≤ 4) (sym got)
        (omega (arith, h, ap length left))

  serial_bound :
      (ticks : List Tick) (s : Serial queues api)
      → length (waiting s.queue) ≤ 4
      → length (waiting (serial queues api ticks s).queue) ≤ 4
  unfolding serial on_byte
  serial_bound [] s h = h
  serial_bound (byte c ∷ ticks) s h =
      serial_bound ticks (on_byte queues api c s)
        (put_all_bound (handed_now s.receiver (rx_byte s.receiver c)) s.queue h)
  serial_bound (turn ∷ ticks) s h =
      serial_bound ticks (on_turn queues api s) (turn_bound s (waiting s.queue) refl h)

  serial_receiver :
      (ticks : List Tick) (s : Serial queues api)
      → (serial queues api ticks s).receiver ≡ serial_cb s.receiver (bytes ticks)
  unfolding serial serial_cb on_byte on_turn
  serial_receiver [] s = refl
  serial_receiver (byte c ∷ ticks) s = serial_receiver ticks (on_byte queues api c s)
  serial_receiver (turn ∷ ticks) s =
      serial_receiver ticks (on_turn queues api s)
      ∙ ap (λ r. serial_cb r (bytes ticks)) (same (get s.queue))
    where
      same : (g : Option (RxFrame × Queue)) → (serve queues api g s).receiver ≡ s.receiver
      same none = refl
      same (some x) = refl

  -- Whatever the order of bytes and of the thread's turns: there are never more than four frames in the queue,
  -- if there were not at the start, and the thread has done to the application, and sent, what it does alone
  -- with the frames that it took; these, and those that still wait, are among the frames that waited and those
  -- handed over since, in their order, none twice.
  pub serial_in_order :
      (ticks : List Tick) (s : Serial queues api)
      → length (waiting s.queue) ≤ 4
      → Served queues api Sublist s (serial queues api ticks s)
        × (length (waiting (serial queues api ticks s).queue) ≤ 4)
  serial_in_order ticks s h =
      (serial-Served queues api sublists ticks s (always-Kept ticks s), serial_bound ticks s h)

  -- Requests that come while a hunting receiver's queue has room are answered in full. The bytes that the
  -- interrupt handler is given are those of requests of at most 32 payload bytes, each behind bytes that do
  -- not look like a start byte; the queue is empty at the start, and holds at most four frames whenever one is
  -- handed over, in whatever order bytes and the thread's turns come. Then the frames that the thread took,
  -- followed by those that still wait, are the requests in their order, and what was sent and done is what the
  -- thread does alone with the frames that it took.
  pub serial_answers :
      (ticks : List Tick) (s : Serial queues api) (sent : List (List ℕ × Request))
      → s.receiver.state ≡ wait_sof
      → length s.receiver.frame.payload ≡ 32
      → waiting s.queue ≡ []
      → IsWire sent
      → bytes ticks ≡ wire sent
      → Roomy ticks s
      → (taken : List RxFrame) × (map view (taken ++ waiting (serial queues api ticks s).queue)
          ≡ map (λ p. p.1) sent)
        × ((serial queues api ticks s).out ≡ s.out ++ (thread api taken s.app).0)
        × ((serial queues api ticks s).app ≡ (thread api taken s.app).1)
  serial_answers ticks s sent hunting buffer none_waits right given roomy =
      let v = serial-Served queues api equals ticks s (Roomy-Kept ticks s roomy) in
      let there : (serial queues api ticks s).receiver ≡ serial_cb s.receiver (wire sent) =
        serial_receiver ticks s ∙ ap (serial_cb s.receiver) given in
      let received = wire-Received s.receiver sent hunting buffer right in
      let meant : map view v.new ≡ map (λ p. p.1) sent =
        append_cancel_left (map view s.receiver.handed) (map view v.new) (map (λ p. p.1) sent) (
          sym (map-append view s.receiver.handed v.new)
          ∙ ap (map view) (sym v.handed)
          ∙ ap (λ r. map view r.handed) there
          ∙ received.1) in
      (v.taken, ap (map view) (v.kept ∙ ap (λ k. k ++ v.new) none_waits) ∙ meant, v.out, v.app)
