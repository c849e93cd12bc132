-- ===== src/Uart/SerialTests.antt =====
-- The theorems on the interrupt handler and the thread at concrete inputs, with a list as the queue.
use nuki_nrf52_bridge.Base.{
  ◌<◌, ◌≤◌, ◌≡◌, refl, ap, none, some, List, [], ◌∷◌, ◌++◌, length, map, ltb, if◌then◌else◌, arith,
}
use nuki_nrf52_bridge.Uart.Rx.{RxFrame, reset_receiver, rx_byte}
use nuki_nrf52_bridge.Uart.Rx.Collect.{Request, view}
use nuki_nrf52_bridge.Uart.Tx.{thread}
use nuki_nrf52_bridge.Uart.Serial.{Msgq, Tick, byte, turn, Serial, serial, on_byte, on_turn}
use nuki_nrf52_bridge.Uart.Serial.Order.{Served}
use nuki_nrf52_bridge.Uart.Serial.Queue.{Roomy, serial_in_order, serial_answers}
use nuki_nrf52_bridge.Uart.Tests.{small_app}
use mathlib.Core.List.{Sublist}

abbrev put_frame : RxFrame → List RxFrame → List RxFrame
put_frame f q = if ltb (length q) 4 then q ++ f ∷ [] else q

put_frame_room : (f : RxFrame) (q : List RxFrame) → length q < 4 → put_frame f q ≡ q ++ f ∷ []
put_frame_room f q h = ground arith

put_frame_full : (f : RxFrame) (q : List RxFrame) → 4 ≤ length q → put_frame f q ≡ q
put_frame_full f q h = ground arith

abbrev list_msgq : Msgq
list_msgq = record {
  Queue = List RxFrame;
  put = put_frame;
  get = λ q. elim q [ [] ↦ none | f ∷ fs ↦ some (f, fs) ];
  waiting = λ q. q;
  put_room = put_frame_room;
  put_full = put_frame_full;
  get_nothing = λ q h. ap (λ k. elim k [ [] ↦ none | f ∷ fs ↦ some (f, fs) ]) h;
  get_first = λ q f fs h. (fs, ap (λ k. elim k [ [] ↦ none | f ∷ fs ↦ some (f, fs) ]) h, refl);
}

abbrev start : Serial list_msgq small_app
start = record { receiver = reset_receiver; queue = []; app = 0; out = [] }

-- A LOCK request, which the thread takes, and a byte of noise, and an UNLOCK request that waits.
abbrev ticks : List Tick
ticks = byte 0xa5 ∷ byte 4 ∷ byte 0 ∷ turn ∷ byte 1 ∷ byte 0xa5 ∷ byte 5 ∷ byte 0 ∷ []

ticks-Roomy : Roomy list_msgq small_app ticks start
unfolding on_byte on_turn rx_byte
ticks-Roomy = (
  omega arith,
  (omega arith, (omega arith, (omega arith, (omega arith, (omega arith, (omega arith, tt)))))),
)

serial_in_order_example :
    Served list_msgq small_app Sublist start (serial list_msgq small_app ticks start)
    × (length (serial list_msgq small_app ticks start).queue ≤ 4)
serial_in_order_example = serial_in_order list_msgq small_app ticks start (omega arith)

abbrev lock_request : Request
lock_request = record { cmd = 4; args = [] }

abbrev unlock_request : Request
unlock_request = record { cmd = 5; args = [] }

serial_answers_example :
    (taken : List RxFrame) × (map view (taken ++ (serial list_msgq small_app ticks start).queue)
      ≡ lock_request ∷ unlock_request ∷ [])
    × ((serial list_msgq small_app ticks start).out ≡ (thread small_app taken 0).0)
    × ((serial list_msgq small_app ticks start).app ≡ (thread small_app taken 0).1)
serial_answers_example =
    serial_answers list_msgq small_app ticks start
      (([], lock_request) ∷ (1 ∷ [], unlock_request) ∷ []) refl refl refl
      ((tt, omega arith), (((omega arith, tt), omega arith), tt)) refl ticks-Roomy
