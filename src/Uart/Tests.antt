-- ===== src/Uart/Tests.antt =====
-- The theorems on the UART protocol at concrete inputs, over a small application: its state is the
-- last action, its cache always holds one report.
use nuki_nrf52_bridge.Base.{
  ℕ, true, false, List, [], ◌∷◌, ◌≡◌, refl, arith, inl, inr, map, replicate, ok,
}
use nuki_nrf52_bridge.Protocol.State.{KeyturnerState}
use nuki_nrf52_bridge.Uart.Api.{AppApi}
use nuki_nrf52_bridge.Uart.Rx.{RxFrame, wait_sof, reset_receiver, serial_run}
use nuki_nrf52_bridge.Uart.Rx.Bounds.{IsReceiver, reset_receiver-IsReceiver, serial_run-IsReceiver}
use nuki_nrf52_bridge.Uart.Rx.Collect.{Request, view}
use nuki_nrf52_bridge.Uart.Rx.Frames.{serial_run-received}
use nuki_nrf52_bridge.Uart.Tx.{dispatch_frame, handle_status}
use nuki_nrf52_bridge.Uart.Tx.Answers.{IsAnswer, dispatch_frame-IsAnswer}
use nuki_nrf52_bridge.Uart.Tx.Effects.{Performed, dispatch_frame_action, dispatch_frame_reject}

abbrev pub report : KeyturnerState
report = record {
  nuki_state = 2;
  lock_state = 1;
  trigger = 0;
  year = 2026;
  month = 8;
  day = 14;
  hour = 20;
  minute = 5;
  second = 30;
  timezone_offset_min = 0;
  critical_battery = false;
  battery_percent = 86;
  door_sensor_state = 2;
}

abbrev pub small_app : AppApi
small_app = record {
  App = ℕ;
  is_paired = λ a. true;
  is_connected = λ a. false;
  is_ready = λ a. false;
  pair = λ a. (ok tt, a);
  lock_action = λ action a. (ok tt, action);
  calibrate = λ pin a. (ok tt, pin);
  get_state = λ a. (ok report, a);
  get_cached_state = λ a. ok (report, 0);
}

-- STATUS, as in LOXONE_UART_PROTOCOL.md.
status_known :
    dispatch_frame small_app (record { cmd = 1; len = 0; payload = replicate 32 0 }) 0
    ≡ (0x5a ∷ 1 ∷ 7 ∷ 0 ∷ 0 ∷ 0 ∷ 0 ∷ 1 ∷ 0 ∷ 0 ∷ [], 0)
unfolding dispatch_frame handle_status
status_known = refl

abbrev bytes : List (List ℕ)
bytes = (0x17 ∷ 0xa5 ∷ 7 ∷ []) ∷ (2 ∷ 0xd2 ∷ []) ∷ (4 ∷ 0xa5 ∷ 1 ∷ 0 ∷ []) ∷ []

abbrev calibrate_1234 : Request
calibrate_1234 = record { cmd = 7; args = 0xd2 ∷ 4 ∷ [] }

abbrev status : Request
status = record { cmd = 1; args = [] }

abbrev sent : List (List ℕ × Request)
sent = ((0x17 ∷ []), calibrate_1234) ∷ ([], status) ∷ []

serial_run-received_example :
    ((serial_run reset_receiver bytes).state ≡ wait_sof)
    × (map view (serial_run reset_receiver bytes).handed ≡ calibrate_1234 ∷ status ∷ [])
serial_run-received_example =
    serial_run-received reset_receiver bytes sent refl refl (omega arith) refl

serial_run-IsReceiver_example : IsReceiver (serial_run reset_receiver bytes)
serial_run-IsReceiver_example =
    serial_run-IsReceiver reset_receiver bytes (omega arith) reset_receiver-IsReceiver

abbrev lock_frame : RxFrame
lock_frame = record { cmd = 4; len = 0; payload = replicate 32 0 }

abbrev unknown_frame : RxFrame
unknown_frame = record { cmd = 9; len = 0; payload = replicate 32 0 }

dispatch_frame-IsAnswer_example : IsAnswer 4 (dispatch_frame small_app lock_frame 0).0
dispatch_frame-IsAnswer_example = dispatch_frame-IsAnswer small_app lock_frame 0

dispatch_frame_action_example :
    Performed small_app 4 report 0 2 (dispatch_frame small_app lock_frame 0)
dispatch_frame_action_example =
    dispatch_frame_action small_app lock_frame 0 2 (inl (refl, refl)) refl refl (omega arith)
      (omega arith) (omega arith)

dispatch_frame_reject_example :
    dispatch_frame small_app unknown_frame 5 ≡ (0x5a ∷ 9 ∷ 4 ∷ 0xea ∷ 0xff ∷ 0xff ∷ 0xff ∷ [], 5)
dispatch_frame_reject_example =
    dispatch_frame_reject small_app unknown_frame 5 (inl (inr (omega arith)))
