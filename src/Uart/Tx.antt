-- ===== src/Uart/Tx.antt =====
-- src/nuki_uart_proto.c: the dispatcher of received frames and its answers. A response struct is
-- packed and little-endian, so its bytes are written field by field.
pub mod Answers
pub mod Effects
use nuki_nrf52_bridge.Base.{
  ℕ, ◌+◌, ◌-◌, ◌*◌, ◌%◌, ◌^◌, Bool, List, [], ◌∷◌, ◌++◌, get_or, length, slice, replicate, le_bytes,
  ◌==◌, if◌then◌else◌, Result, ok, err, Errno, einval, errno_number,
}
use nuki_nrf52_bridge.Protocol.Commands.{action_lock, action_unlock, action_unlatch}
use nuki_nrf52_bridge.Protocol.State.{KeyturnerState}
use nuki_nrf52_bridge.Uart.Rx.{RxFrame}
use nuki_nrf52_bridge.Uart.Api.{AppApi}

abbrev pub sof_resp : ℕ
sof_resp = 0x5a

-- `enum nuki_uart_cmd`.
abbrev pub uart_cmd_status : ℕ
uart_cmd_status = 1

abbrev pub uart_cmd_pair : ℕ
uart_cmd_pair = 2

abbrev pub uart_cmd_state : ℕ
uart_cmd_state = 3

abbrev pub uart_cmd_lock : ℕ
uart_cmd_lock = 4

abbrev pub uart_cmd_unlock : ℕ
uart_cmd_unlock = 5

abbrev pub uart_cmd_unlatch : ℕ
uart_cmd_unlatch = 6

abbrev pub uart_cmd_calibrate : ℕ
uart_cmd_calibrate = 7

-- The `int32_t rc` as its 32-bit pattern.
unfoldable pub rc_of {ℓ} : {A : Type ℓ} → Result A → ℕ
rc_of (ok a) = 0
rc_of (err e) = (2 ^ 32 - errno_number e) % 2 ^ 32

abbrev pub bit : Bool → ℕ
bit b = if b then 1 else 0

-- `send_frame`: the bytes that go out.
unfoldable pub send_frame : ℕ → List ℕ → ℕ → List ℕ
send_frame cmd payload len = sof_resp ∷ cmd ∷ len ∷ slice payload 0 len

unfoldable pub send_simple_response : ℕ → ℕ → List ℕ
unfolding send_frame
send_simple_response cmd rc = send_frame cmd (le_bytes 4 rc) 4

-- The bytes of `struct nuki_uart_resp_state` behind `rc`.
unfoldable pub state_fields : KeyturnerState → ℕ → List ℕ
state_fields s age_sec =
    s.lock_state ∷ s.battery_percent ∷ bit s.critical_battery ∷ s.door_sensor_state ∷ []
    ++ le_bytes 2 s.year
    ++ (s.month ∷ s.day ∷ s.hour ∷ s.minute ∷ s.second ∷ [])
    ++ le_bytes 2 s.timezone_offset_min
    ++ le_bytes 4 age_sec

-- The fields are zero unless a state was filled in.
abbrev pub filled : Result (KeyturnerState × ℕ) → List ℕ
filled (ok (s, age_sec)) = state_fields s age_sec
filled (err e) = replicate 17 0

unfoldable pub send_state : ℕ → ℕ → Result (KeyturnerState × ℕ) → List ℕ
unfolding send_frame
send_state cmd rc cached = send_frame cmd (le_bytes 4 rc ++ filled cached) 21

module _ (api : AppApi) where
  open api use {App, is_paired, is_connected, is_ready, pair, lock_action, calibrate}
  open api use {get_cached_state}

  unfoldable pub handle_status : App → List ℕ × App
  unfolding send_frame
  handle_status a =
      let resp = le_bytes 4 0 ++ bit (is_paired a) ∷ bit (is_connected a) ∷ bit (is_ready a) ∷ [] in
      (send_frame uart_cmd_status resp 7, a)

  unfoldable pub handle_pair : App → List ℕ × App
  unfolding send_simple_response
  handle_pair a = let (err', a') = pair a in (send_simple_response uart_cmd_pair (rc_of err'), a')

  unfoldable pub handle_state : App → List ℕ × App
  unfolding send_state
  handle_state a =
      let cached = get_cached_state a in (send_state uart_cmd_state (rc_of cached) cached, a)

  -- The cache is read only after a success.
  abbrev pub after_action : Result (Unit {0}) → App → Result (KeyturnerState × ℕ)
  after_action (ok _) a = get_cached_state a
  after_action (err e) a = err e

  unfoldable pub handle_lock_action : ℕ → ℕ → App → List ℕ × App
  unfolding send_state
  handle_lock_action action cmd a =
      let (err', a') = lock_action action a in
      (send_state cmd (rc_of err') (after_action err' a'), a')

  -- `memcpy(&req, frame->payload, 2)` into a little-endian `uint16_t`.
  unfoldable pub handle_calibrate : RxFrame → App → List ℕ × App
  unfolding send_simple_response
  handle_calibrate f a =
      let pin = get_or f.payload 0 0 + 256 * get_or f.payload 1 0 in
      let (err', a') = calibrate pin a in
      if f.len == 2
      then (send_simple_response uart_cmd_calibrate (rc_of err'), a')
      else (send_simple_response uart_cmd_calibrate (rc_of {A = ℕ} (err einval)), a)

  unfoldable pub dispatch_frame : RxFrame → App → List ℕ × App
  dispatch_frame f a =
      if f.cmd == uart_cmd_status
      then handle_status a
      else if f.cmd == uart_cmd_pair
      then handle_pair a
      else if f.cmd == uart_cmd_state
      then handle_state a
      else if f.cmd == uart_cmd_lock
      then handle_lock_action action_lock uart_cmd_lock a
      else if f.cmd == uart_cmd_unlock
      then handle_lock_action action_unlock uart_cmd_unlock a
      else if f.cmd == uart_cmd_unlatch
      then handle_lock_action action_unlatch uart_cmd_unlatch a
      else if f.cmd == uart_cmd_calibrate
      then handle_calibrate f a
      else (send_simple_response f.cmd (rc_of {A = ℕ} (err einval)), a)

  -- The thread over the frames that the queue gives it, in order: what goes out.
  unfoldable pub thread : List RxFrame → App → List ℕ × App
  unfolding dispatch_frame
  thread [] a = ([], a)
  thread (f ∷ fs) a =
      let (out, a') = dispatch_frame f a in let (rest, a'') = thread fs a' in (out ++ rest, a'')
