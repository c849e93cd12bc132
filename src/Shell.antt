-- ===== src/Shell.antt =====
-- src/nuki_shell.c: the commands of the shell.
pub mod Agrees
mod Tests
use nuki_nrf52_bridge.Base.{
  ℕ, ◌||◌, not, Bool, true, false, List, [], ◌∷◌, ltb, if◌then◌else◌, Result, ok, err, Errno,
  enoent, eio, eagain, enomem, enodev, einval, enodata, ebadmsg, etimedout, enotconn, enotsup,
}
use Prim.Native.String.{String}
use nuki_nrf52_bridge.Protocol.Commands.{action_lock, action_unlock, action_unlatch}
use nuki_nrf52_bridge.Protocol.State.{KeyturnerState}
use nuki_nrf52_bridge.Protocol.Names.{lock_state_to_str, door_sensor_state_to_str}
use nuki_nrf52_bridge.Uart.Api.{AppApi}

-- What is printed: a format with its arguments. An offset of time is its 16-bit pattern.
pub data Arg : Type 0 where
  str : String → Arg
  chars : List ℕ → Arg
  num : ℕ → Arg
  code : Errno → Arg

pub data Line : Type 0 where
  print error warn : String → List Arg → Line

unfoldable pub err_to_str : Errno → String
err_to_str enotconn = "not connected/discovered yet"
err_to_str enoent = "not paired yet - run 'nuki pair' first"
err_to_str etimedout = "timed out"
err_to_str eagain = "timed out"
err_to_str ebadmsg = "authentication/CRC check failed"
err_to_str enotsup = "lock did not offer its Pairing Service on this connection"
err_to_str _ = "error"

-- `nuki_cmds`: what stands behind the name of the command.
pub data Command : Type 0 where
  status pair_command state lock unlock unlatch : Command
  calibrate_command : List (List ℕ) → Command

abbrev pub is_empty : List ℕ → Bool
is_empty [] = true
is_empty (x ∷ xs) = false

abbrev pub yes_no : Bool → String
yes_no b = if b then "yes" else "no"

abbrev pub critical : Bool → String
critical b = if b then "(CRITICAL)" else ""

abbrev pub state_lines : KeyturnerState → List Line
state_lines s =
    print "lock state:      %s (0x%02x)"
      (str (lock_state_to_str s.lock_state) ∷ num s.lock_state ∷ [])
    ∷ print "door sensor:     %s" (str (door_sensor_state_to_str s.door_sensor_state) ∷ [])
    ∷ print "battery:         %u%% %s"
        (num s.battery_percent ∷ str (critical s.critical_battery) ∷ [])
    ∷ print "lock time:       %04u-%02u-%02u %02u:%02u:%02u (tz offset %d min)" (
        num s.year
        ∷ num s.month
        ∷ num s.day
        ∷ num s.hour
        ∷ num s.minute
        ∷ num s.second
        ∷ num s.timezone_offset_min
        ∷ [])
    ∷ []

module _ (api : AppApi) where
  open api use {App, is_paired, is_connected, is_ready, pair, lock_action, calibrate, get_state}

  -- What a command returns, the lines it prints, and the application it leaves.
  abbrev pub Outcome : Type 0
  Outcome = Result (Unit {0}) × List Line × App

  -- The end of a command: a line for success, or for the error.
  abbrev pub finished : Line → (Errno → Line) → Line → Result (Unit {0}) × App → Outcome
  finished start failure success (ok _, a) = (ok tt, start ∷ success ∷ [], a)
  finished start failure success (err e, a) = (err e, start ∷ failure e ∷ [], a)

  unfoldable pub cmd_nuki_pair : App → Outcome
  cmd_nuki_pair a =
      finished (print "pairing - make sure the lock's button is held for 5s (pairing mode)..." [])
        (λ e. error "pairing failed: %s (%d)" (str (err_to_str e) ∷ code e ∷ []))
        (print "paired successfully" []) (pair a)

  abbrev pub state_read : Result KeyturnerState × App → Outcome
  state_read (ok s, a) = (ok tt, state_lines s, a)
  state_read (err e, a) =
      (err e, error "failed to read state: %s (%d)" (str (err_to_str e) ∷ code e ∷ []) ∷ [], a)

  unfoldable pub cmd_nuki_state : App → Outcome
  cmd_nuki_state a = state_read (get_state a)

  unfoldable pub do_lock_action : ℕ → String → App → Outcome
  do_lock_action action name a =
      finished (print "%s..." (str name ∷ []))
        (λ e. error "%s failed: %s (%d)" (str name ∷ str (err_to_str e) ∷ code e ∷ []))
        (print "%s complete" (str name ∷ [])) (lock_action action a)

  unfoldable pub cmd_nuki_lock : App → Outcome
  cmd_nuki_lock a = do_lock_action action_lock "lock" a

  unfoldable pub cmd_nuki_unlock : App → Outcome
  cmd_nuki_unlock a = do_lock_action action_unlock "unlock" a

  unfoldable pub cmd_nuki_unlatch : App → Outcome
  cmd_nuki_unlatch a = do_lock_action action_unlatch "unlatch" a

  -- The command once `strtoul` has answered with a value and the text that is left.
  abbrev pub calibrate_with : List ℕ → ℕ × List ℕ → App → Outcome
  calibrate_with arg (pin, rest) a =
      let refused =
        error "invalid PIN '%s' (expected a 4-digit number, e.g. 0000-9999)" (chars arg ∷ []) in
      let out =
        finished (warn "calibrating - the lock will rotate through its full range now..." [])
          (λ e. error "calibration failed: %s (%d)" (str (err_to_str e) ∷ code e ∷ []))
          (print "calibration complete" []) (calibrate pin a) in
      if not (is_empty rest) || ltb 0xffff pin then (err einval, refused ∷ [], a) else out

  abbrev pub usage : App → Outcome
  usage a = (err einval, error "usage: nuki calibrate <security-pin>" [] ∷ [], a)

  -- `strtoul` of base 10 is a parameter; the list is `argv`.
  unfoldable pub cmd_nuki_calibrate : (List ℕ → ℕ × List ℕ) → List (List ℕ) → App → Outcome
  cmd_nuki_calibrate strtoul [] a = usage a
  cmd_nuki_calibrate strtoul (name ∷ []) a = usage a
  cmd_nuki_calibrate strtoul (name ∷ arg ∷ []) a = calibrate_with arg (strtoul arg) a
  cmd_nuki_calibrate strtoul (name ∷ arg ∷ more ∷ args) a = usage a

  unfoldable pub cmd_nuki_status : App → Outcome
  cmd_nuki_status a = (
    ok tt,
    print "paired: %s" (str (yes_no (is_paired a)) ∷ [])
        ∷ print "connected right now: %s (ready: %s)"
            (str (yes_no (is_connected a)) ∷ str (yes_no (is_ready a)) ∷ [])
        ∷ print
            "(each command connects on demand and disconnects afterwards, so this is usually 'no' between commands - that's expected, it leaves the lock's BLE connection free for the Nuki app)"
            []
        ∷ [],
    a,
  )

  unfoldable pub run_command : (List ℕ → ℕ × List ℕ) → Command → App → Outcome
  run_command strtoul status a = cmd_nuki_status a
  run_command strtoul pair_command a = cmd_nuki_pair a
  run_command strtoul state a = cmd_nuki_state a
  run_command strtoul lock a = cmd_nuki_lock a
  run_command strtoul unlock a = cmd_nuki_unlock a
  run_command strtoul unlatch a = cmd_nuki_unlatch a
  run_command strtoul (calibrate_command args) a = cmd_nuki_calibrate strtoul args a
