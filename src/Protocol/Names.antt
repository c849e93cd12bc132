-- ===== src/Protocol/Names.antt =====
-- src/nuki_protocol.c: the texts for the states.
use nuki_nrf52_bridge.Base.{ℕ, ◌==◌, if◌then◌else◌}
use Prim.Native.String.{String}

-- `nuki_lock_state_to_str`.
unfoldable pub lock_state_to_str : ℕ → String
lock_state_to_str lock_state =
    if lock_state == 0x00
    then "uncalibrated"
    else if lock_state == 0x01
    then "locked"
    else if lock_state == 0x02
    then "unlocking"
    else if lock_state == 0x03
    then "unlocked"
    else if lock_state == 0x04
    then "locking"
    else if lock_state == 0x05
    then "unlatched"
    else if lock_state == 0x06
    then "unlocked (lock'n'go active)"
    else if lock_state == 0x07
    then "unlatching"
    else if lock_state == 0xfc
    then "calibration"
    else if lock_state == 0xfd
    then "boot run"
    else if lock_state == 0xfe
    then "motor blocked"
    else "undefined"

-- `nuki_door_sensor_state_to_str`.
unfoldable pub door_sensor_state_to_str : ℕ → String
door_sensor_state_to_str state =
    if state == 0x00
    then "unavailable"
    else if state == 0x01
    then "deactivated"
    else if state == 0x02
    then "door closed"
    else if state == 0x03
    then "door opened"
    else if state == 0x04
    then "door state unknown"
    else if state == 0x05
    then "calibrating"
    else if state == 0x10
    then "uncalibrated"
    else if state == 0xf0
    then "tampered"
    else "unknown"
