-- ===== src/Protocol/State.antt =====
-- src/nuki_protocol.c: the report of the lock's state.
pub mod Fields
use nuki_nrf52_bridge.Base.{
  ℕ, ◌+◌, ◌*◌, ◌/◌, ◌%◌, ◌^◌, bit_and, Bool, not, List, get_or, ltb, leb, ◌==◌, if◌then◌else◌,
  Result, ok, err, einval,
}
use nuki_nrf52_bridge.Zephyr.{ByteOrder}

-- `struct nuki_keyturner_state`. The time zone's `int16_t` is kept as its 16-bit pattern.
pub record KeyturnerState : Type 0 where
  pub nuki_state : ℕ
  pub lock_state : ℕ
  pub trigger : ℕ
  pub year : ℕ
  pub month : ℕ
  pub day : ℕ
  pub hour : ℕ
  pub minute : ℕ
  pub second : ℕ
  pub timezone_offset_min : ℕ
  pub critical_battery : Bool
  pub battery_percent : ℕ
  pub door_sensor_state : ℕ

-- The fields that `nuki_keyturner_state_parse` writes once the length is accepted.
unfoldable pub decode : ByteOrder → List ℕ → ℕ → KeyturnerState
decode bo payload len = record {
  nuki_state = get_or payload 0 0;
  lock_state = get_or payload 1 0;
  trigger = get_or payload 2 0;
  year = bo.get_le16 payload 3;
  month = get_or payload 5 0;
  day = get_or payload 6 0;
  hour = get_or payload 7 0;
  minute = get_or payload 8 0;
  second = get_or payload 9 0;
  timezone_offset_min = bo.get_le16 payload 10;
  critical_battery = not (bit_and (get_or payload 12 0) 1 == 0);
  battery_percent = get_or payload 12 0 / 2 ^ 2 * 2 % 2 ^ 8;
  door_sensor_state = if leb 19 len then get_or payload 18 0 else 0xff;
}

-- `nuki_keyturner_state_parse`; on an error the caller's state is left as it was.
unfoldable pub state_parse : ByteOrder → List ℕ → ℕ → Result KeyturnerState
state_parse bo payload len = if ltb len 13 then err einval else ok (decode bo payload len)
