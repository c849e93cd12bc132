-- ===== src/Protocol/State/Fields.antt =====
-- src/nuki_protocol.c: what the report of the lock's state can hold.
use nuki_nrf52_bridge.Base.{
  ℕ, ◌*◌, ◌/◌, ◌%◌, ◌<◌, ◌≤◌, true, List, ◌≡◌, ◌↔◌, arith, get_or, ok, err, einval, Below,
  le→ltb_false, lt→ltb, ◌⊎◌, inl, inr, dec_lt,
}
use nuki_nrf52_bridge.Base.Bits.{bit_and_low}
use nuki_nrf52_bridge.Zephyr.{ByteOrder}
use nuki_nrf52_bridge.Protocol.State.{KeyturnerState, decode, state_parse}

-- What a report of `len` bytes is parsed to: the battery's byte holds the critical flag in its lowest
-- bit and half the charge in its upper six, so that the percentage is even and at most 126; the door
-- sensor is 255 (unknown) unless the report has 19 bytes.
pub record IsReport (payload : List ℕ) (len : ℕ) (s : KeyturnerState) : Type 0 where
  pub even : s.battery_percent % 2 ≡ 0
  pub charge : s.battery_percent ≡ get_or payload 12 0 / 4 * 2
  pub at_most : s.battery_percent ≤ 126
  pub critical : (s.critical_battery ≡ true) ↔ (get_or payload 12 0 % 2 ≡ 1)
  pub year_lt : s.year < 65536
  pub door :
      ((len < 19) × (s.door_sensor_state ≡ 255))
      ⊎ ((19 ≤ len) × (s.door_sensor_state ≡ get_or payload 18 0))

decode-IsReport :
    (bo : ByteOrder) (payload : List ℕ) (len : ℕ)
    → Below 256 payload
    → IsReport payload len (decode bo payload len)
unfolding decode
decode-IsReport bo payload len b = record {
  even = omega arith;
  charge = omega (arith, b 12);
  at_most = omega (arith, b 12);
  critical = ground (arith, bit_and_low 1 (get_or payload 12 0));
  year_lt = omega (arith, bo.get_le16_lem payload 3, b 3, b 4);
  door = elim (dec_lt len 19) [
    | yes h ↦ inl (h, ground arith)
    | no h ↦ inr (omega arith, ground arith)
  ];
}

-- A report of bytes is either shorter than 13 bytes and rejected with EINVAL, or has 13 bytes at least and
-- is parsed: the percentage of the battery is even and at most 126, the critical flag is the lowest bit of
-- its byte, and the door sensor is 255 (unknown) below 19 bytes and the report's byte 18 from there on.
pub state_parse_total :
    (bo : ByteOrder) (payload : List ℕ) (len : ℕ)
    → Below 256 payload
    → ((len < 13) × (state_parse bo payload len ≡ err einval))
      ⊎ ((13 ≤ len)
          × ((s : KeyturnerState) × (state_parse bo payload len ≡ ok s) × IsReport payload len s))
unfolding state_parse
state_parse_total bo payload len b = elim (dec_lt len 13) [
  | yes h ↦ inl (h, rw (lt→ltb len 13 h))
  | no h ↦
      let enough : 13 ≤ len = omega arith in
      inr (
        enough,
        (decode bo payload len, rw (le→ltb_false 13 len enough), decode-IsReport bo payload len b),
      )
]
