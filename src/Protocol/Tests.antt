-- ===== src/Protocol/Tests.antt =====
-- The theorems on frames and reports at concrete inputs.
use nuki_nrf52_bridge.Base.{
  ℕ, ◌<◌, ◌≤◌, List, [], ◌∷◌, ◌≡◌, refl, arith, some, ok, err, einval, ebadmsg, Below, Below-of_All,
}
use nuki_nrf52_bridge.Base.{◌⊎◌}
use nuki_nrf52_bridge.Zephyr.{little_endian}
use nuki_nrf52_bridge.Crypto.Crc.{crc16}
use nuki_nrf52_bridge.Protocol.Frame.{parse_plain, build_auth, parse_auth}
use nuki_nrf52_bridge.Protocol.Frame.Accept.{build_auth-parse_auth}
use nuki_nrf52_bridge.Protocol.Frame.Detect.{parse_auth_corrupt}
use nuki_nrf52_bridge.Protocol.State.{KeyturnerState, state_parse}
use nuki_nrf52_bridge.Protocol.State.Fields.{IsReport, state_parse_total}

-- The request of the lock's state, from tests/nuki_crypto.
abbrev request : List ℕ
request = 2 ∷ 0 ∷ 0 ∷ 0 ∷ 1 ∷ 0 ∷ 12 ∷ 0 ∷ 65 ∷ 141 ∷ []

request_built : build_auth little_endian 160 2 1 (12 ∷ 0 ∷ []) 2 ≡ some request
unfolding build_auth crc16
request_built = refl

-- A frame without a payload.
abbrev empty_frame : List ℕ
empty_frame = 1 ∷ 0 ∷ 0x3e ∷ 0x2e ∷ []

empty_frame_parsed : parse_plain little_endian empty_frame 4 ≡ ok (1, [])
unfolding parse_plain crc16
empty_frame_parsed = refl

request_parsed : parse_auth little_endian request 10 ≡ ok (2, 1, 12 ∷ 0 ∷ [])
unfolding parse_auth crc16
request_parsed = refl

request-Below : Below 256 request
request-Below = Below-of_All 256 request (omega arith) (omega arith)

build_auth-parse_auth_example : build_auth little_endian 160 2 1 (12 ∷ 0 ∷ []) 2 ≡ some request
build_auth-parse_auth_example =
    build_auth-parse_auth little_endian 160 10 2 1 request (12 ∷ 0 ∷ []) request-Below refl
      (omega arith) (omega arith) request_parsed

parse_auth_corrupt_example :
    parse_auth little_endian (2 ∷ 0 ∷ 0 ∷ 0 ∷ 1 ∷ 0 ∷ 13 ∷ 0 ∷ 65 ∷ 141 ∷ []) 10 ≡ err ebadmsg
parse_auth_corrupt_example =
    parse_auth_corrupt little_endian (2 ∷ 0 ∷ 0 ∷ 0 ∷ 1 ∷ 0 ∷ []) (0 ∷ []) 12 13 65 141 8 refl
      (omega arith) (omega arith) (omega arith) (omega arith) request_parsed

-- A report of 19 bytes: locked, 86 percent, the door closed.
abbrev report : List ℕ
report = 2 ∷ 1 ∷ 0 ∷ 0xea ∷ 7 ∷ 8 ∷ 7 ∷ 14 ∷ 2 ∷ 10 ∷ 0 ∷ 0 ∷ 172 ∷ 0 ∷ 0 ∷ 0 ∷ 0 ∷ 0 ∷ 2 ∷ []

report-Below : Below 256 report
report-Below = Below-of_All 256 report (omega arith) (omega arith)

state_parse_total_example :
    ((19 < 13) × (state_parse little_endian report 19 ≡ err einval))
    ⊎ ((13 ≤ 19)
        × ((s : KeyturnerState) × (state_parse little_endian report 19 ≡ ok s)
            × IsReport report 19 s))
state_parse_total_example = state_parse_total little_endian report 19 report-Below
