-- ===== src/Protocol/Frame.antt =====
-- src/nuki_protocol.c: building and parsing of frames.
pub mod Build
pub mod RoundTrip
pub mod Accept
pub mod Detect
use nuki_nrf52_bridge.Base.{
  ℕ, ◌+◌, ◌-◌, Option, none, some, List, ◌++◌, slice, ltb, ◌==◌, if◌then◌else◌, Result, ok, err,
  einval, ebadmsg,
}
use nuki_nrf52_bridge.Zephyr.{ByteOrder}
use nuki_nrf52_bridge.Crypto.Crc.{crc16}

module _ (bo : ByteOrder) where
  open bo use {put_le16, put_le32, get_le16, get_le32}

  -- `none` is the size 0 that the source returns when `out` is too small.
  unfoldable pub build_plain : ℕ → ℕ → List ℕ → ℕ → Option (List ℕ)
  build_plain out_size command_id payload payload_len =
      let out = put_le16 command_id ++ slice payload 0 payload_len in
      if ltb out_size (2 + payload_len + 2)
      then none
      else some (out ++ put_le16 (crc16 out (2 + payload_len)))

  -- The command id and the payload.
  unfoldable pub parse_plain : List ℕ → ℕ → Result (ℕ × List ℕ)
  parse_plain frame frame_len =
      let body_len = frame_len - 2 in
      if ltb frame_len 4
      then err einval
      else if crc16 frame body_len == get_le16 frame body_len
      then ok (get_le16 frame 0, slice frame 2 (body_len - 2))
      else err ebadmsg

  unfoldable pub build_auth : ℕ → ℕ → ℕ → List ℕ → ℕ → Option (List ℕ)
  build_auth out_size auth_id command_id payload payload_len =
      let out = put_le32 auth_id ++ put_le16 command_id ++ slice payload 0 payload_len in
      if ltb out_size (4 + 2 + payload_len + 2)
      then none
      else some (out ++ put_le16 (crc16 out (6 + payload_len)))

  -- The authorization id, the command id and the payload.
  unfoldable pub parse_auth : List ℕ → ℕ → Result (ℕ × ℕ × List ℕ)
  parse_auth frame frame_len =
      let body_len = frame_len - 2 in
      if ltb frame_len 8
      then err einval
      else if crc16 frame body_len == get_le16 frame body_len
      then ok (get_le32 frame 0, get_le16 frame 4, slice frame 6 (body_len - 6))
      else err ebadmsg
