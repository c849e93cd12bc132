-- ===== src/Protocol/Frame/RoundTrip.antt =====
-- src/nuki_protocol.c: the parsers accept exactly what the builders write.
use nuki_nrf52_bridge.Base.{
  ℕ, ◌+◌, ◌-◌, ◌*◌, ◌/◌, ◌%◌, ◌<◌, ◌≤◌, some, List, ◌++◌, ◌≡◌, ap, ap₂, ◌∙◌, arith, length, slice,
  ◌==◌, ok, length-append, true, slice-append_right, ==_iff, append_assoc,
}
use nuki_nrf52_bridge.Zephyr.{ByteOrder}
use nuki_nrf52_bridge.Crypto.Crc.{crc16}
use nuki_nrf52_bridge.Crypto.Crc.Detect.{crc16-lt}
use nuki_nrf52_bridge.Protocol.Frame.{build_plain, parse_plain, build_auth, parse_auth}
use nuki_nrf52_bridge.Protocol.Frame.Build.{
  length-put_le16, length-put_le32, get_le16-put_le16, get_le32-put_le32, parse_plain-eq,
  parse_auth-eq, build_plain-eq, build_auth-eq, get_le16_seam,
}

module _ (bo : ByteOrder) where
  open bo use {put_le16, put_le32, get_le16, get_le32}

  -- The check sum that a builder writes is the one that a parser expects.
  checked :
      (body : List ℕ) (n : ℕ)
      → let crc = crc16 body n in (crc16 body n == (crc % 256 + 256 * (crc / 256 % 256))) ≡ true
  checked body n =
      (==_iff (crc16 body n) (crc16 body n % 256 + 256 * (crc16 body n / 256 % 256))).1
        (omega (arith, crc16-lt body n))

  plain_checked :
      (body : List ℕ) (n : ℕ)
      → length body ≡ n
      → 2 ≤ n
      → parse_plain bo (body ++ put_le16 (crc16 body n)) (n + 2)
        ≡ ok (get_le16 body 0, slice body 2 (n - 2))
  plain_checked body n h p = rw (bo.put_le16_lem (crc16 body n)) (
      parse_plain-eq bo body (crc16 body n % 256) (crc16 body n / 256 % 256) n h p
      ∙ rw (checked body n))

  auth_checked :
      (body : List ℕ) (n : ℕ)
      → length body ≡ n
      → 6 ≤ n
      → parse_auth bo (body ++ put_le16 (crc16 body n)) (n + 2)
        ≡ ok (get_le32 body 0, get_le16 body 4, slice body 6 (n - 6))
  auth_checked body n h p = rw (bo.put_le16_lem (crc16 body n)) (
      parse_auth-eq bo body (crc16 body n % 256) (crc16 body n / 256 % 256) n h p
      ∙ rw (checked body n))

  -- For a command id of 16 bits and a payload of `n` bytes that fits the buffer, the frame is built,
  -- has four bytes more than the payload, and is parsed to the same command id and payload.
  pub parse_plain-build_plain :
      (size cmd : ℕ) (payload : List ℕ) (n : ℕ)
      → cmd < 65536
      → length payload ≡ n
      → 4 + n ≤ size
      → (f : List ℕ) × (build_plain bo size cmd payload n ≡ some f)
        × (length f ≡ 4 + n)
        × (parse_plain bo f (4 + n) ≡ ok (cmd, payload))
  parse_plain-build_plain size cmd payload n hc h fits =
      (body ++ crc, build_plain-eq bo size cmd payload n h fits, len, parsed)
    where
      body : List ℕ
      body = put_le16 cmd ++ payload

      crc : List ℕ
      crc = put_le16 (crc16 body (2 + n))

      body_len : length body ≡ 2 + n
      body_len = omega (arith, length-append (put_le16 cmd) payload, length-put_le16 bo cmd)

      len : length (body ++ crc) ≡ 4 + n
      len = omega (arith, length-append body crc, body_len, length-put_le16 bo (crc16 body (2 + n)))

      payload_back : slice body 2 (2 + n - 2) ≡ payload
      payload_back =
          ap (slice body 2) (omega arith)
          ∙ slice-append_right (put_le16 cmd) payload 2 n (length-put_le16 bo cmd) h

      parsed : parse_plain bo (body ++ crc) (4 + n) ≡ ok (cmd, payload)
      parsed =
          ap (parse_plain bo (body ++ crc)) (omega arith)
          ∙ plain_checked body (2 + n) body_len (omega arith)
          ∙ ap₂ (λ a b. ok (a, b)) (get_le16-put_le16 bo cmd payload hc) payload_back

  -- For an authorization id of 32 bits, a command id of 16 bits and a payload of `n` bytes that fits
  -- the buffer, the frame is built, has eight bytes more than the payload, and is parsed to the same
  -- ids and payload.
  pub parse_auth-build_auth :
      (size auth_id cmd : ℕ) (payload : List ℕ) (n : ℕ)
      → auth_id < 4294967296
      → cmd < 65536
      → length payload ≡ n
      → 8 + n ≤ size
      → (f : List ℕ) × (build_auth bo size auth_id cmd payload n ≡ some f)
        × (length f ≡ 8 + n)
        × (parse_auth bo f (8 + n) ≡ ok (auth_id, cmd, payload))
  parse_auth-build_auth size auth_id cmd payload n ha hc h fits =
      (body ++ crc, build_auth-eq bo size auth_id cmd payload n h fits, len, parsed)
    where
      head : List ℕ
      head = put_le32 auth_id ++ put_le16 cmd

      body : List ℕ
      body = head ++ payload

      crc : List ℕ
      crc = put_le16 (crc16 body (6 + n))

      head_len : length head ≡ 6
      head_len = omega (
        arith,
        length-append (put_le32 auth_id) (put_le16 cmd),
        length-put_le32 bo auth_id,
        length-put_le16 bo cmd,
      )

      body_len : length body ≡ 6 + n
      body_len = omega (arith, length-append head payload, head_len)

      len : length (body ++ crc) ≡ 8 + n
      len = omega (arith, length-append body crc, body_len, length-put_le16 bo (crc16 body (6 + n)))

      payload_back : slice body 6 (6 + n - 6) ≡ payload
      payload_back =
          ap (slice body 6) (omega arith) ∙ slice-append_right head payload 6 n head_len h

      id_back : get_le32 body 0 ≡ auth_id
      id_back =
          ap (λ t. get_le32 t 0) (append_assoc (put_le32 auth_id) (put_le16 cmd) payload)
          ∙ get_le32-put_le32 bo auth_id (put_le16 cmd ++ payload) ha

      cmd_back : get_le16 body 4 ≡ cmd
      cmd_back =
          ap (λ t. get_le16 t 4) (append_assoc (put_le32 auth_id) (put_le16 cmd) payload)
          ∙ get_le16_seam bo (put_le32 auth_id) (put_le16 cmd ++ payload) 4
              (length-put_le32 bo auth_id)
          ∙ rw (bo.put_le16_lem cmd) (omega arith)

      parsed : parse_auth bo (body ++ crc) (8 + n) ≡ ok (auth_id, cmd, payload)
      parsed =
          ap (parse_auth bo (body ++ crc)) (omega arith)
          ∙ auth_checked body (6 + n) body_len (omega arith)
          ∙ rw (id_back, cmd_back, payload_back)
