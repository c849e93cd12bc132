-- ===== src/Protocol/Frame/Detect.antt =====
-- src/nuki_protocol.c: a corrupted byte is detected by the parsers.
use nuki_nrf52_bridge.Base.{
  ℕ, ◌+◌, ◌*◌, ◌<◌, ◌≤◌, List, [], ◌∷◌, ◌++◌, ◌≡◌, ◌≢◌, sym, ap, ◌∙◌, arith, length, ◌==◌, ok, err,
  ebadmsg, Bool-cases, inl, inr, ==_iff, ne→==_false, length-append,
}
use nuki_nrf52_bridge.Zephyr.{ByteOrder}
use nuki_nrf52_bridge.Crypto.Crc.{crc16}
use nuki_nrf52_bridge.Crypto.Crc.Detect.{crc16_one_byte}
use nuki_nrf52_bridge.Protocol.Frame.{parse_plain, parse_auth}
use nuki_nrf52_bridge.Protocol.Frame.Build.{parse_plain-eq, parse_auth-eq}

module _ (bo : ByteOrder) where
  plain_crc :
      (body : List ℕ) (c d n : ℕ) {r : ℕ × List ℕ}
      → length body ≡ n
      → 2 ≤ n
      → parse_plain bo (body ++ c ∷ d ∷ []) (n + 2) ≡ ok r
      → crc16 body n ≡ c + 256 * d
  plain_crc body c d n h p e = elim (Bool-cases (crc16 body n == (c + 256 * d))) [
    | inl same ↦ (==_iff (crc16 body n) (c + 256 * d)).0 same
    | inr differs ↦ cc (rw differs at (sym (parse_plain-eq bo body c d n h p) ∙ e))
  ]

  auth_crc :
      (body : List ℕ) (c d n : ℕ) {r : ℕ × ℕ × List ℕ}
      → length body ≡ n
      → 6 ≤ n
      → parse_auth bo (body ++ c ∷ d ∷ []) (n + 2) ≡ ok r
      → crc16 body n ≡ c + 256 * d
  auth_crc body c d n h p e = elim (Bool-cases (crc16 body n == (c + 256 * d))) [
    | inl same ↦ (==_iff (crc16 body n) (c + 256 * d)).0 same
    | inr differs ↦ cc (rw differs at (sym (parse_auth-eq bo body c d n h p) ∙ e))
  ]

  -- If a frame is accepted, then the frame in which one byte before the check sum is another one is
  -- rejected with EBADMSG.
  parse_plain_corrupt :
      (xs ys : List ℕ) (b b' c d n : ℕ) {r : ℕ × List ℕ}
      → length (xs ++ b ∷ ys) ≡ n
      → 2 ≤ n
      → b < 256
      → b' < 256
      → b ≢ b'
      → parse_plain bo (xs ++ b ∷ ys ++ c ∷ d ∷ []) (n + 2) ≡ ok r
      → parse_plain bo (xs ++ b' ∷ ys ++ c ∷ d ∷ []) (n + 2) ≡ err ebadmsg
  parse_plain_corrupt xs ys b b' c d n h p hb hb' ne e =
      parse_plain-eq bo (xs ++ b' ∷ ys) c d n h' p
      ∙ rw (ne→==_false (crc16 (xs ++ b' ∷ ys) n) (c + 256 * d) differs)
    where
      h' : length (xs ++ b' ∷ ys) ≡ n
      h' = omega (arith, length-append xs (b ∷ ys), length-append xs (b' ∷ ys))

      differs : crc16 (xs ++ b' ∷ ys) n ≢ c + 256 * d
      differs q = crc16_one_byte xs ys b b' hb hb' ne (
          ap (crc16 (xs ++ b ∷ ys)) h
          ∙ plain_crc (xs ++ b ∷ ys) c d n h p e
          ∙ sym q
          ∙ ap (crc16 (xs ++ b' ∷ ys)) (sym h'))

  -- If a decrypted frame is accepted, then the frame in which one byte before the check sum is
  -- another one is rejected with EBADMSG.
  pub parse_auth_corrupt :
      (xs ys : List ℕ) (b b' c d n : ℕ) {r : ℕ × ℕ × List ℕ}
      → length (xs ++ b ∷ ys) ≡ n
      → 6 ≤ n
      → b < 256
      → b' < 256
      → b ≢ b'
      → parse_auth bo (xs ++ b ∷ ys ++ c ∷ d ∷ []) (n + 2) ≡ ok r
      → parse_auth bo (xs ++ b' ∷ ys ++ c ∷ d ∷ []) (n + 2) ≡ err ebadmsg
  parse_auth_corrupt xs ys b b' c d n h p hb hb' ne e =
      parse_auth-eq bo (xs ++ b' ∷ ys) c d n h' p
      ∙ rw (ne→==_false (crc16 (xs ++ b' ∷ ys) n) (c + 256 * d) differs)
    where
      h' : length (xs ++ b' ∷ ys) ≡ n
      h' = omega (arith, length-append xs (b ∷ ys), length-append xs (b' ∷ ys))

      differs : crc16 (xs ++ b' ∷ ys) n ≢ c + 256 * d
      differs q = crc16_one_byte xs ys b b' hb hb' ne (
          ap (crc16 (xs ++ b ∷ ys)) h
          ∙ auth_crc (xs ++ b ∷ ys) c d n h p e
          ∙ sym q
          ∙ ap (crc16 (xs ++ b' ∷ ys)) (sym h'))
