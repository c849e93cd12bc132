-- ===== src/Protocol/Frame/Build.antt =====
-- src/nuki_protocol.c: a frame as a body and the two bytes of its check sum.
use nuki_nrf52_bridge.Base.{
  ℕ, suc, ◌+◌, ◌-◌, ◌*◌, ◌<◌, ◌≤◌, some, List, [], ◌∷◌, ◌++◌, ◌≡◌, sym, ap, ap₂, ◌∙◌, arith, length,
  get_or, take, drop, slice, ◌==◌, if◌then◌else◌, ok, err, ebadmsg, get_or-append_left,
  get_or-append_past, slice_ext, slice_whole, slice-append_left, slice-eq-take-drop,
  take-append-drop, length-drop, take_all, le→ltb_false,
}
use nuki_nrf52_bridge.Zephyr.{ByteOrder}
use nuki_nrf52_bridge.Crypto.Crc.{crc_loop, crc16}
use nuki_nrf52_bridge.Protocol.Frame.{build_plain, parse_plain, build_auth, parse_auth}

-- A check sum reads its message alone.
pub crc16-body :
    (body tail : List ℕ) (n : ℕ) → length body ≡ n → crc16 (body ++ tail) n ≡ crc16 body n
unfolding crc16
crc16-body body tail n h =
    ap (λ xs. crc_loop 0xffff xs) (slice-append_left body tail n h ∙ sym (slice_whole body n h))

-- A frame ends with the two bytes that are read as its check sum.
pub split_tail :
    (f : List ℕ) (n : ℕ) → length f ≡ n + 2 → f ≡ take n f ++ get_or f n 0 ∷ get_or f (suc n) 0 ∷ []
split_tail f n h =
    sym (take-append-drop n f)
    ∙ ap (λ t. take n f ++ t)
        (sym (take_all 2 (drop n f) (omega (arith, length-drop n f)))
          ∙ sym (slice-eq-take-drop f n 2 (omega arith)))

-- A slice inside a first part.
pub slice-append :
    (xs ys : List ℕ) (i n : ℕ) → i + n ≤ length xs → slice (xs ++ ys) i n ≡ slice xs i n
slice-append xs ys i n h =
    slice_ext (xs ++ ys) xs i n (λ j p q. get_or-append_left xs ys j 0 (omega arith))

module _ (bo : ByteOrder) where
  open bo use {put_le16, put_le32, get_le16, get_le32}

  pub length-put_le16 : (v : ℕ) → length (put_le16 v) ≡ 2
  length-put_le16 v = rw (bo.put_le16_lem v)

  pub length-put_le32 : (v : ℕ) → length (put_le32 v) ≡ 4
  length-put_le32 v = rw (bo.put_le32_lem v)

  -- What is read inside a first part does not depend on what follows it.
  pub get_le16-append :
      (xs ys : List ℕ) (i : ℕ) → i + 1 < length xs → get_le16 (xs ++ ys) i ≡ get_le16 xs i
  get_le16-append xs ys i h =
      bo.get_le16_lem (xs ++ ys) i
      ∙ ap₂ (λ a b. a + 256 * b) (get_or-append_left xs ys i 0 (omega arith))
          (get_or-append_left xs ys (i + 1) 0 h)
      ∙ sym (bo.get_le16_lem xs i)

  -- Two bytes at the seam.
  pub get_le16_seam :
      (xs ys : List ℕ) (n : ℕ)
      → length xs ≡ n
      → get_le16 (xs ++ ys) n ≡ get_or ys 0 0 + 256 * get_or ys 1 0
  get_le16_seam xs ys n h =
      bo.get_le16_lem (xs ++ ys) n
      ∙ ap₂ (λ a b. a + 256 * b)
          (get_or-append_past xs ys n 0 (omega arith) ∙ ap (λ t. get_or ys t 0) (omega arith))
          (get_or-append_past xs ys (n + 1) 0 (omega arith) ∙ ap (λ t. get_or ys t 0) (omega arith))

  pub get_le16-put_le16 : (v : ℕ) (rest : List ℕ) → v < 65536 → get_le16 (put_le16 v ++ rest) 0 ≡ v
  get_le16-put_le16 v rest h =
      bo.get_le16_lem (put_le16 v ++ rest) 0 ∙ rw (bo.put_le16_lem v) (omega arith)

  pub get_le32-put_le32 :
      (v : ℕ) (rest : List ℕ) → v < 4294967296 → get_le32 (put_le32 v ++ rest) 0 ≡ v
  get_le32-put_le32 v rest h =
      bo.get_le32_lem (put_le32 v ++ rest) 0 ∙ rw (bo.put_le32_lem v) (omega arith)

  pub get_le32-append :
      (xs ys : List ℕ) (i : ℕ) → i + 3 < length xs → get_le32 (xs ++ ys) i ≡ get_le32 xs i
  get_le32-append xs ys i h =
      bo.get_le32_lem (xs ++ ys) i
      ∙ rw
          (
            get_or-append_left xs ys i 0 (omega arith),
            get_or-append_left xs ys (i + 1) 0 (omega arith),
            get_or-append_left xs ys (i + 2) 0 (omega arith),
            get_or-append_left xs ys (i + 3) 0 h,
          )
          (sym (bo.get_le32_lem xs i))

  -- The parsers on a body and two more bytes.
  pub parse_plain-eq :
      (body : List ℕ) (c d n : ℕ)
      → length body ≡ n
      → 2 ≤ n
      → parse_plain bo (body ++ c ∷ d ∷ []) (n + 2) ≡ (
          if crc16 body n == (c + 256 * d)
          then ok (get_le16 body 0, slice body 2 (n - 2))
          else err ebadmsg)
  unfolding parse_plain
  parse_plain-eq body c d n h p = rw (
    le→ltb_false 4 (n + 2) (omega arith),
    back,
    crc16-body body (c ∷ d ∷ []) n h,
    get_le16_seam body (c ∷ d ∷ []) n h,
    get_le16-append body (c ∷ d ∷ []) 0 (omega arith),
    slice-append body (c ∷ d ∷ []) 2 (n - 2) (omega arith),
  )
    where
      back : n + 2 - 2 ≡ n
      back = omega arith

  pub parse_auth-eq :
      (body : List ℕ) (c d n : ℕ)
      → length body ≡ n
      → 6 ≤ n
      → parse_auth bo (body ++ c ∷ d ∷ []) (n + 2) ≡ (
          if crc16 body n == (c + 256 * d)
          then ok (get_le32 body 0, get_le16 body 4, slice body 6 (n - 6))
          else err ebadmsg)
  unfolding parse_auth
  parse_auth-eq body c d n h p = rw (
    le→ltb_false 8 (n + 2) (omega arith),
    back,
    crc16-body body (c ∷ d ∷ []) n h,
    get_le16_seam body (c ∷ d ∷ []) n h,
    get_le32-append body (c ∷ d ∷ []) 0 (omega arith),
    get_le16-append body (c ∷ d ∷ []) 4 (omega arith),
    slice-append body (c ∷ d ∷ []) 6 (n - 6) (omega arith),
  )
    where
      back : n + 2 - 2 ≡ n
      back = omega arith

  -- The builders on a payload of its length.
  pub build_plain-eq :
      (size cmd : ℕ) (payload : List ℕ) (n : ℕ)
      → length payload ≡ n
      → 4 + n ≤ size
      → let body = put_le16 cmd ++ payload in
        build_plain bo size cmd payload n ≡ some (body ++ put_le16 (crc16 body (2 + n)))
  unfolding build_plain
  build_plain-eq size cmd payload n h p =
      rw (slice_whole payload n h, le→ltb_false (2 + n + 2) size (omega arith))

  pub build_auth-eq :
      (size auth_id cmd : ℕ) (payload : List ℕ) (n : ℕ)
      → length payload ≡ n
      → 8 + n ≤ size
      → let body = put_le32 auth_id ++ put_le16 cmd ++ payload in
        build_auth bo size auth_id cmd payload n ≡ some (body ++ put_le16 (crc16 body (6 + n)))
  unfolding build_auth
  build_auth-eq size auth_id cmd payload n h p =
      rw (slice_whole payload n h, le→ltb_false (6 + n + 2) size (omega arith))
