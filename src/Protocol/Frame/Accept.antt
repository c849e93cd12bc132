-- ===== src/Protocol/Frame/Accept.antt =====
-- src/nuki_protocol.c: a frame that a parser accepts is one that its builder writes.
use nuki_nrf52_bridge.Base.{
  ℕ, suc, ◌+◌, ◌-◌, ◌*◌, ◌/◌, ◌%◌, ◌<◌, ◌≤◌, some, List, [], ◌∷◌, ◌++◌, ◌≡◌, sym, ap, ap₂, ◌∙◌,
  arith, length, get_or, take, drop, slice, ◌==◌, ok, Bool-cases, inl, inr, ==_iff, Below,
  Below-take, length-take, slice-eq-take-drop, take-append-drop, take_all, length-drop,
  length-slice,
}
use nuki_nrf52_bridge.Zephyr.{ByteOrder}
use nuki_nrf52_bridge.Crypto.Crc.{crc16}
use nuki_nrf52_bridge.Crypto.Secretbox.RoundTrip.{ok-injective}
use nuki_nrf52_bridge.Protocol.Frame.{build_plain, parse_plain, build_auth, parse_auth}
use nuki_nrf52_bridge.Protocol.Frame.Build.{
  parse_plain-eq, parse_auth-eq, build_plain-eq, build_auth-eq, split_tail,
}

-- A list from its first `k` elements and a slice of the rest.
split_head : (xs : List ℕ) (k n : ℕ) → length xs ≡ n → k ≤ n → xs ≡ take k xs ++ slice xs k (n - k)
split_head xs k n h p =
    sym (take-append-drop k xs)
    ∙ ap (λ t. take k xs ++ t)
        (sym (take_all (n - k) (drop k xs) (omega (arith, length-drop k xs)))
          ∙ sym (slice-eq-take-drop xs k (n - k) (omega arith)))

prefix : (xs : List ℕ) (k n : ℕ) → length xs ≡ n → k ≤ n → take k xs ≡ slice xs 0 k
prefix xs k n h p = sym (slice-eq-take-drop xs 0 k (omega arith))

module _ (bo : ByteOrder) where
  open bo use {put_le16, put_le32, get_le16, get_le32}

  -- Two bytes are the bytes of the number that they are read as.
  put_le16_bytes : (c d : ℕ) → c < 256 → d < 256 → put_le16 (c + 256 * d) ≡ c ∷ d ∷ []
  put_le16_bytes c d hc hd =
      bo.put_le16_lem (c + 256 * d) ∙ ap₂ (λ a b. a ∷ b ∷ []) (omega arith) (omega arith)

  put_le32_bytes :
      (a b c d : ℕ)
      → a < 256
      → b < 256
      → c < 256
      → d < 256
      → put_le32 (a + 256 * b + 65536 * c + 16777216 * d) ≡ a ∷ b ∷ c ∷ d ∷ []
  put_le32_bytes a b c d ha hb hc hd =
      let v = a + 256 * b + 65536 * c + 16777216 * d in
      let e0 : v % 256 ≡ a = omega arith in
      let e1 : v / 256 % 256 ≡ b = omega arith in
      let e2 : v / 65536 % 256 ≡ c = omega arith in
      let e3 : v / 16777216 % 256 ≡ d = omega arith in bo.put_le32_lem v ∙ rw (e0, e1, e2, e3)

  put_le16-get_le16 : (xs : List ℕ) (i : ℕ) → Below 256 xs → put_le16 (get_le16 xs i) ≡ slice xs i 2
  put_le16-get_le16 xs i h =
      ap put_le16 (bo.get_le16_lem xs i)
      ∙ put_le16_bytes (get_or xs i 0) (get_or xs (i + 1) 0) (h i) (h (i + 1))
      ∙ ap (λ t. get_or xs i 0 ∷ get_or xs t 0 ∷ []) (omega arith)

  put_le32-get_le32 : (xs : List ℕ) → Below 256 xs → put_le32 (get_le32 xs 0) ≡ slice xs 0 4
  put_le32-get_le32 xs h =
      ap put_le32 (bo.get_le32_lem xs 0)
      ∙ put_le32_bytes (get_or xs 0 0) (get_or xs 1 0) (get_or xs 2 0) (get_or xs 3 0) (h 0) (h 1)
          (h 2) (h 3)

  plain_body :
      (body : List ℕ) (n : ℕ)
      → length body ≡ n
      → 2 ≤ n
      → Below 256 body
      → put_le16 (get_le16 body 0) ++ slice body 2 (n - 2) ≡ body
  plain_body body n h p b =
      ap (λ t. t ++ slice body 2 (n - 2)) (put_le16-get_le16 body 0 b ∙ sym (prefix body 2 n h p))
      ∙ sym (split_head body 2 n h p)

  auth_body :
      (body : List ℕ) (n : ℕ)
      → length body ≡ n
      → 6 ≤ n
      → Below 256 body
      → put_le32 (get_le32 body 0) ++ put_le16 (get_le16 body 4) ++ slice body 6 (n - 6) ≡ body
  auth_body body n h p b =
      ap (λ t. t ++ slice body 6 (n - 6))
        (ap₂ ◌++◌ (put_le32-get_le32 body b) (put_le16-get_le16 body 4 b)
          ∙ sym (prefix body 6 n h p))
      ∙ sym (split_head body 6 n h p)

  -- What an accepted frame is made of.
  plain_parts :
      (body : List ℕ) (c d n cmd : ℕ) (payload : List ℕ)
      → length body ≡ n
      → 2 ≤ n
      → c < 256
      → d < 256
      → parse_plain bo (body ++ c ∷ d ∷ []) (n + 2) ≡ ok (cmd, payload)
      → (put_le16 (crc16 body n) ≡ c ∷ d ∷ [])
        × (get_le16 body 0 ≡ cmd)
        × (slice body 2 (n - 2) ≡ payload)
  plain_parts body c d n cmd payload h p hc hd e =
      elim (Bool-cases (crc16 body n == (c + 256 * d))) [
        | inl same ↦
            let found : ok (get_le16 body 0, slice body 2 (n - 2)) ≡ ok (cmd, payload) =
              rw same at (sym (parse_plain-eq bo body c d n h p) ∙ e) in
            (
              ap put_le16 ((==_iff (crc16 body n) (c + 256 * d)).0 same) ∙ put_le16_bytes c d hc hd,
              ap (λ t. t.0) (ok-injective found),
              ap (λ t. t.1) (ok-injective found),
            )
        | inr differs ↦ cc (rw differs at (sym (parse_plain-eq bo body c d n h p) ∙ e))
      ]

  auth_parts :
      (body : List ℕ) (c d n auth_id cmd : ℕ) (payload : List ℕ)
      → length body ≡ n
      → 6 ≤ n
      → c < 256
      → d < 256
      → parse_auth bo (body ++ c ∷ d ∷ []) (n + 2) ≡ ok (auth_id, cmd, payload)
      → (put_le16 (crc16 body n) ≡ c ∷ d ∷ [])
        × (get_le32 body 0 ≡ auth_id)
        × (get_le16 body 4 ≡ cmd)
        × (slice body 6 (n - 6) ≡ payload)
  auth_parts body c d n auth_id cmd payload h p hc hd e =
      elim (Bool-cases (crc16 body n == (c + 256 * d))) [
        | inl same ↦
            let found : ok (get_le32 body 0, get_le16 body 4, slice body 6 (n - 6))
                ≡ ok (auth_id, cmd, payload) =
              rw same at (sym (parse_auth-eq bo body c d n h p) ∙ e) in
            (
              ap put_le16 ((==_iff (crc16 body n) (c + 256 * d)).0 same) ∙ put_le16_bytes c d hc hd,
              ap (λ t. t.0) (ok-injective found),
              ap (λ t. t.1) (ok-injective found),
              ap (λ t. t.2) (ok-injective found),
            )
        | inr differs ↦ cc (rw differs at (sym (parse_auth-eq bo body c d n h p) ∙ e))
      ]

  -- A buffer of bytes that is parsed to a command id and a payload is the frame that is built from
  -- them, if the buffer to build it in is large enough.
  build_plain-parse_plain :
      (size m cmd : ℕ) (f payload : List ℕ)
      → Below 256 f
      → length f ≡ m
      → 4 ≤ m
      → m ≤ size
      → parse_plain bo f m ≡ ok (cmd, payload)
      → build_plain bo size cmd payload (m - 4) ≡ some f
  build_plain-parse_plain size m cmd f payload b h p fits e =
      build_plain-eq bo size cmd payload (m - 4) payload_len (omega arith)
      ∙ ap (λ t. some (t ++ put_le16 (crc16 t (2 + (m - 4))))) same_body
      ∙ ap (λ k. some (body ++ put_le16 (crc16 body k))) (omega arith)
      ∙ ap (λ t. some (body ++ t)) parts.0
      ∙ ap some (sym split)
    where
      n : ℕ
      n = m - 2

      body : List ℕ
      body = take n f

      body_len : length body ≡ n
      body_len = omega (arith, length-take n f)

      split : f ≡ body ++ get_or f n 0 ∷ get_or f (suc n) 0 ∷ []
      split = split_tail f n (omega arith)

      parts :
          (put_le16 (crc16 body n) ≡ get_or f n 0 ∷ get_or f (suc n) 0 ∷ [])
          × (get_le16 body 0 ≡ cmd)
          × (slice body 2 (n - 2) ≡ payload)
      parts =
          plain_parts body (get_or f n 0) (get_or f (suc n) 0) n cmd payload body_len (omega arith)
            (b n) (b (suc n)) (ap₂ (parse_plain bo) (sym split) (omega arith) ∙ e)

      payload_len : length payload ≡ m - 4
      payload_len = omega (arith, ap length parts.2, length-slice body 2 (n - 2))

      same_body : put_le16 cmd ++ payload ≡ body
      same_body =
          ap₂ (λ v t. put_le16 v ++ t) (sym parts.1) (sym parts.2)
          ∙ plain_body body n body_len (omega arith) (Below-take 256 n f (omega arith) b)

  -- A buffer of at least eight bytes that is parsed to an authorization id, a command id and a
  -- payload is the frame that is built from them, if the buffer to build it in is large enough.
  pub build_auth-parse_auth :
      (size m auth_id cmd : ℕ) (f payload : List ℕ)
      → Below 256 f
      → length f ≡ m
      → 8 ≤ m
      → m ≤ size
      → parse_auth bo f m ≡ ok (auth_id, cmd, payload)
      → build_auth bo size auth_id cmd payload (m - 8) ≡ some f
  build_auth-parse_auth size m auth_id cmd f payload b h p fits e =
      build_auth-eq bo size auth_id cmd payload (m - 8) payload_len (omega arith)
      ∙ ap (λ t. some (t ++ put_le16 (crc16 t (6 + (m - 8))))) same_body
      ∙ ap (λ k. some (body ++ put_le16 (crc16 body k))) (omega arith)
      ∙ ap (λ t. some (body ++ t)) parts.0
      ∙ ap some (sym split)
    where
      n : ℕ
      n = m - 2

      body : List ℕ
      body = take n f

      body_len : length body ≡ n
      body_len = omega (arith, length-take n f)

      split : f ≡ body ++ get_or f n 0 ∷ get_or f (suc n) 0 ∷ []
      split = split_tail f n (omega arith)

      parts :
          (put_le16 (crc16 body n) ≡ get_or f n 0 ∷ get_or f (suc n) 0 ∷ [])
          × (get_le32 body 0 ≡ auth_id)
          × (get_le16 body 4 ≡ cmd)
          × (slice body 6 (n - 6) ≡ payload)
      parts =
          auth_parts body (get_or f n 0) (get_or f (suc n) 0) n auth_id cmd payload body_len
            (omega arith) (b n) (b (suc n)) (ap₂ (parse_auth bo) (sym split) (omega arith) ∙ e)

      payload_len : length payload ≡ m - 8
      payload_len = omega (arith, ap length parts.3, length-slice body 6 (n - 6))

      same_body : put_le32 auth_id ++ put_le16 cmd ++ payload ≡ body
      same_body =
          rw (← parts.1, ← parts.2, ← parts.3)
            (auth_body body n body_len (omega arith) (Below-take 256 n f (omega arith) b))
