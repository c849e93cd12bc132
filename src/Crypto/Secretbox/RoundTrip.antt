-- ===== src/Crypto/Secretbox/RoundTrip.antt =====
-- src/nuki_crypto.c: `nuki_crypto_d1` is the inverse of `nuki_crypto_e1`, and accepts nothing else.
use nuki_nrf52_bridge.Base.{
  ℕ, zero, suc, ◌+◌, ◌≤◌, bit_or, bit_xor, true, List, ◌∷◌, ◌++◌, ◌≡◌, ◌↔◌, refl, sym, ap, ap₂, ◌∙◌,
  arith, length, get_or, take, drop, slice, ◌==◌, if◌then◌else◌, le→ltb_false, Bool-cases, ==_iff,
  inl, inr, ok, err, ebadmsg, length-append, length-take, length-drop, drop-append,
  take-append-drop, slice_whole, slice-append_left, slice-append_right, none,
}
use nuki_nrf52_bridge.Base.Bits.{zero_of-bit_or, eq_of-bit_xor-zero, bit_xor_self}
use nuki_nrf52_bridge.Crypto.Stream.{xsalsa20_xor}
use nuki_nrf52_bridge.Crypto.Poly1305.KeyUse.{length-poly1305}
use nuki_nrf52_bridge.Crypto.Secretbox.{difference, constant_time_eq16, e1, d1}
use nuki_nrf52_bridge.Crypto.Secretbox.Keystream.{
  padded_out, body, length-body, body_twice, tag_of, tag-padded_out,
}

-- The loop leaves zero exactly if it began with zero and every pair of bytes agrees.
difference-zero :
    (x y : List ℕ) (i n d : ℕ) → difference x y i n d ≡ 0 → (d ≡ 0) × (slice x i n ≡ slice y i n)
difference-zero x y i zero d h = (h, refl)
difference-zero x y i (suc n) d h =
    let rest = difference-zero x y (suc i) n (bit_or d (bit_xor (get_or x i 0) (get_or y i 0))) h in
    let parts = zero_of-bit_or d (bit_xor (get_or x i 0) (get_or y i 0)) rest.0 in
    (parts.0, ap₂ ◌∷◌ (eq_of-bit_xor-zero (get_or x i 0) (get_or y i 0) parts.1) rest.1)

difference_self : (x : List ℕ) (i n : ℕ) → difference x x i n 0 ≡ 0
difference_self x i zero = refl
difference_self x i (suc n) = rw bit_xor_self (difference_self x (suc i) n)

-- `constant_time_eq16` decides the equality of the first 16 bytes.
eq16_sound : (x y : List ℕ) → constant_time_eq16 x y ≡ true → slice x 0 16 ≡ slice y 0 16
unfolding constant_time_eq16
eq16_sound x y h = (difference-zero x y 0 16 0 ((==_iff (difference x y 0 16 0) 0).0 h)).1

difference_ext :
    (x y z : List ℕ) (i n d : ℕ)
    → slice y i n ≡ slice z i n
    → difference x y i n d ≡ difference x z i n d
difference_ext x y z i zero d h = refl
difference_ext x y z i (suc n) d h =
    rw (← head)
      (difference_ext x y z (suc i) n (bit_or d (bit_xor (get_or x i 0) (get_or y i 0))) tail)
  where
    head : get_or y i 0 ≡ get_or z i 0
    head = ap (λ l. get_or l 0 0) h

    tail : slice y (suc i) n ≡ slice z (suc i) n
    tail = ap (drop 1) h

eq16_ext :
    (x y z : List ℕ) → slice y 0 16 ≡ slice z 0 16 → constant_time_eq16 x y ≡ constant_time_eq16 x z
unfolding constant_time_eq16
eq16_ext x y z h = ap (λ d. d == 0) (difference_ext x y z 0 16 0 h)

eq16_refl : (x : List ℕ) → constant_time_eq16 x x ≡ true
unfolding constant_time_eq16
eq16_refl x = ap (λ d. d == 0) (difference_self x 0 16)

pub ok-injective {ℓ} : {A : Type ℓ} {a b : A} → ok a ≡ ok b → a ≡ b
ok-injective h = cc

module _ (nonce key : List ℕ) (n : ℕ) where
  -- `nuki_crypto_e1` on a message of `n` bytes.
  e1-eq :
      (msg : List ℕ)
      → n ≤ 256
      → length msg ≡ n
      → e1 msg n nonce key ≡ ok (tag_of nonce key n (body nonce key n msg) ++ body nonce key n msg)
  unfolding e1 padded_out body
  e1-eq msg fits h =
      rw (slice_whole msg n h, le→ltb_false n 256 fits)
        (ap (λ t. ok (t ++ body nonce key n msg)) (tag-padded_out nonce key n msg))

  -- `nuki_crypto_d1` on a tag and a ciphertext of `n` bytes.
  d1-eq :
      (t y : List ℕ)
      → n ≤ 256
      → length t ≡ 16
      → length y ≡ n
      → d1 (t ++ y) n nonce key ≡ (
          if constant_time_eq16 (tag_of nonce key n y) t
          then ok (body nonce key n y)
          else err ebadmsg)
  unfolding d1 padded_out body tag_of
  d1-eq t y fits ht hy = rw (
    slice-append_right t y 16 n ht hy,
    drop-append 16 t y ht,
    le→ltb_false n 256 fits,
    eq16_ext (tag_of nonce key n y) (t ++ y) t
        (slice-append_left t y 16 ht ∙ sym (slice_whole t 16 ht)),
  )

  length-tag_of : (y : List ℕ) → length (tag_of nonce key n y) ≡ 16
  unfolding tag_of
  length-tag_of y = length-poly1305 y n (xsalsa20_xor none 64 nonce key)

  -- The right tag, and only the right one, opens a ciphertext.
  open_right :
      (y : List ℕ)
      → n ≤ 256
      → length y ≡ n
      → d1 (tag_of nonce key n y ++ y) n nonce key ≡ ok (body nonce key n y)
  open_right y fits hy =
      d1-eq (tag_of nonce key n y) y fits (length-tag_of y) hy
      ∙ rw (eq16_refl (tag_of nonce key n y))

  open_only :
      (t y msg : List ℕ)
      → n ≤ 256
      → length t ≡ 16
      → length y ≡ n
      → d1 (t ++ y) n nonce key ≡ ok msg
      → (t ≡ tag_of nonce key n y) × (msg ≡ body nonce key n y)
  open_only t y msg fits ht hy h = elim (Bool-cases (constant_time_eq16 (tag_of nonce key n y) t)) [
    | inl same ↦ (
      sym (slice_whole t 16 ht)
          ∙ sym (eq16_sound (tag_of nonce key n y) t same)
          ∙ slice_whole (tag_of nonce key n y) 16 (length-tag_of y),
      sym (ok-injective (rw same at (sym (d1-eq t y fits ht hy) ∙ h))),
    )
    | inr differs ↦ cc (rw differs at (sym (d1-eq t y fits ht hy) ∙ h))
  ]

-- For a message of `n` bytes, at most 256, and a buffer of a tag and `n` bytes: `nuki_crypto_d1`
-- opens the buffer to the message exactly if `nuki_crypto_e1` seals the message to the buffer.
pub d1-e1_iff :
    (nonce key : List ℕ) (n : ℕ) (msg c : List ℕ)
    → n ≤ 256
    → length msg ≡ n
    → length c ≡ 16 + n
    → (d1 c n nonce key ≡ ok msg) ↔ (e1 msg n nonce key ≡ ok c)
d1-e1_iff nonce key n msg c fits hm hc = (opened, sealed)
  where
    opened : d1 c n nonce key ≡ ok msg → e1 msg n nonce key ≡ ok c
    opened h =
        let t = take 16 c in
        let y = drop 16 c in
        let found =
          open_only nonce key n t y msg fits (omega (arith, length-take 16 c))
            (omega (arith, length-drop 16 c)) (rw take-append-drop h) in
        let back : body nonce key n msg ≡ y =
          ap (body nonce key n) found.1
          ∙ body_twice nonce key n y (omega (arith, length-drop 16 c)) in
        e1-eq nonce key n msg fits hm
        ∙ ap ok (ap₂ ◌++◌ (ap (tag_of nonce key n) back ∙ sym found.0) back ∙ take-append-drop 16 c)

    sealed : e1 msg n nonce key ≡ ok c → d1 c n nonce key ≡ ok msg
    sealed h =
        let y = body nonce key n msg in
        let c-eq : tag_of nonce key n y ++ y ≡ c =
          ok-injective (sym (e1-eq nonce key n msg fits hm) ∙ h) in
        rw (← c-eq) (open_right nonce key n y fits (length-body nonce key n msg))
        ∙ ap ok (body_twice nonce key n msg hm)

-- Sealing a message of `n` bytes, at most 256, succeeds with a tag and `n` bytes, and opening the
-- result with the same nonce and key gives the message back.
pub e1-d1_round :
    (nonce key : List ℕ) (n : ℕ) (msg : List ℕ)
    → n ≤ 256
    → length msg ≡ n
    → (c : List ℕ) × (e1 msg n nonce key ≡ ok c) × (length c ≡ 16 + n) × (d1 c n nonce key ≡ ok msg)
e1-d1_round nonce key n msg fits hm =
    let y = body nonce key n msg in
    let sealed = e1-eq nonce key n msg fits hm in
    let len : length (tag_of nonce key n y ++ y) ≡ 16 + n =
      length-append (tag_of nonce key n y) y
      ∙ ap₂ ◌+◌ (length-tag_of nonce key n y) (length-body nonce key n msg) in
    (
      tag_of nonce key n y ++ y,
      sealed,
      len,
      (d1-e1_iff nonce key n msg (tag_of nonce key n y ++ y) fits hm len).1 sealed,
    )
