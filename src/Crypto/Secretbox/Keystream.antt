-- ===== src/Crypto/Secretbox/Keystream.antt =====
-- src/nuki_crypto.c: the padded buffers of `nuki_crypto_e1` and `nuki_crypto_d1`. The first 32 bytes
-- of the output are the raw keystream, the key of the authenticator; the rest is the message xored
-- with what follows.
use nuki_nrf52_bridge.Base.{
  ℕ, ◌+◌, ◌-◌, ◌<◌, bit_xor, none, some, List, ◌++◌, ◌≡◌, sym, ap, ◌∙◌, arith, length, get_or, drop,
  slice, replicate, length-slice, length-drop, get_or-slice, get_or-drop, get_or-replicate,
  get_or-append_left, get_or-append_past, get_or_ext,
}
use nuki_nrf52_bridge.Base.Bits.{bit_xor_twice}
use nuki_nrf52_bridge.Crypto.Stream.{xsalsa20_xor}
use nuki_nrf52_bridge.Crypto.Stream.CounterMode.{xkeystream, xsalsa20_xor-byte, length-xsalsa20_xor}
use nuki_nrf52_bridge.Crypto.Poly1305.{poly1305}
use nuki_nrf52_bridge.Crypto.Poly1305.KeyUse.{poly1305_ext}

module _ (nonce key : List ℕ) (n : ℕ) where
  -- `padded_out` for the message `x`, and its part behind the padding.
  unfoldable pub padded_out : List ℕ → List ℕ
  padded_out x = xsalsa20_xor (some (replicate 32 0 ++ x)) (32 + n) nonce key

  unfoldable pub body : List ℕ → List ℕ
  body x = slice (padded_out x) 32 n

  pub length-body : (x : List ℕ) → length (body x) ≡ n
  unfolding body
  length-body x = length-slice (padded_out x) 32 n

  padded_out_byte :
      (x : List ℕ) (i : ℕ)
      → i < 32 + n
      → get_or (padded_out x) i 0
        ≡ bit_xor (get_or (replicate 32 0 ++ x) i 0) (xkeystream nonce key i)
  unfolding padded_out
  padded_out_byte x i h = xsalsa20_xor-byte (some (replicate 32 0 ++ x)) (32 + n) nonce key i h

  body_byte :
      (x : List ℕ) (i : ℕ)
      → i < n
      → get_or (body x) i 0 ≡ bit_xor (get_or x i 0) (xkeystream nonce key (32 + i))
  unfolding body
  body_byte x i h =
      get_or-slice (padded_out x) 32 n i h
      ∙ padded_out_byte x (32 + i) (omega arith)
      ∙ ap (λ t. bit_xor t (xkeystream nonce key (32 + i)))
          (get_or-append_past (replicate 32 0) x (32 + i) 0 (omega arith)
            ∙ ap (λ t. get_or x t 0) (omega arith))

  -- Encrypting twice gives the message back.
  pub body_twice : (x : List ℕ) → length x ≡ n → body (body x) ≡ x
  body_twice x h = get_or_ext 0 (body (body x)) x (length-body (body x) ∙ sym h) λ i p.
      (body_byte (body x) i (inside i p)
        ∙ ap (λ t. bit_xor t (xkeystream nonce key (32 + i))) (body_byte x i (inside i p))
        ∙ bit_xor_twice (get_or x i 0) (xkeystream nonce key (32 + i)))
    where
      inside : (i : ℕ) → i < length (body (body x)) → i < n
      inside i p = omega (arith, length-body (body x))

  drop-padded_out : (x : List ℕ) → drop 32 (padded_out x) ≡ body x
  unfolding body
  drop-padded_out x =
      get_or_ext 0 (drop 32 (padded_out x)) (body x) (len ∙ sym (length-body x)) λ i p.
        (get_or-drop 32 (padded_out x) i 0 ∙ sym (get_or-slice (padded_out x) 32 n i (inside i p)))
    where
      len : length (drop 32 (padded_out x)) ≡ n
      len =
          unfold padded_out in
          (length-drop 32 (padded_out x)
            ∙ ap (λ t. t - 32) (length-xsalsa20_xor (some (replicate 32 0 ++ x)) (32 + n) nonce key)
            ∙ omega arith)

      inside : (i : ℕ) → i < length (drop 32 (padded_out x)) → i < n
      inside i p = omega (arith, len)

  -- The tag of a ciphertext, under the first keystream block.
  unfoldable pub tag_of : List ℕ → List ℕ
  tag_of y = poly1305 y n (xsalsa20_xor none 64 nonce key)

  -- `nuki_crypto_e1` takes the authenticator's key from the padded output instead.
  pub tag-padded_out :
      (x : List ℕ) → poly1305 (drop 32 (padded_out x)) n (padded_out x) ≡ tag_of (body x)
  unfolding tag_of
  tag-padded_out x =
      ap (λ y. poly1305 y n (padded_out x)) (drop-padded_out x)
      ∙ poly1305_ext (body x) n (padded_out x) (xsalsa20_xor none 64 nonce key) λ i p.
        (padded_out_byte x i (omega arith)
          ∙ ap (λ t. bit_xor t (xkeystream nonce key i))
              (get_or-append_left (replicate 32 0) x i 0 p ∙ get_or-replicate 32 i 0)
          ∙ sym (xsalsa20_xor-byte none 64 nonce key i (omega arith)))
