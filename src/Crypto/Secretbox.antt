-- ===== src/Crypto/Secretbox.antt =====
-- src/nuki_crypto.c: authenticated encryption (`nuki_crypto_e1`) and its inverse (`nuki_crypto_d1`).
pub mod Keystream
pub mod RoundTrip
use nuki_nrf52_bridge.Base.{
  ℕ, zero, suc, ◌+◌, bit_or, bit_xor, Bool, none, some, List, [], ◌∷◌, ◌++◌, get_or, drop, slice,
  replicate, ltb, ◌==◌, if◌then◌else◌, Result, ok, err, einval, ebadmsg, not,
}
use nuki_nrf52_bridge.Crypto.Stream.{xsalsa20_xor}
use nuki_nrf52_bridge.Crypto.Poly1305.{poly1305}

abbrev pub tag_len : ℕ
tag_len = 16

abbrev pub max_msg_len : ℕ
max_msg_len = 256

-- `d |= x[i] ^ y[i]` over the rounds left.
abbrev pub difference : List ℕ → List ℕ → ℕ → ℕ → ℕ → ℕ
difference x y i zero d = d
difference x y i (suc left) d =
    difference x y (suc i) left (bit_or d (bit_xor (get_or x i 0) (get_or y i 0)))

unfoldable pub constant_time_eq16 : List ℕ → List ℕ → Bool
constant_time_eq16 x y = difference x y 0 16 0 == 0

-- The result is the buffer `out`: the tag, then the ciphertext.
unfoldable pub e1 : List ℕ → ℕ → List ℕ → List ℕ → Result (List ℕ)
e1 msg msg_len nonce key =
    let padded_in = replicate 32 0 ++ slice msg 0 msg_len in
    let padded_out = xsalsa20_xor (some padded_in) (32 + msg_len) nonce key in
    let tag = poly1305 (drop 32 padded_out) msg_len padded_out in
    if ltb max_msg_len msg_len then err einval else ok (tag ++ slice padded_out 32 msg_len)

-- The result is the plaintext; on an error nothing is written to `out`.
unfoldable pub d1 : List ℕ → ℕ → List ℕ → List ℕ → Result (List ℕ)
unfolding constant_time_eq16
d1 inp msg_len nonce key =
    let block0 = xsalsa20_xor none 64 nonce key in
    let tag = poly1305 (drop tag_len inp) msg_len block0 in
    let padded_in = replicate 32 0 ++ slice inp tag_len msg_len in
    let padded_out = xsalsa20_xor (some padded_in) (32 + msg_len) nonce key in
    if ltb max_msg_len msg_len
    then err einval
    else if constant_time_eq16 tag inp
    then ok (slice padded_out 32 msg_len)
    else err ebadmsg
