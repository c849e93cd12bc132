-- ===== src/Crypto/Vectors.antt =====
-- The known answers of tests/nuki_crypto, from the vendor's documentation, and the theorems on the
-- primitives at those inputs.
use nuki_nrf52_bridge.Base.{
  ℕ, List, [], ◌∷◌, ◌≡◌, ◌≢◌, ◌↔◌, refl, arith, some, get_or, bit_xor, ok, Below, Below-of_All,
  replicate, ◌+◌, ◌++◌, slice, le_bytes, concat,
}
use nuki_nrf52_bridge.Crypto.Words.{rotl32, load_le32, store_le32}
use nuki_nrf52_bridge.Crypto.Salsa.{
  load_words, round, rounds, store_words, mix, core_salsa20, core_hsalsa20, kdf1,
}
use nuki_nrf52_bridge.Crypto.Stream.{xor_bytes, stream_loop, xsalsa20_xor}
use nuki_nrf52_bridge.Crypto.Poly1305.{clamp, absorb, freeze, poly1305}
use nuki_nrf52_bridge.Crypto.Secretbox.{e1, d1}
use nuki_nrf52_bridge.Crypto.Crc.{crc16}
use nuki_nrf52_bridge.Crypto.Salsa.{store_words, hashed_words}
use nuki_nrf52_bridge.Crypto.Salsa.Hashed.{double_rounds, initial, core_hsalsa20_lem}
use nuki_nrf52_bridge.Crypto.Stream.CounterMode.{xkeystream, xsalsa20_xor-byte}
use nuki_nrf52_bridge.Crypto.Secretbox.RoundTrip.{d1-e1_iff}
use nuki_nrf52_bridge.Crypto.Poly1305.Value.{value}
use nuki_nrf52_bridge.Crypto.Poly1305.Mac.{polynomial}
use nuki_nrf52_bridge.Crypto.Poly1305.Tag.{poly1305_lem}
use nuki_nrf52_bridge.Crypto.Crc.Detect.{crc16_one_byte}

abbrev dh_result : List ℕ
dh_result =
    171 ∷ 125 ∷ 153 ∷ 105 ∷ 139 ∷ 245 ∷ 73 ∷ 249 ∷ 174 ∷ 128 ∷ 234 ∷ 77 ∷ 20 ∷ 13 ∷ 41 ∷ 217 ∷ 177
    ∷ 105 ∷ 193 ∷ 133 ∷ 51 ∷ 229 ∷ 38 ∷ 125 ∷ 158 ∷ 39 ∷ 111 ∷ 22 ∷ 59 ∷ 92 ∷ 11 ∷ 8 ∷ []

abbrev long_term_key : List ℕ
long_term_key =
    145 ∷ 85 ∷ 97 ∷ 88 ∷ 125 ∷ 134 ∷ 129 ∷ 91 ∷ 112 ∷ 158 ∷ 221 ∷ 88 ∷ 25 ∷ 216 ∷ 198 ∷ 242 ∷ 232
    ∷ 131 ∷ 218 ∷ 60 ∷ 134 ∷ 244 ∷ 97 ∷ 241 ∷ 59 ∷ 132 ∷ 34 ∷ 139 ∷ 132 ∷ 83 ∷ 62 ∷ 4 ∷ []

abbrev pub nonce : List ℕ
nonce =
    55 ∷ 145 ∷ 127 ∷ 26 ∷ 243 ∷ 30 ∷ 197 ∷ 148 ∷ 7 ∷ 5 ∷ 243 ∷ 77 ∷ 30 ∷ 85 ∷ 80 ∷ 96 ∷ 125 ∷ 91
    ∷ 47 ∷ 159 ∷ 231 ∷ 212 ∷ 150 ∷ 182 ∷ []

abbrev pub shared_key : List ℕ
shared_key =
    33 ∷ 127 ∷ 203 ∷ 15 ∷ 24 ∷ 202 ∷ 242 ∷ 132 ∷ 233 ∷ 189 ∷ 234 ∷ 11 ∷ 148 ∷ 184 ∷ 59 ∷ 141 ∷ 16
    ∷ 134 ∷ 126 ∷ 215 ∷ 6 ∷ 191 ∷ 222 ∷ 219 ∷ 210 ∷ 56 ∷ 31 ∷ 76 ∷ 179 ∷ 184 ∷ 247 ∷ 48 ∷ []

abbrev pub plaintext : List ℕ
plaintext = 2 ∷ 0 ∷ 0 ∷ 0 ∷ 1 ∷ 0 ∷ 12 ∷ 0 ∷ 65 ∷ 141 ∷ []

abbrev pub sealed : List ℕ
sealed =
    103 ∷ 13 ∷ 18 ∷ 73 ∷ 38 ∷ 0 ∷ 67 ∷ 102 ∷ 83 ∷ 46 ∷ 141 ∷ 146 ∷ 122 ∷ 51 ∷ 254 ∷ 132 ∷ 231 ∷ 130
    ∷ 169 ∷ 89 ∷ 77 ∷ 57 ∷ 21 ∷ 125 ∷ 6 ∷ 94 ∷ []

kdf1_known : kdf1 dh_result ≡ long_term_key
unfolding kdf1 core_hsalsa20 load_words round rounds store_words mix rotl32 load_le32 store_le32
kdf1_known = refl

e1_known : e1 plaintext 10 nonce shared_key ≡ ok sealed
unfolding e1 poly1305 clamp absorb freeze xsalsa20_xor stream_loop xor_bytes core_salsa20
    core_hsalsa20 load_words round rounds store_words mix rotl32 load_le32 store_le32
e1_known = refl

d1_known : d1 sealed 10 nonce shared_key ≡ ok plaintext
unfolding d1 poly1305 clamp absorb freeze xsalsa20_xor stream_loop xor_bytes core_salsa20
    core_hsalsa20 load_words round rounds store_words mix rotl32 load_le32 store_le32
d1_known = refl

crc16_known : crc16 plaintext 8 ≡ 0x8d41
unfolding crc16
crc16_known = refl

dh_result-Below : Below 256 dh_result
dh_result-Below = Below-of_All 256 dh_result (omega arith) (omega arith)

zero-Below : Below 256 (replicate 16 0)
zero-Below = Below-of_All 256 (replicate 16 0) (omega arith) (omega arith)

core_hsalsa20_lem_example :
    core_hsalsa20 (replicate 16 0) dh_result
    ≡ store_words (hashed_words (double_rounds 10 (initial (replicate 16 0) dh_result)))
core_hsalsa20_lem_example = core_hsalsa20_lem (replicate 16 0) dh_result zero-Below dh_result-Below

xsalsa20_xor-byte_example :
    get_or (xsalsa20_xor (some plaintext) 10 nonce shared_key) 3 0
    ≡ bit_xor 0 (xkeystream nonce shared_key 3)
xsalsa20_xor-byte_example = xsalsa20_xor-byte (some plaintext) 10 nonce shared_key 3 (omega arith)

d1-e1_iff_example :
    (d1 sealed 10 nonce shared_key ≡ ok plaintext) ↔ (e1 plaintext 10 nonce shared_key ≡ ok sealed)
d1-e1_iff_example = d1-e1_iff nonce shared_key 10 plaintext sealed (omega arith) refl refl

crc16_one_byte_example : crc16 (2 ∷ 0 ∷ 1 ∷ []) 3 ≢ crc16 (2 ∷ 7 ∷ 1 ∷ []) 3
crc16_one_byte_example =
    crc16_one_byte (2 ∷ []) (1 ∷ []) 0 7 (omega arith) (omega arith) (omega arith)

-- A message of one whole chunk and a short one, under a key of sevens.
abbrev chunks : List (List ℕ)
chunks = replicate 16 3 ∷ (1 ∷ 2 ∷ []) ∷ []

sevens-Below : Below 256 (replicate 32 7)
sevens-Below = Below-of_All 256 (replicate 32 7) (omega arith) (ground arith)

poly1305_lem_example :
    poly1305 (concat chunks) 18 (replicate 32 7)
    ≡ le_bytes 16 (
        polynomial (value (clamp (slice (replicate 32 7) 0 16 ++ 0 ∷ []))) chunks 0
        + value (slice (replicate 32 7) 16 16))
poly1305_lem_example =
    poly1305_lem chunks (replicate 32 7) (refl, (omega arith, omega arith)) (ground arith)
      sevens-Below
