-- ===== src/Crypto/Crc/Detect.antt =====
-- src/nuki_crypto.c: what the check sum detects.
use nuki_nrf52_bridge.Base.{
  ℕ, zero, suc, ◌+◌, ◌-◌, ◌*◌, ◌/◌, ◌%◌, ◌^◌, ◌<◌, ◌≤◌, bit_and, bit_xor, List, [], ◌∷◌, ◌++◌, ◌≡◌,
  ◌≢◌, refl, sym, ap, ◌∙◌, arith, length, slice, slice_whole, dec_lt,
}
use nuki_nrf52_bridge.Base.Bits.{
  bit_and_pow, bit_xor_field, bit_xor-lt, bit_xor_cancel, bit_xor_comm,
}
use nuki_nrf52_bridge.Base.Bits.Step.{bit_xor_step}
use nuki_nrf52_bridge.Crypto.Crc.{crc_bit, crc_bits, crc_byte, crc_loop, crc16}

-- The polynomial is odd, so its presence shows in the lowest bit.
xor_poly_odd : (a : ℕ) → bit_xor (a * 2) 0x1021 % 2 ≡ 1
xor_poly_odd a = omega (arith, bit_xor_step (a * 2) 0x1021)

top_bit : (x : ℕ) → x < 2 ^ 16 → bit_and x 0x8000 ≡ x / 2 ^ 15 * 2 ^ 15
top_bit x h =
    ap (λ t. bit_and t 0x8000) parts
    ∙ bit_and_pow 15 (x / 2 ^ 15) (x % 2 ^ 15) (omega arith)
    ∙ omega arith
  where
    parts : x ≡ x / 2 ^ 15 * 2 ^ 15 + x % 2 ^ 15
    parts = omega arith

crc_bit-low : (x : ℕ) → x < 2 ^ 15 → crc_bit x ≡ x * 2
unfolding crc_bit
crc_bit-low x h = ground (arith, top_bit x)

crc_bit-high : (x : ℕ) → 2 ^ 15 ≤ x → x < 2 ^ 16 → crc_bit x ≡ bit_xor (x * 2 - 2 ^ 16) 0x1021
unfolding crc_bit
crc_bit-high x h p = ground (
  arith,
  top_bit x,
  bit_xor_field 16 1 (x * 2 - 2 ^ 16) 0x1021,
  bit_xor-lt 16 (x * 2 - 2 ^ 16) 0x1021,
)

crc_bit-lt : (x : ℕ) → x < 2 ^ 16 → crc_bit x < 2 ^ 16
crc_bit-lt x h = elim (dec_lt x (2 ^ 15)) [
  | yes low ↦ omega (arith, crc_bit-low x low)
  | no high ↦ omega (
    arith,
    crc_bit-high x (omega arith) h,
    bit_xor-lt 16 (x * 2 - 2 ^ 16) 0x1021 (omega arith) (omega arith),
  )
]

-- One step loses nothing: the lowest bit tells whether the polynomial was added.
crc_bit_injective : (x y : ℕ) → x < 2 ^ 16 → y < 2 ^ 16 → crc_bit x ≡ crc_bit y → x ≡ y
crc_bit_injective x y h p e = elim (dec_lt x (2 ^ 15)) [
  | yes low ↦ elim (dec_lt y (2 ^ 15)) [
    | yes low' ↦ omega (arith, crc_bit-low x low, crc_bit-low y low')
    | no high' ↦ absurd (
        omega (
          arith,
          crc_bit-low x low,
          crc_bit-high y (omega arith) p,
          bit_xor_step (y * 2 - 2 ^ 16) 0x1021,
        ))
  ]
  | no high ↦ elim (dec_lt y (2 ^ 15)) [
    | yes low' ↦ absurd (
        omega (
          arith,
          crc_bit-low y low',
          crc_bit-high x (omega arith) h,
          bit_xor_step (x * 2 - 2 ^ 16) 0x1021,
        ))
    | no high' ↦ omega (
      arith,
      bit_xor_cancel (x * 2 - 2 ^ 16) (y * 2 - 2 ^ 16) 0x1021
          (sym (crc_bit-high x (omega arith) h) ∙ e ∙ crc_bit-high y (omega arith) p),
    )
  ]
]

crc_bits-lt : (n x : ℕ) → x < 2 ^ 16 → crc_bits n x < 2 ^ 16
unfolding crc_bits
crc_bits-lt zero x h = h
crc_bits-lt (suc n) x h = crc_bits-lt n (crc_bit x) (crc_bit-lt x h)

crc_bits_injective : (n x y : ℕ) → x < 2 ^ 16 → y < 2 ^ 16 → crc_bits n x ≡ crc_bits n y → x ≡ y
unfolding crc_bits
crc_bits_injective zero x y h p e = e
crc_bits_injective (suc n) x y h p e =
    crc_bit_injective x y h p
      (crc_bits_injective n (crc_bit x) (crc_bit y) (crc_bit-lt x h) (crc_bit-lt y p) e)

crc_byte-lt : (crc b : ℕ) → crc < 2 ^ 16 → crc_byte crc b < 2 ^ 16
unfolding crc_byte
crc_byte-lt crc b h =
    crc_bits-lt 8 (bit_xor crc (b * 2 ^ 8 % 2 ^ 16))
      (bit_xor-lt 16 crc (b * 2 ^ 8 % 2 ^ 16) h (omega arith))

-- The register before a byte can be told from the one after it, and so can the byte.
crc_byte_injective_crc : (x y b : ℕ) → x < 2 ^ 16 → y < 2 ^ 16 → crc_byte x b ≡ crc_byte y b → x ≡ y
unfolding crc_byte
crc_byte_injective_crc x y b h p e = bit_xor_cancel x y (b * 2 ^ 8 % 2 ^ 16) (
    crc_bits_injective 8 (bit_xor x (b * 2 ^ 8 % 2 ^ 16)) (bit_xor y (b * 2 ^ 8 % 2 ^ 16))
      (bit_xor-lt 16 x (b * 2 ^ 8 % 2 ^ 16) h (omega arith))
      (bit_xor-lt 16 y (b * 2 ^ 8 % 2 ^ 16) p (omega arith)) e)

crc_byte_injective_byte :
    (x b b' : ℕ) → x < 2 ^ 16 → b < 256 → b' < 256 → crc_byte x b ≡ crc_byte x b' → b ≡ b'
unfolding crc_byte
crc_byte_injective_byte x b b' h p p' e =
    let same : bit_xor x (b * 2 ^ 8 % 2 ^ 16) ≡ bit_xor x (b' * 2 ^ 8 % 2 ^ 16) =
      crc_bits_injective 8 (bit_xor x (b * 2 ^ 8 % 2 ^ 16)) (bit_xor x (b' * 2 ^ 8 % 2 ^ 16))
        (bit_xor-lt 16 x (b * 2 ^ 8 % 2 ^ 16) h (omega arith))
        (bit_xor-lt 16 x (b' * 2 ^ 8 % 2 ^ 16) h (omega arith)) e in
    omega (
      arith,
      bit_xor_cancel (b * 2 ^ 8 % 2 ^ 16) (b' * 2 ^ 8 % 2 ^ 16) x
          (bit_xor_comm (b * 2 ^ 8 % 2 ^ 16) x ∙ same ∙ bit_xor_comm x (b' * 2 ^ 8 % 2 ^ 16)),
    )

crc_loop-lt : (crc : ℕ) (bs : List ℕ) → crc < 2 ^ 16 → crc_loop crc bs < 2 ^ 16
unfolding crc_loop
crc_loop-lt crc [] h = h
crc_loop-lt crc (b ∷ bs) h = crc_loop-lt (crc_byte crc b) bs (crc_byte-lt crc b h)

crc_loop_injective :
    (x y : ℕ) (bs : List ℕ) → x < 2 ^ 16 → y < 2 ^ 16 → crc_loop x bs ≡ crc_loop y bs → x ≡ y
unfolding crc_loop
crc_loop_injective x y [] h p e = e
crc_loop_injective x y (b ∷ bs) h p e =
    crc_byte_injective_crc x y b h p (
      crc_loop_injective (crc_byte x b) (crc_byte y b) bs (crc_byte-lt x b h) (crc_byte-lt y b p) e)

crc_loop_one_byte :
    (crc : ℕ) (front bs : List ℕ) (b b' : ℕ)
    → crc < 2 ^ 16
    → b < 256
    → b' < 256
    → crc_loop crc (front ++ b ∷ bs) ≡ crc_loop crc (front ++ b' ∷ bs)
    → b ≡ b'
unfolding crc_loop
crc_loop_one_byte crc [] bs b b' h p p' e = crc_byte_injective_byte crc b b' h p p' (
    crc_loop_injective (crc_byte crc b) (crc_byte crc b') bs (crc_byte-lt crc b h)
      (crc_byte-lt crc b' h) e)
crc_loop_one_byte crc (a ∷ front) bs b b' h p p' e =
    crc_loop_one_byte (crc_byte crc a) front bs b b' (crc_byte-lt crc a h) p p' e

-- The check sum is a 16-bit number.
pub crc16-lt : (xs : List ℕ) (n : ℕ) → crc16 xs n < 2 ^ 16
unfolding crc16
crc16-lt xs n = crc_loop-lt 0xffff (slice xs 0 n) (omega arith)

-- Two messages of one length that differ in one byte have different check sums.
pub crc16_one_byte :
    (xs ys : List ℕ) (b b' : ℕ)
    → b < 256
    → b' < 256
    → b ≢ b'
    → crc16 (xs ++ b ∷ ys) (length (xs ++ b ∷ ys)) ≢ crc16 (xs ++ b' ∷ ys) (length (xs ++ b' ∷ ys))
unfolding crc16
crc16_one_byte xs ys b b' h h' ne e = ne (
    crc_loop_one_byte 0xffff xs ys b b' (omega arith) h h' (
      ap (crc_loop 0xffff) (sym (slice_whole (xs ++ b ∷ ys) (length (xs ++ b ∷ ys)) refl))
      ∙ e
      ∙ ap (crc_loop 0xffff) (slice_whole (xs ++ b' ∷ ys) (length (xs ++ b' ∷ ys)) refl)))
