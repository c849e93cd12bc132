-- ===== src/Crypto/Crc.antt =====
-- src/nuki_crypto.c: the check sum that ends every frame (`nuki_crc16`).
pub mod Detect
use nuki_nrf52_bridge.Base.{
  ℕ, zero, suc, ◌*◌, ◌%◌, ◌^◌, bit_and, bit_xor, List, [], ◌∷◌, slice, ◌==◌, if◌then◌else◌,
}

-- The body of the loop on `j`: one bit.
unfoldable pub crc_bit : ℕ → ℕ
crc_bit crc =
    if bit_and crc 0x8000 == 0 then crc * 2 % 2 ^ 16 else bit_xor (crc * 2) 0x1021 % 2 ^ 16

unfoldable pub crc_bits : ℕ → ℕ → ℕ
unfolding crc_bit
crc_bits zero crc = crc
crc_bits (suc left) crc = crc_bits left (crc_bit crc)

-- The body of the loop on `i`: one byte.
unfoldable pub crc_byte : ℕ → ℕ → ℕ
unfolding crc_bits
crc_byte crc b = crc_bits 8 (bit_xor crc (b * 2 ^ 8 % 2 ^ 16))

unfoldable pub crc_loop : ℕ → List ℕ → ℕ
unfolding crc_byte
crc_loop crc [] = crc
crc_loop crc (b ∷ bs) = crc_loop (crc_byte crc b) bs

-- `nuki_crc16(data, len)`.
unfoldable pub crc16 : List ℕ → ℕ → ℕ
unfolding crc_loop
crc16 data' len = crc_loop 0xffff (slice data' 0 len)
