-- ===== src/Crypto/Words.antt =====
-- src/nuki_crypto.c: 32-bit words and their little-endian bytes. A word is a number below 2 ^ 32, a
-- byte one below 256; an array is the list of its elements, and an address in it is an index.
use nuki_nrf52_bridge.Base.{
  ℕ, zero, suc, ◌+◌, ◌-◌, ◌*◌, ◌/◌, ◌%◌, ◌^◌, bit_or, List, [], ◌∷◌, get_or,
}

abbrev pub u32 : ℕ → ℕ
u32 n = n % 2 ^ 32

-- `uint32_t` addition and subtraction.
abbrev pub add32 : ℕ → ℕ → ℕ
add32 a b = u32 (a + b)

abbrev pub sub32 : ℕ → ℕ → ℕ
sub32 a b = u32 (a + 2 ^ 32 - b)

unfoldable pub rotl32 : ℕ → ℕ → ℕ
rotl32 x c = bit_or (u32 (x * 2 ^ c)) (x / 2 ^ (32 - c))

-- `load_le32(x + at)`.
unfoldable pub load_le32 : List ℕ → ℕ → ℕ
load_le32 x at =
    let u = get_or x (at + 3) 0 in
    let u = bit_or (u32 (u * 2 ^ 8)) (get_or x (at + 2) 0) in
    let u = bit_or (u32 (u * 2 ^ 8)) (get_or x (at + 1) 0) in
    bit_or (u32 (u * 2 ^ 8)) (get_or x at 0)

-- The bytes that the loop of `store_le32` writes in the rounds left.
abbrev pub store_loop : ℕ → ℕ → List ℕ
store_loop zero u = []
store_loop (suc left) u = (u % 2 ^ 8) ∷ store_loop left (u / 2 ^ 8)

unfoldable pub store_le32 : ℕ → List ℕ
store_le32 u = store_loop 4 u
