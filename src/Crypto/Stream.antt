-- ===== src/Crypto/Stream.antt =====
-- src/nuki_crypto.c: the keystream (`stream_salsa20_xor`) and its key derivation (`xsalsa20_xor`).
pub mod Counter
pub mod CounterMode
use nuki_nrf52_bridge.Base.{
  ℕ, zero, suc, ◌+◌, ◌-◌, ◌/◌, ◌%◌, ◌^◌, bit_xor, Bool, true, false, Option, none, some, List, [],
  ◌∷◌, ◌++◌, get_or, take, drop, slice, replicate, leb, ◌==◌, if◌then◌else◌,
}
use nuki_nrf52_bridge.Crypto.Words.{u32}
use nuki_nrf52_bridge.Crypto.Salsa.{core_salsa20, core_hsalsa20}

-- `m ? m[i] : 0`, with `none` for NULL.
abbrev pub byte_of : Option (List ℕ) → ℕ → ℕ
byte_of none i = 0
byte_of (some m) i = get_or m i 0

-- `m += 64` unless `m` is NULL.
abbrev pub advance : Option (List ℕ) → Option (List ℕ)
advance none = none
advance (some m) = some (drop 64 m)

-- `c[i] = (m ? m[i] : 0) ^ x[i]` for the indices from `i` on, with `left` rounds to go.
unfoldable pub xor_bytes : Option (List ℕ) → List ℕ → ℕ → ℕ → List ℕ
xor_bytes m x i zero = []
xor_bytes m x i (suc left) = bit_xor (byte_of m i) (get_or x i 0) ∷ xor_bytes m x (suc i) left

-- The loop of the block counter over the bytes left, with the carry `u`.
abbrev pub carry_bytes : ℕ → List ℕ → List ℕ
carry_bytes u [] = []
carry_bytes u (z ∷ zs) = let u = u32 (u + z) in (u % 2 ^ 8) ∷ carry_bytes (u / 2 ^ 8) zs

-- One is added to the number in bytes 8 to 15 of `z`.
unfoldable pub next_block : List ℕ → List ℕ
next_block z = take 8 z ++ carry_bytes 1 (drop 8 z)

-- `while (len >= 64)` and the rest, on fuel; a length is enough fuel for itself.
unfoldable pub stream_loop : ℕ → Option (List ℕ) → ℕ → List ℕ → List ℕ → List ℕ
stream_loop zero m len z k = []
stream_loop (suc fuel) m len z k =
    let x = core_salsa20 z k in
    let more = stream_loop fuel (advance m) (len - 64) (next_block z) k in
    if leb 64 len then xor_bytes m x 0 64 ++ more else if len == 0 then [] else xor_bytes m x 0 len

unfoldable pub stream_salsa20_xor : Option (List ℕ) → ℕ → List ℕ → List ℕ → List ℕ
stream_salsa20_xor m len n k = stream_loop (suc len) m len (slice n 0 8 ++ replicate 8 0) k

unfoldable pub xsalsa20_xor : Option (List ℕ) → ℕ → List ℕ → List ℕ → List ℕ
unfolding stream_salsa20_xor
xsalsa20_xor m len n k = stream_salsa20_xor m len (drop 16 n) (core_hsalsa20 n k)
