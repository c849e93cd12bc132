-- ===== src/Crypto/Stream/Counter.antt =====
-- src/nuki_crypto.c: the block counter of `stream_salsa20_xor` as a number.
use nuki_nrf52_bridge.Base.{
  ℕ, zero, suc, ◌+◌, ◌/◌, ◌%◌, ◌^◌, ◌≤◌, List, ◌∷◌, ◌++◌, ◌≡◌, refl, ap₂, arith, length,
  take-append, drop-append, le_bytes, replicate,
}
use nuki_nrf52_bridge.Crypto.Words.{u32}
use nuki_nrf52_bridge.Crypto.Stream.{carry_bytes, next_block}

-- The loop with its carry is addition.
carry_bytes-le_bytes : (n u v : ℕ) → u ≤ 1 → carry_bytes u (le_bytes n v) ≡ le_bytes n (v + u)
carry_bytes-le_bytes zero u v h = refl
carry_bytes-le_bytes (suc n) u v h =
    let low : u32 (u + v % 256) % 2 ^ 8 ≡ (v + u) % 256 = omega arith in
    let high : v / 256 + u32 (u + v % 256) / 2 ^ 8 ≡ (v + u) / 256 = omega arith in
    ap₂ ◌∷◌ low
      (rw (carry_bytes-le_bytes n (u32 (u + v % 256) / 2 ^ 8) (v / 256) (omega arith), high))

-- `z` for block number `q` under the 8-byte nonce `n`.
pub counter_block : List ℕ → ℕ → List ℕ
counter_block n q = n ++ le_bytes 8 q

pub next_block-counter_block :
    (n : List ℕ) (q : ℕ) → length n ≡ 8 → next_block (counter_block n q) ≡ counter_block n (suc q)
unfolding next_block counter_block
next_block-counter_block n q h =
    ap₂ ◌++◌ (take-append 8 n (le_bytes 8 q) h)
      (rw (drop-append 8 n (le_bytes 8 q) h, carry_bytes-le_bytes 8 1 q (omega arith), one))
  where
    one : q + 1 ≡ suc q
    one = omega arith

-- Block 0 is the nonce and eight zero bytes, as the loop starts.
pub counter_block-zero : (n : List ℕ) → counter_block n 0 ≡ n ++ replicate 8 0
unfolding counter_block
counter_block-zero n = refl
