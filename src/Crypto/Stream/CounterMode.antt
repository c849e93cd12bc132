-- ===== src/Crypto/Stream/CounterMode.antt =====
-- src/nuki_crypto.c: what the stream cipher computes, byte by byte.
use nuki_nrf52_bridge.Base.{
  ℕ, zero, suc, ◌+◌, ◌-◌, ◌/◌, ◌%◌, ◌<◌, ◌≤◌, bit_xor, Option, none, some, List, ◌++◌, ◌≡◌, refl,
  ap, ap₂, ◌∙◌, arith, length, get_or, drop, slice, replicate, length-append, get_or-append_left,
  get_or-append_past, get_or-drop, length-slice, le→leb, lt→leb_false, dec_lt, ◌==◌, false,
}
use nuki_nrf52_bridge.Crypto.Salsa.{core_salsa20, core_hsalsa20}
use nuki_nrf52_bridge.Crypto.Stream.{
  byte_of, advance, xor_bytes, next_block, stream_loop, xsalsa20_xor,
}
use nuki_nrf52_bridge.Crypto.Stream.Counter.{
  counter_block, counter_block-zero, next_block-counter_block,
}

length-xor_bytes : (m : Option (List ℕ)) (x : List ℕ) (i n : ℕ) → length (xor_bytes m x i n) ≡ n
unfolding xor_bytes
length-xor_bytes m x i zero = refl
length-xor_bytes m x i (suc n) = ap suc (length-xor_bytes m x (suc i) n)

get_or-xor_bytes :
    (m : Option (List ℕ)) (x : List ℕ) (i n j : ℕ)
    → j < n
    → get_or (xor_bytes m x i n) j 0 ≡ bit_xor (byte_of m (i + j)) (get_or x (i + j) 0)
unfolding xor_bytes
get_or-xor_bytes m x i zero j h = absurd (omega arith)
get_or-xor_bytes m x i (suc n) zero h = ap (λ t. bit_xor (byte_of m t) (get_or x t 0)) (omega arith)
get_or-xor_bytes m x i (suc n) (suc j) h =
    get_or-xor_bytes m x (suc i) n j (omega arith)
    ∙ ap (λ t. bit_xor (byte_of m t) (get_or x t 0)) (omega arith)

byte_of-advance : (m : Option (List ℕ)) (i : ℕ) → byte_of (advance m) i ≡ byte_of m (64 + i)
byte_of-advance none i = refl
byte_of-advance (some m) i = get_or-drop 64 m i 0

-- Byte `i` of the keystream from block `q` on: Salsa20 of the nonce and the block's number.
pub keystream : List ℕ → List ℕ → ℕ → ℕ → ℕ
keystream n k q i = get_or (core_salsa20 (counter_block n (q + i / 64)) k) (i % 64) 0

keystream_next : (n k : List ℕ) (q i : ℕ) → keystream n k (suc q) i ≡ keystream n k q (64 + i)
unfolding keystream
keystream_next n k q i =
    ap₂ (λ a b. get_or (core_salsa20 (counter_block n a) k) b 0) (omega arith) (omega arith)

keystream_first :
    (n k : List ℕ) (q i : ℕ)
    → i < 64
    → get_or (core_salsa20 (counter_block n q) k) i 0 ≡ keystream n k q i
unfolding keystream
keystream_first n k q i h =
    ap₂ (λ a b. get_or (core_salsa20 (counter_block n a) k) b 0) (omega arith) (omega arith)

-- The two ways through the loop's body.
stream_loop-long :
    (f : ℕ) (m : Option (List ℕ)) (len : ℕ) (z k : List ℕ)
    → 64 ≤ len
    → stream_loop (suc f) m len z k
      ≡ xor_bytes m (core_salsa20 z k) 0 64 ++ stream_loop f (advance m) (len - 64) (next_block z) k
unfolding stream_loop
stream_loop-long f m len z k h = rw (le→leb 64 len h)

stream_loop-short :
    (f : ℕ) (m : Option (List ℕ)) (len : ℕ) (z k : List ℕ)
    → len < 64
    → stream_loop (suc f) m len z k ≡ xor_bytes m (core_salsa20 z k) 0 len
unfolding stream_loop xor_bytes
stream_loop-short f m zero z k h = refl
stream_loop-short f m (suc len) z k h = rw (lt→leb_false (suc len) 64 h, nonzero)
  where
    nonzero : (suc len == 0) ≡ false
    nonzero = ground arith

length-stream_loop :
    (f : ℕ) (m : Option (List ℕ)) (len : ℕ) (z k : List ℕ)
    → len < f
    → length (stream_loop f m len z k) ≡ len
length-stream_loop zero m len z k h = absurd (omega arith)
length-stream_loop (suc f) m len z k h = elim (dec_lt len 64) [
  | yes p ↦ rw (stream_loop-short f m len z k p) (length-xor_bytes m (core_salsa20 z k) 0 len)
  | no p ↦
      rw
        (
          stream_loop-long f m len z k (omega arith),
          length-append,
          length-xor_bytes,
          length-stream_loop f (advance m) (len - 64) (next_block z) k (omega arith),
        )
        (omega arith)
]

module _ (n k : List ℕ) (n_len : length n ≡ 8) where
  -- A byte that the last, short block gives.
  byte_short :
      (m : Option (List ℕ)) (len q i : ℕ)
      → i < len
      → i < 64
      → get_or (xor_bytes m (core_salsa20 (counter_block n q) k) 0 len) i 0
        ≡ bit_xor (byte_of m i) (keystream n k q i)
  byte_short m len q i p h =
      get_or-xor_bytes m (core_salsa20 (counter_block n q) k) 0 len i p
      ∙ ap₂ bit_xor (ap (byte_of m) (omega arith)) (
          ap (λ t. get_or (core_salsa20 (counter_block n q) k) t 0) (omega arith)
          ∙ keystream_first n k q i h)

  -- A byte behind the first block.
  byte_long :
      (m : Option (List ℕ)) (x rest : List ℕ) (q i : ℕ)
      → 64 ≤ i
      → get_or rest (i - 64) 0
        ≡ bit_xor (byte_of (advance m) (i - 64)) (keystream n k (suc q) (i - 64))
      → get_or (xor_bytes m x 0 64 ++ rest) i 0 ≡ bit_xor (byte_of m i) (keystream n k q i)
  byte_long m x rest q i h ih =
      get_or-append_past (xor_bytes m x 0 64) rest i 0 (omega (arith, length-xor_bytes m x 0 64))
      ∙ ap (λ t. get_or rest (i - t) 0) (length-xor_bytes m x 0 64)
      ∙ ih
      ∙ ap₂ bit_xor (byte_of-advance m (i - 64) ∙ ap (byte_of m) (omega arith))
          (keystream_next n k q (i - 64) ∙ ap (keystream n k q) (omega arith))

  get_or-stream_loop :
      (f : ℕ) (m : Option (List ℕ)) (len q i : ℕ)
      → len < f
      → i < len
      → get_or (stream_loop f m len (counter_block n q) k) i 0
        ≡ bit_xor (byte_of m i) (keystream n k q i)
  get_or-stream_loop zero m len q i h p = absurd (omega arith)
  get_or-stream_loop (suc f) m len q i h p = elim (dec_lt len 64) [
    | yes short ↦
        rw (stream_loop-short f m len (counter_block n q) k short)
          (byte_short m len q i p (omega arith))
    | no long ↦
        rw
          (
            stream_loop-long f m len (counter_block n q) k (omega arith),
            next_block-counter_block n q n_len,
          )
          (elim (dec_lt i 64) [
            | yes near ↦
                get_or-append_left (xor_bytes m (core_salsa20 (counter_block n q) k) 0 64)
                  (stream_loop f (advance m) (len - 64) (counter_block n (suc q)) k) i 0
                  (omega (arith, length-xor_bytes m (core_salsa20 (counter_block n q) k) 0 64))
                ∙ byte_short m 64 q i near near
            | no far ↦
                byte_long m (core_salsa20 (counter_block n q) k)
                  (stream_loop f (advance m) (len - 64) (counter_block n (suc q)) k) q i
                  (omega arith)
                  (get_or-stream_loop f (advance m) (len - 64) (suc q) (i - 64) (omega arith)
                    (omega arith))
          ])
  ]

-- Byte `i` of the keystream of `xsalsa20_xor`: byte `i % 64` of Salsa20 under the derived key, on
-- the last eight nonce bytes and the block number `i / 64`.
pub xkeystream : List ℕ → List ℕ → ℕ → ℕ
xkeystream n k i =
    get_or (core_salsa20 (counter_block (slice (drop 16 n) 0 8) (i / 64)) (core_hsalsa20 n k))
      (i % 64) 0

-- The output has `len` bytes.
pub length-xsalsa20_xor :
    (m : Option (List ℕ)) (len : ℕ) (n k : List ℕ) → length (xsalsa20_xor m len n k) ≡ len
unfolding xsalsa20_xor
length-xsalsa20_xor m len n k =
    length-stream_loop (suc len) m len (slice (drop 16 n) 0 8 ++ replicate 8 0) (core_hsalsa20 n k)
      (omega arith)

-- Each byte of the output, below the length, is the message's byte at that index, or 0 if there is
-- no message, xored with the keystream's byte.
pub xsalsa20_xor-byte :
    (m : Option (List ℕ)) (len : ℕ) (n k : List ℕ) (i : ℕ)
    → i < len
    → get_or (xsalsa20_xor m len n k) i 0 ≡ bit_xor (byte_of m i) (xkeystream n k i)
unfolding xsalsa20_xor keystream xkeystream
xsalsa20_xor-byte m len n k i h = rw (← counter_block-zero (slice (drop 16 n) 0 8)) (
    get_or-stream_loop (slice (drop 16 n) 0 8) (core_hsalsa20 n k) (length-slice (drop 16 n) 0 8)
      (suc len) m len 0 i (omega arith) h
    ∙ ap
        (λ q. bit_xor (byte_of m i) (
          get_or (core_salsa20 (counter_block (slice (drop 16 n) 0 8) q) (core_hsalsa20 n k))
            (i % 64) 0))
        (omega arith))
