-- ===== src/Crypto/Poly1305.antt =====
-- src/nuki_crypto.c: the one-time authenticator (`poly1305`) over numbers of seventeen 8-bit limbs.
pub mod KeyUse
pub mod Value
pub mod Rows
pub mod Product
pub mod Freeze
pub mod Mac
pub mod Tag
use nuki_nrf52_bridge.Base.{
  ℕ, zero, suc, ◌+◌, ◌-◌, ◌*◌, ◌/◌, ◌%◌, ◌^◌, min, bit_and, bit_xor, List, [], ◌∷◌, ◌++◌, get_or,
  set, drop, slice, replicate, leb, ◌==◌, if◌then◌else◌,
}
use nuki_nrf52_bridge.Crypto.Words.{u32}

-- The loop of `add1305` with the carry `u`.
abbrev pub add_loop : ℕ → List ℕ → List ℕ → List ℕ
add_loop u [] cs = []
add_loop u (h ∷ hs) [] = []
add_loop u (h ∷ hs) (c ∷ cs) =
    let u = u32 (u + u32 (h + c)) in bit_and u 255 ∷ add_loop (u / 2 ^ 8) hs cs

unfoldable pub add1305 : List ℕ → List ℕ → List ℕ
add1305 h c = add_loop 0 h c

abbrev pub minusp : List ℕ
minusp = 5 ∷ replicate 15 0 ++ 252 ∷ []

-- `r`: the first half of the key with the bits that the algorithm clears.
abbrev pub mask_limb : ℕ → ℕ → List ℕ → List ℕ
mask_limb i mask r = set r i (bit_and (get_or r i 0) mask)

unfoldable pub clamp : List ℕ → List ℕ
clamp r = mask_limb 15 15 (
    mask_limb 12 252
      (mask_limb 11 15 (mask_limb 8 252 (mask_limb 7 15 (mask_limb 4 252 (mask_limb 3 15 r))))))

-- `x[i]`: the loop on `j` that sums `h[j] * (j <= i ? r[i - j] : 320 * r[i + 17 - j])`.
abbrev pub limb_product : List ℕ → ℕ → ℕ → List ℕ → ℕ → ℕ
limb_product r i j [] x = x
limb_product r i j (h ∷ hs) x =
    let coefficient = if leb j i then get_or r (i - j) 0 else u32 (320 * get_or r (i + 17 - j) 0) in
    limb_product r i (suc j) hs (u32 (x + u32 (h * coefficient)))

abbrev pub multiply_loop : List ℕ → List ℕ → ℕ → ℕ → List ℕ
multiply_loop h r i zero = []
multiply_loop h r i (suc left) = limb_product r i 0 h 0 ∷ multiply_loop h r (suc i) left

unfoldable pub multiply : List ℕ → List ℕ → List ℕ
multiply h r = multiply_loop h r 0 17

-- `u += h[j]; h[j] = u & 255; u >>= 8` over the first `left` limbs, and `u += h[16]` at the last:
-- the low limbs, and that sum.
abbrev pub carry_loop : ℕ → ℕ → List ℕ → List ℕ × ℕ
carry_loop zero u hs = ([], u32 (u + get_or hs 0 0))
carry_loop (suc left) u [] = ([], u)
carry_loop (suc left) u (h ∷ hs) =
    let u = u32 (u + h) in
    let (low, top) = carry_loop left (u / 2 ^ 8) hs in (bit_and u 255 ∷ low, top)

-- The reduction: the part above 2 ^ 130 is folded back, multiplied by 5.
unfoldable pub squeeze : List ℕ → List ℕ
squeeze x =
    let (low, u) = carry_loop 16 0 x in
    let (low', u') = carry_loop 16 (u32 (5 * (u / 2 ^ 2))) (low ++ bit_and u 3 ∷ []) in
    low' ++ u' ∷ []

-- One block of the message, with the one that marks its end.
unfoldable pub block : List ℕ → ℕ → List ℕ
block m n = let j = min 16 n in slice m 0 j ++ 1 ∷ replicate (16 - j) 0

-- `while (n > 0)` on fuel; a length is enough fuel for itself.
unfoldable pub absorb : ℕ → List ℕ → ℕ → List ℕ → List ℕ → List ℕ
unfolding add1305 multiply squeeze block
absorb zero m n h r = h
absorb (suc fuel) m n h r =
    let next =
      absorb fuel (drop (min 16 n) m) (n - min 16 n) (squeeze (multiply (add1305 h (block m n)) r))
        r in
    if n == 0 then h else next

-- `h[j] ^= s & (g[j] ^ h[j])`.
abbrev pub select : ℕ → List ℕ → List ℕ → List ℕ
select s [] hs = []
select s (g ∷ gs) [] = []
select s (g ∷ gs) (h ∷ hs) = bit_xor h (bit_and s (bit_xor g h)) ∷ select s gs hs

-- `h` minus 2 ^ 130 - 5, if that does not go below zero.
unfoldable pub freeze : List ℕ → List ℕ
unfolding add1305
freeze h =
    let h' = add1305 h minusp in let s = u32 (2 ^ 32 - get_or h' 16 0 / 2 ^ 7) in select s h h'

unfoldable pub poly1305 : List ℕ → ℕ → List ℕ → List ℕ
poly1305 m n k =
    let r = clamp (slice k 0 16 ++ 0 ∷ []) in
    let h = absorb (suc n) m n (replicate 17 0) r in
    slice (add1305 (freeze h) (slice k 16 16 ++ 0 ∷ [])) 0 16
