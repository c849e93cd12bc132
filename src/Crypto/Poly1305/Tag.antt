-- ===== src/Crypto/Poly1305/Tag.antt =====
-- src/nuki_crypto.c: the tag that `poly1305` gives.
use nuki_nrf52_bridge.Base.{
  ℕ, zero, suc, ◌+◌, ◌*◌, ◌/◌, ◌%◌, ◌<◌, ◌≤◌, ◌≡◌, refl, ap, ap₂, ◌∙◌, arith, bit_and, List, [],
  ◌∷◌, ◌++◌, length, All, get_or, set, take, slice, replicate, le_bytes, concat, Below,
  Below-of_All, length-append, length-slice, length-set, slice-zero,
}
use nuki_nrf52_bridge.Base.Bits.Step.{bit_and_step, zero-bit_and}
use nuki_nrf52_bridge.Crypto.Poly1305.{add1305, absorb, clamp, mask_limb, freeze, poly1305}
use nuki_nrf52_bridge.Crypto.Poly1305.Value.{value, shifted, Limbs, prime, add1305_lem, value-lt_at}
use nuki_nrf52_bridge.Crypto.Poly1305.Freeze.{Frozen, freeze-Frozen}
use nuki_nrf52_bridge.Crypto.Poly1305.Mac.{
  Holds, IsChunks, polynomial, absorb-Holds, value-joined, Limbs-joined, Limbs-slice,
}

and_le_fuel : (n a b : ℕ) → a ≤ n → bit_and a b ≤ a
and_le_fuel zero zero b h = omega (arith, bit_and_step 0 b, zero-bit_and b)
and_le_fuel zero (suc a) b h = absurd (omega arith)
and_le_fuel (suc n) a b h =
    omega (arith, bit_and_step a b, and_le_fuel n (a / 2) (b / 2) (omega arith))

bit_and-le : (a b : ℕ) → bit_and a b ≤ a
bit_and-le a b = and_le_fuel a a b (omega arith)

Limbs-set : (xs : List ℕ) (i v : ℕ) → Limbs 256 xs → v < 256 → Limbs 256 (set xs i v)
Limbs-set [] i v p h = tt
Limbs-set (x ∷ xs) zero v p h = (h, p.1)
Limbs-set (x ∷ xs) (suc i) v p h = (p.0, Limbs-set xs i v p.1 h)

Limbs-mask_limb : (i mask : ℕ) (r : List ℕ) → Limbs 256 r → Limbs 256 (mask_limb i mask r)
Limbs-mask_limb i mask r p =
    Limbs-set r i (bit_and (get_or r i 0) mask) p
      (omega (arith, bit_and-le (get_or r i 0) mask, Below-of_All 256 r (omega arith) p i))

-- What is kept of the key's first half: limbs of 8 bits, seventeen of them.
record Key (r : List ℕ) : Type 0 where
  size : length r ≡ 17
  limbs : Limbs 256 r

mask_limb-Key : (i mask : ℕ) (r : List ℕ) → Key r → Key (mask_limb i mask r)
mask_limb-Key i mask r s = record {
  size = length-set r i (bit_and (get_or r i 0) mask) ∙ s.size;
  limbs = Limbs-mask_limb i mask r s.limbs;
}

half-Key : (k : List ℕ) (i : ℕ) → Below 256 k → Key (slice k i 16 ++ 0 ∷ [])
half-Key k i b = record {
  size = length-append (slice k i 16) (0 ∷ []) ∙ ap (λ n. n + 1) (length-slice k i 16);
  limbs = Limbs-joined 256 (slice k i 16) (0 ∷ []) (Limbs-slice k i 16 b) (omega arith, tt);
}

clamp-Key : (r : List ℕ) → Key r → Key (clamp r)
unfolding clamp
clamp-Key r s = mask_limb-Key 15 15 _ (
    mask_limb-Key 12 252 _ (
      mask_limb-Key 11 15 _ (
        mask_limb-Key 8 252 _
          (mask_limb-Key 7 15 _ (mask_limb-Key 4 252 _ (mask_limb-Key 3 15 r s))))))

take-digits :
    (n : ℕ) (xs : List ℕ) → n ≤ length xs → Limbs 256 xs → take n xs ≡ le_bytes n (value xs)
take-digits zero xs h p = refl
take-digits (suc n) [] h p = absurd (omega arith)
take-digits (suc n) (x ∷ xs) h p =
    ap₂ ◌∷◌ (low x (value xs) p.0)
      (take-digits n xs (omega arith) p.1 ∙ ap (le_bytes n) (high x (value xs) p.0))
  where
    low : (x v : ℕ) → x < 256 → x ≡ (x + 256 * v) % 256
    low x v h = omega arith

    high : (x v : ℕ) → x < 256 → v ≡ (x + 256 * v) / 256
    high x v h = omega arith

value-half : (k : List ℕ) (i : ℕ) → value (slice k i 16 ++ 0 ∷ []) ≡ value (slice k i 16)
value-half k i = omega (
  arith,
  value-joined (slice k i 16) (0 ∷ []),
  ap (λ n. shifted n (0 + 256 * 0)) (length-slice k i 16),
)

-- The sum with the key's second half, without the carry out of 16 bytes.
sealed_sum :
    (poly : ℕ) (h s : List ℕ)
    → Frozen poly h
    → Key s
    → value s < 340282366920938463463374607431768211456
    → slice (add1305 h s) 0 16 ≡ le_bytes 16 (poly % prime + value s)
sealed_sum poly h s f k small =
    let a = add1305_lem h s f.size k.size f.limbs k.limbs in
    let total : value (add1305 h s) ≡ poly % prime + value s =
      omega (arith, a.exact, a.small, f.exact, small) in
    slice-zero (add1305 h s) 16 (omega (arith, a.size))
    ∙ take-digits 16 (add1305 h s) (omega (arith, a.size)) a.limbs
    ∙ ap (le_bytes 16) total

zeros-Holds : Holds 0 (replicate 17 0)
zeros-Holds = record { size = refl; limbs = ground arith; small = omega arith; exact = refl }

-- For a message of bytes, cut into chunks of 16 of which the last may be shorter, and a key of bytes: `poly1305`
-- gives the 16 low bytes of the value at `r` of the polynomial over the chunks, each with a one on top, modulo
-- 2 ^ 130 - 5, plus the key's second half, where `r` is the key's first half with the bits cleared that the
-- algorithm clears.
pub poly1305_lem :
    (cs : List (List ℕ)) (k : List ℕ)
    → IsChunks cs
    → All (Limbs 256) cs
    → Below 256 k
    → let r = value (clamp (slice k 0 16 ++ 0 ∷ [])) in
      poly1305 (concat cs) (length (concat cs)) k
      ≡ le_bytes 16 (polynomial r cs 0 + value (slice k 16 16))
unfolding poly1305
poly1305_lem cs k chunks p b =
    let r = clamp (slice k 0 16 ++ 0 ∷ []) in
    let key = clamp-Key (slice k 0 16 ++ 0 ∷ []) (half-Key k 0 b) in
    let h = absorb (suc (length (concat cs))) (concat cs) (length (concat cs)) (replicate 17 0) r in
    let sum =
      absorb-Holds (suc (length (concat cs))) cs 0 (replicate 17 0) r (omega arith) chunks p
        key.size (Below-of_All 256 r (omega arith) key.limbs) zeros-Holds in
    sealed_sum (value h) (freeze h) (slice k 16 16 ++ 0 ∷ [])
      (freeze-Frozen h sum.size sum.limbs sum.small) (half-Key k 16 b) (second_half k b)
    ∙ ap₂ (λ a s. le_bytes 16 (a + s)) sum.exact (value-half k 16)
  where
    second_half :
        (k : List ℕ)
        → Below 256 k
        → value (slice k 16 16 ++ 0 ∷ []) < 340282366920938463463374607431768211456
    second_half k b = omega (
      arith,
      value-half k 16,
      value-lt_at 16 (slice k 16 16) (length-slice k 16 16) (Limbs-slice k 16 16 b),
    )
