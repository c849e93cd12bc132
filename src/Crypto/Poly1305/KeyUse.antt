-- ===== src/Crypto/Poly1305/KeyUse.antt =====
-- src/nuki_crypto.c: which part of its inputs `poly1305` reads.
use nuki_nrf52_bridge.Base.{
  ℕ, suc, ◌<◌, List, [], ◌∷◌, ◌++◌, ◌≡◌, ap₂, arith, length, get_or, slice, slice_ext, length-slice,
  replicate,
}
use nuki_nrf52_bridge.Crypto.Poly1305.{poly1305, clamp, absorb, add1305, freeze}

-- Keys that agree on their first 32 bytes give one tag.
pub poly1305_ext :
    (m : List ℕ) (n : ℕ) (k k' : List ℕ)
    → ((i : ℕ) → i < 32 → get_or k i 0 ≡ get_or k' i 0)
    → poly1305 m n k ≡ poly1305 m n k'
unfolding poly1305
poly1305_ext m n k k' h =
    ap₂ (λ r s. tag (clamp (r ++ 0 ∷ [])) (s ++ 0 ∷ []))
      (slice_ext k k' 0 16 (λ i p q. h i (omega arith)))
      (slice_ext k k' 16 16 (λ i p q. h i (omega arith)))
  where
    tag : List ℕ → List ℕ → List ℕ
    tag r s = slice (add1305 (freeze (absorb (suc n) m n (replicate 17 0) r)) s) 0 16

-- The tag has 16 bytes.
pub length-poly1305 : (m : List ℕ) (n : ℕ) (k : List ℕ) → length (poly1305 m n k) ≡ 16
unfolding poly1305
length-poly1305 m n k =
    length-slice
      (add1305 (freeze (absorb (suc n) m n (replicate 17 0) (clamp (slice k 0 16 ++ 0 ∷ []))))
        (slice k 16 16 ++ 0 ∷ []))
      0 16
