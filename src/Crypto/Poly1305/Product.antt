-- ===== src/Crypto/Poly1305/Product.antt =====
-- src/nuki_crypto.c: the product of `poly1305`, whose upper half is folded back as it is summed.
use nuki_nrf52_bridge.Base.{
  ℕ, zero, suc, ◌+◌, ◌*◌, ◌<◌, ◌≤◌, ◌≡◌, refl, sym, ap, ap₂, ◌∙◌, arith, List, [], ◌∷◌, length,
  subst, Below,
}
use native.Mathlib.Nat.{mul-le-mul}
use nuki_nrf52_bridge.Crypto.Words.{u32}
use nuki_nrf52_bridge.Crypto.Poly1305.{limb_product, multiply_loop, multiply}
use nuki_nrf52_bridge.Crypto.Poly1305.Value.{value, Limbs, prime}
use nuki_nrf52_bridge.Crypto.Poly1305.Rows.{coefficient, coefficient-le, row, rows, lost, product}

-- `x[i]` without a bound.
sum_at : List ℕ → ℕ → ℕ → List ℕ → ℕ
sum_at r i j [] = 0
sum_at r i j (h ∷ hs) = h * coefficient r i j + sum_at r i (suc j) hs

-- What the sum of so many terms has at most.
at_most : ℕ → ℕ
at_most zero = 0
at_most (suc n) = 20808000 + at_most n

sum_at-le :
    (r : List ℕ) (i j : ℕ) (hs : List ℕ)
    → Below 256 r
    → Limbs 256 hs
    → sum_at r i j hs ≤ at_most (length hs)
unfolding sum_at at_most
sum_at-le r i j [] b p = omega arith
sum_at-le r i j (h ∷ hs) b p =
    let top : h ≤ 255 = omega (arith, p.0) in
    omega (arith, mul-le-mul top (coefficient-le r i j b), sum_at-le r i (suc j) hs b p.1)

limb_product-exact :
    (r : List ℕ) (i j : ℕ) (hs : List ℕ) (x : ℕ)
    → Below 256 r
    → Limbs 256 hs
    → x + at_most (length hs) < 4294967296
    → limb_product r i j hs x ≡ x + sum_at r i j hs
unfolding sum_at at_most coefficient
limb_product-exact r i j [] x b p h = omega arith
limb_product-exact r i j (y ∷ hs) x b p h =
    let c = coefficient r i j in
    let top : y ≤ 255 = omega (arith, p.0) in
    let term = mul-le-mul top (coefficient-le r i j b) in
    let next : u32 (x + u32 (y * c)) ≡ x + y * c = omega (arith, term, h) in
    ap (limb_product r i (suc j) hs) next
    ∙ limb_product-exact r i (suc j) hs (x + y * c) b p.1 (omega (arith, term, h))
    ∙ omega arith

-- The sums from `i` on, as the limbs of a number.
sums : List ℕ → ℕ → ℕ → ℕ → List ℕ → List ℕ
sums r i zero j hs = []
sums r i (suc left) j hs = sum_at r i j hs ∷ sums r (suc i) left j hs

sums-none : (r : List ℕ) (i left j : ℕ) → value (sums r i left j []) ≡ 0
unfolding sums sum_at
sums-none r i zero j = refl
sums-none r i (suc left) j = omega (arith, sums-none r (suc i) left j)

sums-cons :
    (r : List ℕ) (i left j h : ℕ) (hs : List ℕ)
    → value (sums r i left j (h ∷ hs)) ≡ h * row r j i left + value (sums r i left (suc j) hs)
unfolding sums sum_at row
sums-cons r i zero j h hs = omega arith
sums-cons r i (suc left) j h hs = omega (arith, sums-cons r (suc i) left j h hs)

sums-rows : (r : List ℕ) (left j : ℕ) (hs : List ℕ) → value (sums r 0 left j hs) ≡ rows r j left hs
unfolding rows
sums-rows r left j [] = sums-none r 0 left j
sums-rows r left j (h ∷ hs) = omega (arith, sums-cons r 0 left j h hs, sums-rows r left (suc j) hs)

multiply-sums :
    (h r : List ℕ) (i left : ℕ)
    → length h ≡ 17
    → Limbs 256 h
    → Below 256 r
    → multiply_loop h r i left ≡ sums r i left 0 h
unfolding sums
multiply-sums h r i zero m p b = refl
multiply-sums h r i (suc left) m p b =
    ap₂ ◌∷◌ (limb_product-exact r i 0 h 0 b p (room (length h) m) ∙ none_more (sum_at r i 0 h))
      (multiply-sums h r (suc i) left m p b)
  where
    none_more : (k : ℕ) → 0 + k ≡ k
    none_more k = omega arith

    room : (n : ℕ) → n ≡ 17 → 0 + at_most n < 4294967296
    room n e = unfold at_most in subst (λ k. 0 + at_most k < 4294967296) (sym e) (omega arith)

length-sums : (r : List ℕ) (i left : ℕ) (hs : List ℕ) → length (sums r i left 0 hs) ≡ left
unfolding sums
length-sums r i zero hs = refl
length-sums r i (suc left) hs = ap suc (length-sums r (suc i) left hs)

sums-Limbs :
    (r : List ℕ) (i left : ℕ) (hs : List ℕ)
    → length hs ≡ 17
    → Limbs 256 hs
    → Below 256 r
    → Limbs 536870912 (sums r i left 0 hs)
unfolding sums
sums-Limbs r i zero hs m p b = tt
sums-Limbs r i (suc left) hs m p b =
    (omega (arith, sum_at-le r i 0 hs b p, seventeen), sums-Limbs r (suc i) left hs m p b)
  where
    seventeen : at_most (length hs) ≡ 353736000
    seventeen = ap at_most m ∙ unfold at_most in refl

-- The product modulo the prime, in limbs that the reduction can take.
pub record Multiplied (total : ℕ) (out : List ℕ) : Type 0 where
  pub times : ℕ
  pub exact : total ≡ value out + prime * times
  pub size : length out ≡ 17
  pub limbs : Limbs 536870912 out

pub multiply-Multiplied :
    (h r : List ℕ)
    → length h ≡ 17
    → length r ≡ 17
    → Limbs 256 h
    → Below 256 r
    → Multiplied (value h * value r) (multiply h r)
unfolding multiply
multiply-Multiplied h r m e p b =
    subst (Multiplied (value h * value r)) (sym (multiply-sums h r 0 17 m p b)) (record {
      times = 64 * lost r 0 h;
      exact = omega (arith, product r 0 h (omega (arith, m)) e b, sums-rows r 17 0 h);
      size = length-sums r 0 17 h;
      limbs = sums-Limbs r 0 17 h m p b;
    })
