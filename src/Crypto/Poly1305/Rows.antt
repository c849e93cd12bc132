-- ===== src/Crypto/Poly1305/Rows.antt =====
-- src/nuki_crypto.c: the factors that `poly1305` multiplies a limb with are a multiple of `r` modulo the prime.
use nuki_nrf52_bridge.Base.{
  ℕ, zero, suc, ◌+◌, ◌-◌, ◌*◌, ◌≤◌, ◌≡◌, refl, ap, ◌∙◌, arith, leb, if◌then◌else◌, List, [], ◌∷◌,
  length, get_or, Below, le→leb, lt→leb_false,
}
use nuki_nrf52_bridge.Crypto.Words.{u32}
use nuki_nrf52_bridge.Crypto.Poly1305.Value.{value, shifted, prime}

-- The factor of `h[j]` in `x[i]`.
unfoldable pub coefficient : List ℕ → ℕ → ℕ → ℕ
coefficient r i j = if leb j i then get_or r (i - j) 0 else u32 (320 * get_or r (i + 17 - j) 0)

pub coefficient-le : (r : List ℕ) (i j : ℕ) → Below 256 r → coefficient r i j ≤ 81600
unfolding coefficient
coefficient-le r i j h = ground (arith, h (i - j), h (i + 17 - j))

-- The factors of `h[j]` as the limbs of a number.
unfoldable pub row : List ℕ → ℕ → ℕ → ℕ → ℕ
row r j i zero = 0
row r j i (suc left) = coefficient r i j + 256 * row r j (suc i) left

unfoldable pub rows : List ℕ → ℕ → ℕ → List ℕ → ℕ
rows r j left [] = 0
rows r j left (h ∷ hs) = h * row r j 0 left + rows r (suc j) left hs

-- The limbs of `r` that `j` steps to the left push out at the top.
out_of : List ℕ → ℕ → ℕ
out_of r zero = 0
out_of r (suc j) = get_or r (16 - j) 0 + 256 * out_of r j

row-suc : (r : List ℕ) (j i left : ℕ) → row r (suc j) (suc i) left ≡ row r j i left
unfolding row coefficient
row-suc r j i zero = refl
row-suc r j i (suc left) = omega (arith, same, row-suc r j (suc i) left)
  where
    same : coefficient r (suc i) (suc j) ≡ coefficient r i j
    same = unfold coefficient in ground arith

row-snoc :
    (r : List ℕ) (j i left : ℕ)
    → row r j i (suc left) ≡ row r j i left + shifted left (coefficient r (i + left) j)
unfolding row
row-snoc r j i zero = omega (arith, ap (λ k. coefficient r k j) (none_more i))
  where
    none_more : (i : ℕ) → i + 0 ≡ i
    none_more i = omega arith
row-snoc r j i (suc left) = omega (arith, row-snoc r j (suc i) left, at_end)
  where
    one_more : (i : ℕ) → suc i + left ≡ i + suc left
    one_more i = omega arith

    at_end :
        shifted left (coefficient r (suc i + left) j)
        ≡ shifted left (coefficient r (i + suc left) j)
    at_end = ap (λ k. shifted left (coefficient r k j)) (one_more i)

-- In the row of the lowest limb the factors are the limbs of `r`.
row-first :
    (r xs : List ℕ) (i : ℕ)
    → ((k : ℕ) → get_or r (i + k) 0 ≡ get_or xs k 0)
    → row r 0 i (length xs) ≡ value xs
unfolding row coefficient
row-first r [] i h = refl
row-first r (x ∷ xs) i h =
    omega
      (arith, here, row-first r xs (suc i) (λ k. ap (λ n. get_or r n 0) (one_more i k) ∙ h (suc k)))
  where
    one_more : (i k : ℕ) → suc i + k ≡ i + suc k
    one_more i k = omega arith

    same : (i : ℕ) → i ≡ i + 0
    same i = omega arith

    minus_none : (i : ℕ) → i - 0 ≡ i
    minus_none i = omega arith

    here : coefficient r i 0 ≡ x
    here =
        unfold coefficient in
        rw (le→leb 0 i (omega arith)) (ap (λ n. get_or r n 0) (minus_none i ∙ same i) ∙ h 0)

pushed_out :
    (r : List ℕ) (j : ℕ) → Below 256 r → coefficient r 0 (suc j) ≡ 320 * get_or r (16 - j) 0
unfolding coefficient
pushed_out r j b =
    rw (lt→leb_false 0 (suc j) (omega arith))
      (omega (arith, ap (λ n. get_or r n 0) (seventeen j), b (0 + 17 - suc j)))
  where
    seventeen : (j : ℕ) → 0 + 17 - suc j ≡ 16 - j
    seventeen j = omega arith

at_top : (r : List ℕ) (j : ℕ) → j ≤ 16 → coefficient r 16 j ≡ get_or r (16 - j) 0
unfolding coefficient
at_top r j h = rw (le→leb j 16 h)

-- A row is `r`, so many limbs up, but for a multiple of 2 ^ 136 - 320, which is 64 times the prime.
shifted-row :
    (r : List ℕ) (j : ℕ)
    → j ≤ 17
    → length r ≡ 17
    → Below 256 r
    → shifted j (value r) ≡ row r j 0 17 + 64 * prime * out_of r j
unfolding out_of
shifted-row r zero h e b =
    omega (arith, row-first r r 0 (λ k. ap (λ n. get_or r n 0) (none_more k)), ap (row r 0 0) e)
  where
    none_more : (k : ℕ) → 0 + k ≡ k
    none_more k = omega arith
shifted-row r (suc j) h e b = omega (
  arith,
  shifted-row r j (omega arith) e b,
  first r j,
  row-suc r j 0 16,
  row-snoc r j 0 16,
  pushed_out r j b,
  at_top r j (omega arith),
)
  where
    first :
        (r : List ℕ) (j : ℕ)
        → row r (suc j) 0 17 ≡ coefficient r 0 (suc j) + 256 * row r (suc j) 1 16
    first r j = unfold row in refl

shifted-mul : (j a b : ℕ) → shifted j a * b ≡ a * shifted j b
shifted-mul zero a b = refl
shifted-mul (suc j) a b = omega (arith, shifted-mul j a b)

shifted-add : (j a b : ℕ) → shifted j (a + 256 * b) ≡ shifted j a + shifted (suc j) b
shifted-add zero a b = refl
shifted-add (suc j) a b = omega (arith, shifted-add j a b)

pub lost : List ℕ → ℕ → List ℕ → ℕ
lost r j [] = 0
lost r j (h ∷ hs) = h * out_of r j + lost r (suc j) hs

pub product :
    (r : List ℕ) (j : ℕ) (hs : List ℕ)
    → j + length hs ≤ 17
    → length r ≡ 17
    → Below 256 r
    → shifted j (value hs) * value r ≡ rows r j 17 hs + 64 * prime * lost r j hs
unfolding rows lost
product r j [] h e b = omega (arith, shifted-mul j 0 (value r))
product r j (x ∷ hs) h e b = omega (
  arith,
  ap (λ t. t * value r) (shifted-add j x (value hs)),
  shifted-mul j x (value r),
  ap (λ t. x * t) (shifted-row r j (omega arith) e b),
  product r (suc j) hs (omega arith) e b,
)
