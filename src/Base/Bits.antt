-- ===== src/Base/Bits.antt =====
-- Laws of the bit operations at variables: exclusive or is its own inverse, the results fit the
-- width of the operands, and masks and joins of fields are arithmetic.
pub mod Step
use Step.{bit_or_step, bit_and_step, bit_xor_step, zero-bit_xor}
use Prim.Native.Nat.{ℕ, zero, suc, ◌+◌, ◌-◌, ◌*◌, ◌/◌, ◌%◌, ◌^◌, ◌≤◌, ◌<◌, bit_and, bit_or, bit_xor}
use mathlib.Core.Path.{◌≡◌, refl, ap}
use native.Mathlib.Nat.{le_refl, pow-suc, one-le-pow}
use native.Mathlib.Omega.{arith}

bit_xor-zero_fuel : (n a : ℕ) → a ≤ n → bit_xor a 0 ≡ a
bit_xor-zero_fuel n zero h = refl
bit_xor-zero_fuel zero (suc a) h = absurd (omega arith)
bit_xor-zero_fuel (suc n) (suc a) h =
    omega (arith, bit_xor_step (suc a) 0, bit_xor-zero_fuel n (suc a / 2) (omega arith))

pub bit_xor-zero : (a : ℕ) → bit_xor a 0 ≡ a
bit_xor-zero a = bit_xor-zero_fuel a a (le_refl a)

xor_twice_fuel : (n a b : ℕ) → a ≤ n → b ≤ n → bit_xor (bit_xor a b) b ≡ a
xor_twice_fuel zero zero zero p q = refl
xor_twice_fuel zero zero (suc b) p q = absurd (omega arith)
xor_twice_fuel zero (suc a) b p q = absurd (omega arith)
xor_twice_fuel (suc n) a b p q =
    let half : bit_xor a b / 2 ≡ bit_xor (a / 2) (b / 2) = omega (arith, bit_xor_step a b) in
    let inner : bit_xor (bit_xor a b / 2) (b / 2) ≡ a / 2 =
      rw half (xor_twice_fuel n (a / 2) (b / 2) (omega arith) (omega arith)) in
    omega (arith, bit_xor_step a b, bit_xor_step (bit_xor a b) b, inner)

-- Applying the same mask twice gives the value back.
pub bit_xor_twice : (a b : ℕ) → bit_xor (bit_xor a b) b ≡ a
bit_xor_twice a b = xor_twice_fuel (a + b) a b (omega arith) (omega arith)

pub bit_xor_cancel : (a b c : ℕ) → bit_xor a c ≡ bit_xor b c → a ≡ b
bit_xor_cancel a b c h =
    omega (arith, bit_xor_twice a c, bit_xor_twice b c, ap (λ (t : ℕ). bit_xor t c) h)

xor_comm_fuel : (n a b : ℕ) → a ≤ n → b ≤ n → bit_xor a b ≡ bit_xor b a
xor_comm_fuel zero zero zero p q = refl
xor_comm_fuel zero zero (suc b) p q = absurd (omega arith)
xor_comm_fuel zero (suc a) b p q = absurd (omega arith)
xor_comm_fuel (suc n) a b p q = omega (
  arith,
  bit_xor_step a b,
  bit_xor_step b a,
  xor_comm_fuel n (a / 2) (b / 2) (omega arith) (omega arith),
)

pub bit_xor_comm : (a b : ℕ) → bit_xor a b ≡ bit_xor b a
bit_xor_comm a b = xor_comm_fuel (a + b) a b (omega arith) (omega arith)

pub eq_of-bit_xor-zero : (a b : ℕ) → bit_xor a b ≡ 0 → a ≡ b
eq_of-bit_xor-zero a b h =
    omega (arith, bit_xor_twice a b, ap (λ (t : ℕ). bit_xor t b) h, zero-bit_xor b)

pub bit_xor_self : (a : ℕ) → bit_xor a a ≡ 0
bit_xor_self a = omega (arith, ap (λ (t : ℕ). bit_xor t a) (zero-bit_xor a), bit_xor_twice 0 a)

pub bit_xor-lt : (k a b : ℕ) → a < 2 ^ k → b < 2 ^ k → bit_xor a b < 2 ^ k
bit_xor-lt zero zero zero p q = omega arith
bit_xor-lt zero zero (suc b) p q = absurd (omega arith)
bit_xor-lt zero (suc a) b p q = absurd (omega arith)
bit_xor-lt (suc k) a b p q = omega (
  arith,
  pow-suc 2 k,
  bit_xor_step a b,
  bit_xor-lt k (a / 2) (b / 2) (omega (arith, pow-suc 2 k)) (omega (arith, pow-suc 2 k)),
)

pub bit_or-lt : (k a b : ℕ) → a < 2 ^ k → b < 2 ^ k → bit_or a b < 2 ^ k
bit_or-lt zero zero zero p q = omega arith
bit_or-lt zero zero (suc b) p q = absurd (omega arith)
bit_or-lt zero (suc a) b p q = absurd (omega arith)
bit_or-lt (suc k) a b p q = omega (
  arith,
  pow-suc 2 k,
  bit_or_step a b,
  bit_or-lt k (a / 2) (b / 2) (omega (arith, pow-suc 2 k)) (omega (arith, pow-suc 2 k)),
)

-- A disjunction is zero only of two zeros.
or_zero_fuel : (n a b : ℕ) → a ≤ n → b ≤ n → bit_or a b ≡ 0 → (a ≡ 0) × (b ≡ 0)
or_zero_fuel zero a b p q h = (omega arith, omega arith)
or_zero_fuel (suc n) a b p q h =
    let below : (a / 2 ≡ 0) × (b / 2 ≡ 0) =
      or_zero_fuel n (a / 2) (b / 2) (omega arith) (omega arith) (omega (arith, bit_or_step a b)) in
    (omega (arith, bit_or_step a b, below), omega (arith, bit_or_step a b, below))

pub zero_of-bit_or : (a b : ℕ) → bit_or a b ≡ 0 → (a ≡ 0) × (b ≡ 0)
zero_of-bit_or a b h = or_zero_fuel (a + b) a b (omega arith) (omega arith) h

-- The operations with a second operand of zero.
with_zero : (fuel x : ℕ) → x ≤ fuel → (bit_or x 0 ≡ x) × (bit_and x 0 ≡ 0)
with_zero fuel zero enough = (refl, refl)
with_zero zero (suc x) enough = absurd (omega arith)
with_zero (suc fuel) (suc x) enough =
    let below = with_zero fuel (suc x / 2) (omega arith) in
    (omega (arith, bit_or_step (suc x) 0, below.0), omega (arith, bit_and_step (suc x) 0, below.1))

times_pow-suc : (q k : ℕ) → q * 2 ^ suc k ≡ 2 * (q * 2 ^ k)
times_pow-suc q k = omega (arith, ap (λ (t : ℕ). q * t) (pow-suc 2 k))

-- Joining a shifted value and a low field is addition.
pub bit_or_join : (k q r : ℕ) → r < 2 ^ k → bit_or (q * 2 ^ k) r ≡ q * 2 ^ k + r
bit_or_join zero q zero h = omega (arith, (with_zero _ (q * 1) (le_refl _)).0)
bit_or_join zero q (suc r) h = absurd (omega arith)
bit_or_join (suc k) q r h = ground (
  arith,
  bit_or_step (q * 2 ^ suc k) r,
  times_pow-suc q k,
  pow-suc 2 k,
  bit_or_join k q (r / 2) (omega (arith, pow-suc 2 k)),
)

bit_and_field : (k q r : ℕ) → r < 2 ^ k → bit_and (q * 2 ^ k + r) (2 ^ k - 1) ≡ r
bit_and_field zero q r h = omega (arith, (with_zero _ (q * 1 + r) (le_refl _)).1)
bit_and_field (suc k) q r h = ground (
  arith,
  bit_and_step (q * 2 ^ suc k + r) (2 ^ suc k - 1),
  times_pow-suc q k,
  pow-suc 2 k,
  one-le-pow k 2,
  bit_and_field k q (r / 2) (omega (arith, pow-suc 2 k)),
)

-- A mask of `k` ones keeps the remainder.
pub bit_and_low : (k a : ℕ) → bit_and a (2 ^ k - 1) ≡ a % 2 ^ k
bit_and_low k a = ground (arith, one-le-pow k 2, bit_and_field k (a / 2 ^ k) (a % 2 ^ k))

-- A test of one bit.
pub bit_and_pow : (k q r : ℕ) → r < 2 ^ k → bit_and (q * 2 ^ k + r) (2 ^ k) ≡ q % 2 * 2 ^ k
bit_and_pow zero q r h =
    omega (arith, bit_and_step (q * 1 + r) 1, (with_zero _ ((q * 1 + r) / 2) (le_refl _)).1)
bit_and_pow (suc k) q r h = ground (
  arith,
  bit_and_step (q * 2 ^ suc k + r) (2 ^ suc k),
  times_pow-suc q k,
  times_pow-suc (q % 2) k,
  pow-suc 2 k,
  bit_and_pow k q (r / 2) (omega (arith, pow-suc 2 k)),
)

-- A mask below `2 ^ k` leaves what stands above alone.
pub bit_xor_field :
    (k q r s : ℕ) → r < 2 ^ k → s < 2 ^ k → bit_xor (q * 2 ^ k + r) s ≡ q * 2 ^ k + bit_xor r s
bit_xor_field zero q zero zero h p = omega (arith, bit_xor-zero (q * 1 + 0), bit_xor-zero 0)
bit_xor_field zero q (suc r) s h p = absurd (omega arith)
bit_xor_field zero q zero (suc s) h p = absurd (omega arith)
bit_xor_field (suc k) q r s h p = ground (
  arith,
  bit_xor_step (q * 2 ^ suc k + r) s,
  bit_xor_step r s,
  times_pow-suc q k,
  pow-suc 2 k,
  bit_xor_field k q (r / 2) (s / 2) (omega (arith, pow-suc 2 k)) (omega (arith, pow-suc 2 k)),
)
