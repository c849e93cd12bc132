-- ===== src/Base/Bits/Step.antt =====
-- Each bit operation, written with the operation on the halves and the two lowest digits. The native
-- operations stand for `bitwise`, which walks over binary digits with its first operand as fuel.
use Prim.Native.Nat.{
  ℕ, zero, suc, ◌+◌, ◌-◌, ◌*◌, ◌/◌, ◌%◌, ◌≤◌, ◌<◌, min, max, bit_and, bit_or, bit_xor, digits,
  bitwise, differ, bit_and-bitwise, bit_or-bitwise, bit_xor-bitwise,
}
use mathlib.Core.Path.{◌≡◌, refl, ap, sym, ◌∙◌}
use native.Mathlib.Omega.{arith}

module _ (on_zero : ℕ → ℕ) (on_digit : ℕ → ℕ → ℕ) where
  -- One unit of fuel above the operand is not used.
  spare_unit :
      (fuel x y : ℕ)
      → x ≤ fuel
      → digits on_zero on_digit (suc fuel) x y ≡ digits on_zero on_digit fuel x y
  spare_unit zero zero y enough = refl
  spare_unit zero (suc x) y enough = absurd (omega arith)
  spare_unit (suc fuel) zero y enough = refl
  spare_unit (suc fuel) (suc x) y enough =
      ap (λ (above : ℕ). above * 2 + on_digit (suc x % 2) (y % 2))
        (spare_unit fuel (suc x / 2) (y / 2) (omega arith))

  spare_units :
      (spare x y : ℕ) → digits on_zero on_digit (spare + x) x y ≡ bitwise on_zero on_digit x y
  spare_units zero x y = ap (λ (fuel : ℕ). digits on_zero on_digit fuel x y) (omega arith)
  spare_units (suc spare) x y =
      ap (λ (fuel : ℕ). digits on_zero on_digit fuel x y) (one_more spare)
      ∙ spare_unit (spare + x) x y (omega arith)
      ∙ spare_units spare x y
    where
      one_more : (n : ℕ) → suc n + x ≡ suc (n + x)
      one_more n = omega arith

  -- Above zero the halves need no more fuel than there is.
  halves :
      (x y : ℕ)
      → bitwise on_zero on_digit (suc x) y
        ≡ bitwise on_zero on_digit (suc x / 2) (y / 2) * 2 + on_digit (suc x % 2) (y % 2)
  halves x y =
      ap (λ (above : ℕ). above * 2 + on_digit (suc x % 2) (y % 2))
        (ap (λ (fuel : ℕ). digits on_zero on_digit fuel (suc x / 2) (y / 2)) (split x)
          ∙ spare_units (x - suc x / 2) (suc x / 2) (y / 2))
    where
      split : (n : ℕ) → n ≡ n - suc n / 2 + suc n / 2
      split n = omega arith

pub zero-bit_xor : (y : ℕ) → bit_xor 0 y ≡ y
zero-bit_xor y = bit_xor-bitwise 0 y

zero-bit_or : (y : ℕ) → bit_or 0 y ≡ y
zero-bit_or y = bit_or-bitwise 0 y

pub zero-bit_and : (y : ℕ) → bit_and 0 y ≡ 0
zero-bit_and y = bit_and-bitwise 0 y

-- The exclusive or of two digits, as arithmetic.
differ_digits : (x y : ℕ) → x < 2 → y < 2 → differ x y ≡ (x + y) % 2
differ_digits zero y p q = omega arith
differ_digits (suc zero) zero p q = refl
differ_digits (suc zero) (suc zero) p q = refl
differ_digits (suc zero) (suc (suc y)) p q = absurd (omega arith)
differ_digits (suc (suc x)) y p q = absurd (omega arith)

pub bit_xor_step : (x y : ℕ) → bit_xor x y ≡ bit_xor (x / 2) (y / 2) * 2 + (x % 2 + y % 2) % 2
bit_xor_step zero y = omega (arith, zero-bit_xor y, zero-bit_xor (y / 2))
bit_xor_step (suc x) y = omega (
  arith,
  bit_xor-bitwise (suc x) y,
  bit_xor-bitwise (suc x / 2) (y / 2),
  halves (λ v. v) differ x y,
  differ_digits (suc x % 2) (y % 2) (omega arith) (omega arith),
)

pub bit_or_step : (x y : ℕ) → bit_or x y ≡ bit_or (x / 2) (y / 2) * 2 + max (x % 2) (y % 2)
bit_or_step zero y = omega (arith, zero-bit_or y, zero-bit_or (y / 2))
bit_or_step (suc x) y =
    bit_or-bitwise (suc x) y
    ∙ halves (λ v. v) max x y
    ∙ ap (λ (above : ℕ). above * 2 + max (suc x % 2) (y % 2))
        (sym (bit_or-bitwise (suc x / 2) (y / 2)))

pub bit_and_step : (x y : ℕ) → bit_and x y ≡ bit_and (x / 2) (y / 2) * 2 + min (x % 2) (y % 2)
bit_and_step zero y = omega (arith, zero-bit_and y, zero-bit_and (y / 2))
bit_and_step (suc x) y =
    bit_and-bitwise (suc x) y
    ∙ halves (λ v. 0) min x y
    ∙ ap (λ (above : ℕ). above * 2 + min (suc x % 2) (y % 2))
        (sym (bit_and-bitwise (suc x / 2) (y / 2)))
