-- ===== src/Crypto/Poly1305/Freeze.antt =====
-- src/nuki_crypto.c: the end of `poly1305`, which takes the prime off without a branch.
use nuki_nrf52_bridge.Base.{
  ℕ, zero, suc, ◌+◌, ◌-◌, ◌*◌, ◌/◌, ◌%◌, ◌^◌, ◌<◌, ◌≤◌, ◌≡◌, refl, sym, ap, ap₂, ◌∙◌, arith,
  bit_and, bit_xor, List, [], ◌∷◌, length, get_or, subst, dec_lt,
}
use nuki_nrf52_bridge.Base.Bits.{bit_xor-lt, bit_xor_comm, bit_xor_twice, bit_xor-zero, bit_and_low}
use nuki_nrf52_bridge.Base.Bits.Step.{bit_and_step}
use nuki_nrf52_bridge.Crypto.Words.{u32}
use nuki_nrf52_bridge.Crypto.Poly1305.{add1305, minusp, select, freeze}
use nuki_nrf52_bridge.Crypto.Poly1305.Value.{
  value, shifted, Limbs, prime, Sum, add1305_lem, value-lt_at,
}

and_comm_fuel : (n a b : ℕ) → a ≤ n → b ≤ n → bit_and a b ≡ bit_and b a
and_comm_fuel zero zero zero p q = refl
and_comm_fuel zero zero (suc b) p q = absurd (omega arith)
and_comm_fuel zero (suc a) b p q = absurd (omega arith)
and_comm_fuel (suc n) a b p q = omega (
  arith,
  bit_and_step a b,
  bit_and_step b a,
  and_comm_fuel n (a / 2) (b / 2) (omega arith) (omega arith),
)

bit_and_comm : (a b : ℕ) → bit_and a b ≡ bit_and b a
bit_and_comm a b = and_comm_fuel (a + b) a b (omega arith) (omega arith)

-- A mask of ones takes the first operand of the exclusive or, a mask of zeros the second.
mask_ones : (g h : ℕ) → bit_xor g h < 4294967296 → bit_xor h (bit_and 4294967295 (bit_xor g h)) ≡ g
mask_ones g h p =
    ap (bit_xor h)
      (bit_and_comm 4294967295 (bit_xor g h) ∙ bit_and_low 32 (bit_xor g h) ∙ below (bit_xor g h) p)
    ∙ bit_xor_comm h (bit_xor g h)
    ∙ bit_xor_twice g h
  where
    below : (x : ℕ) → x < 4294967296 → x % 4294967296 ≡ x
    below x p = omega arith

mask_zeros : (g h : ℕ) → bit_xor h (bit_and 0 (bit_xor g h)) ≡ h
mask_zeros g h =
    ap (bit_xor h) (bit_and_comm 0 (bit_xor g h) ∙ bit_and_low 0 (bit_xor g h) ∙ none (bit_xor g h))
    ∙ bit_xor-zero h
  where
    none : (x : ℕ) → x % 1 ≡ 0
    none x = omega arith

select_ones :
    (gs hs : List ℕ)
    → length gs ≡ length hs
    → Limbs 256 gs
    → Limbs 256 hs
    → select 4294967295 gs hs ≡ gs
select_ones [] [] e p q = refl
select_ones [] (h ∷ hs) e p q = absurd (omega arith)
select_ones (g ∷ gs) [] e p q = absurd (omega arith)
select_ones (g ∷ gs) (h ∷ hs) e p q =
    ap₂ ◌∷◌ (mask_ones g h (omega (arith, bit_xor-lt 8 g h p.0 q.0)))
      (select_ones gs hs (omega arith) p.1 q.1)

select_zeros : (gs hs : List ℕ) → length gs ≡ length hs → select 0 gs hs ≡ hs
select_zeros [] [] e = refl
select_zeros [] (h ∷ hs) e = absurd (omega arith)
select_zeros (g ∷ gs) [] e = absurd (omega arith)
select_zeros (g ∷ gs) (h ∷ hs) e = ap₂ ◌∷◌ (mask_zeros g h) (select_zeros gs hs (omega arith))

-- The top limb of a number, and the rest.
record Topped (n : ℕ) (xs : List ℕ) : Type 0 where
  rest : ℕ
  small : rest < shifted n 1
  exact : value xs ≡ rest + shifted n (get_or xs n 0)

topped : (n : ℕ) (xs : List ℕ) → length xs ≡ suc n → Limbs 256 xs → Topped n xs
topped n [] e p = absurd (omega arith)
topped zero (x ∷ []) e p = record { rest = 0; small = omega arith; exact = omega arith }
topped zero (x ∷ y ∷ xs) e p = absurd (omega arith)
topped (suc n) (x ∷ xs) e p =
    let t = topped n xs (omega arith) p.1 in
    record {
      rest = x + 256 * t.rest;
      small = omega (arith, p.0, t.small);
      exact = omega (arith, t.exact);
    }

minusp-Limbs : Limbs 256 minusp
minusp-Limbs = ground arith

-- The number modulo the prime, for numbers hardly above it.
pub record Frozen (v : ℕ) (out : List ℕ) : Type 0 where
  pub exact : value out ≡ v % prime
  pub size : length out ≡ 17
  pub limbs : Limbs 256 out

frozen :
    (h h' : List ℕ)
    → length h ≡ 17
    → Limbs 256 h
    → value h < prime + 4294967296
    → Sum 17 (value h + value minusp) h'
    → Frozen (value h) (select (u32 (2 ^ 32 - get_or h' 16 0 / 2 ^ 7)) h h')
frozen h h' e p small s =
    let t = topped 16 h' s.size s.limbs in
    let full = value-lt_at 17 h' s.size s.limbs in
    let same_size : length h ≡ length h' = e ∙ sym s.size in
    elim (dec_lt (value h) prime) [
      | yes below ↦
          let ones : u32 (2 ^ 32 - get_or h' 16 0 / 2 ^ 7) ≡ 4294967295 =
            omega (arith, below, s.exact, s.small, t.exact, t.small, full) in
          let kept : select (u32 (2 ^ 32 - get_or h' 16 0 / 2 ^ 7)) h h' ≡ h =
            ap (λ m. select m h h') ones ∙ select_ones h h' same_size p s.limbs in
          record {
            exact = ap value kept ∙ omega (arith, below);
            size = ap length kept ∙ e;
            limbs = subst (Limbs 256) (sym kept) p;
          }
      | no above ↦
          let over : prime ≤ value h = omega (arith, above) in
          let zeros : u32 (2 ^ 32 - get_or h' 16 0 / 2 ^ 7) ≡ 0 =
            omega (arith, over, small, s.exact, s.small, t.exact, t.small, full) in
          let taken : select (u32 (2 ^ 32 - get_or h' 16 0 / 2 ^ 7)) h h' ≡ h' =
            ap (λ m. select m h h') zeros ∙ select_zeros h h' same_size in
          record {
            exact = ap value taken ∙ omega (arith, over, small, s.exact, s.small, full);
            size = ap length taken ∙ s.size;
            limbs = subst (Limbs 256) (sym taken) s.limbs;
          }
    ]

pub freeze-Frozen :
    (h : List ℕ)
    → length h ≡ 17
    → Limbs 256 h
    → value h < prime + 4294967296
    → Frozen (value h) (freeze h)
unfolding freeze
freeze-Frozen h e p small =
    frozen h (add1305 h minusp) e p small (add1305_lem h minusp e refl p minusp-Limbs)
