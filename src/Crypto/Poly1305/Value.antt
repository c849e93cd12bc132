-- ===== src/Crypto/Poly1305/Value.antt =====
-- src/nuki_crypto.c: what the additions and the reduction of `poly1305` do to the numbers that the limbs stand for.
use nuki_nrf52_bridge.Base.{
  ℕ, zero, suc, ◌+◌, ◌*◌, ◌/◌, ◌%◌, ◌^◌, ◌<◌, ◌≤◌, ◌≡◌, refl, ap, ◌∙◌, subst, subst₂, arith,
  bit_and, List, [], ◌∷◌, ◌++◌, length, All, length-append,
}
use nuki_nrf52_bridge.Base.Bits.{bit_and_low}
use nuki_nrf52_bridge.Crypto.Words.{u32}
use nuki_nrf52_bridge.Crypto.Poly1305.{add_loop, add1305, carry_loop, squeeze}

-- The number that limbs of 8 bits stand for, the lowest first.
abbrev pub value : List ℕ → ℕ
value [] = 0
value (x ∷ xs) = x + 256 * value xs

-- A number, `n` limbs up.
abbrev pub shifted : ℕ → ℕ → ℕ
shifted zero c = c
shifted (suc n) c = 256 * shifted n c

abbrev pub Limbs : ℕ → List ℕ → Type 0
Limbs b xs = All (λ x. x < b) xs

low_byte : (u : ℕ) → bit_and u 255 ≡ u % 256
low_byte u = bit_and_low 8 u

low_two : (u : ℕ) → bit_and u 3 ≡ u % 4
low_two u = bit_and_low 2 u

-- A sum with its carry.
pub record Sum (n total : ℕ) (out : List ℕ) : Type 0 where
  pub carry : ℕ
  pub small : carry ≤ 1
  pub exact : value out + shifted n carry ≡ total
  pub size : length out ≡ n
  pub limbs : Limbs 256 out

add_loop-Sum :
    (u : ℕ) (hs cs : List ℕ)
    → u ≤ 1
    → length hs ≡ length cs
    → Limbs 256 hs
    → Limbs 256 cs
    → Sum (length hs) (u + value hs + value cs) (add_loop u hs cs)
add_loop-Sum u [] [] h e p q = record {
  carry = u;
  small = h;
  exact = omega arith;
  size = refl;
  limbs = tt;
}
add_loop-Sum u [] (c ∷ cs) h e p q = absurd (omega arith)
add_loop-Sum u (x ∷ hs) [] h e p q = absurd (omega arith)
add_loop-Sum u (x ∷ hs) (c ∷ cs) h e p q =
    let v = u32 (u + u32 (x + c)) in
    let exactly : v ≡ u + x + c = omega (arith, h, p.0, q.0) in
    let s = add_loop-Sum (v / 256) hs cs (omega (arith, h, p.0, q.0)) (omega arith) p.1 q.1 in
    record {
      carry = s.carry;
      small = s.small;
      exact = omega (arith, s.exact, low_byte v, exactly);
      size = ap suc s.size;
      limbs = (omega (arith, low_byte v), s.limbs);
    }

pub add1305_lem :
    (h c : List ℕ)
    → length h ≡ 17
    → length c ≡ 17
    → Limbs 256 h
    → Limbs 256 c
    → Sum 17 (value h + value c) (add1305 h c)
unfolding add1305
add1305_lem h c m n p q =
    subst₂ (λ k t. Sum k t (add_loop 0 h c)) m (none_more (value h) (value c))
      (add_loop-Sum 0 h c (omega arith) (omega arith) p q)
  where
    none_more : (a b : ℕ) → 0 + a + b ≡ a + b
    none_more a b = omega arith

-- Limbs of 8 bits with what is left above them.
pub record Carried (n total : ℕ) (out : List ℕ × ℕ) : Type 0 where
  pub exact : value out.0 + shifted n out.1 ≡ total
  pub size : length out.0 ≡ n
  pub limbs : Limbs 256 out.0
  pub top : out.1 < 2684354560

carry_loop-Carried :
    (left u : ℕ) (hs : List ℕ)
    → u < 2147483648
    → length hs ≡ suc left
    → Limbs 536870912 hs
    → Carried left (u + value hs) (carry_loop left u hs)
carry_loop-Carried zero u [] h e p = absurd (omega arith)
carry_loop-Carried zero u (x ∷ []) h e p = record {
  exact = omega (arith, p.0);
  size = refl;
  limbs = tt;
  top = omega (arith, p.0);
}
carry_loop-Carried zero u (x ∷ y ∷ hs) h e p = absurd (omega arith)
carry_loop-Carried (suc left) u [] h e p = absurd (omega arith)
carry_loop-Carried (suc left) u (x ∷ hs) h e p =
    let v = u32 (u + x) in
    let exactly : v ≡ u + x = omega (arith, h, p.0) in
    let s =
      carry_loop-Carried left (v / 256) hs (omega (arith, exactly, h, p.0)) (omega arith) p.1 in
    record {
      exact = omega (arith, s.exact, low_byte v, exactly);
      size = ap suc s.size;
      limbs = (omega (arith, low_byte v), s.limbs);
      top = s.top;
    }

value-append : (xs : List ℕ) (t : ℕ) → value (xs ++ t ∷ []) ≡ value xs + shifted (length xs) t
value-append [] t = omega arith
value-append (x ∷ xs) t = omega (arith, value-append xs t)

Limbs-append : (b : ℕ) (xs : List ℕ) (t : ℕ) → Limbs b xs → t < b → Limbs b (xs ++ t ∷ [])
Limbs-append b [] t p h = (h, tt)
Limbs-append b (x ∷ xs) t p h = (p.0, Limbs-append b xs t p.1 h)

Limbs-wider : (b c : ℕ) (xs : List ℕ) → b ≤ c → Limbs b xs → Limbs c xs
Limbs-wider b c [] h p = tt
Limbs-wider b c (x ∷ xs) h p = (omega (arith, p.0), Limbs-wider b c xs h p.1)

value-lt : (xs : List ℕ) → Limbs 256 xs → value xs < shifted (length xs) 1
value-lt [] p = omega arith
value-lt (x ∷ xs) p = omega (arith, p.0, value-lt xs p.1)

pub value-lt_at : (n : ℕ) (xs : List ℕ) → length xs ≡ n → Limbs 256 xs → value xs < shifted n 1
value-lt_at n xs h p = subst (λ k. value xs < shifted k 1) h (value-lt xs p)

-- The prime 2 ^ 130 - 5.
abbrev pub prime : ℕ
prime = 1361129467683753853853498429727072845819

-- A number of 17 limbs of 8 bits, hardly above 2 ^ 130, that differs from the other by a multiple of the prime.
pub record Squeezed (total : ℕ) (out : List ℕ) : Type 0 where
  pub times : ℕ
  pub exact : total ≡ value out + prime * times
  pub size : length out ≡ 17
  pub limbs : Limbs 256 out
  pub small : value out < prime + 4294967296

value_wide :
    (xs : List ℕ)
    → Limbs 536870912 xs
    → 255 * value xs + 536870912 ≤ 536870912 * shifted (length xs) 1
value_wide [] p = omega arith
value_wide (x ∷ xs) p = omega (arith, p.0, value_wide xs p.1)

-- The part above 2 ^ 130, which is taken off and put back five times at the bottom.
put_back :
    (total : ℕ) (low : List ℕ) (u : ℕ) (out : List ℕ × ℕ)
    → u < 1073741824
    → Carried 16 total (low, u)
    → Carried 16 (u32 (5 * (u / 4)) + value (low ++ bit_and u 3 ∷ [])) out
    → Squeezed total (out.0 ++ out.1 ∷ [])
put_back total low u out h c d =
    let at_16 = ap (λ n. shifted n (bit_and u 3)) c.size in
    let joined = value-append low (bit_and u 3) in
    let total_out = value-append out.0 out.1 in
    let top_16 = ap (λ n. shifted n out.1) d.size in
    let low_small = value-lt_at 16 low c.size c.limbs in
    let exact : total ≡ value (out.0 ++ out.1 ∷ []) + prime * (u / 4) =
      omega (arith, h, c.exact, d.exact, at_16, joined, total_out, top_16, low_two u) in
    let small : value (out.0 ++ out.1 ∷ []) < prime + 4294967296 =
      omega (arith, h, d.exact, at_16, joined, total_out, top_16, low_small, low_two u) in
    record {
      times = u / 4;
      exact = exact;
      size = length-append out.0 (out.1 ∷ []) ∙ ap (λ k. k + 1) d.size;
      limbs = Limbs-append 256 out.0 out.1 d.limbs (omega (arith, small, total_out, top_16));
      small = small;
    }

-- The reduction keeps the number modulo the prime, and leaves it hardly above the prime.
pub squeeze-Squeezed :
    (x : List ℕ) → length x ≡ 17 → Limbs 536870912 x → Squeezed (value x) (squeeze x)
unfolding squeeze
squeeze-Squeezed x m p = whole (carry_loop 16 0 x) (
    subst (λ t. Carried 16 t (carry_loop 16 0 x)) (none_more (value x))
      (carry_loop-Carried 16 0 x (omega arith) m p))
  where
    none_more : (a : ℕ) → 0 + a ≡ a
    none_more a = omega arith

    whole :
        (c : List ℕ × ℕ)
        → Carried 16 (value x) c
        → let out = carry_loop 16 (u32 (5 * (c.1 / 2 ^ 2))) (c.0 ++ bit_and c.1 3 ∷ []) in
          Squeezed (value x) (out.0 ++ out.1 ∷ [])
    whole (low, u) c =
        let wide = value_wide x p in
        let at_17 = ap (λ n. shifted n 1) m in
        let u_small : u < 1073741824 = omega (arith, c.exact, wide, at_17) in
        put_back (value x) low u (carry_loop 16 (u32 (5 * (u / 2 ^ 2))) (low ++ bit_and u 3 ∷ []))
          u_small c
          (carry_loop-Carried 16 (u32 (5 * (u / 2 ^ 2))) (low ++ bit_and u 3 ∷ [])
            (omega (arith, u_small)) (length-append low (bit_and u 3 ∷ []) ∙ ap (λ k. k + 1) c.size)
            (Limbs-wider 256 536870912 (low ++ bit_and u 3 ∷ []) (omega arith)
              (Limbs-append 256 low (bit_and u 3) c.limbs (omega (arith, low_two u)))))
