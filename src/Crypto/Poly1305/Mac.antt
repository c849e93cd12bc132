-- ===== src/Crypto/Poly1305/Mac.antt =====
-- src/nuki_crypto.c: `poly1305` is the polynomial in the key, over the blocks of the message, modulo the prime.
use nuki_nrf52_bridge.Base.{
  ℕ, zero, suc, ◌+◌, ◌-◌, ◌*◌, ◌/◌, ◌%◌, ◌<◌, ◌≤◌, ◌≡◌, refl, sym, ap, ap₂, ◌∙◌, arith, min, List,
  [], ◌∷◌, ◌++◌, length, All, drop, slice, replicate, subst, concat, Below, length-append,
  length-replicate, slice-append_left, drop-append, ◌≢◌, ne→==_false,
}
use nuki_nrf52_bridge.Crypto.Poly1305.{add1305, multiply, squeeze, block, absorb}
use nuki_nrf52_bridge.Crypto.Poly1305.Value.{
  value, shifted, Limbs, prime, add1305_lem, squeeze-Squeezed, value-lt_at,
}
use nuki_nrf52_bridge.Crypto.Poly1305.Product.{multiply-Multiplied}

-- The accumulator stands for this number modulo the prime.
pub record Holds (acc : ℕ) (h : List ℕ) : Type 0 where
  pub size : length h ≡ 17
  pub limbs : Limbs 256 h
  pub small : value h < prime + 4294967296
  pub exact : value h % prime ≡ acc

-- A factor in front of a number can be taken modulo the prime.
times_mod : (v b r acc : ℕ) → v % prime ≡ acc → (v + b) * r % prime ≡ (acc + b) * r % prime
times_mod v b r acc e =
    let split : v ≡ prime * (v / prime) + acc = omega (arith, e) in
    let product : (v + b) * r ≡ prime * (v / prime * r) + (acc + b) * r =
      ap (λ t. (t + b) * r) split ∙ omega arith in
    omega (arith, product)

step-Holds :
    (acc : ℕ) (h b r : List ℕ)
    → Holds acc h
    → length b ≡ 17
    → Limbs 256 b
    → value b < 1361129467683753853853498429727072845824
    → length r ≡ 17
    → Below 256 r
    → Holds ((acc + value b) * value r % prime) (squeeze (multiply (add1305 h b) r))
step-Holds acc h b r s e p small m q =
    let a = add1305_lem h b s.size e s.limbs p in
    let sum : value (add1305 h b) ≡ value h + value b =
      omega (arith, a.exact, a.small, s.small, small) in
    let x = multiply-Multiplied (add1305 h b) r a.size m a.limbs q in
    let out = squeeze-Squeezed (multiply (add1305 h b) r) x.size x.limbs in
    record {
      size = out.size;
      limbs = out.limbs;
      small = out.small;
      exact = omega (
        arith,
        out.exact,
        x.exact,
        ap (λ t. t * value r) sum,
        times_mod (value h) (value b) (value r) acc s.exact,
      );
    }

pub value-joined : (xs ys : List ℕ) → value (xs ++ ys) ≡ value xs + shifted (length xs) (value ys)
value-joined [] ys = omega arith
value-joined (x ∷ xs) ys = omega (arith, value-joined xs ys)

value-zeros : (n : ℕ) → value (replicate n 0) ≡ 0
value-zeros zero = refl
value-zeros (suc n) = omega (arith, value-zeros n)

Limbs-zeros : (n : ℕ) → Limbs 256 (replicate n 0)
Limbs-zeros zero = tt
Limbs-zeros (suc n) = (omega arith, Limbs-zeros n)

pub Limbs-joined : (b : ℕ) (xs ys : List ℕ) → Limbs b xs → Limbs b ys → Limbs b (xs ++ ys)
Limbs-joined b [] ys p q = q
Limbs-joined b (x ∷ xs) ys p q = (p.0, Limbs-joined b xs ys p.1 q)

pub Limbs-slice : (xs : List ℕ) (i n : ℕ) → Below 256 xs → Limbs 256 (slice xs i n)
Limbs-slice xs i zero b = tt
Limbs-slice xs i (suc n) b = (b i, Limbs-slice xs (suc i) n b)

shifted_pos : (n : ℕ) → 1 ≤ shifted n 1
shifted_pos zero = omega arith
shifted_pos (suc n) = omega (arith, shifted_pos n)

shifted-le : (j n : ℕ) → j ≤ n → shifted j 1 ≤ shifted n 1
shifted-le zero n h = shifted_pos n
shifted-le (suc j) zero h = absurd (omega arith)
shifted-le (suc j) (suc n) h = omega (arith, shifted-le j n (omega arith))

-- What is added for a chunk of the message: its number, with a one on top.
record Block (c : List ℕ) (b : List ℕ) : Type 0 where
  size : length b ≡ 17
  limbs : Limbs 256 b
  exact : value b ≡ value c + shifted (length c) 1
  small : value b < 1361129467683753853853498429727072845824

chunk-Block :
    (c : List ℕ) → length c ≤ 16 → Limbs 256 c → Block c (c ++ 1 ∷ replicate (16 - length c) 0)
chunk-Block c h p =
    let zeros = value-zeros (16 - length c) in
    let one : 1 + 256 * value (replicate (16 - length c) 0) ≡ 1 = omega (arith, zeros) in
    let exact : value (c ++ 1 ∷ replicate (16 - length c) 0) ≡ value c + shifted (length c) 1 =
      value-joined c (1 ∷ replicate (16 - length c) 0)
      ∙ ap (λ t. value c + shifted (length c) t) one in
    record {
      size =
          length-append c (1 ∷ replicate (16 - length c) 0)
          ∙ omega (arith, length-replicate {A = ℕ} (16 - length c) 0);
      limbs =
          Limbs-joined 256 c (1 ∷ replicate (16 - length c) 0) p
            (omega arith, Limbs-zeros (16 - length c));
      exact = exact;
      small = omega (arith, exact, value-lt_at (length c) c refl p, shifted-le (length c) 16 h);
    }

-- The message in chunks of 16 bytes; the last may be shorter.
abbrev pub IsChunks : List (List ℕ) → Type 0
IsChunks [] = Unit {0}
IsChunks (c ∷ []) = (1 ≤ length c) × (length c ≤ 16)
IsChunks (c ∷ d ∷ cs) = (length c ≡ 16) × IsChunks (d ∷ cs)

-- The polynomial in `r`, by Horner's rule, modulo the prime: the coefficients are the chunks, each with a one on
-- top.
abbrev pub polynomial : ℕ → List (List ℕ) → ℕ → ℕ
polynomial r [] acc = acc
polynomial r (c ∷ cs) acc = polynomial r cs ((acc + (value c + shifted (length c) 1)) * r % prime)

first_chunk :
    (c : List ℕ) (cs : List (List ℕ))
    → IsChunks (c ∷ cs)
    → (1 ≤ length c) × (min 16 (length (concat (c ∷ cs))) ≡ length c) × IsChunks cs
first_chunk c [] h = (h.0, omega (arith, length-append c [], h.1), tt)
first_chunk c (d ∷ cs) h =
    (omega (arith, h.0), omega (arith, h.0, length-append c (concat (d ∷ cs))), h.1)

-- One turn of the loop.
absorb_turn :
    (fuel : ℕ) (m : List ℕ) (n : ℕ) (h r : List ℕ)
    → n ≢ 0
    → absorb (suc fuel) m n h r
      ≡ absorb fuel
          (drop (min 16 n) m)
          (n - min 16 n)
          (squeeze (multiply (add1305 h (block m n)) r))
          r
unfolding absorb
absorb_turn fuel m n h r some_left = rw (ne→==_false n 0 some_left)

absorb_end : (fuel : ℕ) (m h r : List ℕ) → absorb (suc fuel) m 0 h r ≡ h
unfolding absorb
absorb_end fuel m h r = refl

block_at :
    (m : List ℕ) (n j : ℕ) → min 16 n ≡ j → block m n ≡ slice m 0 j ++ 1 ∷ replicate (16 - j) 0
unfolding block
block_at m n j e = ap (λ i. slice m 0 i ++ 1 ∷ replicate (16 - i) 0) e

absorb_chunk :
    (fuel : ℕ) (c : List ℕ) (cs : List (List ℕ)) (h r : List ℕ)
    → IsChunks (c ∷ cs)
    → absorb (suc fuel) (concat (c ∷ cs)) (length (concat (c ∷ cs))) h r
      ≡ absorb fuel
          (concat cs)
          (length (concat cs))
          (squeeze (multiply (add1305 h (c ++ 1 ∷ replicate (16 - length c) 0)) r))
          r
absorb_chunk fuel c cs h r chunks =
    let (some_left, chunk, _) = first_chunk c cs chunks in
    let total = length-append c (concat cs) in
    absorb_turn fuel (c ++ concat cs) (length (c ++ concat cs)) h r
      (λ e. absurd (omega (arith, e, total, some_left)))
    ∙ ap₂
        (λ d k.
          absorb fuel d k
            (squeeze (multiply (add1305 h (block (c ++ concat cs) (length (c ++ concat cs)))) r)) r)
        (ap (λ j. drop j (c ++ concat cs)) chunk ∙ drop-append (length c) c (concat cs) refl)
        (omega (arith, chunk, total))
    ∙ ap (λ b. absorb fuel (concat cs) (length (concat cs)) (squeeze (multiply (add1305 h b) r)) r)
        (block_at (c ++ concat cs) (length (c ++ concat cs)) (length c) chunk
          ∙ ap (λ xs. xs ++ 1 ∷ replicate (16 - length c) 0)
              (slice-append_left c (concat cs) (length c) refl))

chunk-le : (c : List ℕ) (cs : List (List ℕ)) → IsChunks (c ∷ cs) → length c ≤ 16
chunk-le c cs h = omega (arith, (first_chunk c cs h).1)

pub absorb-Holds :
    (fuel : ℕ) (cs : List (List ℕ)) (acc : ℕ) (h r : List ℕ)
    → length (concat cs) < fuel
    → IsChunks cs
    → All (Limbs 256) cs
    → length r ≡ 17
    → Below 256 r
    → Holds acc h
    → Holds (polynomial (value r) cs acc) (absorb fuel (concat cs) (length (concat cs)) h r)
absorb-Holds zero cs acc h r enough chunks p m q s = absurd (omega arith)
absorb-Holds (suc fuel) [] acc h r enough chunks p m q s =
    subst (Holds acc) (sym (absorb_end fuel [] h r)) s
absorb-Holds (suc fuel) (c ∷ cs) acc h r enough chunks p m q s =
    let b = chunk-Block c (chunk-le c cs chunks) p.0 in
    let (some_left, _, others) = first_chunk c cs chunks in
    let next : Holds ((acc + (value c + shifted (length c) 1)) * value r % prime)
        (squeeze (multiply (add1305 h (c ++ 1 ∷ replicate (16 - length c) 0)) r)) =
      subst
        (λ t.
          Holds ((acc + t) * value r % prime)
            (squeeze (multiply (add1305 h (c ++ 1 ∷ replicate (16 - length c) 0)) r)))
        b.exact
        (step-Holds acc h (c ++ 1 ∷ replicate (16 - length c) 0) r s b.size b.limbs b.small m q) in
    subst (Holds (polynomial (value r) (c ∷ cs) acc)) (sym (absorb_chunk fuel c cs h r chunks)) (
      absorb-Holds fuel cs ((acc + (value c + shifted (length c) 1)) * value r % prime)
        (squeeze (multiply (add1305 h (c ++ 1 ∷ replicate (16 - length c) 0)) r)) r
        (omega (arith, enough, some_left, length-append c (concat cs))) others p.1 m q next)
