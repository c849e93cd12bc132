-- ===== src/Crypto/Salsa/Shape.antt =====
-- src/nuki_crypto.c: the state of the Salsa20 core keeps sixteen 32-bit words.
use nuki_nrf52_bridge.Base.{
  ℕ, zero, suc, ◌+◌, ◌-◌, ◌*◌, ◌/◌, ◌%◌, ◌^◌, ◌<◌, ◌≤◌, bit_or, bit_xor, List, [], ◌∷◌, ◌≡◌, refl,
  arith, length, get_or, set, replicate, get_or-replicate, Below, Below-of_All,
}
use nuki_nrf52_bridge.Base.Bits.{bit_or-lt, bit_xor-lt}
use nuki_nrf52_bridge.Crypto.Words.{u32, add32, rotl32, load_le32}
use nuki_nrf52_bridge.Crypto.Salsa.{load_words, mix, column, round, rounds, sigma}

Below-set : (b : ℕ) (xs : List ℕ) (i v : ℕ) → 0 < b → v < b → Below b xs → Below b (set xs i v)
Below-set b [] i v p h a j = p
Below-set b (x ∷ xs) zero v p h a zero = h
Below-set b (x ∷ xs) zero v p h a (suc j) = a (suc j)
Below-set b (x ∷ xs) (suc i) v p h a zero = a 0
Below-set b (x ∷ xs) (suc i) v p h a (suc j) = Below-set b xs i v p h (λ l. a (suc l)) j

abbrev pub word : ℕ
word = 2 ^ 32

Below-set-word : (xs : List ℕ) (i v : ℕ) → v < word → Below word xs → Below word (set xs i v)
Below-set-word xs i v h a = Below-set word xs i v (omega arith) h a

div-le : (x d : ℕ) → x / d ≤ x
div-le x zero = omega arith
div-le x (suc d) = grind arith

rotl32-lt : (x c : ℕ) → x < word → rotl32 x c < word
unfolding rotl32
rotl32-lt x c h =
    bit_or-lt 32 (u32 (x * 2 ^ c)) (x / 2 ^ (32 - c)) (omega arith)
      (omega (arith, div-le x (2 ^ (32 - c))))

pub load_le32-lt : (x : List ℕ) (p : ℕ) → Below 256 x → load_le32 x p < word
unfolding load_le32
load_le32-lt x p h =
    bit_or-lt 32
      (u32 (
        bit_or (u32 (bit_or (u32 (get_or x (p + 3) 0 * 2 ^ 8)) (get_or x (p + 2) 0) * 2 ^ 8))
          (get_or x (p + 1) 0)
        * 2 ^ 8))
      (get_or x p 0) (omega arith) (omega (arith, h p))

xor_rot-lt : (t a b c : ℕ) → t < word → bit_xor t (rotl32 (add32 a b) c) < word
xor_rot-lt t a b c h =
    bit_xor-lt 32 t (rotl32 (add32 a b) c) h (rotl32-lt (add32 a b) c (omega arith))

mix-lt :
    (a b c d : ℕ)
    → a < word
    → b < word
    → c < word
    → d < word
    → let t = mix a b c d in (t.0 < word) × (t.1 < word) × (t.2 < word) × (t.3 < word)
unfolding mix
mix-lt a b c d ha hb hc hd =
    (xor_rot-lt a _ _ 18 ha, xor_rot-lt b _ _ 7 hb, xor_rot-lt c _ _ 9 hc, xor_rot-lt d _ _ 13 hd)

-- Column `j` of `x`, mixed.
mixed-lt :
    (x : List ℕ) (a b c d : ℕ)
    → Below word x
    → let t = mix (get_or x a 0) (get_or x b 0) (get_or x c 0) (get_or x d 0) in
      (t.0 < word) × (t.1 < word) × (t.2 < word) × (t.3 < word)
mixed-lt x a b c d h =
    mix-lt (get_or x a 0) (get_or x b 0) (get_or x c 0) (get_or x d 0) (h a) (h b) (h c) (h d)

column-Below : (x w : List ℕ) (j : ℕ) → Below word x → Below word w → Below word (column x j w)
unfolding column
column-Below x w j hx hw =
    let bounds =
      mixed-lt x (5 * j % 16) ((5 * j + 4) % 16) ((5 * j + 8) % 16) ((5 * j + 12) % 16) hx in
    Below-set-word _ _ _ bounds.3 (
      Below-set-word _ _ _ bounds.2
        (Below-set-word _ _ _ bounds.1 (Below-set-word w _ _ bounds.0 hw)))

-- One round keeps the shape.
round-Below : (x : List ℕ) → Below word x → Below word (round x)
unfolding round
round-Below x h = column-Below x (column x 2 (column x 1 (column x 0 (replicate 16 0)))) 3 h (
    column-Below x (column x 1 (column x 0 (replicate 16 0))) 2 h (
      column-Below x (column x 0 (replicate 16 0)) 1 h
        (column-Below x (replicate 16 0) 0 h (λ i. omega (arith, get_or-replicate 16 i 0)))))

length-round : (x : List ℕ) → length (round x) ≡ 16
unfolding round
length-round x = refl

pub length-rounds : (n : ℕ) (x : List ℕ) → length x ≡ 16 → length (rounds n x) ≡ 16
unfolding rounds
length-rounds zero x h = h
length-rounds (suc n) x h = length-rounds n (round x) (length-round x)

pub rounds-Below : (n : ℕ) (x : List ℕ) → Below word x → Below word (rounds n x)
unfolding rounds
rounds-Below zero x h = h
rounds-Below (suc n) x h = rounds-Below n (round x) (round-Below x h)

-- The words that are loaded.
module _ (inp k c : List ℕ) (hi : Below 256 inp) (hk : Below 256 k) (hc : Below 256 c) where
  load_words-Below_from :
      (n i : ℕ) (x : List ℕ) → Below word x → Below word (load_words inp k c n i x)
  unfolding load_words
  load_words-Below_from zero i x h = h
  load_words-Below_from (suc n) i x h =
      load_words-Below_from n (suc i)
        (set
          (set (set (set x (5 * i) (load_le32 c (4 * i))) (1 + i) (load_le32 k (4 * i))) (6 + i)
            (load_le32 inp (4 * i)))
          (11 + i) (load_le32 k (16 + 4 * i)))
        (Below-set-word _ _ _ (load_le32-lt k (16 + 4 * i) hk) (
          Below-set-word _ _ _ (load_le32-lt inp (4 * i) hi) (
            Below-set-word _ _ _ (load_le32-lt k (4 * i) hk)
              (Below-set-word x _ _ (load_le32-lt c (4 * i) hc) h))))

  pub load_words-Below : Below word (load_words inp k c 4 0 (replicate 16 0))
  load_words-Below =
      load_words-Below_from 4 0 (replicate 16 0) (λ i. omega (arith, get_or-replicate 16 i 0))

pub sigma-Below : Below 256 sigma
sigma-Below = Below-of_All 256 sigma (omega arith) (omega arith)
