-- ===== src/Crypto/Salsa/Hashed.antt =====
-- src/nuki_crypto.c: HSalsa20 as it is specified, and the double round of the Salsa20 specification.
use nuki_nrf52_bridge.Base.{
  ℕ, zero, suc, ◌*◌, ◌^◌, ◌<◌, bit_xor, List, [], ◌∷◌, ◌≡◌, refl, Below, ap, ap₂, ◌∙◌, arith,
  length, get_or, replicate, slice_whole,
}
use nuki_nrf52_bridge.Crypto.Words.{add32, sub32, rotl32, load_le32}
use nuki_nrf52_bridge.Crypto.Salsa.{
  sigma, load_words, mix, round, rounds, add_words, subtract, store_words, hashed_words,
  core_hsalsa20,
}
use nuki_nrf52_bridge.Crypto.Salsa.Shape.{
  word, load_le32-lt, length-rounds, rounds-Below, load_words-Below, sigma-Below,
}

-- The quarter round, row round and column round of the Salsa20 specification, sections 3 to 6.
quarter_round : ℕ → ℕ → ℕ → ℕ → ℕ × ℕ × ℕ × ℕ
quarter_round y0 y1 y2 y3 =
    let z1 = bit_xor y1 (rotl32 (add32 y0 y3) 7) in
    let z2 = bit_xor y2 (rotl32 (add32 z1 y0) 9) in
    let z3 = bit_xor y3 (rotl32 (add32 z2 z1) 13) in
    let z0 = bit_xor y0 (rotl32 (add32 z3 z2) 18) in (z0, z1, z2, z3)

row_round : List ℕ → List ℕ
unfolding quarter_round
row_round y =
    let at = λ (i : ℕ). get_or y i 0 in
    let (z0, z1, z2, z3) = quarter_round (at 0) (at 1) (at 2) (at 3) in
    let (z5, z6, z7, z4) = quarter_round (at 5) (at 6) (at 7) (at 4) in
    let (z10, z11, z8, z9) = quarter_round (at 10) (at 11) (at 8) (at 9) in
    let (z15, z12, z13, z14) = quarter_round (at 15) (at 12) (at 13) (at 14) in
    z0 ∷ z1 ∷ z2 ∷ z3 ∷ z4 ∷ z5 ∷ z6 ∷ z7 ∷ z8 ∷ z9 ∷ z10 ∷ z11 ∷ z12 ∷ z13 ∷ z14 ∷ z15 ∷ []

column_round : List ℕ → List ℕ
unfolding quarter_round
column_round x =
    let at = λ (i : ℕ). get_or x i 0 in
    let (y0, y4, y8, y12) = quarter_round (at 0) (at 4) (at 8) (at 12) in
    let (y5, y9, y13, y1) = quarter_round (at 5) (at 9) (at 13) (at 1) in
    let (y10, y14, y2, y6) = quarter_round (at 10) (at 14) (at 2) (at 6) in
    let (y15, y3, y7, y11) = quarter_round (at 15) (at 3) (at 7) (at 11) in
    y0 ∷ y1 ∷ y2 ∷ y3 ∷ y4 ∷ y5 ∷ y6 ∷ y7 ∷ y8 ∷ y9 ∷ y10 ∷ y11 ∷ y12 ∷ y13 ∷ y14 ∷ y15 ∷ []

pub double_rounds : ℕ → List ℕ → List ℕ
double_rounds zero x = x
double_rounds (suc left) x = double_rounds left (row_round (column_round x))

two_rounds : (x : List ℕ) → round (round x) ≡ row_round (column_round x)
unfolding round mix row_round column_round
two_rounds x = refl

-- Two rounds of the loop, which transposes the state each time, are one double round.
pub rounds-double : (n : ℕ) (x : List ℕ) → rounds (n * 2) x ≡ double_rounds n x
unfolding rounds double_rounds
rounds-double zero x = refl
rounds-double (suc n) x =
    rw (twice n) (ap (rounds (n * 2)) (two_rounds x) ∙ rounds-double n (row_round (column_round x)))
  where
    twice : (m : ℕ) → suc m * 2 ≡ suc (suc (m * 2))
    twice m = omega arith

length-initial : (inp k : List ℕ) → length (load_words inp k sigma 4 0 (replicate 16 0)) ≡ 16
unfolding load_words
length-initial inp k = refl

sub-add : (a b : ℕ) → a < 2 ^ 32 → b < 2 ^ 32 → sub32 (add32 a b) b ≡ a
sub-add a b h p = omega arith

-- The words that are stored lose what was added to them.
hashed_words-subtract :
    (x inp k c : List ℕ)
    → length x ≡ 16
    → Below word x
    → Below 256 inp
    → Below 256 c
    → hashed_words (subtract inp c 4 0 (add_words x (load_words inp k c 4 0 (replicate 16 0))))
      ≡ hashed_words x
unfolding load_words
hashed_words-subtract x inp k c h hx hi hc = rw (← slice_whole x 16 h) (
    ap₂ ◌∷◌ (on_c 0 0) (
      ap₂ ◌∷◌ (on_c 5 4) (
        ap₂ ◌∷◌ (on_c 10 8) (
          ap₂ ◌∷◌ (on_c 15 12) (
            ap₂ ◌∷◌ (on_inp 6 0)
              (ap₂ ◌∷◌ (on_inp 7 4) (ap₂ ◌∷◌ (on_inp 8 8) (ap₂ ◌∷◌ (on_inp 9 12) refl))))))))
  where
    on_c : (i p : ℕ) → sub32 (add32 (get_or x i 0) (load_le32 c p)) (load_le32 c p) ≡ get_or x i 0
    on_c i p = sub-add (get_or x i 0) (load_le32 c p) (hx i) (load_le32-lt c p hc)

    on_inp :
        (i p : ℕ) → sub32 (add32 (get_or x i 0) (load_le32 inp p)) (load_le32 inp p) ≡ get_or x i 0
    on_inp i p = sub-add (get_or x i 0) (load_le32 inp p) (hx i) (load_le32-lt inp p hi)

-- The state that the core starts from.
pub initial : List ℕ → List ℕ → List ℕ
initial inp k = load_words inp k sigma 4 0 (replicate 16 0)

-- On bytes, `core_hsalsa20` is HSalsa20 as it is specified: ten double rounds of the initial state,
-- of which the diagonal and the middle four words are stored, with nothing added to them.
pub core_hsalsa20_lem :
    (inp k : List ℕ)
    → Below 256 inp
    → Below 256 k
    → core_hsalsa20 inp k ≡ store_words (hashed_words (double_rounds 10 (initial inp k)))
unfolding core_hsalsa20 initial
core_hsalsa20_lem inp k hi hk = ap store_words (
    hashed_words-subtract (rounds 20 y) inp k sigma (length-rounds 20 y (length-initial inp k))
      (rounds-Below 20 y (load_words-Below inp k sigma hi hk sigma-Below)) hi sigma-Below
    ∙ ap hashed_words (rounds-double 10 y))
  where
    y : List ℕ
    y = load_words inp k sigma 4 0 (replicate 16 0)
