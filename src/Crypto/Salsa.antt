-- ===== src/Crypto/Salsa.antt =====
-- src/nuki_crypto.c: the Salsa20 core (`salsa_core`) in its two forms.
pub mod Shape
pub mod Hashed
use nuki_nrf52_bridge.Base.{
  ℕ, zero, suc, ◌+◌, ◌*◌, ◌%◌, bit_xor, Bool, true, false, List, [], ◌∷◌, ◌++◌, get_or, set,
  replicate, if◌then◌else◌,
}
use nuki_nrf52_bridge.Crypto.Words.{add32, sub32, rotl32, load_le32, store_le32}

-- The ASCII bytes of "expand 32-byte k".
abbrev pub sigma : List ℕ
sigma = 101 ∷ 120 ∷ 112 ∷ 97 ∷ 110 ∷ 100 ∷ 32 ∷ 51 ∷ 50 ∷ 45 ∷ 98 ∷ 121 ∷ 116 ∷ 101 ∷ 32 ∷ 107 ∷ []

-- The loop that loads the sixteen words of the state: `c` on the diagonal, the key, the input.
module _ (inp k c : List ℕ) where
  unfoldable pub load_words : ℕ → ℕ → List ℕ → List ℕ
  load_words zero i x = x
  load_words (suc left) i x =
      let x = set x (5 * i) (load_le32 c (4 * i)) in
      let x = set x (1 + i) (load_le32 k (4 * i)) in
      let x = set x (6 + i) (load_le32 inp (4 * i)) in
      let x = set x (11 + i) (load_le32 k (16 + 4 * i)) in load_words left (suc i) x

-- The four updates of `t` within one round.
unfoldable pub mix : ℕ → ℕ → ℕ → ℕ → ℕ × ℕ × ℕ × ℕ
mix t0 t1 t2 t3 =
    let t1 = bit_xor t1 (rotl32 (add32 t0 t3) 7) in
    let t2 = bit_xor t2 (rotl32 (add32 t1 t0) 9) in
    let t3 = bit_xor t3 (rotl32 (add32 t2 t1) 13) in
    let t0 = bit_xor t0 (rotl32 (add32 t3 t2) 18) in (t0, t1, t2, t3)

-- The body of the loop on `j`: a column of `x` is mixed and stored as a row of `w`.
unfoldable pub column : List ℕ → ℕ → List ℕ → List ℕ
column x j w =
    let (t0, t1, t2, t3) =
      mix (get_or x (5 * j % 16) 0) (get_or x ((5 * j + 4) % 16) 0) (get_or x ((5 * j + 8) % 16) 0)
        (get_or x ((5 * j + 12) % 16) 0) in
    set (set (set (set w (4 * j + j % 4) t0) (4 * j + (j + 1) % 4) t1) (4 * j + (j + 2) % 4) t2)
      (4 * j + (j + 3) % 4) t3

-- One round. The sixteen elements of `w`, which C leaves unset at first, are all written.
unfoldable pub round : List ℕ → List ℕ
unfolding column
round x = column x 3 (column x 2 (column x 1 (column x 0 (replicate 16 0))))

unfoldable pub rounds : ℕ → List ℕ → List ℕ
rounds zero x = x
rounds (suc left) x = rounds left (round x)

-- `x[i] += y[i]`.
abbrev pub add_words : List ℕ → List ℕ → List ℕ
add_words [] ys = []
add_words (x ∷ xs) [] = x ∷ xs
add_words (x ∷ xs) (y ∷ ys) = add32 x y ∷ add_words xs ys

-- `x[5 * i] -= load_le32(c + 4 * i); x[6 + i] -= load_le32(in + 4 * i)`.
abbrev pub subtract : List ℕ → List ℕ → ℕ → ℕ → List ℕ → List ℕ
subtract inp c zero i x = x
subtract inp c (suc left) i x =
    let x = set x (5 * i) (sub32 (get_or x (5 * i) 0) (load_le32 c (4 * i))) in
    let x = set x (6 + i) (sub32 (get_or x (6 + i) 0) (load_le32 inp (4 * i))) in
    subtract inp c left (suc i) x

-- The stores of words, in the order of their addresses.
unfoldable pub store_words : List ℕ → List ℕ
store_words [] = []
store_words (w ∷ ws) = store_le32 w ++ store_words ws

-- The words that `h = 1` stores: those of the diagonal, then the middle four.
abbrev pub hashed_words : List ℕ → List ℕ
hashed_words x =
    get_or x 0 0
    ∷ get_or x 5 0
    ∷ get_or x 10 0
    ∷ get_or x 15 0
    ∷ get_or x 6 0
    ∷ get_or x 7 0
    ∷ get_or x 8 0
    ∷ get_or x 9 0
    ∷ []

unfoldable pub salsa_core : List ℕ → List ℕ → List ℕ → Bool → List ℕ
salsa_core inp k c h =
    let y = load_words inp k c 4 0 (replicate 16 0) in
    let x = rounds 20 y in
    if h
    then store_words (hashed_words (subtract inp c 4 0 (add_words x y)))
    else store_words (add_words x y)

unfoldable pub core_salsa20 : List ℕ → List ℕ → List ℕ
unfolding salsa_core
core_salsa20 inp k = salsa_core inp k sigma false

unfoldable pub core_hsalsa20 : List ℕ → List ℕ → List ℕ
unfolding salsa_core
core_hsalsa20 inp k = salsa_core inp k sigma true

-- `nuki_crypto_kdf1`: the long-term key is HSalsa20 of the raw Diffie-Hellman result.
unfoldable pub kdf1 : List ℕ → List ℕ
kdf1 dh_result = core_hsalsa20 (replicate 16 0) dh_result
