-- ===== src/Base/Lists.antt =====
-- C arrays as lists, measured and indexed by native numbers.
use Prim.Native.Nat.{ℕ, zero, suc, ◌+◌, ◌-◌, ◌/◌, ◌%◌, ◌≤◌, ◌<◌, min}
use mathlib.Core.Path.{◌≡◌, refl, ap, ap₂, ◌∙◌}
use mathlib.Core.List.{List, [], ◌∷◌, ◌++◌}
use native.Mathlib.Omega.{arith}

module _ {ℓ} {A : Type ℓ} where
  abbrev pub length : List A → ℕ
  length [] = 0
  length (x ∷ xs) = suc (length xs)

  abbrev pub get_or : List A → ℕ → A → A
  get_or [] i d = d
  get_or (x ∷ xs) zero d = x
  get_or (x ∷ xs) (suc i) d = get_or xs i d

  -- A write out of bounds changes nothing.
  abbrev pub set : List A → ℕ → A → List A
  set [] i v = []
  set (x ∷ xs) zero v = v ∷ xs
  set (x ∷ xs) (suc i) v = x ∷ set xs i v

  abbrev pub take : ℕ → List A → List A
  take zero xs = []
  take (suc n) [] = []
  take (suc n) (x ∷ xs) = x ∷ take n xs

  abbrev pub drop : ℕ → List A → List A
  drop zero xs = xs
  drop (suc n) [] = []
  drop (suc n) (x ∷ xs) = drop n xs

  abbrev pub replicate : ℕ → A → List A
  replicate zero a = []
  replicate (suc n) a = a ∷ replicate n a

  -- Every element has the property.
  abbrev pub All {κ} : (A → Type κ) → List A → Type κ
  All P [] = Unit
  All P (x ∷ xs) = P x × All P xs

module _ {ℓ} {A : Type ℓ} where
  pub length-append : (xs ys : List A) → length (xs ++ ys) ≡ length xs + length ys
  length-append [] ys = omega arith
  length-append (x ∷ xs) ys = omega (arith, length-append xs ys)

  pub length-set : (xs : List A) (i : ℕ) (v : A) → length (set xs i v) ≡ length xs
  length-set [] i v = refl
  length-set (x ∷ xs) zero v = refl
  length-set (x ∷ xs) (suc i) v = ap suc (length-set xs i v)

  pub length-take : (n : ℕ) (xs : List A) → length (take n xs) ≡ min n (length xs)
  length-take zero xs = omega arith
  length-take (suc n) [] = omega arith
  length-take (suc n) (x ∷ xs) = omega (arith, length-take n xs)

  pub length-drop : (n : ℕ) (xs : List A) → length (drop n xs) ≡ length xs - n
  length-drop zero xs = omega arith
  length-drop (suc n) [] = omega arith
  length-drop (suc n) (x ∷ xs) = omega (arith, length-drop n xs)

  pub length-replicate : (n : ℕ) (a : A) → length (replicate n a) ≡ n
  length-replicate zero a = refl
  length-replicate (suc n) a = ap suc (length-replicate n a)

  pub take-append-drop : (n : ℕ) (xs : List A) → take n xs ++ drop n xs ≡ xs
  take-append-drop zero xs = refl
  take-append-drop (suc n) [] = refl
  take-append-drop (suc n) (x ∷ xs) = ap (λ ys. x ∷ ys) (take-append-drop n xs)

  -- A cut at the seam of two lists, given by a number that equals the first one's length.
  pub take-append : (n : ℕ) (xs ys : List A) → length xs ≡ n → take n (xs ++ ys) ≡ xs
  take-append zero [] ys h = refl
  take-append zero (x ∷ xs) ys h = absurd (omega arith)
  take-append (suc n) [] ys h = absurd (omega arith)
  take-append (suc n) (x ∷ xs) ys h = ap (λ zs. x ∷ zs) (take-append n xs ys (omega arith))

  pub drop-append : (n : ℕ) (xs ys : List A) → length xs ≡ n → drop n (xs ++ ys) ≡ ys
  drop-append zero [] ys h = refl
  drop-append zero (x ∷ xs) ys h = absurd (omega arith)
  drop-append (suc n) [] ys h = absurd (omega arith)
  drop-append (suc n) (x ∷ xs) ys h = drop-append n xs ys (omega arith)

  pub take_all : (n : ℕ) (xs : List A) → length xs ≤ n → take n xs ≡ xs
  take_all zero [] h = refl
  take_all zero (x ∷ xs) h = absurd (omega arith)
  take_all (suc n) [] h = refl
  take_all (suc n) (x ∷ xs) h = ap (λ zs. x ∷ zs) (take_all n xs (omega arith))

  pub get_or-append_left :
      (xs ys : List A) (i : ℕ) (d : A) → i < length xs → get_or (xs ++ ys) i d ≡ get_or xs i d
  get_or-append_left [] ys i d h = absurd (omega arith)
  get_or-append_left (x ∷ xs) ys zero d h = refl
  get_or-append_left (x ∷ xs) ys (suc i) d h = get_or-append_left xs ys i d (omega arith)

  pub get_or-append_past :
      (xs ys : List A) (i : ℕ) (d : A)
      → length xs ≤ i
      → get_or (xs ++ ys) i d ≡ get_or ys (i - length xs) d
  get_or-append_past [] ys i d h = ap (λ k. get_or ys k d) (omega arith)
  get_or-append_past (x ∷ xs) ys zero d h = absurd (omega arith)
  get_or-append_past (x ∷ xs) ys (suc i) d h =
      get_or-append_past xs ys i d (omega arith) ∙ ap (λ k. get_or ys k d) (omega arith)

  pub get_or-drop :
      (n : ℕ) (xs : List A) (i : ℕ) (d : A) → get_or (drop n xs) i d ≡ get_or xs (n + i) d
  get_or-drop zero xs i d = ap (λ k. get_or xs k d) (omega arith)
  get_or-drop (suc n) [] i d = refl
  get_or-drop (suc n) (x ∷ xs) i d = get_or-drop n xs i d ∙ ap (λ k. get_or (x ∷ xs) k d) (shift n)
    where
      shift : (m : ℕ) → suc (m + i) ≡ suc m + i
      shift m = omega arith

  pub get_or-take :
      (n : ℕ) (xs : List A) (i : ℕ) (d : A) → i < n → get_or (take n xs) i d ≡ get_or xs i d
  get_or-take zero xs i d h = absurd (omega arith)
  get_or-take (suc n) [] i d h = refl
  get_or-take (suc n) (x ∷ xs) zero d h = refl
  get_or-take (suc n) (x ∷ xs) (suc i) d h = get_or-take n xs i d (omega arith)

  pub get_or_past : (xs : List A) (i : ℕ) (d : A) → length xs ≤ i → get_or xs i d ≡ d
  get_or_past [] i d h = refl
  get_or_past (x ∷ xs) zero d h = absurd (omega arith)
  get_or_past (x ∷ xs) (suc i) d h = get_or_past xs i d (omega arith)

  -- Lists of one length that agree at every index are equal.
  pub get_or_ext :
      (d : A) (xs ys : List A)
      → length xs ≡ length ys
      → ((i : ℕ) → i < length xs → get_or xs i d ≡ get_or ys i d)
      → xs ≡ ys
  get_or_ext d [] [] e h = refl
  get_or_ext d [] (y ∷ ys) e h = absurd (omega arith)
  get_or_ext d (x ∷ xs) [] e h = absurd (omega arith)
  get_or_ext d (x ∷ xs) (y ∷ ys) e h =
      ap₂ ◌∷◌ (h 0 (omega arith))
        (get_or_ext d xs ys (omega arith) (λ i p. h (suc i) (omega arith)))

  pub All-append {κ} : (P : A → Type κ) (xs ys : List A) → All P xs → All P ys → All P (xs ++ ys)
  All-append P [] ys h k = k
  All-append P (x ∷ xs) ys h k = (h.0, All-append P xs ys h.1 k)

-- The `n` elements of an array from index `i` on, as `memcpy(dst, xs + i, n)` reads them.
abbrev pub slice : List ℕ → ℕ → ℕ → List ℕ
slice xs i zero = []
slice xs i (suc n) = get_or xs i 0 ∷ slice xs (suc i) n

pub length-slice : (xs : List ℕ) (i n : ℕ) → length (slice xs i n) ≡ n
length-slice xs i zero = refl
length-slice xs i (suc n) = ap suc (length-slice xs (suc i) n)

pub get_or-slice :
    (xs : List ℕ) (i n j : ℕ) → j < n → get_or (slice xs i n) j 0 ≡ get_or xs (i + j) 0
get_or-slice xs i zero j h = absurd (omega arith)
get_or-slice xs i (suc n) zero h = ap (λ t. get_or xs t 0) (omega arith)
get_or-slice xs i (suc n) (suc j) h =
    get_or-slice xs (suc i) n j (omega arith) ∙ ap (λ t. get_or xs t 0) (omega arith)

pub get_or-replicate : (n i v : ℕ) → get_or (replicate n v) i v ≡ v
get_or-replicate zero i v = refl
get_or-replicate (suc n) zero v = refl
get_or-replicate (suc n) (suc i) v = get_or-replicate n i v

pub slice_ext :
    (xs ys : List ℕ) (i n : ℕ)
    → ((j : ℕ) → i ≤ j → j < i + n → get_or xs j 0 ≡ get_or ys j 0)
    → slice xs i n ≡ slice ys i n
slice_ext xs ys i zero h = refl
slice_ext xs ys i (suc n) h =
    ap₂ ◌∷◌ (h i (omega arith) (omega arith))
      (slice_ext xs ys (suc i) n (λ j p q. h j (omega arith) (omega arith)))

slice-cons : (x : ℕ) (xs : List ℕ) (i n : ℕ) → slice (x ∷ xs) (suc i) n ≡ slice xs i n
slice-cons x xs i zero = refl
slice-cons x xs i (suc n) = ap (λ zs. get_or xs i 0 ∷ zs) (slice-cons x xs (suc i) n)

-- Within the array a slice is a prefix of a suffix.
pub slice-zero : (xs : List ℕ) (n : ℕ) → n ≤ length xs → slice xs 0 n ≡ take n xs
slice-zero xs zero h = refl
slice-zero [] (suc n) h = absurd (omega arith)
slice-zero (x ∷ xs) (suc n) h =
    ap (λ zs. x ∷ zs) (slice-cons x xs 0 n) ∙ ap (λ zs. x ∷ zs) (slice-zero xs n (omega arith))

pub slice-eq-take-drop :
    (xs : List ℕ) (i n : ℕ) → i + n ≤ length xs → slice xs i n ≡ take n (drop i xs)
slice-eq-take-drop xs zero n h = slice-zero xs n (omega arith)
slice-eq-take-drop [] (suc i) zero h = absurd (omega arith)
slice-eq-take-drop [] (suc i) (suc n) h = absurd (omega arith)
slice-eq-take-drop (x ∷ xs) (suc i) n h =
    slice-cons x xs i n ∙ slice-eq-take-drop xs i n (omega arith)

pub slice_whole : (xs : List ℕ) (n : ℕ) → length xs ≡ n → slice xs 0 n ≡ xs
slice_whole xs n h = slice-zero xs n (omega arith) ∙ take_all n xs (omega arith)

pub slice-append_left : (xs ys : List ℕ) (n : ℕ) → length xs ≡ n → slice (xs ++ ys) 0 n ≡ xs
slice-append_left xs ys n h =
    slice-zero (xs ++ ys) n (omega (arith, length-append xs ys)) ∙ take-append n xs ys h

pub slice-append_right :
    (xs ys : List ℕ) (k n : ℕ) → length xs ≡ k → length ys ≡ n → slice (xs ++ ys) k n ≡ ys
slice-append_right xs ys k n h e =
    slice-eq-take-drop (xs ++ ys) k n (omega (arith, length-append xs ys))
    ∙ ap (take n) (drop-append k xs ys h)
    ∙ take_all n ys (omega arith)

-- Every element, and the 0 read past the end, is below the bound.
abbrev pub Below : ℕ → List ℕ → Type 0
Below b xs = (i : ℕ) → get_or xs i 0 < b

Below-cons : (b : ℕ) (x : ℕ) (xs : List ℕ) → x < b → Below b xs → Below b (x ∷ xs)
Below-cons b x xs h a zero = h
Below-cons b x xs h a (suc i) = a i

pub Below-of_All : (b : ℕ) (xs : List ℕ) → 0 < b → All (λ x. x < b) xs → Below b xs
Below-of_All b [] p h i = p
Below-of_All b (x ∷ xs) p h i = Below-cons b x xs h.0 (Below-of_All b xs p h.1) i

pub Below-take : (b n : ℕ) (xs : List ℕ) → 0 < b → Below b xs → Below b (take n xs)
Below-take b zero xs p h i = p
Below-take b (suc n) [] p h i = p
Below-take b (suc n) (x ∷ xs) p h zero = h 0
Below-take b (suc n) (x ∷ xs) p h (suc i) = Below-take b n xs p (λ j. h (suc j)) i

-- The `n` low bytes of a number, the lowest first.
abbrev pub le_bytes : ℕ → ℕ → List ℕ
le_bytes zero v = []
le_bytes (suc n) v = (v % 256) ∷ le_bytes n (v / 256)

pub length-le_bytes : (n v : ℕ) → length (le_bytes n v) ≡ n
length-le_bytes zero v = refl
length-le_bytes (suc n) v = ap suc (length-le_bytes n (v / 256))

abbrev pub concat : List (List ℕ) → List ℕ
concat [] = []
concat (xs ∷ xss) = xs ++ concat xss
