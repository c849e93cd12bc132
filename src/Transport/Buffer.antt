-- ===== src/Transport/Buffer.antt =====
-- src/nuki_transport.c: the receive buffer as a queue of at most 256 bytes.
use nuki_nrf52_bridge.Base.{
  ℕ, zero, suc, ◌+◌, ◌-◌, ◌≤◌, min, ◌≡◌, refl, sym, ap, ◌∙◌, List, [], ◌∷◌, ◌++◌, length, slice,
  take, drop, length-append, length-take, length-drop, length-slice, take-append, slice-zero,
  take_all, append-nil, arith,
}
use nuki_nrf52_bridge.Transport.{
  Transport, notify_cb, peek, reset, happen, Happening, indication, removed,
}

-- The buffer has its size, and the count is within it.
pub record IsTransport (t : Transport) : Type 0 where
  pub size : length t.rx_buf ≡ 256
  pub fill : t.rx_len ≤ 256

-- The bytes collected since the last reset.
unfoldable pub contents : Transport → List ℕ
contents t = take t.rx_len t.rx_buf

pub length-contents : (t : Transport) → IsTransport t → length (contents t) ≡ t.rx_len
unfolding contents
length-contents t h = omega (arith, length-take t.rx_len t.rx_buf, h.size, h.fill)

-- A prefix of a list with a shorter prefix in front.
take_past : (n : ℕ) (xs ys : List ℕ) → take (length xs + n) (xs ++ ys) ≡ xs ++ take n ys
take_past n [] ys = ap (λ k. take k ys) (omega arith)
take_past n (x ∷ xs) ys =
    ap (λ k. take k (x ∷ xs ++ ys)) (one_more (length xs)) ∙ ap (λ zs. x ∷ zs) (take_past n xs ys)
  where
    one_more : (m : ℕ) → suc m + n ≡ suc (m + n)
    one_more m = omega arith

take-clip : (n : ℕ) (ys : List ℕ) → take (min n (length ys)) ys ≡ take n ys
take-clip zero ys = ap (λ k. take k ys) {y = 0} (omega arith)
take-clip (suc n) [] = ap (λ k. take k []) {y = 0} (omega arith)
take-clip (suc n) (y ∷ ys) =
    ap (λ k. take k (y ∷ ys)) (both n (length ys)) ∙ ap (λ zs. y ∷ zs) (take-clip n ys)
  where
    both : (a b : ℕ) → min (suc a) (suc b) ≡ suc (min a b)
    both a b = omega arith

take-whole :
    (n : ℕ) (xs ys : List ℕ) → length xs ≤ n → take n (xs ++ ys) ≡ xs ++ take (n - length xs) ys
take-whole n xs ys h = ap (λ k. take k (xs ++ ys)) (omega arith) ∙ take_past (n - length xs) xs ys

pub take-within : (n : ℕ) (xs ys : List ℕ) → n ≤ length xs → take n (xs ++ ys) ≡ take n xs
take-within zero xs ys h = refl
take-within (suc n) [] ys h = absurd (omega arith)
take-within (suc n) (x ∷ xs) ys h = ap (λ zs. x ∷ zs) (take-within n xs ys (omega arith))

pub take_twice : (n m : ℕ) (xs : List ℕ) → n ≤ m → take n (take m xs) ≡ take n xs
take_twice zero m xs h = refl
take_twice (suc n) zero xs h = absurd (omega arith)
take_twice (suc n) (suc m) [] h = refl
take_twice (suc n) (suc m) (x ∷ xs) h = ap (λ zs. x ∷ zs) (take_twice n m xs (omega arith))

-- An indication is appended to the bytes collected, and what does not fit is dropped; the buffer keeps
-- its shape.
pub contents-notify_cb :
    (t : Transport) (data' : List ℕ)
    → IsTransport t
    → (contents (notify_cb data' t) ≡ take 256 (contents t ++ data'))
      × IsTransport (notify_cb data' t)
unfolding contents notify_cb
contents-notify_cb t data' h = (joined, record { size = same_size; fill = omega (arith, h.fill) })
  where
    copy : ℕ
    copy = min (256 - t.rx_len) (length data')

    held : List ℕ
    held = take t.rx_len t.rx_buf

    held_len : length held ≡ t.rx_len
    held_len = omega (arith, length-take t.rx_len t.rx_buf, h.size, h.fill)

    put : List ℕ
    put = slice data' 0 copy

    rest : List ℕ
    rest = drop (t.rx_len + copy) t.rx_buf

    front_len : length (held ++ put) ≡ t.rx_len + copy
    front_len = omega (arith, length-append held put, held_len, length-slice data' 0 copy)

    same_size : length (held ++ put ++ rest) ≡ 256
    same_size = omega (
      arith,
      length-append (held ++ put) rest,
      front_len,
      length-drop (t.rx_len + copy) t.rx_buf,
      h.size,
      h.fill,
    )

    put_eq : put ≡ take (256 - length held) data'
    put_eq =
        slice-zero data' copy (omega arith)
        ∙ take-clip (256 - t.rx_len) data'
        ∙ ap (λ k. take (256 - k) data') (sym held_len)

    joined : take (t.rx_len + copy) (held ++ put ++ rest) ≡ take 256 (held ++ data')
    joined =
        take-append (t.rx_len + copy) (held ++ put) rest front_len
        ∙ ap (λ zs. held ++ zs) put_eq
        ∙ sym (take-whole 256 held data' (omega (arith, held_len, h.fill)))

-- The bytes that something brings.
abbrev pub brought : Happening → List ℕ
brought (indication data') = data'
brought removed = []

pub contents_all : (t : Transport) → IsTransport t → take 256 (contents t) ≡ contents t
contents_all t h = take_all 256 (contents t) (omega (arith, length-contents t h, h.fill))

pub contents-happen :
    (t : Transport) (e : Happening)
    → IsTransport t
    → (contents (happen e t) ≡ take 256 (contents t ++ brought e)) × IsTransport (happen e t)
contents-happen t (indication data') h = contents-notify_cb t data' h
contents-happen t removed h =
    (sym (contents_all t h) ∙ ap (take 256) (sym (append-nil (contents t))), h)

-- What is read is what was collected.
pub peek-contents :
    (t : Transport) (n : ℕ) → IsTransport t → n ≤ t.rx_len → peek n t ≡ take n (contents t)
unfolding contents peek
peek-contents t n h fits =
    slice-zero t.rx_buf n (omega (arith, h.size, h.fill))
    ∙ sym (take_twice n t.rx_len t.rx_buf fits)

pub contents-reset :
    (t : Transport) → IsTransport t → (contents (reset t) ≡ []) × IsTransport (reset t)
unfolding contents reset
contents-reset t h = (refl, record { size = h.size; fill = omega arith })
