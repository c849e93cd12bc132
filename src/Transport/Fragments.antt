-- ===== src/Transport/Fragments.antt =====
-- src/nuki_transport.c: a message that arrives in pieces, none of them empty.
use nuki_nrf52_bridge.Base.{
  concat, ℕ, ◌+◌, ◌≤◌, ◌<◌, ◌≡◌, refl, sym, ap, ◌∙◌, inl, inr, List, [], ◌∷◌, ◌++◌, length, take,
  leb, leb→le, le→leb, append_assoc, append-nil, length-append, take_all, All, Bool-cases, false,
  ok, arith,
}
use nuki_nrf52_bridge.Transport.{Transport, Event, happens, write_done, deadline, wait_min}
use nuki_nrf52_bridge.Transport.{indication, notify_cb}
use nuki_nrf52_bridge.Transport.Buffer.{IsTransport, contents, contents-notify_cb, length-contents}

-- The pieces as a schedule, and what follows them.
abbrev pub arrivals : List (List ℕ) → List Event → List Event
arrivals [] rest = rest
arrivals (f ∷ fs) rest = happens (indication f) ∷ arrivals fs rest

abbrev pub NonEmpty : List ℕ → Type 0
NonEmpty f = 0 < length f

wait_min-ready :
    (n : ℕ) (es : List Event) (t : Transport) → n ≤ t.rx_len → wait_min n es t ≡ (ok tt, t, es)
unfolding wait_min
wait_min-ready n [] t h = rw (le→leb n t.rx_len h)
wait_min-ready n (happens e ∷ es) t h = rw (le→leb n t.rx_len h)
wait_min-ready n (write_done e ∷ es) t h = rw (le→leb n t.rx_len h)
wait_min-ready n (deadline ∷ es) t h = rw (le→leb n t.rx_len h)

wait_min-piece :
    (n : ℕ) (f : List ℕ) (es : List Event) (t : Transport)
    → leb n t.rx_len ≡ false
    → wait_min n (happens (indication f) ∷ es) t ≡ wait_min n es (notify_cb f t)
unfolding wait_min
wait_min-piece n f es t h = rw h

-- The wait takes some of the pieces and leaves the others.
pub record Taken (n : ℕ) (fs : List (List ℕ)) (rest : List Event) (t : Transport) : Type 0 where
  pub before : List (List ℕ)
  pub after : List (List ℕ)
  pub pieces : fs ≡ before ++ after
  pub t' : Transport
  pub answer : wait_min n (arrivals fs rest) t ≡ (ok tt, t', arrivals after rest)
  pub joined : contents t' ≡ contents t ++ concat before
  pub kept : IsTransport t'
  pub enough : n ≤ t'.rx_len

already :
    (n : ℕ) (fs : List (List ℕ)) (rest : List Event) (t : Transport)
    → IsTransport t
    → n ≤ t.rx_len
    → Taken n fs rest t
already n fs rest t h e = record {
  before = [];
  after = fs;
  pieces = refl;
  t' = t;
  answer = wait_min-ready n (arrivals fs rest) t e;
  joined = sym (append-nil (contents t));
  kept = h;
  enough = e;
}

-- One piece that fits.
pub piece_fits :
    (t : Transport) (f : List ℕ)
    → IsTransport t
    → t.rx_len + length f ≤ 256
    → (contents (notify_cb f t) ≡ contents t ++ f)
      × IsTransport (notify_cb f t)
      × ((notify_cb f t).rx_len ≡ t.rx_len + length f)
piece_fits t f h fits = (whole, next.1, count)
  where
    next : (contents (notify_cb f t) ≡ take 256 (contents t ++ f)) × IsTransport (notify_cb f t)
    next = contents-notify_cb t f h

    len : length (contents t ++ f) ≡ t.rx_len + length f
    len = omega (arith, length-append (contents t) f, length-contents t h)

    whole : contents (notify_cb f t) ≡ contents t ++ f
    whole = next.0 ∙ take_all 256 (contents t ++ f) (omega (arith, len))

    count : (notify_cb f t).rx_len ≡ t.rx_len + length f
    count = sym (length-contents (notify_cb f t) next.1) ∙ ap length whole ∙ len

pub wait_min-Taken :
    (n : ℕ) (fs : List (List ℕ)) (rest : List Event) (t : Transport)
    → IsTransport t
    → n ≤ t.rx_len + length (concat fs)
    → t.rx_len + length (concat fs) ≤ 256
    → Taken n fs rest t
wait_min-Taken n [] rest t h e fits = already n [] rest t h (omega arith)
wait_min-Taken n (f ∷ fs) rest t h e fits = elim (Bool-cases (leb n t.rx_len)) [
  | inl done ↦ already n (f ∷ fs) rest t h (leb→le n t.rx_len done)
  | inr more ↦
      let total : length (f ++ concat fs) ≡ length f + length (concat fs) =
        length-append f (concat fs) in
      let piece = piece_fits t f h (omega (arith, total)) in
      let w =
        wait_min-Taken n fs rest (notify_cb f t) piece.1 (omega (arith, total, piece.2))
          (omega (arith, total, piece.2)) in
      record {
        before = f ∷ w.before;
        after = w.after;
        pieces = ap (λ s. f ∷ s) w.pieces;
        t' = w.t';
        answer = wait_min-piece n f (arrivals fs rest) t more ∙ w.answer;
        joined =
            w.joined
            ∙ ap (λ c. c ++ concat w.before) piece.0
            ∙ append_assoc (contents t) f (concat w.before);
        kept = w.kept;
        enough = w.enough;
      }
]

pub concat-append : (as' bs : List (List ℕ)) → concat (as' ++ bs) ≡ concat as' ++ concat bs
concat-append [] bs = refl
concat-append (a ∷ as') bs =
    ap (λ s. a ++ s) (concat-append as' bs) ∙ sym (append_assoc a (concat as') (concat bs))

pub All-after : (as' bs : List (List ℕ)) → All NonEmpty (as' ++ bs) → All NonEmpty bs
All-after [] bs h = h
All-after (a ∷ as') bs h = All-after as' bs h.1

-- No piece is left where no byte is.
pub nothing_left : (bs : List (List ℕ)) → All NonEmpty bs → length (concat bs) ≡ 0 → bs ≡ []
nothing_left [] h e = refl
nothing_left (b ∷ bs) h e = absurd (omega (arith, length-append b (concat bs), h.0))
