-- ===== src/Transport/Arrived.antt =====
-- src/nuki_transport.c: a message that arrives in pieces and is awaited in two steps, its header first.
use nuki_nrf52_bridge.Base.{
  concat, ℕ, ◌+◌, ◌≤◌, ◌≡◌, refl, sym, ap, subst, ◌∙◌, List, [], ◌++◌, length, take, length-append,
  take_all, append_assoc, append-nil, All, ok, arith,
}
use nuki_nrf52_bridge.Transport.{Transport, Event, peek, reset, wait_min}
use nuki_nrf52_bridge.Transport.Buffer.{
  IsTransport, contents, length-contents, peek-contents, take-within,
}
use nuki_nrf52_bridge.Transport.Fragments.{
  arrivals, NonEmpty, Taken, wait_min-Taken, concat-append, All-after, nothing_left,
}

-- Pieces whose bytes complete a message of `n` bytes: the first wait leaves the header of `k` bytes in
-- front, the second one the message, and no piece is left.
pub record Arrived (k n : ℕ) (w : List ℕ) (rest : List Event) (es : List Event) (t : Transport)
    : Type 0 where
  pub t1 : Transport
  pub es1 : List Event
  pub first : wait_min k es t ≡ (ok tt, t1, es1)
  pub header : peek k t1 ≡ take k w
  pub t2 : Transport
  pub second : wait_min n es1 t1 ≡ (ok tt, t2, rest)
  pub message : peek n t2 ≡ w
  pub kept : IsTransport t2

pub reset_count : (t : Transport) → (reset t).rx_len ≡ 0
unfolding reset
reset_count t = refl

pub empty_contents : (t : Transport) → t.rx_len ≡ 0 → contents t ≡ []
unfolding contents
empty_contents t h = ap (λ k. take k t.rx_buf) h

-- Behind a front that is long enough nothing follows.
nothing_over : (n : ℕ) (w c d : List ℕ) → length w ≡ n → w ≡ c ++ d → n ≤ length c → length d ≡ 0
nothing_over n w c d len whole enough = omega (arith, len, ap length whole, length-append c d)

pub arrived :
    (k n : ℕ) (w : List ℕ) (fs : List (List ℕ)) (rest : List Event) (t : Transport)
    → IsTransport t
    → All NonEmpty fs
    → contents t ++ concat fs ≡ w
    → length w ≡ n
    → k ≤ n
    → n ≤ 256
    → Arrived k n w rest (arrivals fs rest) t
arrived k n w fs rest t h pieces whole len low high = record {
  t1 = a.t';
  es1 = arrivals a.after rest;
  first = a.answer;
  header =
      peek-contents a.t' k a.kept a.enough
      ∙ sym (
          take-within k (contents a.t') (concat a.after)
            (omega (arith, length-contents a.t' a.kept, a.enough)))
      ∙ ap (take k) (sym whole1);
  t2 = b.t';
  second = b.answer ∙ ap (λ fs'. (ok tt, b.t', arrivals fs' rest)) none_left;
  message =
      peek-contents b.t' n b.kept b.enough
      ∙ ap (take n) all_held
      ∙ take_all n w (omega (arith, len));
  kept = b.kept;
}
  where
    total : t.rx_len + length (concat fs) ≡ n
    total =
        omega
          (arith, length-contents t h, length-append (contents t) (concat fs), ap length whole, len)

    a : Taken k fs rest t
    a = wait_min-Taken k fs rest t h (omega (arith, total)) (omega (arith, total))

    whole1 : w ≡ contents a.t' ++ concat a.after
    whole1 =
        sym whole
        ∙ ap (λ c. contents t ++ c) (ap concat a.pieces ∙ concat-append a.before a.after)
        ∙ sym (append_assoc (contents t) (concat a.before) (concat a.after))
        ∙ ap (λ c. c ++ concat a.after) (sym a.joined)

    total1 : a.t'.rx_len + length (concat a.after) ≡ n
    total1 = omega (
      arith,
      length-contents a.t' a.kept,
      len,
      ap length whole1,
      length-append (contents a.t') (concat a.after),
    )

    b : Taken n a.after rest a.t'
    b = wait_min-Taken n a.after rest a.t' a.kept (omega (arith, total1)) (omega (arith, total1))

    whole2 : w ≡ contents b.t' ++ concat b.after
    whole2 =
        whole1
        ∙ ap (λ c. contents a.t' ++ c) (ap concat b.pieces ∙ concat-append b.before b.after)
        ∙ sym (append_assoc (contents a.t') (concat b.before) (concat b.after))
        ∙ ap (λ c. c ++ concat b.after) (sym b.joined)

    none_left : b.after ≡ []
    none_left =
        nothing_left b.after
          (All-after b.before b.after (
            subst (All NonEmpty) b.pieces
              (All-after a.before a.after (subst (All NonEmpty) a.pieces pieces))))
          (nothing_over n w (contents b.t') (concat b.after) len whole2
            (subst (λ k. n ≤ k) (sym (length-contents b.t' b.kept)) b.enough))

    all_held : contents b.t' ≡ w
    all_held =
        sym (append-nil (contents b.t'))
        ∙ ap (λ fs'. contents b.t' ++ concat fs') (sym none_left)
        ∙ sym whole2
