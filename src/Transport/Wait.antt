-- ===== src/Transport/Wait.antt =====
-- src/nuki_transport.c: what a wait for a number of bytes comes to.
use nuki_nrf52_bridge.Base.{
  ℕ, zero, suc, ◌≤◌, ◌<◌, ◌≡◌, refl, sym, ap, subst, ◌∙◌, ◌⊎◌, inl, inr, Bool, true, false, length,
  List, [], ◌∷◌, ◌++◌, take, leb, leb→le, append_assoc, append-nil, if_elim, Bool-cases, Result, ok,
  err, eagain, arith,
}
use nuki_nrf52_bridge.Transport.{
  Transport, Event, happens, write_done, deadline, wait_min, happen, write_cb,
}
use nuki_nrf52_bridge.Transport.Buffer.{
  IsTransport, contents, length-contents, contents-happen, contents_all, brought,
}

-- The bytes that a part of the schedule brings.
abbrev pub bytes : List Event → List ℕ
bytes [] = []
bytes (happens h ∷ es) = brought h ++ bytes es
bytes (write_done e ∷ es) = bytes es
bytes (deadline ∷ es) = bytes es

abbrev pub is_deadline : Event → Bool
is_deadline deadline = true
is_deadline (happens h) = false
is_deadline (write_done e) = false

-- Before each of these events too few bytes were collected, of which `xs` are the first, and none is the
-- time limit.
abbrev pub Lacking : ℕ → List ℕ → List Event → Type 0
Lacking n xs [] = Unit
Lacking n xs (e ∷ es) =
    (length xs < n) × (is_deadline e ≡ false) × Lacking n (take 256 (xs ++ bytes (e ∷ []))) es

-- What a wait comes to: a part of the schedule is used up, its bytes are appended as far as the buffer
-- holds them, and it goes on up to the first event behind which there are enough, or else to the time limit.
pub record Waited (n : ℕ) (es : List Event) (t : Transport)
    (answer : Result (Unit {0}) × Transport × List Event) : Type 0 where
  pub seen : List Event
  pub split : es ≡ seen ++ answer.2
  pub collected : contents answer.1 ≡ take 256 (contents t ++ bytes seen)
  pub kept : IsTransport answer.1
  pub outcome :
      ((answer.0 ≡ ok tt) × (n ≤ answer.1.rx_len) × Lacking n (contents t) seen)
      ⊎ ((answer.0 ≡ err eagain)
          × (answer.1.rx_len < n)
          × ((before : List Event) × Lacking n (contents t) before
              × ((seen ≡ before ++ deadline ∷ []) ⊎ ((seen ≡ before) × (answer.2 ≡ [])))))

pub take-take_append : (n : ℕ) (xs ys : List ℕ) → take n (take n xs ++ ys) ≡ take n (xs ++ ys)
take-take_append zero xs ys = refl
take-take_append (suc n) [] ys = refl
take-take_append (suc n) (x ∷ xs) ys = ap (λ zs. x ∷ zs) (take-take_append n xs ys)

nothing_seen : (t : Transport) → IsTransport t → contents t ≡ take 256 (contents t ++ [])
nothing_seen t h = sym (contents_all t h) ∙ ap (take 256) (sym (append-nil (contents t)))

leb_false→lt : (a b : ℕ) → leb a b ≡ false → b < a
leb_false→lt a b h = ground arith

stop :
    (n : ℕ) (es : List Event) (t : Transport)
    → IsTransport t
    → leb n t.rx_len ≡ true
    → Waited n es t (ok tt, t, es)
stop n es t h e = record {
  seen = [];
  split = refl;
  collected = nothing_seen t h;
  kept = h;
  outcome = inl (refl, leb→le n t.rx_len e, tt);
}

give_up :
    (n : ℕ) (es rest seen : List Event) (t : Transport)
    → IsTransport t
    → es ≡ seen ++ rest
    → bytes seen ≡ []
    → leb n t.rx_len ≡ false
    → ((seen ≡ deadline ∷ []) ⊎ ((seen ≡ []) × (rest ≡ [])))
    → Waited n es t (err eagain, t, rest)
give_up n es rest seen t h s none_came e over = record {
  seen = seen;
  split = s;
  collected = nothing_seen t h ∙ ap (λ b. take 256 (contents t ++ b)) (sym none_came);
  kept = h;
  outcome = inr (refl, leb_false→lt n t.rx_len e, ([], tt, over));
}

go_on :
    (n : ℕ) (e : Event) (es : List Event) (t t' : Transport) (b : List ℕ)
    (answer : Result (Unit {0}) × Transport × List Event)
    → IsTransport t
    → leb n t.rx_len ≡ false
    → is_deadline e ≡ false
    → ((seen : List Event) → bytes (e ∷ seen) ≡ b ++ bytes seen)
    → contents t' ≡ take 256 (contents t ++ b)
    → Waited n es t' answer
    → Waited n (e ∷ es) t answer
go_on n e es t t' b answer h few quiet one step w = record {
  seen = e ∷ w.seen;
  split = ap (λ s. e ∷ s) w.split;
  collected =
      w.collected
      ∙ ap (λ c. take 256 (c ++ bytes w.seen)) step
      ∙ take-take_append 256 (contents t ++ b) (bytes w.seen)
      ∙ ap (take 256) (append_assoc (contents t) b (bytes w.seen))
      ∙ ap (λ c. take 256 (contents t ++ c)) (sym (one w.seen));
  kept = w.kept;
  outcome = elim w.outcome [
    | inl enough ↦ inl (enough.0, enough.1, lacking w.seen enough.2)
    | inr (late, too_few, (before, l, over)) ↦ inr (
      late,
      too_few,
      (
        e ∷ before,
        lacking before l,
        elim over [
          | inl timed ↦ inl (ap (λ s. e ∷ s) timed)
          | inr ended ↦ inr (ap (λ s. e ∷ s) (ended.0), ended.1)
        ],
      ),
    )
  ];
}
  where
    same : contents t' ≡ take 256 (contents t ++ bytes (e ∷ []))
    same = step ∙ ap (λ c. take 256 (contents t ++ c)) (sym (one [] ∙ append-nil b))

    lacking : (es : List Event) → Lacking n (contents t') es → Lacking n (contents t) (e ∷ es)
    lacking es l = (
      subst (λ k. k < n) (sym (length-contents t h)) (leb_false→lt n t.rx_len few),
      quiet,
      subst (λ c. Lacking n c es) same l,
    )

-- A wait always ends, and whatever happens meanwhile: a part of the schedule is used up, and the bytes it
-- brought are appended to those collected, up to the 256 that fit. If the answer is 0, there are at least
-- `min_len` bytes then, and there were fewer before each of the events used up, none of which is the time limit.
-- Else the answer is EAGAIN, there are fewer bytes, before each of those events too, and the last event is the
-- time limit, or the schedule is at its end.
pub wait_min_lem :
    (n : ℕ) (es : List Event) (t : Transport) → IsTransport t → Waited n es t (wait_min n es t)
unfolding wait_min contents
wait_min_lem n [] t h = elim (Bool-cases (leb n t.rx_len)) [
  | inl e ↦ rw e (stop n [] t h e)
  | inr e ↦ rw e (give_up n [] [] [] t h refl refl e (inr (refl, refl)))
]
wait_min_lem n (happens e ∷ es) t h =
    let step = contents-happen t e h in
    if_elim (Waited n (happens e ∷ es) t) (leb n t.rx_len) (ok tt, t, happens e ∷ es)
      (wait_min n es (happen e t)) (stop n (happens e ∷ es) t h)
      (λ few.
        go_on n (happens e) es t (happen e t) (brought e) _ h few refl (λ _. refl) step.0
          (wait_min_lem n es (happen e t) step.1))
wait_min_lem n (write_done e ∷ es) t h =
    if_elim (Waited n (write_done e ∷ es) t) (leb n t.rx_len) (ok tt, t, write_done e ∷ es)
      (wait_min n es (write_cb e t)) (stop n (write_done e ∷ es) t h)
      (λ few.
        go_on n (write_done e) es t (write_cb e t) [] _ h few refl (λ _. refl) (nothing_seen t h)
          (wait_min_lem n es (write_cb e t) (record { size = h.size; fill = h.fill })))
wait_min_lem n (deadline ∷ es) t h =
    if_elim (Waited n (deadline ∷ es) t) (leb n t.rx_len) (ok tt, t, deadline ∷ es)
      (err eagain, t, es) (stop n (deadline ∷ es) t h)
      (λ few. give_up n (deadline ∷ es) es (deadline ∷ []) t h refl refl few (inl refl))
