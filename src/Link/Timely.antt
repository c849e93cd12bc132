-- ===== src/Link/Timely.antt =====
-- The calling thread gives up at the first time limit that runs out.
use nuki_nrf52_bridge.Base.{
  ℕ, ◌≡◌, refl, sym, ap, ◌∙◌, ◌⊎◌, inl, inr, false, List, [], ◌∷◌, ◌++◌, append_assoc, leb,
  Bool-cases, Result, ok, err, is_ok, Errno,
}
use nuki_nrf52_bridge.Transport.{
  Transport, Event, happens, write_done, deadline, await_write, happen, write_cb,
}
use nuki_nrf52_bridge.Transport as T
use nuki_nrf52_bridge.Link.{Link, write, wait_min, accept_now}
use nuki_nrf52_bridge.Link.Contract.{Contract}
use mathlib.Core.Bool.{true≢false}

-- No time limit runs out in a part of the schedule.
abbrev pub Calm : List Event → Type 0
Calm [] = Unit
Calm (happens h ∷ es) = Calm es
Calm (write_done e ∷ es) = Calm es
Calm (deadline ∷ es) = ⊥

-- What was used up of a schedule: a calm part, and behind it at most one time limit, in the case of a failure.
pub record Used {A : Type 0} (es : List Event) (r : Result A) (rest : List Event) : Type 0 where
  pub calm : List Event
  pub is_calm : Calm calm
  pub split : (es ≡ calm ++ rest) ⊎ ((is_ok r ≡ false) × (es ≡ calm ++ deadline ∷ rest))

-- What a task uses up.
abbrev pub Spends : {A : Type 0} → Link → Result A × Link → Type 0
Spends l r = Used l.schedule r.0 r.1.schedule

Calm-append : (es fs : List Event) → Calm es → Calm fs → Calm (es ++ fs)
Calm-append [] fs h k = k
Calm-append (happens x ∷ es) fs h k = Calm-append es fs h k
Calm-append (write_done e ∷ es) fs h k = Calm-append es fs h k
Calm-append (deadline ∷ es) fs h k = absurd h

pub nothing-Used : {A : Type 0} (es : List Event) (r : Result A) → Used es r es
nothing-Used es r = record { calm = []; is_calm = tt; split = inl refl }

-- One more event in front.
one-Used :
    {A : Type 0} (e : Event) (es rest : List Event) (r : Result A)
    → ((fs : List Event) → Calm fs → Calm (e ∷ fs))
    → Used es r rest
    → Used (e ∷ es) r rest
one-Used e es rest r quiet u = record {
  calm = e ∷ u.calm;
  is_calm = quiet u.calm u.is_calm;
  split = elim u.split [ inl s ↦ inl (ap (λ k. e ∷ k) s) | inr s ↦ inr (s.0, ap (λ k. e ∷ k) s.1) ];
}

limit-Used :
    {A : Type 0} (es : List Event) (r : Result A) → is_ok r ≡ false → Used (deadline ∷ es) r es
limit-Used es r h = record { calm = []; is_calm = tt; split = inr (h, refl) }

await_write-Used :
    (es : List Event) (t : Transport) → Used es (await_write es t).0 (await_write es t).2
unfolding await_write
await_write-Used [] t = nothing-Used [] _
await_write-Used (happens h ∷ es) t =
    one-Used (happens h) es _ _ (λ fs c. c) (await_write-Used es (happen h t))
await_write-Used (write_done e ∷ es) t =
    one-Used (write_done e) es es _ (λ fs c. c) (nothing-Used es _)
await_write-Used (deadline ∷ es) t = limit-Used es _ refl

write-Used :
    (r : Result (Unit {0})) (es : List Event) (t : Transport)
    → Used es (T.write r es t).0 (T.write r es t).2
unfolding T.write
write-Used (ok _) es t = await_write-Used es t
write-Used (err e) es t = nothing-Used es _

pub write-Spends : (data' : List ℕ) (l : Link) → Spends l (write data' l)
unfolding write
write-Spends data' l = write-Used (accept_now l.accepts) l.schedule l.transport

wait_min-Used :
    (n : ℕ) (es : List Event) (t : Transport) → Used es (T.wait_min n es t).0 (T.wait_min n es t).2
unfolding T.wait_min
wait_min-Used n [] t = nothing-Used [] _
wait_min-Used n (happens h ∷ es) t = elim (Bool-cases (leb n t.rx_len)) [
  | inl e ↦ rw e (nothing-Used (happens h ∷ es) _)
  | inr e ↦ rw e (one-Used (happens h) es _ _ (λ fs c. c) (wait_min-Used n es (happen h t)))
]
wait_min-Used n (write_done x ∷ es) t = elim (Bool-cases (leb n t.rx_len)) [
  | inl e ↦ rw e (nothing-Used (write_done x ∷ es) _)
  | inr e ↦ rw e (one-Used (write_done x) es _ _ (λ fs c. c) (wait_min-Used n es (write_cb x t)))
]
wait_min-Used n (deadline ∷ es) t = elim (Bool-cases (leb n t.rx_len)) [
  | inl e ↦ rw e (nothing-Used (deadline ∷ es) _)
  | inr e ↦ rw e (limit-Used es _ refl)
]

pub wait_min-Spends : (n : ℕ) (l : Link) → Spends l (wait_min n l)
unfolding wait_min
wait_min-Spends n l = wait_min-Used n l.schedule l.transport

-- A success, and what follows it.
pub Used-Used :
    {A B : Type 0} (a : A) (es fs rest : List Event) (r : Result B)
    → Used es (ok a) fs
    → Used fs r rest
    → Used es r rest
Used-Used a es fs rest r u v = record {
  calm = u.calm ++ v.calm;
  is_calm = Calm-append u.calm v.calm u.is_calm v.is_calm;
  split = elim u.split [
    | inl s ↦ elim v.split [
      | inl k ↦ inl (s ∙ ap (λ x. u.calm ++ x) k ∙ sym (append_assoc u.calm v.calm rest))
      | inr k ↦
          inr (
            k.0,
            s ∙ ap (λ x. u.calm ++ x) k.1 ∙ sym (append_assoc u.calm v.calm (deadline ∷ rest)),
          )
    ]
    | inr s ↦ absurd (true≢false s.0)
  ];
}

pub failed-Used :
    {A B : Type 0} (e : Errno) (es rest : List Event)
    → Used {A = A} es (err e) rest
    → Used {A = B} es (err e) rest
failed-Used e es rest u = record { calm = u.calm; is_calm = u.is_calm; split = u.split }

abbrev pub timely : Contract
timely = record {
  Holds = Spends;
  by_nothing = λ r l. nothing-Used l.schedule r;
  by_entropy = λ r e l. nothing-Used l.schedule r;
  by_captured = λ r s l. nothing-Used l.schedule r;
  by_reset = λ r l. nothing-Used l.schedule r;
  by_write = write-Spends;
  by_wait = wait_min-Spends;
  by_steps = λ a l l1 r h k. Used-Used a l.schedule l1.schedule r.1.schedule r.0 h k;
  by_failure = λ e l l1 h. failed-Used e l.schedule l1.schedule h;
}
