-- ===== src/Command/Drain.antt =====
-- src/nuki_command.c: the loop of `drain_until_complete`, described as a relation of steps.
use nuki_nrf52_bridge.Base.{
  ℕ, zero, suc, ◌≡◌, refl, sym, ap, ◌∙◌, inl, inr, Bool, true, false, not, ◌&&◌, ◌||◌, List, length,
  get_or, ◌==◌, ==_iff, if◌then◌else◌, Bool-cases, Result, ok, err, Errno, eio, ebadmsg, etimedout,
}
use nuki_nrf52_bridge.Zephyr.{ByteOrder}
use nuki_nrf52_bridge.Protocol.Commands.{
  cmd_keyturner_states, cmd_status, cmd_error_report, status_complete,
}
use nuki_nrf52_bridge.Protocol.State.{KeyturnerState, state_parse}
use nuki_nrf52_bridge.Link.{Link, Task, resume}
use nuki_nrf52_bridge.Command.{recv_encrypted, drain_round, drain_rounds, capture_report}
use mathlib.Core.Bool.{true≢false}

-- A message after which the loop goes on: neither an ErrorReport nor a Status, but for a Status of
-- one byte that is not COMPLETE.
abbrev pub passing : ℕ × List ℕ → Bool
passing (cmd, payload) =
    not (cmd == cmd_error_report)
    && (not (cmd == cmd_status)
        || ((length payload == 1) && not (get_or payload 0 0 == status_complete)))

-- What the other messages mean.
abbrev pub verdict : ℕ × List ℕ → Result (Unit {0})
verdict (cmd, payload) =
    if cmd == cmd_error_report then err eio else if length payload == 1 then ok tt else err ebadmsg

module _ (bo : ByteOrder) (key : List ℕ) where
  -- A report of the state is noted if the caller wants it and it parses.
  abbrev pub noted : Bool → ℕ × List ℕ → Link → Link
  noted want (cmd, payload) l =
      if cmd == cmd_keyturner_states && want
      then (capture_report (state_parse bo payload (length payload)) l).1
      else l

  -- `Drains want n l r l'`: with at most `n` more messages the loop ends with `r`, in `l'`.
  pub data Drains (want : Bool) : ℕ → Link → Result (Unit {0}) → Link → Type 0 where
    gave_up : (l : Link) → Drains want 0 l (err etimedout) l
    broke :
        (n : ℕ) (l l' : Link) (e : Errno)
        → recv_encrypted bo key 200 l ≡ (err e, l')
        → Drains want (suc n) l (err e) l'
    ended :
        (n : ℕ) (l l' : Link) (m : ℕ × List ℕ)
        → recv_encrypted bo key 200 l ≡ (ok m, l')
        → passing m ≡ false
        → Drains want (suc n) l (verdict m) l'
    went_on :
        (n : ℕ) (l l1 l' : Link) (m : ℕ × List ℕ) (r : Result (Unit {0}))
        → recv_encrypted bo key 200 l ≡ (ok m, l1)
        → passing m ≡ true
        → Drains want n (noted want m l1) r l'
        → Drains want (suc n) l r l'

  report_passes :
      (want : Bool) (more : Task (Unit {0})) (r : Result KeyturnerState) (l : Link)
      → resume (λ _. more) (capture_report r l) ≡ more (capture_report r l).1
  report_passes want more (ok s) l = refl
  report_passes want more (err e) l = refl

  pub goes_on :
      (want : Bool) (more : Task (Unit {0})) (m : ℕ × List ℕ) (l : Link)
      → passing m ≡ true
      → drain_round bo key want more m l ≡ more (noted want m l)
  unfolding drain_round
  goes_on want more (cmd, payload) l p =
      let parsed = state_parse bo payload (length payload) in
      elim (Bool-cases (cmd == cmd_error_report)) [
        | inl a ↦ absurd (true≢false (sym p ∙ rw a))
        | inr a ↦ elim (Bool-cases (cmd == cmd_status)) [
          | inl b ↦ elim (Bool-cases (length payload == 1)) [
            | inl c ↦ elim (Bool-cases (get_or payload 0 0 == status_complete)) [
              | inl d ↦ absurd (true≢false (sym p ∙ rw (a, b, c, d)))
              | inr d ↦
                  let other = ap (λ k. k == cmd_keyturner_states) ((==_iff cmd cmd_status).0 b) in
                  rw (a, b, c, d, other)
            ]
            | inr c ↦ absurd (true≢false (sym p ∙ rw (a, b, c)))
          ]
          | inr b ↦ elim (Bool-cases (cmd == cmd_keyturner_states && want)) [
            | inl c ↦ rw (a, b, c) (report_passes want more parsed l)
            | inr c ↦ rw (a, b, c)
          ]
        ]
      ]

  pub ends :
      (want : Bool) (more : Task (Unit {0})) (m : ℕ × List ℕ) (l : Link)
      → passing m ≡ false
      → drain_round bo key want more m l ≡ (verdict m, l)
  unfolding drain_round
  ends want more (cmd, payload) l p = elim (Bool-cases (cmd == cmd_error_report)) [
    | inl a ↦ rw a
    | inr a ↦ elim (Bool-cases (cmd == cmd_status)) [
      | inl b ↦ elim (Bool-cases (length payload == 1)) [
        | inl c ↦ elim (Bool-cases (get_or payload 0 0 == status_complete)) [
          | inl d ↦ rw (a, b, c, d)
          | inr d ↦ absurd (true≢false (sym (rw (a, b, c, d)) ∙ p))
        ]
        | inr c ↦ rw (a, b, c)
      ]
      | inr b ↦ absurd (true≢false (sym (rw (a, b)) ∙ p))
    ]
  ]

  -- What the first message comes to.
  first_round :
      (want : Bool) (n : ℕ) (l : Link) (r : Result (ℕ × List ℕ) × Link)
      → recv_encrypted bo key 200 l ≡ r
      → ((l' : Link)
          → Drains want n l' (drain_rounds bo key n want l').0 (drain_rounds bo key n want l').1)
      → Drains want
          (suc n)
          l
          (resume (drain_round bo key want (drain_rounds bo key n want)) r).0
          (resume (drain_round bo key want (drain_rounds bo key n want)) r).1
  first_round want n l (err e, l') h rest = broke n l l' e h
  first_round want n l (ok m, l1) h rest = elim (Bool-cases (passing m)) [
    | inl p ↦
        rw (goes_on want (drain_rounds bo key n want) m l1 p)
          (went_on n l l1 _ m _ h p (rest (noted want m l1)))
    | inr p ↦ rw (ends want (drain_rounds bo key n want) m l1 p) (ended n l l1 m h p)
  ]

  -- The loop ends within the number of rounds it is given, and does what the relation `Drains` says: it stops
  -- at a failure to receive, at an ErrorReport with EIO, at a Status of another length than one byte with
  -- EBADMSG, at a Status COMPLETE with 0, passes over every other message, noting a report of the state that
  -- parses if the caller wants it, and gives up with ETIMEDOUT.
  pub drain_rounds-Drains :
      (want : Bool) (n : ℕ) (l : Link)
      → Drains want n l (drain_rounds bo key n want l).0 (drain_rounds bo key n want l).1
  unfolding drain_rounds
  drain_rounds-Drains want zero l = gave_up l
  drain_rounds-Drains want (suc n) l =
      first_round want n l (recv_encrypted bo key 200 l) refl (λ l'. drain_rounds-Drains want n l')
