-- ===== src/Command/Concludes.antt =====
-- src/nuki_command.c: the loop of `drain_until_complete` over a lock that reports how a command goes.
use nuki_nrf52_bridge.Base.{
  ℕ, zero, suc, ◌≤◌, ◌<◌, ◌≡◌, refl, ap, ◌∙◌, inl, inr, Bool, true, ◌&&◌, ◌==◌, if◌then◌else◌,
  Bool-cases, Option, some, List, [], ◌∷◌, length, All, Result, ok, err, arith,
}
use nuki_nrf52_bridge.Zephyr.{ByteOrder}
use nuki_nrf52_bridge.Protocol.Commands.{cmd_keyturner_states, cmd_status}
use nuki_nrf52_bridge.Protocol.State.{KeyturnerState, state_parse}
use nuki_nrf52_bridge.Transport.{Transport, Event}
use nuki_nrf52_bridge.Transport.Fragments.{NonEmpty}
use nuki_nrf52_bridge.Link.{Link, resume}
use nuki_nrf52_bridge.Link.Exchange.{
  IsIdle, Awaits, IsIdle-Awaits, Incoming, pieces, bytes_of, deliver,
}
use nuki_nrf52_bridge.Command.{drain_round, drain_rounds, capture_report}
use nuki_nrf52_bridge.Command.Steps.{at}
use nuki_nrf52_bridge.Command.Drain.{passing, noted, goes_on, ends}
use nuki_nrf52_bridge.Command.Message.{IsMessage, IsMessage-length, recv_encrypted-IsMessage}

abbrev pub report_or : Result KeyturnerState → Option KeyturnerState → Option KeyturnerState
report_or (ok s) before = some s
report_or (err e) before = before

module _ (bo : ByteOrder) (key : List ℕ) where
  open bo use {put_le16, put_le32}

  -- A report of the state takes the place of the one before if the caller wants it and it parses.
  abbrev pub remembered : Bool → ℕ × List ℕ → Option KeyturnerState → Option KeyturnerState
  remembered want (cmd, payload) before =
      if cmd == cmd_keyturner_states && want
      then report_or (state_parse bo payload (length payload)) before
      else before

  noted-remembered :
      (want : Bool) (m : ℕ × List ℕ) (l : Link)
      → noted bo key want m l ≡ record l { captured = remembered want m l.captured }
  noted-remembered want (cmd, payload) l = elim (Bool-cases (cmd == cmd_keyturner_states && want)) [
    | inl c ↦ rw c (captured (state_parse bo payload (length payload)))
    | inr c ↦ rw c
  ]
    where
      captured :
          (r : Result KeyturnerState)
          → (capture_report r l).1 ≡ record l { captured = report_or r l.captured }
      captured (ok s) = refl
      captured (err e) = refl

  -- A message that does not end the loop.
  pub record Passes (auth_id : ℕ) (m : Incoming) : Type 0 where
    pub filled : All NonEmpty (pieces m)
    pub message : IsMessage bo key auth_id m.command m.payload (bytes_of m)
    pub passes : passing (m.command, m.payload) ≡ true

  -- The Status COMPLETE.
  pub record Completes (auth_id : ℕ) (m : Incoming) : Type 0 where
    pub filled : All NonEmpty (pieces m)
    pub message : IsMessage bo key auth_id cmd_status (0 ∷ []) (bytes_of m)

  -- The last message is the Status COMPLETE, and none before it ends the loop.
  abbrev pub Concludes : ℕ → Incoming → List Incoming → Type 0
  Concludes auth_id m [] = Completes auth_id m
  Concludes auth_id m (m' ∷ ms) = Passes auth_id m × Concludes auth_id m' ms

  pub Concludes-filled :
      (auth_id : ℕ) (m : Incoming) (ms : List Incoming)
      → Concludes auth_id m ms
      → All NonEmpty (pieces m)
  Concludes-filled auth_id m [] c = c.filled
  Concludes-filled auth_id m (m' ∷ ms) c = c.0.filled

  pub Concludes-length :
      (auth_id : ℕ) (m : Incoming) (ms : List Incoming)
      → Concludes auth_id m ms
      → length (bytes_of m) ≤ 256
  Concludes-length auth_id m [] c =
      IsMessage-length bo key auth_id cmd_status (0 ∷ []) (bytes_of m) c.message
  Concludes-length auth_id m (m' ∷ ms) c =
      IsMessage-length bo key auth_id m.command m.payload (bytes_of m) c.0.message

  -- The report of the state that the caller has after the messages; the last of them reports none.
  abbrev pub last_report :
      Bool → Incoming → List Incoming → Option KeyturnerState → Option KeyturnerState
  last_report want m [] before = before
  last_report want m (m' ∷ ms) before =
      last_report want m' ms (remembered want (m.command, m.payload) before)

  abbrev pub drained : Bool → Incoming → List Incoming → List Event → Link → Transport → Link
  drained want m ms rest l t = record l {
    transport = t;
    schedule = rest;
    captured = last_report want m ms l.captured;
  }

  -- The loop gets past fewer messages than its rounds, and ends with the Status COMPLETE behind them.
  pub drain_rounds-Concludes :
      (want : Bool) (auth_id n : ℕ) (m : Incoming) (ms : List Incoming) (rest : List Event)
      (l : Link)
      → length ms < n
      → Concludes auth_id m ms
      → Awaits (bytes_of m) (deliver ms rest) l
      → (t : Transport) × (drain_rounds bo key n want l ≡ (ok tt, drained want m ms rest l t))
        × IsIdle (drained want m ms rest l t)
  unfolding drain_rounds
  drain_rounds-Concludes want auth_id zero m ms rest l few c w = absurd (omega arith)
  drain_rounds-Concludes want auth_id (suc n) m [] rest l few c w =
      let (t, answer, idle) =
        recv_encrypted-IsMessage bo key 200 auth_id cmd_status (0 ∷ []) (bytes_of m) rest l w
          c.message (omega arith) in
      (
        t,
        ap (resume (drain_round bo key want (drain_rounds bo key n want))) answer
            ∙ ends bo key want (drain_rounds bo key n want) (cmd_status, 0 ∷ []) (at l t rest) refl,
        record { kept = idle.kept; empty = idle.empty; accepting = idle.accepting },
      )
  drain_rounds-Concludes want auth_id (suc n) m (m' ∷ ms) rest l few (p, c) w =
      let later = deliver ms rest in
      let soon = deliver (m' ∷ ms) rest in
      let heard : ℕ × List ℕ = (m.command, m.payload) in
      let (t, answer, idle) =
        recv_encrypted-IsMessage bo key 200 auth_id m.command m.payload (bytes_of m) soon l w
          p.message (omega (arith, p.message.short)) in
      let l1 : Link = record (at l t soon) { captured = remembered want heard l.captured } in
      let idle1 : IsIdle l1 = record {
        kept = idle.kept;
        empty = idle.empty;
        accepting = idle.accepting;
      } in
      let w1 = IsIdle-Awaits (pieces m') later l1 idle1 (Concludes-filled auth_id m' ms c) refl in
      let (t', others, idle') =
        drain_rounds-Concludes want auth_id n m' ms rest l1 (omega arith) c w1 in
      (
        t',
        ap (resume (drain_round bo key want (drain_rounds bo key n want))) answer
            ∙ goes_on bo key want (drain_rounds bo key n want) heard (at l t soon) p.passes
            ∙ ap (drain_rounds bo key n want) (noted-remembered want heard (at l t soon))
            ∙ others,
        idle',
      )
