-- ===== src/Command/Contract.antt =====
-- src/nuki_command.c: what the calls of the transport obey, every command obeys.
use nuki_nrf52_bridge.Base.{
  ℕ, zero, suc, ◌+◌, ◌-◌, Bool, true, false, none, some, List, ◌∷◌, ◌++◌, length, slice, drop,
  Result, ok, err, einval, eio, ebadmsg, enomem, etimedout, not, ◌&&◌, ◌||◌, ltb, ◌==◌,
  if◌then◌else◌, get_or,
}
use nuki_nrf52_bridge.Protocol.Commands.{
  cmd_keyturner_states, cmd_status, cmd_error_report, status_complete,
}
use nuki_nrf52_bridge.Zephyr.{ByteOrder}
use nuki_nrf52_bridge.Crypto.Secretbox.{e1, d1}
use nuki_nrf52_bridge.Protocol.Frame.{build_auth, parse_auth}
use nuki_nrf52_bridge.Protocol.State.{KeyturnerState, state_parse}
use nuki_nrf52_bridge.Transport.{peek}
use nuki_nrf52_bridge.Link.{Task, some_or, wait_min, fail, pure, lift, reset, ◌>>◌}
use nuki_nrf52_bridge.Link.Contract.{Contract, Obeys, steps, either, some_or-Obeys}
use nuki_nrf52_bridge.Command.{
  send_encrypted, recv_encrypted, recv_body, get_state, request_challenge, drain_round,
  drain_rounds, drain_until_complete, lock_action, calibrate, capture_report,
}

module _ (c : Contract) (bo : ByteOrder) (key : List ℕ) where
  open bo use {put_le16, put_le32, get_le16}

  send_encrypted-Obeys :
      (auth_id cmd : ℕ) (payload : List ℕ) (n : ℕ)
      → Obeys c (send_encrypted bo key auth_id cmd payload n)
  unfolding send_encrypted
  send_encrypted-Obeys auth_id cmd payload n l =
      let built = build_auth bo 160 auth_id cmd payload n in
      steps c l (some_or einval built l) _ (some_or-Obeys c einval built l) (λ plain l1.
        steps c l1 (e1 plain (length plain) (slice l1.entropy 0 24) key, _) _
          (c.by_entropy _ (drop 24 l1.entropy) l1) (λ sealed. c.by_write _))

  recv_body-Obeys :
      (nonce : List ℕ) (ct_len most : ℕ) → Obeys c (recv_body bo key nonce ct_len most)
  unfolding recv_body
  recv_body-Obeys nonce ct_len most l =
      steps c l (wait_min (30 + ct_len) l) _ (c.by_wait (30 + ct_len) l) (λ _ l1.
        steps c l1 (d1 (drop 30 (peek (30 + ct_len) l1.transport)) (ct_len - 16) nonce key, _) _
          (c.by_reset _ l1)
          (λ plain l2.
            steps c l2 (parse_auth bo plain (ct_len - 16), l2) _ (c.by_nothing _ l2)
              (λ frame l3.
                either c (ltb most (length frame.2)) (fail enomem) (pure (frame.1, frame.2)) l3
                  (c.by_nothing _ l3) (c.by_nothing _ l3))))

  recv_encrypted-Obeys : (most : ℕ) → Obeys c (recv_encrypted bo key most)
  unfolding recv_encrypted
  recv_encrypted-Obeys most l = steps c l (wait_min 30 l) _ (c.by_wait 30 l) (λ _ l1.
      let header = peek 30 l1.transport in
      let ct_len = get_le16 header 28 in
      either c (ltb ct_len 16 || ltb 216 ct_len) (reset >> fail ebadmsg)
        (recv_body bo key (slice header 0 24) ct_len most) l1 (c.by_reset (err ebadmsg) l1)
        (recv_body-Obeys (slice header 0 24) ct_len most l1))

  pub get_state-Obeys : (auth_id : ℕ) → Obeys c (get_state bo key auth_id)
  unfolding get_state
  get_state-Obeys auth_id l =
      steps c l (send_encrypted bo key auth_id 1 (put_le16 12) 2 l) _
        (send_encrypted-Obeys auth_id 1 (put_le16 12) 2 l)
        (λ _ l1. steps c l1 (recv_encrypted bo key 200 l1) _ (recv_encrypted-Obeys 200 l1) (λ m l2.
          either c (m.0 == 12) (lift (state_parse bo m.1 (length m.1))) (fail ebadmsg) l2
            (c.by_nothing _ l2) (c.by_nothing _ l2)))

  request_challenge-Obeys : (auth_id : ℕ) → Obeys c (request_challenge bo key auth_id)
  unfolding request_challenge
  request_challenge-Obeys auth_id l =
      steps c l (send_encrypted bo key auth_id 1 (put_le16 4) 2 l) _
        (send_encrypted-Obeys auth_id 1 (put_le16 4) 2 l)
        (λ _ l1. steps c l1 (recv_encrypted bo key 200 l1) _ (recv_encrypted-Obeys 200 l1) (λ m l2.
          either c (not (m.0 == 4) || not (length m.1 == 32)) (fail ebadmsg) (pure (slice m.1 0 32))
            l2 (c.by_nothing _ l2) (c.by_nothing _ l2)))

  capture_report-Obeys : (r : Result KeyturnerState) → Obeys c (capture_report r)
  capture_report-Obeys (ok s) l = c.by_captured (ok tt) (some s) l
  capture_report-Obeys (err e) l = c.by_nothing (ok tt) l

  drain_round-Obeys :
      (want : Bool) (more : Task (Unit {0})) (m : ℕ × List ℕ)
      → Obeys c more
      → Obeys c (drain_round bo key want more m)
  unfolding drain_round
  drain_round-Obeys want more (cmd, payload) k l =
      let report = state_parse bo payload (length payload) in
      let on_end : Task (Unit {0}) =
        if get_or payload 0 0 == status_complete then pure tt else more in
      let on_status : Task (Unit {0}) =
        if not (length payload == 1) then fail ebadmsg else on_end in
      let wanted = cmd == cmd_keyturner_states && want in
      let on_other : Task (Unit {0}) = if wanted then (capture_report report >> more) else more in
      either c (cmd == cmd_error_report) (fail eio)
        (if cmd == cmd_status then on_status else on_other) l (c.by_nothing _ l)
        (either c (cmd == cmd_status) on_status on_other l
          (either c (not (length payload == 1)) (fail ebadmsg) on_end l (c.by_nothing _ l) (
            either c (get_or payload 0 0 == status_complete) (pure tt) more l (c.by_nothing _ l)
              (k l)))
          (either c wanted (capture_report report >> more) more l
            (steps c l (capture_report report l) _ (capture_report-Obeys report l) (λ _. k)) (k l)))

  drain_rounds-Obeys : (n : ℕ) (want : Bool) → Obeys c (drain_rounds bo key n want)
  unfolding drain_rounds
  drain_rounds-Obeys zero want l = c.by_nothing (err etimedout) l
  drain_rounds-Obeys (suc n) want l =
      steps c l (recv_encrypted bo key 200 l) _ (recv_encrypted-Obeys 200 l)
        (λ m. drain_round-Obeys want _ m (drain_rounds-Obeys n want))

  drain_until_complete-Obeys : (want : Bool) → Obeys c (drain_until_complete bo key want)
  unfolding drain_until_complete
  drain_until_complete-Obeys true l =
      steps c l (ok tt, record l { captured = none }) (λ _. drain_rounds bo key 10 true)
        (c.by_captured (ok tt) none l) (λ _. drain_rounds-Obeys 10 true)
  drain_until_complete-Obeys false l = drain_rounds-Obeys 10 false l

  pub lock_action-Obeys :
      (auth_id app_id action : ℕ) (want : Bool)
      → Obeys c (lock_action bo key auth_id app_id action want)
  unfolding lock_action
  lock_action-Obeys auth_id app_id action want l =
      steps c l (request_challenge bo key auth_id l) _ (request_challenge-Obeys auth_id l)
        (λ nonce l1.
          let request = action ∷ (put_le32 app_id ++ 0 ∷ nonce) in
          steps c l1 (send_encrypted bo key auth_id 13 request 38 l1) _
            (send_encrypted-Obeys auth_id 13 request 38 l1) (λ _. drain_until_complete-Obeys want))

  pub calibrate-Obeys : (auth_id pin : ℕ) → Obeys c (calibrate bo key auth_id pin)
  unfolding calibrate
  calibrate-Obeys auth_id pin l =
      steps c l (request_challenge bo key auth_id l) _ (request_challenge-Obeys auth_id l)
        (λ nonce l1.
          steps c l1 (send_encrypted bo key auth_id 26 (nonce ++ put_le16 pin) 34 l1) _
            (send_encrypted-Obeys auth_id 26 (nonce ++ put_le16 pin) 34 l1)
            (λ _. drain_until_complete-Obeys false))
