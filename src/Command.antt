-- ===== src/Command.antt =====
-- src/nuki_command.c: encrypted commands to the lock and the lock's answers.
mod Tests
pub mod Samples
pub mod Steps
pub mod Contract
pub mod Keeps
pub mod Receive
pub mod Drain
pub mod Completed
pub mod Authentic
pub mod RoundTrip
pub mod Message
pub mod Concludes
pub mod Answered
pub mod Reported
use nuki_nrf52_bridge.Base.{
  ℕ, zero, suc, ◌+◌, ◌-◌, Bool, true, false, not, ◌&&◌, ◌||◌, Option, none, some, List, [], ◌∷◌,
  ◌++◌, length, get_or, slice, drop, ltb, ◌==◌, if◌then◌else◌, Result, ok, err, einval, eio,
  ebadmsg, enomem, etimedout,
}
use nuki_nrf52_bridge.Zephyr.{ByteOrder}
use nuki_nrf52_bridge.Crypto.Secretbox.{e1, d1, tag_len}
use nuki_nrf52_bridge.Protocol.Commands.{
  cmd_request_data, cmd_challenge, cmd_keyturner_states, cmd_lock_action, cmd_status,
  cmd_error_report, cmd_request_calibration, status_complete, frame_max_len,
}
use nuki_nrf52_bridge.Protocol.Frame.{build_auth, parse_auth}
use nuki_nrf52_bridge.Protocol.State.{KeyturnerState, state_parse}
use nuki_nrf52_bridge.Link.{
  Link, Task, ◌>>=◌, ◌>>◌, pure, fail, lift, some_or, sys_rand_get, write, wait_min, peek, reset,
}

abbrev pub adata_hdr_len : ℕ
adata_hdr_len = 30

abbrev pub max_plaintext : ℕ
max_plaintext = 200

-- What is sent for a plaintext: nonce, authorization id, length, and what `nuki_crypto_e1` wrote.
abbrev pub wire_of : ByteOrder → ℕ → List ℕ → ℕ → List ℕ → List ℕ
wire_of bo auth_id nonce plain_len sealed =
    slice nonce 0 24 ++ bo.put_le32 auth_id ++ bo.put_le16 (tag_len + plain_len) ++ sealed

-- `*state_out` and `*got_state`, which the caller owns.
abbrev pub capture : Option KeyturnerState → Task (Unit {0})
capture s l = (ok tt, record l { captured = s })

-- A report that does not parse is passed over.
abbrev pub capture_report : Result KeyturnerState → Task (Unit {0})
capture_report (ok s) = capture (some s)
capture_report (err e) = pure tt

module _ (bo : ByteOrder) (key : List ℕ) where
  open bo use {put_le16, put_le32, get_le16}

  unfoldable pub send_encrypted : ℕ → ℕ → List ℕ → ℕ → Task (Unit {0})
  send_encrypted auth_id cmd payload payload_len = do
    plain ← some_or einval (build_auth bo frame_max_len auth_id cmd payload payload_len)
    nonce ← sys_rand_get 24
    sealed ← lift (e1 plain (length plain) nonce key)
    write (wire_of bo auth_id nonce (length plain) sealed)

  -- The part of `recv_encrypted` behind the check of the length.
  unfoldable pub recv_body : List ℕ → ℕ → ℕ → Task (ℕ × List ℕ)
  recv_body nonce ct_len payload_max = do
    wait_min (adata_hdr_len + ct_len)
    wire ← peek (adata_hdr_len + ct_len)
    reset
    plain ← lift (d1 (drop adata_hdr_len wire) (ct_len - tag_len) nonce key)
    (frame_auth_id, cmd, payload) ← lift (parse_auth bo plain (ct_len - tag_len))
    if ltb payload_max (length payload) then fail enomem else pure (cmd, payload)

  -- The command id and the payload.
  unfoldable pub recv_encrypted : ℕ → Task (ℕ × List ℕ)
  recv_encrypted payload_max = do
    wait_min adata_hdr_len
    header ← peek adata_hdr_len
    let ct_len = get_le16 header 28
    let too_long = adata_hdr_len + tag_len + max_plaintext - adata_hdr_len
    if ltb ct_len tag_len || ltb too_long ct_len
        then (reset >> fail ebadmsg)
        else recv_body (slice header 0 24) ct_len payload_max

  unfoldable pub get_state : ℕ → Task KeyturnerState
  get_state auth_id = do
    send_encrypted auth_id cmd_request_data (put_le16 cmd_keyturner_states) 2
    (cmd, payload) ← recv_encrypted max_plaintext
    if cmd == cmd_keyturner_states
        then lift (state_parse bo payload (length payload))
        else fail ebadmsg

  unfoldable pub request_challenge : ℕ → Task (List ℕ)
  request_challenge auth_id = do
    send_encrypted auth_id cmd_request_data (put_le16 cmd_challenge) 2
    (cmd, payload) ← recv_encrypted max_plaintext
    if not (cmd == cmd_challenge) || not (length payload == 32)
        then fail ebadmsg
        else pure (slice payload 0 32)

  -- One round of the loop; `more` is the rest of it.
  unfoldable pub drain_round : Bool → Task (Unit {0}) → ℕ × List ℕ → Task (Unit {0})
  drain_round want more (cmd, payload) =
      if cmd == cmd_error_report
      then fail eio
      else if cmd == cmd_status
      then (if not (length payload == 1)
          then fail ebadmsg
          else if get_or payload 0 0 == status_complete
          then pure tt
          else more)
      else if cmd == cmd_keyturner_states && want
      then (capture_report (state_parse bo payload (length payload)) >> more)
      else more

  unfoldable pub drain_rounds : ℕ → Bool → Task (Unit {0})
  drain_rounds zero want = fail etimedout
  drain_rounds (suc left) want =
      recv_encrypted max_plaintext >>= drain_round want (drain_rounds left want)

  -- `want` says that the caller passes `state_out` and `got_state`.
  unfoldable pub drain_until_complete : Bool → Task (Unit {0})
  drain_until_complete want =
      if want then (capture none >> drain_rounds 10 want) else drain_rounds 10 want

  unfoldable pub lock_action : ℕ → ℕ → ℕ → Bool → Task (Unit {0})
  lock_action auth_id app_id action want = do
    nonce_k ← request_challenge auth_id
    let action_payload = action ∷ (put_le32 app_id ++ 0 ∷ nonce_k)
    send_encrypted auth_id cmd_lock_action action_payload (1 + 4 + 1 + 32)
    drain_until_complete want

  unfoldable pub calibrate : ℕ → ℕ → Task (Unit {0})
  calibrate auth_id security_pin = do
    nonce_k ← request_challenge auth_id
    send_encrypted auth_id cmd_request_calibration (nonce_k ++ put_le16 security_pin) (32 + 2)
    drain_until_complete false
