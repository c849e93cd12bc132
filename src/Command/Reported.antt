-- ===== src/Command/Reported.antt =====
-- src/nuki_command.c: `nuki_command_get_state` over a lock that answers.
use nuki_nrf52_bridge.Base.{ℕ, ◌<◌, ◌≡◌, List, [], ◌∷◌, ◌++◌, length, drop, All, ok, arith}
use nuki_nrf52_bridge.Zephyr.{ByteOrder}
use nuki_nrf52_bridge.Protocol.Commands.{cmd_request_data, cmd_keyturner_states}
use nuki_nrf52_bridge.Protocol.Frame.Build.{length-put_le16}
use nuki_nrf52_bridge.Protocol.State.{KeyturnerState, state_parse}
use nuki_nrf52_bridge.Transport.{Transport, Event}
use nuki_nrf52_bridge.Transport.Fragments.{NonEmpty}
use nuki_nrf52_bridge.Link.{Link}
use nuki_nrf52_bridge.Link.Exchange.{IsIdle, Incoming, pieces, bytes_of, exchange}
use nuki_nrf52_bridge.Command.{get_state}
use nuki_nrf52_bridge.Command.Message.{
  IsMessage, IsMessage-length, recv_encrypted-IsMessage, asked, send_encrypted-Awaits,
}

module _ (bo : ByteOrder) (key : List ℕ) where
  open bo use {put_le16}

  -- A report of the lock's state.
  pub record Reports (auth_id : ℕ) (s : KeyturnerState) (a : Incoming) : Type 0 where
    pub payload : List ℕ
    pub filled : All NonEmpty (pieces a)
    pub message : IsMessage bo key auth_id cmd_keyturner_states payload (bytes_of a)
    pub parses : state_parse bo payload (length payload) ≡ ok s

  -- The link when the request was sent and the report was read.
  abbrev pub questioned : List ℕ → List Event → Link → Transport → Link
  questioned w rest l t = record l {
    accepts = drop 1 l.accepts;
    entropy = drop 24 l.entropy;
    sent = l.sent ++ w ∷ [];
    transport = t;
    schedule = rest;
  }

  -- The state that the lock reports is read.
  pub get_state-Reports :
      (auth_id : ℕ) (s : KeyturnerState) (a : Incoming) (rest : List Event) (l : Link)
      → auth_id < 4294967296
      → IsIdle l
      → Reports auth_id s a
      → l.schedule ≡ exchange a rest
      → (w : List ℕ) × (t : Transport) × IsMessage bo key auth_id cmd_request_data
          (put_le16 cmd_keyturner_states)
          w
        × (get_state bo key auth_id l ≡ (ok s, questioned w rest l t))
        × IsIdle (questioned w rest l t)
  unfolding get_state
  get_state-Reports auth_id s a rest l ha i c e =
      let (w, t, m, sent, awaits) =
        send_encrypted-Awaits bo key auth_id cmd_request_data 2 (put_le16 cmd_keyturner_states) a
          rest l ha (omega arith) (length-put_le16 bo cmd_keyturner_states) (omega arith) i c.filled
          (IsMessage-length bo key auth_id cmd_keyturner_states c.payload (bytes_of a) c.message)
          e in
      let (t', answer, idle) =
        recv_encrypted-IsMessage bo key 200 auth_id cmd_keyturner_states c.payload (bytes_of a) rest
          (asked bo key w a rest l t) awaits c.message (omega (arith, c.message.short)) in
      (w, t', m, rw (sent, answer, c.parses), idle)
