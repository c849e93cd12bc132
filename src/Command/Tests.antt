-- ===== src/Command/Tests.antt =====
-- Runs of the model of src/nuki_transport.c and src/nuki_command.c, and the theorems at concrete inputs.
use nuki_nrf52_bridge.Base.{
  ◌≡◌, refl, true, false, none, [], ◌∷◌, ◌++◌, take, drop, replicate, ok, arith,
}
use nuki_nrf52_bridge.Zephyr.{little_endian}
use nuki_nrf52_bridge.Crypto.Words.{rotl32, load_le32, store_le32}
use nuki_nrf52_bridge.Crypto.Salsa.{
  core_salsa20, core_hsalsa20, load_words, round, rounds, store_words, mix,
}
use nuki_nrf52_bridge.Crypto.Stream.{xor_bytes, stream_loop, xsalsa20_xor, next_block}
use nuki_nrf52_bridge.Crypto.Poly1305.{clamp, absorb, freeze, poly1305}
use nuki_nrf52_bridge.Crypto.Secretbox.{e1}
use nuki_nrf52_bridge.Crypto.Crc.{crc16}
use nuki_nrf52_bridge.Protocol.Frame.{build_auth}
use nuki_nrf52_bridge.Transport.{Transport, happens, indication, write_done, deadline, wait_min}
use nuki_nrf52_bridge.Transport.Buffer.{IsTransport}
use nuki_nrf52_bridge.Transport.Wait.{Waited, wait_min_lem}
use nuki_nrf52_bridge.Link.{Link, write}
use nuki_nrf52_bridge.Command.{send_encrypted, recv_encrypted, drain_rounds}
use nuki_nrf52_bridge.Command.Steps.{at}
use nuki_nrf52_bridge.Command.Authentic.{Authentic, recv_encrypted-Authentic}
use nuki_nrf52_bridge.Command.{
  recv_body, request_challenge, drain_round, drain_until_complete, lock_action,
}
use nuki_nrf52_bridge.Transport as T
use nuki_nrf52_bridge.Transport.{await_write, notify_cb}
use nuki_nrf52_bridge.Link as L
use nuki_nrf52_bridge.Protocol.Frame.{parse_auth}
use nuki_nrf52_bridge.Crypto.Secretbox.{d1, constant_time_eq16}
use nuki_nrf52_bridge.Command.Drain.{Drains, drain_rounds-Drains}
use nuki_nrf52_bridge.Command.Samples.{
  sample_key, challenge_wire, challenge_payload, complete_wire, challenge, accepted, reports,
  challenge-Challenges, reports-Concludes,
}
use nuki_nrf52_bridge.Command.Answered.{Performed, commands_Performed}
use nuki_nrf52_bridge.Link.Exchange.{IsIdle, exchange, deliver}
use nuki_nrf52_bridge.Command.{calibrate}
use nuki_nrf52_bridge.Command.RoundTrip.{recv_encrypted-send_encrypted}

abbrev t0 : Transport
t0 = record { conn = none; value_handle = 21; rx_buf = replicate 256 0; rx_len = 0; write_err = 0 }

t0-IsTransport : IsTransport t0
t0-IsTransport = record { size = refl; fill = omega arith }

abbrev sender : Link
sender = record {
  transport = t0;
  schedule = write_done 0 ∷ [];
  accepts = [];
  entropy = replicate 24 9;
  sent = [];
  captured = none;
}

-- A Status COMPLETE arrives in three indications, and then nothing does.
abbrev receiver : Link
receiver = record sender {
  schedule =
      happens (indication (take 20 complete_wire))
      ∷ happens (indication (take 20 (drop 20 complete_wire)))
      ∷ happens (indication (drop 40 complete_wire))
      ∷ deadline
      ∷ [];
}

send_encrypted_known :
    (send_encrypted little_endian sample_key 5 14 (0 ∷ []) 1 sender).1.sent ≡ complete_wire ∷ []
unfolding send_encrypted write build_auth crc16 e1 poly1305 clamp absorb freeze xsalsa20_xor
    stream_loop xor_bytes core_salsa20 core_hsalsa20 load_words round rounds store_words mix rotl32
    load_le32 store_le32
send_encrypted_known = refl

recv_encrypted-send_encrypted_example :
    (t : Transport) × (recv_encrypted little_endian sample_key 200 receiver
      ≡ (ok (14, 0 ∷ []), at receiver t (deadline ∷ [])))
    × (t.rx_len ≡ 0)
    × IsTransport t
recv_encrypted-send_encrypted_example =
    recv_encrypted-send_encrypted little_endian sample_key 200 5 14 1 (0 ∷ [])
      (take 20 complete_wire ∷ take 20 (drop 20 complete_wire) ∷ drop 40 complete_wire ∷ [])
      (deadline ∷ []) sender receiver (omega arith) (omega arith) refl (omega arith) (omega arith)
      send_encrypted_known (omega arith, (omega arith, (omega arith, tt))) t0-IsTransport refl refl

wait_min_lem_example : Waited 50 receiver.schedule t0 (wait_min 50 receiver.schedule t0)
wait_min_lem_example = wait_min_lem 50 receiver.schedule t0 t0-IsTransport

drain_rounds-Drains_example :
    Drains little_endian sample_key true 10 receiver
      (drain_rounds little_endian sample_key 10 true receiver).0
      (drain_rounds little_endian sample_key 10 true receiver).1
drain_rounds-Drains_example = drain_rounds-Drains little_endian sample_key true 10 receiver

-- The message in one piece.
abbrev at_once : Link
at_once = record sender { schedule = happens (indication complete_wire) ∷ deadline ∷ [] }

status_received :
    (t : Transport) × (recv_encrypted little_endian sample_key 200 at_once
      ≡ (ok (14, 0 ∷ []), at at_once t (deadline ∷ [])))
    × (t.rx_len ≡ 0)
    × IsTransport t
status_received =
    recv_encrypted-send_encrypted little_endian sample_key 200 5 14 1 (0 ∷ []) (complete_wire ∷ [])
      (deadline ∷ []) sender at_once (omega arith) (omega arith) refl (omega arith) (omega arith)
      send_encrypted_known (omega arith, tt) t0-IsTransport refl refl

recv_encrypted-Authentic_example :
    Authentic little_endian sample_key 200 14
      (0 ∷ [])
      at_once
      (at at_once status_received.0 (deadline ∷ []))
recv_encrypted-Authentic_example =
    recv_encrypted-Authentic little_endian sample_key 200 14 (0 ∷ []) at_once
      (at at_once status_received.0 (deadline ∷ [])) t0-IsTransport status_received.1

-- The lock answers both requests.
abbrev acting_lock : Link
acting_lock = record sender {
  schedule =
      write_done 0
      ∷ happens (indication challenge_wire)
      ∷ write_done 0
      ∷ happens (indication complete_wire)
      ∷ [];
}

lock_action_known : (lock_action little_endian sample_key 5 6 2 true acting_lock).0 ≡ ok tt
unfolding lock_action request_challenge drain_until_complete drain_rounds drain_round send_encrypted
    recv_encrypted recv_body T.write T.wait_min T.peek T.reset await_write notify_cb L.wait_min
    write build_auth parse_auth crc16 e1 d1 constant_time_eq16 poly1305 clamp absorb freeze
    xsalsa20_xor stream_loop next_block xor_bytes core_salsa20 core_hsalsa20 load_words round rounds
    store_words mix rotl32 load_le32 store_le32
lock_action_known = refl

-- After that the time runs out.
abbrev reporting_lock : Link
reporting_lock = record sender {
  schedule = exchange challenge (exchange accepted (deliver reports (deadline ∷ [])));
}

reporting_lock-IsIdle : IsIdle reporting_lock
reporting_lock-IsIdle = record { kept = t0-IsTransport; empty = refl; accepting = refl }

commands_Performed_example :
    ((l' : Link) × (lock_action little_endian sample_key 5 6 2 true reporting_lock ≡ (ok tt, l'))
      × Performed little_endian sample_key 5 13
          (2 ∷ 6 ∷ 0 ∷ 0 ∷ 0 ∷ 0 ∷ challenge_payload)
          true
          accepted
          reports
          (deadline ∷ [])
          reporting_lock
          l')
    × ((l' : Link) × (calibrate little_endian sample_key 5 1234 reporting_lock ≡ (ok tt, l'))
        × Performed little_endian sample_key 5 26
            (challenge_payload ++ 210 ∷ 4 ∷ [])
            false
            accepted
            reports
            (deadline ∷ [])
            reporting_lock
            l')
commands_Performed_example =
    commands_Performed little_endian sample_key 5 6 2 1234 true challenge_payload challenge accepted
      reports (deadline ∷ []) reporting_lock (omega arith) reporting_lock-IsIdle
      challenge-Challenges reports-Concludes (omega arith) refl
