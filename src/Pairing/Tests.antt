-- ===== src/Pairing/Tests.antt =====
-- A run of the model of src/nuki_pairing.c, and the theorem at a concrete input.
use nuki_nrf52_bridge.Base.{◌≡◌, refl, ap, none, some, [], replicate, ok, arith}
use nuki_nrf52_bridge.Zephyr.{little_endian}
use nuki_nrf52_bridge.Crypto.Crc.{crc16}
use nuki_nrf52_bridge.Crypto.Salsa.{kdf1}
use nuki_nrf52_bridge.Crypto.Psa.{crypto_init, keypair, dh1, h1}
use nuki_nrf52_bridge.Protocol.Frame.{build_plain, parse_plain}
use nuki_nrf52_bridge.Transport.{Event, happens, indication, write_done, await_write, notify_cb}
use nuki_nrf52_bridge.Transport as T
use nuki_nrf52_bridge.Link.{Link, write, wait_min}
use nuki_nrf52_bridge.Pairing.{
  PairingData, send_plain, recv_plain, exchange_keys, authenticate, request_authorization, confirm,
  finish, receive_authorization, run,
}
use nuki_nrf52_bridge.Pairing.Verified.{Verified, run-Verified}
use nuki_nrf52_bridge.Pairing.Completes.{Granted, run-Granted}
use nuki_nrf52_bridge.Pairing.Samples.{toy_psa, toy_macs, toy_calls, handshake, granting}
use nuki_nrf52_bridge.Link.Exchange.{IsIdle}

abbrev pairing_lock : Link
pairing_lock = record {
  transport = record {
    conn = some 0;
    value_handle = 18;
    rx_buf = replicate 256 0;
    rx_len = 0;
    write_err = 0;
  };
  schedule = handshake;
  accepts = [];
  entropy = replicate 36 9;
  sent = [];
  captured = none;
}

abbrev paired : PairingData
paired = record {
  auth_id = 77;
  app_id = 0x09090909;
  shared_key = kdf1 (replicate 32 1);
  lock_uuid = replicate 16 8;
}

run_known : (run little_endian toy_psa pairing_lock).0 ≡ ok paired
unfolding run exchange_keys authenticate request_authorization receive_authorization confirm finish
    send_plain recv_plain crypto_init keypair dh1 h1 build_plain parse_plain crc16 write wait_min
    T.write T.wait_min T.peek T.reset await_write notify_cb
run_known = refl

run-Verified_example :
    Verified little_endian toy_psa paired pairing_lock (run little_endian toy_psa pairing_lock).1
run-Verified_example =
    run-Verified little_endian toy_psa paired pairing_lock
      (run little_endian toy_psa pairing_lock).1
      (ap (λ r. (r, (run little_endian toy_psa pairing_lock).1)) run_known)

pairing_lock-IsIdle : IsIdle pairing_lock
pairing_lock-IsIdle = record {
  kept = record { size = refl; fill = omega arith };
  empty = refl;
  accepting = refl;
}

run-Granted_example :
    Granted little_endian toy_psa
      (kdf1 (replicate 32 1))
      toy_macs
      (replicate 32 3)
      (replicate 32 1)
      []
      pairing_lock
      (granting pairing_lock refl)
      (run little_endian toy_psa pairing_lock)
run-Granted_example =
    run-Granted little_endian toy_psa (replicate 32 3) (replicate 32 3) (replicate 32 1)
      (replicate 32 1) [] pairing_lock toy_macs toy_calls.0 toy_calls.1 toy_calls.2
      pairing_lock-IsIdle (granting pairing_lock refl)
