-- ===== src/App/Tests.antt =====
-- Runs of the model of src/nuki_app.c, and the theorems at concrete inputs.
use nuki_nrf52_bridge.Base.{
  ℕ, ◌≡◌, ◌↔◌, ◌≤◌, ◌+◌, ◌*◌, refl, ap, arith, ◌⊎◌, false, true, none, some, List, [], ◌∷◌, ◌++◌,
  replicate, Result, ok, err, enotsup, is_ok,
}
use nuki_nrf52_bridge.Zephyr.{little_endian}
use nuki_nrf52_bridge.Crypto.Psa.{Psa}
use nuki_nrf52_bridge.Crypto.Words.{rotl32, load_le32, store_le32}
use nuki_nrf52_bridge.Crypto.Salsa.{
  core_salsa20, core_hsalsa20, load_words, round, rounds, store_words, mix,
}
use nuki_nrf52_bridge.Crypto.Stream.{xor_bytes, stream_loop, xsalsa20_xor, next_block}
use nuki_nrf52_bridge.Crypto.Poly1305.{clamp, absorb, freeze, poly1305}
use nuki_nrf52_bridge.Crypto.Secretbox.{e1, d1, constant_time_eq16}
use nuki_nrf52_bridge.Crypto.Crc.{crc16}
use nuki_nrf52_bridge.Protocol.Frame.{build_auth, parse_auth}
use nuki_nrf52_bridge.Transport.{happens, indication, write_done, await_write, notify_cb}
use nuki_nrf52_bridge.Transport as T
use nuki_nrf52_bridge.Link as L
use nuki_nrf52_bridge.Command.{
  send_encrypted, recv_encrypted, recv_body, request_challenge, drain_rounds, drain_round,
  drain_until_complete,
}
use nuki_nrf52_bridge.Command as Command
use nuki_nrf52_bridge.Command.Samples.{challenge_wire, complete_wire}
use nuki_nrf52_bridge.Uart.Rx.{RxFrame}
use nuki_nrf52_bridge.Storage.{Saved, Storage, get_pairing}
use nuki_nrf52_bridge.App.{App, init}
use nuki_nrf52_bridge.App.Connect.{
  Callback, device_found, connected, disconnected, usdio_discovered, scan_timeout, time_passes,
  callback, Moment, turn, connect_to_lock, disconnect_from_lock, await_ready, await_disconnected,
}
use nuki_nrf52_bridge.App.Connect as C
use nuki_nrf52_bridge.App.Connect.{keyturner_service_uuid}
use nuki_nrf52_bridge.App.Adverts.{AdField, uuid128_some, ad_has_uuid}
use nuki_nrf52_bridge.App.Adverts.Offers.{Offers, ad_has_uuid_iff}
use nuki_nrf52_bridge.App.Connect.Shape.{IsApp}
use nuki_nrf52_bridge.App.Connect.Reports.{Attempted, connect_to_lock-Attempted}
use nuki_nrf52_bridge.App.Connect.Held.{
  Held, connect_to_lock-Held, Parted, disconnect_from_lock-Parted,
}
use nuki_nrf52_bridge.App.Operations.{
  Wire, World, lock_action, get_state, calibrate, act, connect, on_usdio_link, busy,
}
use nuki_nrf52_bridge.App.Operations.Peers.{
  reading, acting, strangers, perform_all, perform_all_peer,
}
use nuki_nrf52_bridge.App.Operations.Cache.{SameCache, cache_kept}
use nuki_nrf52_bridge.App.Operations.Confirmed.{Confirmed, lock_action-Confirmed}
use nuki_nrf52_bridge.App.Operations.Invariant.{
  operating, pairing, polling, between, undertake_all, undertake_all-IsApp,
}
use nuki_nrf52_bridge.App.Poller.{poll_rounds}
use nuki_nrf52_bridge.App.Poller.Retries.{intervals, poll_rounds_bounded}
use nuki_nrf52_bridge.App.Bridge.Served.{Served}

abbrev pub paired : Saved
paired = record {
  addr = 1 ∷ 2 ∷ 3 ∷ 4 ∷ 5 ∷ 6 ∷ 7 ∷ [];
  data' = record {
    auth_id = 5;
    app_id = 6;
    shared_key = replicate 32 7;
    lock_uuid = replicate 16 8;
  };
}

abbrev pub paired_storage : Storage
paired_storage = record { requests = []; pairing = paired; have_pairing = true }

-- A device advertises, and accepts the connection.
abbrev met : List Moment
met =
    C.happens (device_found (1 ∷ 2 ∷ 3 ∷ 4 ∷ 5 ∷ 6 ∷ 7 ∷ []) [] (ok tt) (ok 1))
    ∷ C.happens (connected 1 false (ok tt))
    ∷ []

-- The lock is found and connected, the command runs, and the lock disconnects when asked to.
abbrev visit : List Moment
visit =
    met
    ++ C.happens (usdio_discovered 1 (some 21) (ok tt))
      ∷ turn
      ∷ turn
      ∷ C.happens (disconnected 1)
      ∷ turn
      ∷ []

-- The lock's challenge and its Status COMPLETE.
abbrev answering : Wire
answering = record {
  events =
      write_done 0
      ∷ happens (indication challenge_wire)
      ∷ write_done 0
      ∷ happens (indication complete_wire)
      ∷ [];
  accepts = [];
  entropy = replicate 24 9;
}

abbrev pub world : World
world = record {
  app = init paired_storage;
  moments = visit;
  scans = [];
  wires = answering ∷ [];
  flash = [];
  dst = λ c. 1 ∷ 2 ∷ 3 ∷ 4 ∷ 5 ∷ 6 ∷ 7 ∷ [];
  sent = [];
}

lock_action_known : (lock_action little_endian 2 world).0 ≡ ok tt
unfolding init lock_action act connect connect_to_lock on_usdio_link busy callback await_ready
    get_pairing T.init Command.lock_action request_challenge drain_until_complete drain_rounds
    drain_round send_encrypted recv_encrypted recv_body T.write T.wait_min T.peek T.reset
    await_write notify_cb L.wait_min L.write build_auth parse_auth crc16 e1 d1 constant_time_eq16
    poly1305 clamp absorb freeze xsalsa20_xor stream_loop next_block xor_bytes core_salsa20
    core_hsalsa20 load_words round rounds store_words mix rotl32 load_le32 store_le32
lock_action_known = refl

lock_action-Confirmed_example :
    Confirmed little_endian 2 world (lock_action little_endian 2 world).1
lock_action-Confirmed_example =
    lock_action-Confirmed little_endian 2 world (lock_action little_endian 2 world).1
      (ap (λ r. (r, (lock_action little_endian 2 world).1)) lock_action_known)

abbrev pub stub_psa : Psa
stub_psa = record {
  KeyId = List ℕ;
  crypto_init = true;
  generate_key = some (replicate 32 3);
  import_key = λ k. some k;
  export_key = λ k. some k;
  export_public_key = λ k. some k;
  raw_key_agreement = λ k p. some p;
  mac_compute = λ k data'. some (replicate 32 6);
}

abbrev pub lock_frame : RxFrame
lock_frame = record { cmd = 4; len = 0; payload = replicate 32 0 }

connect_to_lock-Attempted_example :
    Attempted false visit
      (init paired_storage)
      (connect_to_lock false (ok tt) visit (init paired_storage))
connect_to_lock-Attempted_example = connect_to_lock-Attempted false visit (init paired_storage)

-- A lock without the characteristic: the attempt fails, and leaves the connection.
abbrev failed : Result (Unit {0}) × App × List Moment
failed =
    connect_to_lock false (ok tt) (met ++ C.happens (usdio_discovered 1 none (ok tt)) ∷ turn ∷ [])
      (init paired_storage)

failed_known : (failed.0 ≡ err enotsup) × (failed.1.conn ≡ some 1)
unfolding connect_to_lock init callback await_ready get_pairing
failed_known = (refl, refl)

abbrev idle : List Moment
idle = C.happens (device_found (1 ∷ 2 ∷ 3 ∷ 4 ∷ 5 ∷ 6 ∷ 7 ∷ []) [] (ok tt) (ok 2)) ∷ turn ∷ []

connect_to_lock-Held_example :
    Held 1 failed.1 []
      (connect_to_lock false (ok tt) (idle ++ (C.happens scan_timeout ∷ turn ∷ [])) failed.1)
connect_to_lock-Held_example =
    connect_to_lock-Held false idle [] 1 failed.1 failed_known.1 (refl, (refl, tt))

disconnect_from_lock-Parted_example :
    Parted 1 failed.1 []
      (disconnect_from_lock (idle ++ (C.happens (disconnected 1) ∷ turn ∷ [])) failed.1)
disconnect_from_lock-Parted_example =
    disconnect_from_lock-Parted idle [] 1 failed.1 failed_known.1 (refl, (refl, tt))

pairing_known : get_pairing world.app.storage ≡ some paired
unfolding get_pairing init
pairing_known = refl

perform_all_peer_example :
    (get_pairing (perform_all little_endian (acting 2 ∷ reading ∷ []) world).app.storage
      ≡ some paired)
    × (strangers paired.addr
          (perform_all little_endian (acting 2 ∷ reading ∷ []) world).app.requests
        ≡ strangers paired.addr world.app.requests)
perform_all_peer_example =
    perform_all_peer little_endian paired (acting 2 ∷ reading ∷ []) world pairing_known

-- Nothing answers the scan.
abbrev silent : World
silent = record world { moments = C.happens scan_timeout ∷ turn ∷ [] }

silent_known : is_ok (lock_action little_endian 2 silent).0 ≡ false
unfolding init lock_action connect connect_to_lock callback await_ready get_pairing
silent_known = refl

cache_kept_example :
    ((is_ok (lock_action little_endian 2 silent).0 ≡ true)
      ⊎ SameCache silent.app (lock_action little_endian 2 silent).1.app)
    × SameCache silent.app (get_state little_endian silent).1.app
    × SameCache silent.app (calibrate little_endian 1234 silent).1.app
cache_kept_example = cache_kept little_endian 2 1234 silent

abbrev a_while : World → World
a_while w = record w { app = record (w.app) { uptime_ms = w.app.uptime_ms + 5 } }

poll_rounds_bounded_example : 9 ≤ 3 + 4 * intervals (poll_rounds little_endian 9 a_while silent).0
poll_rounds_bounded_example =
    poll_rounds_bounded little_endian 9 a_while silent (λ w. refl) (fresh_retries paired_storage)
  where
    fresh_retries : (s : Storage) → (init s).state_poll_retries ≤ 3
    fresh_retries s = unfold init in omega arith

undertake_all-IsApp_example :
    IsApp
      (undertake_all little_endian stub_psa
        (operating (acting 2) ∷ polling ∷ between (time_passes 7) ∷ pairing ∷ [])
        world).app
undertake_all-IsApp_example =
    undertake_all-IsApp little_endian stub_psa
      (operating (acting 2) ∷ polling ∷ between (time_passes 7) ∷ pairing ∷ []) paired_storage world
      refl

-- A list of two UUIDs, the second of which is the Keyturner service's.
abbrev two_uuids : List AdField
two_uuids = record { type = uuid128_some; data' = replicate 16 0 ++ keyturner_service_uuid } ∷ []

ad_has_uuid_iff_example :
    (ad_has_uuid two_uuids keyturner_service_uuid ≡ true) ↔ Offers keyturner_service_uuid two_uuids
ad_has_uuid_iff_example = ad_has_uuid_iff keyturner_service_uuid refl two_uuids
