-- ===== src/App/PairTests.antt =====
-- A pairing of the model of src/nuki_app.c, and the theorem at this input.
use nuki_nrf52_bridge.Base.{◌≡◌, refl, ap, false, true, some, List, [], ◌∷◌, replicate, ok}
use nuki_nrf52_bridge.Zephyr.{little_endian}
use nuki_nrf52_bridge.Crypto.Crc.{crc16}
use nuki_nrf52_bridge.Crypto.Psa.{crypto_init, keypair, dh1, h1}
use nuki_nrf52_bridge.Protocol.Frame.{build_plain, parse_plain}
use nuki_nrf52_bridge.Transport.{Event, happens, indication, write_done, await_write, notify_cb}
use nuki_nrf52_bridge.Transport as T
use nuki_nrf52_bridge.Link as L
use nuki_nrf52_bridge.Pairing.{
  send_plain, recv_plain, exchange_keys, authenticate, request_authorization, confirm, finish,
  receive_authorization, run,
}
use nuki_nrf52_bridge.Pairing.Samples.{toy_psa, toy_macs, toy_calls, granting}
use nuki_nrf52_bridge.Pairing.Samples as Samples
use nuki_nrf52_bridge.App.Operations.Introduced.{Introduces, granted}
use nuki_nrf52_bridge.App.Bridge.{bridge_api}
use nuki_nrf52_bridge.App.Bridge.Introduced.{dispatch_frame-Introduces}
use nuki_nrf52_bridge.Uart.Rx.{RxFrame}
use nuki_nrf52_bridge.Uart.Tx.{dispatch_frame}
use nuki_nrf52_bridge.Storage.{reset_storage, get_pairing, save_pairing}
use nuki_nrf52_bridge.App.{init}
use nuki_nrf52_bridge.App.Adverts.{
  name_complete, ad_has_uuid, ad_has_nuki_name, ad_get_name, uuid_in, name_in,
}
use nuki_nrf52_bridge.App.Connect.{
  Moment, device_found, connected, disconnected, gdio_discovered, usdio_discovered, callback, turn,
  connect_to_lock, await_ready,
}
use nuki_nrf52_bridge.App.Connect as C
use nuki_nrf52_bridge.App.Connect.{wanted}
use nuki_nrf52_bridge.App.Adverts.{AdField}
use nuki_nrf52_bridge.Base.{none}
use nuki_nrf52_bridge.App.Operations.{World, connect, on_gdio_link, handshake, busy, pair}
use nuki_nrf52_bridge.App.Operations.Paired.{Paired, pair-Paired}

-- A device named "Nuki_1" accepts the connection, offers both services, and parts when asked to.
abbrev first_visit : List Moment
first_visit =
    C.happens (
      device_found (9 ∷ 2 ∷ 3 ∷ 4 ∷ 5 ∷ 6 ∷ 7 ∷ [])
        (record { type = name_complete; data' = 78 ∷ 117 ∷ 107 ∷ 105 ∷ 95 ∷ 49 ∷ [] } ∷ []) (ok tt)
        (ok 1))
    ∷ C.happens (connected 1 false (ok tt))
    ∷ C.happens (gdio_discovered 1 (some 18) (ok tt) (ok tt))
    ∷ C.happens (usdio_discovered 1 (some 21) (ok tt))
    ∷ turn
    ∷ turn
    ∷ C.happens (disconnected 1)
    ∷ turn
    ∷ []

abbrev new_world : World
new_world = record {
  app = init reset_storage;
  moments = first_visit;
  scans = [];
  wires = record { events = Samples.handshake; accepts = []; entropy = replicate 36 9 } ∷ [];
  flash = [];
  dst = λ c. 9 ∷ 2 ∷ 3 ∷ 4 ∷ 5 ∷ 6 ∷ 7 ∷ [];
  sent = [];
}

pair_known : (pair little_endian toy_psa new_world).0 ≡ ok tt
unfolding pair connect connect_to_lock await_ready callback init handshake on_gdio_link busy
    get_pairing save_pairing ad_has_uuid ad_has_nuki_name ad_get_name uuid_in name_in T.init run
    exchange_keys authenticate request_authorization receive_authorization confirm finish send_plain
    recv_plain crypto_init keypair dh1 h1 build_plain parse_plain crc16 L.write L.wait_min T.write
    T.wait_min T.peek T.reset await_write notify_cb
pair_known = refl

pair-Paired_example :
    Paired little_endian toy_psa new_world (pair little_endian toy_psa new_world).1
pair-Paired_example =
    pair-Paired little_endian toy_psa new_world (pair little_endian toy_psa new_world).1
      (ap (λ r. (r, (pair little_endian toy_psa new_world).1)) pair_known)

abbrev nuki_name : List AdField
nuki_name = record { type = name_complete; data' = 78 ∷ 117 ∷ 107 ∷ 105 ∷ 95 ∷ 49 ∷ [] } ∷ []

name_known :
    (wanted (get_pairing new_world.app.storage) (9 ∷ 2 ∷ 3 ∷ 4 ∷ 5 ∷ 6 ∷ 7 ∷ []) nuki_name ≡ true)
    × (new_world.app.conn ≡ none)
unfolding init get_pairing ad_has_uuid ad_has_nuki_name ad_get_name uuid_in name_in
name_known = (refl, refl)

new_world-Introduces : Introduces little_endian toy_psa new_world
new_world-Introduces = record {
  scanning = refl;
  meeting = record { strangers = []; ad = nuki_name; conn = 1; handle = 21 };
  handle = 18;
  addr = 9 ∷ 2 ∷ 3 ∷ 4 ∷ 5 ∷ 6 ∷ 7 ∷ [];
  is_wanted = name_known.0;
  others = tt;
  later = C.happens (disconnected 1) ∷ turn ∷ [];
  there = refl;
  address = refl;
  cl_pub = replicate 32 3;
  cl_priv = replicate 32 3;
  sl_pub = replicate 32 1;
  dh = replicate 32 1;
  up = toy_calls.0;
  keys = toy_calls.1;
  shared = toy_calls.2;
  macs = toy_macs;
  accepting = refl;
  rest = [];
  grants = granting _ refl;
  flash = refl;
}

abbrev pair_frame : RxFrame
pair_frame = record { cmd = 2; len = 0; payload = replicate 32 0 }

dispatch_frame-Introduces_example :
    ((dispatch_frame (bridge_api little_endian toy_psa) pair_frame new_world).0
      ≡ 0x5a ∷ 2 ∷ 4 ∷ 0 ∷ 0 ∷ 0 ∷ 0 ∷ [])
    × (get_pairing
          (dispatch_frame (bridge_api little_endian toy_psa) pair_frame new_world).1.app.storage
        ≡ some (granted little_endian toy_psa new_world new_world-Introduces))
dispatch_frame-Introduces_example =
    dispatch_frame-Introduces little_endian toy_psa pair_frame new_world refl name_known.1
      new_world-Introduces
