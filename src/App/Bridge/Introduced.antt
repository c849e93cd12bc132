-- ===== src/App/Bridge/Introduced.antt =====
-- src/nuki_uart_proto.c over src/nuki_app.c: the answer to a PAIR request while a lock takes part.
use nuki_nrf52_bridge.Base.{◌≡◌, refl, sym, ap, subst, ◌∙◌, none, some, [], ◌∷◌, Result, ok}
use nuki_nrf52_bridge.Zephyr.{ByteOrder}
use nuki_nrf52_bridge.Crypto.Psa.{Psa}
use nuki_nrf52_bridge.Storage.{get_pairing}
use nuki_nrf52_bridge.Uart.Rx.{RxFrame}
use nuki_nrf52_bridge.Uart.Tx.{rc_of, send_simple_response, handle_pair, dispatch_frame}
use nuki_nrf52_bridge.Uart.Tx.Effects.{at_pair}
use nuki_nrf52_bridge.App.Operations.{World, pair}
use nuki_nrf52_bridge.App.Operations.Introduced.{Introduces, granted, pair-Introduces}
use nuki_nrf52_bridge.App.Bridge.{bridge_api}

module _ (bo : ByteOrder) (psa : Psa) where
  reply_0 :
      (r : Result (Unit {0}))
      → r ≡ ok tt
      → send_simple_response 2 (rc_of r) ≡ 0x5a ∷ 2 ∷ 4 ∷ 0 ∷ 0 ∷ 0 ∷ 0 ∷ []
  unfolding send_simple_response rc_of
  reply_0 r h = ap (λ x. send_simple_response 2 (rc_of x)) h

  handled :
      (w : World)
      → handle_pair (bridge_api bo psa) w
        ≡ (send_simple_response 2 (rc_of (pair bo psa w).0), (pair bo psa w).1)
  unfolding handle_pair
  handled w = refl

  -- A PAIR request on the serial line is answered by the code 0, and the bridge is paired from then on, while a
  -- lock is in reach and takes part in the handshake. The bridge is not connected, the stack and PSA Crypto
  -- refuse nothing, and the flash takes the pairing; after devices that are not looked for one that is
  -- advertises, accepts the connection, offers both services, and keeps to the protocol, and no callback comes
  -- during the handshake. The pairing has the lock's address, its id, the authorization id that it grants, and
  -- the key agreed on.
  pub dispatch_frame-Introduces :
      (f : RxFrame) (w : World)
      → f.cmd ≡ 2
      → w.app.conn ≡ none
      → (i : Introduces bo psa w)
      → ((dispatch_frame (bridge_api bo psa) f w).0 ≡ 0x5a ∷ 2 ∷ 4 ∷ 0 ∷ 0 ∷ 0 ∷ 0 ∷ [])
        × (get_pairing (dispatch_frame (bridge_api bo psa) f w).1.app.storage
            ≡ some (granted bo psa w i))
  dispatch_frame-Introduces f w e free i =
      let (done, saved) = pair-Introduces bo psa w free i in
      let api = bridge_api bo psa in
      subst
        (λ out.
          (out.0 ≡ 0x5a ∷ 2 ∷ 4 ∷ 0 ∷ 0 ∷ 0 ∷ 0 ∷ [])
          × (get_pairing out.1.app.storage ≡ some (granted bo psa w i)))
        (sym (at_pair api f w e ∙ handled w)) (reply_0 (pair bo psa w).0 done, saved)
