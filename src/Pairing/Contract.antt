-- ===== src/Pairing/Contract.antt =====
-- src/nuki_pairing.c: what the calls of the transport obey, the handshake obeys.
use nuki_nrf52_bridge.Base.{ℕ, not, List, ◌∷◌, ◌++◌, get_or, slice, drop, einval, ebadmsg, ◌==◌}
use nuki_nrf52_bridge.Zephyr.{ByteOrder}
use nuki_nrf52_bridge.Crypto.Psa.{Psa, crypto_init, keypair, dh1, h1}
use nuki_nrf52_bridge.Protocol.Frame.{build_plain, parse_plain}
use nuki_nrf52_bridge.Transport.{peek}
use nuki_nrf52_bridge.Link.{some_or, wait_min, fail, pure, ◌>>◌}
use nuki_nrf52_bridge.Link.Contract.{Contract, Obeys, steps, either, some_or-Obeys}
use nuki_nrf52_bridge.Pairing.{
  send_plain, recv_plain, frame_len_of, same_bytes, name, exchange_keys, authenticate,
  request_authorization, confirm, finish, receive_authorization, run,
}

module _ (c : Contract) (bo : ByteOrder) where
  open bo use {put_le16, put_le32, get_le16, get_le32}

  send_plain-Obeys : (cmd : ℕ) (payload : List ℕ) (n : ℕ) → Obeys c (send_plain bo cmd payload n)
  unfolding send_plain
  send_plain-Obeys cmd payload n l =
      let built = build_plain bo 160 cmd payload n in
      steps c l (some_or einval built l) _ (some_or-Obeys c einval built l) (λ f. c.by_write f)

  recv_plain-Obeys : (cmd n : ℕ) → Obeys c (recv_plain bo cmd n)
  unfolding recv_plain
  recv_plain-Obeys cmd n l = steps c l (wait_min 2 l) _ (c.by_wait 2 l) (λ _ l1.
      let len = frame_len_of (get_le16 (peek 2 l1.transport) 0) n in
      steps c l1 (wait_min len l1) _ (c.by_wait len l1) (λ _ l2.
        steps c l2 (parse_plain bo (peek len l2.transport) len, _) _ (c.by_reset _ l2)
          (λ m l3. c.by_nothing _ l3)))

  module _ (psa : Psa) where
    exchange_keys-Obeys : Obeys c (exchange_keys bo psa)
    unfolding exchange_keys
    exchange_keys-Obeys l =
        steps c l (send_plain bo 1 (put_le16 3) 2 l) _ (send_plain-Obeys 1 (put_le16 3) 2 l)
          (λ _ l1. steps c l1 (recv_plain bo 3 32 l1) _ (recv_plain-Obeys 3 32 l1) (λ sl_pub l2.
            steps c l2 (keypair psa, l2) _ (c.by_nothing _ l2)
              (λ keys l3.
                steps c l3 (send_plain bo 3 keys.0 32 l3) _ (send_plain-Obeys 3 keys.0 32 l3)
                  (λ _ l4.
                    steps c l4 (dh1 psa keys.1 sl_pub, l4) _ (c.by_nothing _ l4)
                      (λ dh l5. c.by_nothing _ l5)))))

    authenticate-Obeys : (a b k : List ℕ) → Obeys c (authenticate bo psa a b k)
    unfolding authenticate
    authenticate-Obeys a b k l =
        steps c l (recv_plain bo 4 32 l) _ (recv_plain-Obeys 4 32 l) (λ challenge l1.
          steps c l1 (h1 psa k (a ++ b ++ challenge), l1) _ (c.by_nothing _ l1)
            (λ mac. send_plain-Obeys 5 mac 32))

    request_authorization-Obeys : (k : List ℕ) → Obeys c (request_authorization bo psa k)
    unfolding request_authorization
    request_authorization-Obeys k l =
        steps c l (recv_plain bo 4 32 l) _ (recv_plain-Obeys 4 32 l) (λ challenge l1.
          let app_id = get_le32 (slice l1.entropy 0 4) 0 in
          let nonce = slice (drop 4 l1.entropy) 0 32 in
          let body = 0 ∷ (put_le32 app_id ++ name ++ nonce) in
          steps c l1 (h1 psa k (body ++ challenge), _) _
            (c.by_entropy _ (drop 32 (drop 4 l1.entropy)) l1)
            (λ mac l2.
              steps c l2 (send_plain bo 6 (mac ++ body) 101 l2) _
                (send_plain-Obeys 6 (mac ++ body) 101 l2) (λ _ l3. c.by_nothing _ l3)))

    confirm-Obeys :
        (k : List ℕ) (auth_id : ℕ) (nonce : List ℕ) → Obeys c (confirm bo psa k auth_id nonce)
    unfolding confirm
    confirm-Obeys k auth_id nonce l =
        steps c l (h1 psa k (put_le32 auth_id ++ nonce), l) _ (c.by_nothing _ l)
          (λ mac. send_plain-Obeys 30 (mac ++ put_le32 auth_id) 36)

    finish-Obeys :
        (auth_id app_id : ℕ) (k uuid : List ℕ) → Obeys c (finish bo psa auth_id app_id k uuid)
    unfolding finish
    finish-Obeys auth_id app_id k uuid l =
        steps c l (recv_plain bo 14 1 l) _ (recv_plain-Obeys 14 1 l) (λ status l1.
          either c (not (get_or status 0 0 == 0)) (fail ebadmsg) (pure _) l1 (c.by_nothing _ l1)
            (c.by_nothing _ l1))

    receive_authorization-Obeys :
        (k : List ℕ) (app_id : ℕ) (nonce : List ℕ)
        → Obeys c (receive_authorization bo psa k app_id nonce)
    unfolding receive_authorization
    receive_authorization-Obeys k app_id nonce l =
        steps c l (recv_plain bo 7 84 l) _ (recv_plain-Obeys 7 84 l) (λ m l1.
          steps c l1 (h1 psa k (slice m 32 52 ++ nonce), l1) _ (c.by_nothing _ l1)
            (λ mac l2.
              let auth_id = get_le32 m 32 in
              let confirmed = confirm bo psa k auth_id (slice m 52 32) in
              let finished = finish bo psa auth_id app_id k (slice m 36 16) in
              either c (not (same_bytes mac (slice m 0 32))) (fail ebadmsg) (confirmed >> finished)
                l2 (c.by_nothing _ l2)
                (steps c l2 (confirmed l2) _ (confirm-Obeys k auth_id (slice m 52 32) l2)
                  (λ _. finish-Obeys auth_id app_id k (slice m 36 16)))))

    pub run-Obeys : Obeys c (run bo psa)
    unfolding run
    run-Obeys l =
        steps c l (crypto_init psa, l) _ (c.by_nothing _ l)
          (λ _ l0. steps c l0 (exchange_keys bo psa l0) _ (exchange_keys-Obeys l0) (λ keys l1.
            steps c l1 (authenticate bo psa keys.0 keys.1 keys.2 l1) _
              (authenticate-Obeys keys.0 keys.1 keys.2 l1)
              (λ _ l2.
                steps c l2 (request_authorization bo psa keys.2 l2) _
                  (request_authorization-Obeys keys.2 l2)
                  (λ asked. receive_authorization-Obeys keys.2 asked.0 asked.1))))
