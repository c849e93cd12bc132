-- ===== src/Pairing/Authorized.antt =====
-- src/nuki_pairing.c: the exchange of keys and the authorization with a lock that keeps to the protocol.
use nuki_nrf52_bridge.Base.{
  ℕ, ◌<◌, ◌≡◌, refl, ap, ◌∙◌, true, List, [], ◌∷◌, ◌++◌, length, slice, length-append, ◌==◌, ok,
  arith,
}
use nuki_nrf52_bridge.Zephyr.{ByteOrder}
use nuki_nrf52_bridge.Crypto.Psa.{Psa, keypair, dh1, h1, keypair-length}
use nuki_nrf52_bridge.Crypto.Salsa.{kdf1}
use nuki_nrf52_bridge.Protocol.Commands.{
  cmd_request_data, cmd_public_key, cmd_auth_id, cmd_auth_id_confirmation, cmd_status,
}
use nuki_nrf52_bridge.Protocol.Frame.Build.{length-put_le16, length-put_le32}
use nuki_nrf52_bridge.Transport.{Event}
use nuki_nrf52_bridge.Transport.Fragments.{arrivals}
use nuki_nrf52_bridge.Link.{Link}
use nuki_nrf52_bridge.Link.Exchange.{IsIdle, Awaits, Incoming, bytes_of, exchange, written}
use nuki_nrf52_bridge.Command.Steps.{at}
use nuki_nrf52_bridge.Pairing.{
  same_bytes, recv_plain, exchange_keys, receive_authorization, confirm, finish,
}
use nuki_nrf52_bridge.Pairing.Message.{IsPlain, recv_plain-IsPlain}
use nuki_nrf52_bridge.Pairing.Answers.{Says, asks, mac, length-mac}
use nuki_nrf52_bridge.Pairing.Fields.{auth_id_message, auth_id_message-Fields, same_bytes_refl}

module _ (bo : ByteOrder) (psa : Psa) where
  open bo use {put_le16, put_le32, get_le32}

  -- The keys are exchanged, and the lock's first challenge is awaited.
  pub exchange_keys-Says :
      (cl_pub cl_priv sl_pub dh payload' : List ℕ) (cmd' : ℕ) (a b : Incoming) (rest : List Event)
      (l : Link)
      → keypair psa ≡ ok (cl_pub, cl_priv)
      → dh1 psa cl_priv sl_pub ≡ ok dh
      → IsIdle l
      → Says bo cmd_public_key sl_pub a
      → length sl_pub ≡ 32
      → Says bo cmd' payload' b
      → l.schedule ≡ exchange a (exchange b rest)
      → (f g : List ℕ) × (l' : Link) × IsPlain bo cmd_request_data (put_le16 cmd_public_key) f
        × IsPlain bo cmd_public_key cl_pub g
        × (exchange_keys bo psa l ≡ (ok (cl_pub, sl_pub, kdf1 dh), l'))
        × Awaits (bytes_of b) rest l'
        × (l'.sent ≡ l.sent ++ f ∷ [] ++ g ∷ [])
        × (l'.entropy ≡ l.entropy)
  unfolding exchange_keys
  exchange_keys-Says cl_pub cl_priv sl_pub dh payload' cmd' a b rest l keys shared i says len says'
        s =
      let later = exchange b rest in
      let (f, t, plain, sent, awaits) =
        asks bo cmd_request_data 2 cmd_public_key (put_le16 cmd_public_key) sl_pub a later l
          (omega arith) (length-put_le16 bo cmd_public_key) (omega arith) i says s in
      let l1 = written f l t (arrivals a.late later) in
      let (t', got, idle) =
        recv_plain-IsPlain bo cmd_public_key 32 sl_pub (bytes_of a) later l1 awaits says.plain len
          refl (rw (ap (λ k. k == 32) len)) in
      let l2 = at l1 t' later in
      let (g, t'', plain', sent', awaits') =
        asks bo cmd_public_key 32 cmd' cl_pub payload' b rest l2 (omega arith)
          (keypair-length psa cl_pub cl_priv keys) (omega arith) idle says' refl in
      (
        f,
        g,
        written g l2 t'' (arrivals b.late rest),
        plain,
        plain',
        rw (sent, got, keys, sent', shared) refl,
        awaits',
        refl,
        refl,
      )

  -- The last steps, given what their calls answer.
  receive_authorization-ok :
      (key nonce p m k2 uuid : List ℕ) (app_id auth_id : ℕ) (l l1 l2 l3 : Link)
      → recv_plain bo cmd_auth_id 84 l ≡ (ok p, l1)
      → h1 psa key (slice p 32 52 ++ nonce) ≡ ok m
      → same_bytes m (slice p 0 32) ≡ true
      → get_le32 p 32 ≡ auth_id
      → slice p 52 32 ≡ k2
      → slice p 36 16 ≡ uuid
      → confirm bo psa key auth_id k2 l1 ≡ (ok tt, l2)
      → recv_plain bo cmd_status 1 l2 ≡ (ok (0 ∷ []), l3)
      → receive_authorization bo psa key app_id nonce l ≡ (
        ok (record { auth_id = auth_id; app_id = app_id; shared_key = key; lock_uuid = uuid }),
        l3,
      )
  unfolding receive_authorization finish
  receive_authorization-ok key nonce p m k2 uuid app_id auth_id l l1 l2 l3 got mac1 same id n u conf
        status =
      rw (got, mac1, same, id, n, u, conf, status) refl

  module _ (key : List ℕ) (macs : (d : List ℕ) → (m : List ℕ) × (h1 psa key d ≡ ok m)) where
    pub receive_authorization-Says :
        (nonce w lock_uuid k2 : List ℕ) (auth_id app_id : ℕ) (a : Incoming) (rest : List Event)
        (l : Link)
        → let message =
            auth_id_message bo
              (mac bo psa key macs (put_le32 auth_id ++ lock_uuid ++ k2 ++ nonce))
              auth_id
              lock_uuid
              k2 in
          Awaits w (exchange a rest) l
          → IsPlain bo cmd_auth_id message w
          → auth_id < 4294967296
          → length lock_uuid ≡ 16
          → length k2 ≡ 32
          → Says bo cmd_status (0 ∷ []) a
          → (f : List ℕ) × (l' : Link) × IsPlain bo cmd_auth_id_confirmation
              (mac bo psa key macs (put_le32 auth_id ++ k2) ++ put_le32 auth_id)
              f
            × (receive_authorization bo psa key app_id nonce l ≡ (
              ok (record {
                auth_id = auth_id;
                app_id = app_id;
                shared_key = key;
                lock_uuid = lock_uuid;
              }),
              l',
            ))
            × IsIdle l'
            × (l'.sent ≡ l.sent ++ f ∷ [])
            × (l'.schedule ≡ rest)
    unfolding confirm
    receive_authorization-Says nonce w lock_uuid k2 auth_id app_id a rest l aw plain ha hu hk says =
        let signed = put_le32 auth_id ++ lock_uuid ++ k2 in
        let m = mac bo psa key macs (signed ++ nonce) in
        let m_len = length-mac bo psa key macs (signed ++ nonce) in
        let p = auth_id_message bo m auth_id lock_uuid k2 in
        let fields = auth_id_message-Fields bo m auth_id lock_uuid k2 m_len ha hu hk in
        let (t, got, idle) =
          recv_plain-IsPlain bo cmd_auth_id 84 p w (exchange a rest) l aw plain fields.size refl
            (rw (ap (λ k. k == 84) fields.size)) in
        let l1 = at l t (exchange a rest) in
        let d = put_le32 auth_id ++ k2 in
        let c = mac bo psa key macs d in
        let (f, t', said, sent, awaits) =
          asks bo cmd_auth_id_confirmation 36 cmd_status (c ++ put_le32 auth_id) (0 ∷ []) a rest l1
            (omega arith)
            (omega (
              arith,
              length-append c (put_le32 auth_id),
              length-mac bo psa key macs d,
              length-put_le32 bo auth_id,
            ))
            (omega arith) idle says refl in
        let l2 = written f l1 t' (arrivals a.late rest) in
        let (t'', ended, idle') =
          recv_plain-IsPlain bo cmd_status 1 (0 ∷ []) (bytes_of a) rest l2 awaits says.plain refl
            refl refl in
        (
          f,
          at l2 t'' rest,
          said,
          receive_authorization-ok key nonce p m k2 lock_uuid app_id auth_id l l1 l2
              (at l2 t'' rest) got
              (ap (λ b. h1 psa key (b ++ nonce)) fields.authenticated ∙ (macs (signed ++ nonce)).1)
              (ap (same_bytes m) fields.authenticator ∙ same_bytes_refl m) fields.id fields.nonce
              fields.uuid (rw ((macs d).1, sent) refl) ended,
          idle',
          refl,
          refl,
        )
