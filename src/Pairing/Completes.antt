-- ===== src/Pairing/Completes.antt =====
-- src/nuki_pairing.c: the whole handshake with a lock that keeps to the protocol.
use nuki_nrf52_bridge.Base.{
  ℕ, ◌<◌, ◌≡◌, refl, sym, ap, subst, ◌∙◌, List, [], ◌∷◌, ◌++◌, length, append_assoc, Result, ok,
}
use nuki_nrf52_bridge.Zephyr.{ByteOrder}
use nuki_nrf52_bridge.Crypto.Psa.{Psa, crypto_init, keypair, dh1, h1}
use nuki_nrf52_bridge.Crypto.Salsa.{kdf1}
use nuki_nrf52_bridge.Protocol.Commands.{
  cmd_request_data, cmd_public_key, cmd_challenge, cmd_auth_authenticator, cmd_auth_data,
  cmd_auth_id, cmd_auth_id_confirmation, cmd_status,
}
use nuki_nrf52_bridge.Transport.{Event}
use nuki_nrf52_bridge.Link.{Link}
use nuki_nrf52_bridge.Link.Exchange.{IsIdle, Incoming, bytes_of, exchange}
use nuki_nrf52_bridge.Pairing.{PairingData, run}
use nuki_nrf52_bridge.Pairing.Message.{IsPlain}
use nuki_nrf52_bridge.Pairing.Answers.{
  Says, mac, authenticate-Says, request_authorization-Says, app_id_of, nonce_of, body_of,
}
use nuki_nrf52_bridge.Pairing.Fields.{auth_id_message}
use nuki_nrf52_bridge.Pairing.Authorized.{exchange_keys-Says, receive_authorization-Says}

five_sent :
    (x : List (List ℕ)) (a b c d e : List ℕ)
    → x ++ a ∷ [] ++ b ∷ [] ++ c ∷ [] ++ d ∷ [] ++ e ∷ [] ≡ x ++ a ∷ b ∷ c ∷ d ∷ e ∷ []
five_sent x a b c d e =
    ap (λ y. y ++ c ∷ [] ++ d ∷ [] ++ e ∷ []) (append_assoc x (a ∷ []) (b ∷ []))
    ∙ ap (λ y. y ++ d ∷ [] ++ e ∷ []) (append_assoc x (a ∷ b ∷ []) (c ∷ []))
    ∙ ap (λ y. y ++ e ∷ []) (append_assoc x (a ∷ b ∷ c ∷ []) (d ∷ []))
    ∙ append_assoc x (a ∷ b ∷ c ∷ d ∷ []) (e ∷ [])

module _ (bo : ByteOrder) (psa : Psa) where
  open bo use {put_le16, put_le32}

  -- What the lock does: it gives a public key, answers it and the bridge's authenticator with a challenge
  -- each, answers the request for an authorization with an AuthorizationId message under the shared key, over
  -- the bridge's nonce, and the confirmation with the Status COMPLETE.
  pub record Grants (key : List ℕ) (macs : (d : List ℕ) → (m : List ℕ) × (h1 psa key d ≡ ok m))
      (sl_pub : List ℕ) (rest : List Event) (l : Link) : Type 0 where
    pub key_len : length sl_pub ≡ 32
    pub public_key : Incoming
    pub gives_key : Says bo cmd_public_key sl_pub public_key
    pub nonce1 : List ℕ
    pub nonce1_len : length nonce1 ≡ 32
    pub challenge1 : Incoming
    pub challenges1 : Says bo cmd_challenge nonce1 challenge1
    pub nonce2 : List ℕ
    pub nonce2_len : length nonce2 ≡ 32
    pub challenge2 : Incoming
    pub challenges2 : Says bo cmd_challenge nonce2 challenge2
    pub auth_id : ℕ
    pub id_bound : auth_id < 4294967296
    pub lock_uuid : List ℕ
    pub uuid_len : length lock_uuid ≡ 16
    pub nonce_k2 : List ℕ
    pub nonce_len : length nonce_k2 ≡ 32
    pub grant : Incoming
    pub authorizes :
        Says bo cmd_auth_id
          (auth_id_message bo
            (mac bo psa key macs
              (put_le32 auth_id ++ lock_uuid ++ nonce_k2 ++ nonce_of bo psa key macs l.entropy))
            auth_id
            lock_uuid
            nonce_k2)
          grant
    pub status : Incoming
    pub completes : Says bo cmd_status (0 ∷ []) status
    pub coming :
        l.schedule
        ≡ exchange public_key
            (exchange challenge1 (exchange challenge2 (exchange grant (exchange status rest))))

  module _ (key : List ℕ) (macs : (d : List ℕ) → (m : List ℕ) × (h1 psa key d ≡ ok m)) where
    -- The result, and the five messages that the bridge has sent.
    pub record Granted (cl_pub sl_pub : List ℕ) (rest : List Event) (l : Link)
        (g : Grants key macs sl_pub rest l) (out : Result PairingData × Link) : Type 0 where
      pub result :
          out.0
          ≡ ok (record {
            auth_id = g.auth_id;
            app_id = app_id_of bo psa key macs l.entropy;
            shared_key = key;
            lock_uuid = g.lock_uuid;
          })
      pub request : List ℕ
      pub public_key : List ℕ
      pub authenticator : List ℕ
      pub data' : List ℕ
      pub confirmation : List ℕ
      pub sent :
          out.1.sent ≡ l.sent ++ request ∷ public_key ∷ authenticator ∷ data' ∷ confirmation ∷ []
      pub request_of : IsPlain bo cmd_request_data (put_le16 cmd_public_key) request
      pub public_key_of : IsPlain bo cmd_public_key cl_pub public_key
      pub authenticator_of :
          IsPlain bo cmd_auth_authenticator
            (mac bo psa key macs (cl_pub ++ sl_pub ++ g.nonce1))
            authenticator
      pub data_of :
          IsPlain bo cmd_auth_data
            (mac bo psa key macs (body_of bo psa key macs l.entropy ++ g.nonce2)
              ++ body_of bo psa key macs l.entropy)
            data'
      pub confirmation_of :
          IsPlain bo cmd_auth_id_confirmation
            (mac bo psa key macs (put_le32 g.auth_id ++ g.nonce_k2) ++ put_le32 g.auth_id)
            confirmation
      pub idle : IsIdle out.1
      pub left : out.1.schedule ≡ rest

  -- The handshake succeeds with a lock that keeps to the protocol. PSA Crypto is up and gives a key pair, a
  -- shared secret and a MAC of everything; the buffer is empty, and the stack accepts the writes and
  -- acknowledges them; the lock gives a public key, two challenges, an AuthorizationId message with the MAC
  -- under the shared key over the bridge's nonce, and the Status COMPLETE, all in non-empty pieces. Then the
  -- result has the lock's authorization id and id, the shared key, and the application id from the random
  -- bytes, and five messages were sent: the request, the public key, the authenticator, the authorization
  -- data and the confirmation, with the MACs of what the protocol names.
  pub run-Granted :
      (cl_pub cl_priv sl_pub dh : List ℕ) (rest : List Event) (l : Link)
      (macs : (d : List ℕ) → (m : List ℕ) × (h1 psa (kdf1 dh) d ≡ ok m))
      → crypto_init psa ≡ ok tt
      → keypair psa ≡ ok (cl_pub, cl_priv)
      → dh1 psa cl_priv sl_pub ≡ ok dh
      → IsIdle l
      → (g : Grants (kdf1 dh) macs sl_pub rest l)
      → Granted (kdf1 dh) macs cl_pub sl_pub rest l g (run bo psa l)
  unfolding run
  run-Granted cl_pub cl_priv sl_pub dh rest l macs up keys shared idle g =
      let key = kdf1 dh in
      let last = exchange g.status rest in
      let (f1, f2, l1, is1, is2, step1, w1, sent1, e1) =
        exchange_keys-Says bo psa cl_pub cl_priv sl_pub dh g.nonce1 cmd_challenge g.public_key
          g.challenge1 (exchange g.challenge2 (exchange g.grant last)) l keys shared idle
          g.gives_key g.key_len g.challenges1 g.coming in
      let (f3, l2, is3, step2, w2, sent2, e2) =
        authenticate-Says bo psa key macs cl_pub sl_pub g.nonce1 (bytes_of g.challenge1) g.nonce2
          g.challenge2 cmd_challenge (exchange g.grant last) l1 w1 g.challenges1.plain g.nonce1_len
          g.challenges2 in
      let message : List ℕ → List ℕ = λ entropy.
        auth_id_message bo
          (mac bo psa key macs
            (put_le32 g.auth_id ++ g.lock_uuid ++ g.nonce_k2 ++ nonce_of bo psa key macs entropy))
          g.auth_id g.lock_uuid g.nonce_k2 in
      let same : l.entropy ≡ l2.entropy = sym (e2 ∙ e1) in
      let authorizes : Says bo cmd_auth_id (message l2.entropy) g.grant =
        subst (λ b. Says bo cmd_auth_id (message b) g.grant) same g.authorizes in
      let (f4, l3, is4, step3, w3, sent3) =
        request_authorization-Says bo psa key macs g.nonce2 (bytes_of g.challenge2)
          (message l2.entropy) g.grant cmd_auth_id last l2 w2 g.challenges2.plain g.nonce2_len
          authorizes in
      let app_id = app_id_of bo psa key macs l2.entropy in
      let (f5, l4, is5, step4, idle', sent4, left) =
        receive_authorization-Says bo psa key macs (nonce_of bo psa key macs l2.entropy)
          (bytes_of g.grant) g.lock_uuid g.nonce_k2 g.auth_id app_id g.status rest l3 w3
          authorizes.plain g.id_bound g.uuid_len g.nonce_len g.completes in
      let back = sym same in
      let done : PairingData = record {
        auth_id = g.auth_id;
        app_id = app_id;
        shared_key = key;
        lock_uuid = g.lock_uuid;
      } in
      let whole : run bo psa l ≡ (ok done, l4) = rw (up, step1, step2, step3, step4) refl in
      subst (Granted key macs cl_pub sl_pub rest l g) (sym whole) (record {
        result =
            ap
              (λ b. ok (record {
                auth_id = g.auth_id;
                app_id = app_id_of bo psa key macs b;
                shared_key = key;
                lock_uuid = g.lock_uuid;
              }))
              back;
        request = f1;
        public_key = f2;
        authenticator = f3;
        data' = f4;
        confirmation = f5;
        sent =
            sent4
            ∙ ap (λ x. x ++ f5 ∷ [])
                (sent3 ∙ ap (λ x. x ++ f4 ∷ []) (sent2 ∙ ap (λ x. x ++ f3 ∷ []) sent1))
            ∙ five_sent l.sent f1 f2 f3 f4 f5;
        request_of = is1;
        public_key_of = is2;
        authenticator_of = is3;
        data_of =
            subst
              (λ b.
                IsPlain bo cmd_auth_data
                  (mac bo psa key macs (body_of bo psa key macs b ++ g.nonce2)
                    ++ body_of bo psa key macs b)
                  f4)
              back is4;
        confirmation_of = is5;
        idle = idle';
        left = left;
      })
