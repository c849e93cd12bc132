-- ===== src/Pairing/Verified.antt =====
-- src/nuki_pairing.c: what a completed handshake has checked.
use nuki_nrf52_bridge.Base.{
  ℕ, ◌≡◌, refl, sym, ap, ap₂, ◌∙◌, Bool, true, false, not, ◌&&◌, List, [], ◌∷◌, ◌++◌, length,
  get_or, slice, drop, length-slice, ◌==◌, ==_iff, ok, arith,
}
use nuki_nrf52_bridge.Zephyr.{ByteOrder}
use nuki_nrf52_bridge.Crypto.Psa.{Psa, h1, h1-length, crypto_init}
use nuki_nrf52_bridge.Protocol.Commands.{cmd_auth_id, cmd_status}
use nuki_nrf52_bridge.Link.{Link}
use nuki_nrf52_bridge.Link.Inversion.{resume-ok, guard-ok}
use nuki_nrf52_bridge.Crypto.Secretbox.RoundTrip.{ok-injective}
use nuki_nrf52_bridge.Pairing.Nonce.{
  exchange_keys-IsFrugal, authenticate-IsFrugal, request_authorization_nonce,
}
use nuki_nrf52_bridge.Pairing.{
  PairingData, same_bytes, recv_plain, confirm, exchange_keys, authenticate, request_authorization,
  receive_authorization, finish, run,
}

-- Equal lengths and equal bytes.
pub eq_of-same_bytes : (xs ys : List ℕ) → length xs ≡ length ys → same_bytes xs ys ≡ true → xs ≡ ys
eq_of-same_bytes [] [] e h = refl
eq_of-same_bytes [] (y ∷ ys) e h = absurd (omega arith)
eq_of-same_bytes (x ∷ xs) [] e h = absurd (omega arith)
eq_of-same_bytes (x ∷ xs) (y ∷ ys) e h =
    let (first, others) = both (x == y) (same_bytes xs ys) h in
    ap₂ ◌∷◌ ((==_iff x y).0 first) (eq_of-same_bytes xs ys (omega arith) others)
  where
    both : (a b : Bool) → (a && b) ≡ true → (a ≡ true) × (b ≡ true)
    both a b e = ground arith

not-false : (b : Bool) → not b ≡ false → b ≡ true
not-false b h = ground arith

module _ (bo : ByteOrder) (psa : Psa) where
  open bo use {get_le32}

  -- The message that authorizes the bridge, received on the link `l1` after a request with that nonce, and the
  -- lock's last word.
  pub record Authorized (nonce_abf : List ℕ) (d : PairingData) (l1 l' : Link) : Type 0 where
    pub auth_id_payload : List ℕ
    pub l2 : Link
    pub received : recv_plain bo cmd_auth_id 84 l1 ≡ (ok auth_id_payload, l2)
    pub authentic :
        h1 psa d.shared_key (slice auth_id_payload 32 52 ++ nonce_abf)
        ≡ ok (slice auth_id_payload 0 32)
    pub auth_id_of : d.auth_id ≡ get_le32 auth_id_payload 32
    pub lock_uuid_of : d.lock_uuid ≡ slice auth_id_payload 36 16
    pub l3 : Link
    pub confirmed :
        confirm bo psa d.shared_key d.auth_id (slice auth_id_payload 52 32) l2 ≡ (ok tt, l3)
    pub last : List ℕ
    pub completed : (recv_plain bo cmd_status 1 l3 ≡ (ok last, l')) × (get_or last 0 0 ≡ 0)

  -- The handshake from `l` to `l'`, each of its steps from the link that the one before leaves. The nonce is that
  -- of the request, and is 32 of the random bytes to come in `l`.
  pub record Verified (d : PairingData) (l l' : Link) : Type 0 where
    pub cl_pub : List ℕ
    pub sl_pub : List ℕ
    pub agreed : Link
    pub exchanged : exchange_keys bo psa l ≡ (ok (cl_pub, sl_pub, d.shared_key), agreed)
    pub proved : Link
    pub authenticated : authenticate bo psa cl_pub sl_pub d.shared_key agreed ≡ (ok tt, proved)
    pub nonce_abf : List ℕ
    pub asked : Link
    pub requested :
        request_authorization bo psa d.shared_key proved ≡ (ok (d.app_id, nonce_abf), asked)
    pub nonce : nonce_abf ≡ slice (drop 4 l.entropy) 0 32
    pub authorized : Authorized nonce_abf d asked l'

  -- The result of the last step.
  record Finished (auth_id app_id : ℕ) (shared_key lock_uuid : List ℕ) (d : PairingData)
      (l l' : Link) : Type 0 where
    result :
        record {
          auth_id = auth_id;
          app_id = app_id;
          shared_key = shared_key;
          lock_uuid = lock_uuid;
        }
        ≡ d
    last : List ℕ
    completed : (recv_plain bo cmd_status 1 l ≡ (ok last, l')) × (get_or last 0 0 ≡ 0)

  finish-Finished :
      (auth_id app_id : ℕ) (shared_key lock_uuid : List ℕ) (d : PairingData) (l l' : Link)
      → finish bo psa auth_id app_id shared_key lock_uuid l ≡ (ok d, l')
      → Finished auth_id app_id shared_key lock_uuid d l l'
  unfolding finish
  finish-Finished auth_id app_id shared_key lock_uuid d l l' h =
      let (last, l1, received, h1) = resume-ok _ (recv_plain bo cmd_status 1 l) d l' h in
      let (complete, h2) = guard-ok _ _ _ l1 d l' refl h1 in
      record {
        result = ok-injective (ap (λ p. p.0) h2);
        last = last;
        completed = (
          received ∙ ap (λ k. (ok last, k)) (ap (λ p. p.1) h2),
          (==_iff (get_or last 0 0) 0).0 (not-false _ complete),
        );
      }

  receive_authorization-Authorized :
      (shared_key : List ℕ) (app_id : ℕ) (nonce_abf : List ℕ) (d : PairingData) (l l' : Link)
      → receive_authorization bo psa shared_key app_id nonce_abf l ≡ (ok d, l')
      → (shared_key ≡ d.shared_key) × (app_id ≡ d.app_id) × Authorized nonce_abf d l l'
  unfolding receive_authorization
  receive_authorization-Authorized shared_key app_id nonce_abf d l l' h =
      let (p, l1, received, e1) = resume-ok _ (recv_plain bo cmd_auth_id 84 l) d l' h in
      let (mac, l2, computed, e2) =
        resume-ok _ (h1 psa shared_key (slice p 32 52 ++ nonce_abf), l1) d l' e1 in
      let (same, e3) = guard-ok _ _ _ l2 d l' refl e2 in
      let auth_id = get_le32 p 32 in
      let (u, l3, sent, e4) =
        resume-ok _ (confirm bo psa shared_key auth_id (slice p 52 32) l2) d l' e3 in
      let mac_ok : h1 psa shared_key (slice p 32 52 ++ nonce_abf) ≡ ok mac =
        ap (λ r. r.0) computed in
      let mac_len = h1-length psa shared_key (slice p 32 52 ++ nonce_abf) mac mac_ok in
      let mac_is : mac ≡ slice p 0 32 =
        eq_of-same_bytes mac (slice p 0 32) (mac_len ∙ sym (length-slice p 0 32))
          (not-false _ same) in
      let f = finish-Finished auth_id app_id shared_key (slice p 36 16) d l3 l' e4 in
      let key_is : shared_key ≡ d.shared_key = ap (λ r. r.shared_key) f.result in
      let id_is : auth_id ≡ d.auth_id = ap (λ r. r.auth_id) f.result in
      (
        key_is,
        ap (λ r. r.app_id) f.result,
        record {
          auth_id_payload = p;
          l2 = l1;
          received = received;
          authentic =
              ap (λ k. h1 psa k (slice p 32 52 ++ nonce_abf)) (sym key_is) ∙ mac_ok ∙ ap ok mac_is;
          auth_id_of = sym id_is;
          lock_uuid_of = sym (ap (λ r. r.lock_uuid) f.result);
          l3 = l3;
          confirmed =
              ap₂ (λ k i. confirm bo psa k i (slice p 52 32) l1) (sym key_is) (sym id_is)
              ∙ ap (λ k. confirm bo psa shared_key auth_id (slice p 52 32) k)
                  (ap (λ r. r.1) computed)
              ∙ sent;
          last = f.last;
          completed = f.completed;
        },
      )

  -- When `nuki_pairing_run` gives pairing data, its shared key is the one that the exchange of keys on that link
  -- gave, the bridge authenticated under it, and asked for an authorization with the application id of the data
  -- and with a nonce, the 32 random bytes behind the four of that id. The AuthorizationId message received next
  -- carried the HMAC, under that key, of its own fields and of that nonce; the data's authorization id and the
  -- lock's id are fields of that message; the confirmation was written without an error after it, and the
  -- message received next is the status COMPLETE.
  pub run-Verified : (d : PairingData) (l l' : Link) → run bo psa l ≡ (ok d, l') → Verified d l l'
  unfolding run
  run-Verified d l l' h =
      let (u, l1, begun, e1) = resume-ok _ (crypto_init psa, l) d l' h in
      let (keys, l2, exchanged, e2) = resume-ok _ (exchange_keys bo psa l1) d l' e1 in
      let (v, l3, authenticated, e3) =
        resume-ok _ (authenticate bo psa keys.0 keys.1 keys.2 l2) d l' e2 in
      let (ids, l4, requested, e4) = resume-ok _ (request_authorization bo psa keys.2 l3) d l' e3 in
      let (key_is, app_is, authorized) =
        receive_authorization-Authorized keys.2 ids.0 ids.1 d l4 l' e4 in
      let same : l1 ≡ l = sym (ap (λ r. r.1) begun) in
      let frugal : l3.entropy ≡ l.entropy =
        ap (λ r. r.1.entropy) (sym authenticated)
        ∙ authenticate-IsFrugal bo psa keys.0 keys.1 keys.2 l2
        ∙ ap (λ r. r.1.entropy) (sym exchanged)
        ∙ exchange_keys-IsFrugal bo psa l1
        ∙ ap (λ k. k.entropy) same in
      record {
        cl_pub = keys.0;
        sl_pub = keys.1;
        agreed = l2;
        exchanged =
            ap (exchange_keys bo psa) (sym same)
            ∙ exchanged
            ∙ ap (λ k. (ok (keys.0, keys.1, k), l2)) key_is;
        proved = l3;
        authenticated =
            ap (λ k. authenticate bo psa keys.0 keys.1 k l2) (sym key_is) ∙ authenticated;
        nonce_abf = ids.1;
        asked = l4;
        requested =
            ap (λ k. request_authorization bo psa k l3) (sym key_is)
            ∙ requested
            ∙ ap (λ i. (ok (i, ids.1), l4)) app_is;
        nonce =
            request_authorization_nonce bo psa keys.2 ids l3 l4 requested
            ∙ ap (λ e. slice (drop 4 e) 0 32) frugal;
        authorized = authorized;
      }
