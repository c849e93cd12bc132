-- ===== src/Pairing.antt =====
-- src/nuki_pairing.c: the handshake by which the lock authorizes the bridge.
pub mod Nonce
pub mod Verified
pub mod Contract
pub mod Keeps
pub mod Message
pub mod Answers
pub mod Fields
pub mod Authorized
pub mod Completes
mod Tests
pub mod Samples
use nuki_nrf52_bridge.Base.{
  ℕ, ◌+◌, Bool, true, false, not, ◌&&◌, ◌||◌, List, [], ◌∷◌, ◌++◌, length, get_or, slice, replicate,
  ◌==◌, if◌then◌else◌, Result, ok, err, einval, eio, ebadmsg,
}
use nuki_nrf52_bridge.Zephyr.{ByteOrder}
use nuki_nrf52_bridge.Crypto.Psa.{Psa, crypto_init, keypair, dh1, h1}
use nuki_nrf52_bridge.Crypto.Salsa.{kdf1}
use nuki_nrf52_bridge.Protocol.Commands.{
  cmd_request_data, cmd_public_key, cmd_challenge, cmd_auth_authenticator, cmd_auth_data,
  cmd_auth_id, cmd_auth_id_confirmation, cmd_status, cmd_error_report, status_complete,
  frame_max_len, name_len,
}
use nuki_nrf52_bridge.Protocol.Frame.{build_plain, parse_plain}
use nuki_nrf52_bridge.Link.{
  Link, Task, ◌>>=◌, ◌>>◌, pure, fail, lift, some_or, sys_rand_get, write, wait_min, peek, reset,
}

-- `struct nuki_pairing_data`, less the lock's address, which the caller fills in.
pub record PairingData : Type 0 where
  pub auth_id : ℕ
  pub app_id : ℕ
  pub shared_key : List ℕ
  pub lock_uuid : List ℕ

-- `NUKI_APP_NAME`, padded to the field's length.
abbrev pub name : List ℕ
name =
    78
    ∷ 82
    ∷ 70
    ∷ 53
    ∷ 50
    ∷ 56
    ∷ 52
    ∷ 48
    ∷ 32
    ∷ 67
    ∷ 101
    ∷ 110
    ∷ 116
    ∷ 114
    ∷ 97
    ∷ 108
    ∷ replicate 16 0

abbrev pub id_type_app : ℕ
id_type_app = 0

-- `memcmp(a, b, n) == 0`.
abbrev pub same_bytes : List ℕ → List ℕ → Bool
same_bytes [] ys = true
same_bytes (x ∷ xs) [] = false
same_bytes (x ∷ xs) (y ∷ ys) = (x == y) && same_bytes xs ys

-- The length of the frame that starts with a command id.
abbrev pub frame_len_of : ℕ → ℕ → ℕ
frame_len_of cmd payload_len =
    if cmd == cmd_error_report
    then 2 + 3 + 2
    else if cmd == cmd_status
    then 2 + 1 + 2
    else 2 + payload_len + 2

-- The checks of `recv_plain` on a frame that was parsed.
abbrev pub expected : ℕ → ℕ → ℕ × List ℕ → Result (List ℕ)
expected expect_cmd payload_len (cmd, payload) =
    if (cmd == cmd_error_report) && (length payload == 3)
    then err eio
    else if (cmd == cmd_status) && (length payload == 1) && not (expect_cmd == cmd_status)
    then err ebadmsg
    else if not (cmd == expect_cmd) || not (length payload == payload_len)
    then err ebadmsg
    else ok payload

module _ (bo : ByteOrder) where
  open bo use {put_le16, put_le32, get_le16, get_le32}

  unfoldable pub send_plain : ℕ → List ℕ → ℕ → Task (Unit {0})
  send_plain cmd payload payload_len = do
    frame ← some_or einval (build_plain bo frame_max_len cmd payload payload_len)
    write frame

  unfoldable pub recv_plain : ℕ → ℕ → Task (List ℕ)
  recv_plain expect_cmd payload_len = do
    wait_min 2
    hdr ← peek 2
    let frame_len = frame_len_of (get_le16 hdr 0) payload_len
    wait_min frame_len
    frame ← peek frame_len
    reset
    parsed ← lift (parse_plain bo frame frame_len)
    lift (expected expect_cmd payload_len parsed)

  module _ (psa : Psa) where
    -- Steps 1 to 8: the bridge's and the lock's public key, and the shared key.
    unfoldable pub exchange_keys : Task (List ℕ × List ℕ × List ℕ)
    exchange_keys = do
      send_plain cmd_request_data (put_le16 cmd_public_key) 2
      sl_pub ← recv_plain cmd_public_key 32
      (cl_pub, cl_priv) ← lift (keypair psa)
      send_plain cmd_public_key cl_pub 32
      dh_result ← lift (dh1 psa cl_priv sl_pub)
      pure (cl_pub, sl_pub, kdf1 dh_result)

    -- Steps 9 to 13.
    unfoldable pub authenticate : List ℕ → List ℕ → List ℕ → Task (Unit {0})
    authenticate cl_pub sl_pub shared_key = do
      challenge ← recv_plain cmd_challenge 32
      authenticator ← lift (h1 psa shared_key (cl_pub ++ sl_pub ++ challenge))
      send_plain cmd_auth_authenticator authenticator 32

    -- Steps 14 to 16: the application id and `nonce_abf`.
    unfoldable pub request_authorization : List ℕ → Task (ℕ × List ℕ)
    request_authorization shared_key = do
      challenge ← recv_plain cmd_challenge 32
      app_id_bytes ← sys_rand_get 4
      nonce_abf ← sys_rand_get 32
      let app_id = get_le32 app_id_bytes 0
      let body = id_type_app ∷ (put_le32 app_id ++ name ++ nonce_abf)
      authenticator ← lift (h1 psa shared_key (body ++ challenge))
      send_plain cmd_auth_data (authenticator ++ body) (32 + 1 + 4 + name_len + 32)
      pure (app_id, nonce_abf)

    -- Step 21.
    unfoldable pub confirm : List ℕ → ℕ → List ℕ → Task (Unit {0})
    confirm shared_key auth_id nonce_k2 = do
      authenticator ← lift (h1 psa shared_key (put_le32 auth_id ++ nonce_k2))
      send_plain cmd_auth_id_confirmation (authenticator ++ put_le32 auth_id) (32 + 4)

    -- Step 22, and the result.
    unfoldable pub finish : ℕ → ℕ → List ℕ → List ℕ → Task PairingData
    finish auth_id app_id shared_key lock_uuid = do
      status_payload ← recv_plain cmd_status 1
      if not (get_or status_payload 0 0 == status_complete)
          then fail ebadmsg
          else pure (record {
            auth_id = auth_id;
            app_id = app_id;
            shared_key = shared_key;
            lock_uuid = lock_uuid;
          })

    -- Steps 17 to 22.
    unfoldable pub receive_authorization : List ℕ → ℕ → List ℕ → Task PairingData
    receive_authorization shared_key app_id nonce_abf = do
      auth_id_payload ← recv_plain cmd_auth_id (32 + 4 + 16 + 32)
      expected_authenticator ← lift (h1 psa shared_key (slice auth_id_payload 32 52 ++ nonce_abf))
      let auth_id = get_le32 auth_id_payload 32
      if not (same_bytes expected_authenticator (slice auth_id_payload 0 32))
          then fail ebadmsg
          else (confirm shared_key auth_id (slice auth_id_payload 52 32)
              >> finish auth_id app_id shared_key (slice auth_id_payload 36 16))

    -- `nuki_pairing_run`.
    unfoldable pub run : Task PairingData
    run = do
      lift (crypto_init psa)
      (cl_pub, sl_pub, shared_key) ← exchange_keys
      authenticate cl_pub sl_pub shared_key
      (app_id, nonce_abf) ← request_authorization shared_key
      receive_authorization shared_key app_id nonce_abf
