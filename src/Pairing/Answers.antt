-- ===== src/Pairing/Answers.antt =====
-- src/nuki_pairing.c: the first steps of the handshake with a lock that keeps to the protocol.
use nuki_nrf52_bridge.Base.{
  ℕ, ◌≤◌, ◌<◌, ◌≡◌, refl, ap, List, [], ◌∷◌, ◌++◌, length, drop, slice, length-append, length-slice,
  ◌==◌, All, ok, arith,
}
use nuki_nrf52_bridge.Zephyr.{ByteOrder}
use nuki_nrf52_bridge.Crypto.Psa.{Psa, h1, h1-length}
use nuki_nrf52_bridge.Protocol.Commands.{cmd_challenge, cmd_auth_authenticator, cmd_auth_data}
use nuki_nrf52_bridge.Protocol.Frame.Build.{length-put_le32}
use nuki_nrf52_bridge.Transport.{Transport, Event}
use nuki_nrf52_bridge.Transport.Fragments.{arrivals, NonEmpty}
use nuki_nrf52_bridge.Link.{Link}
use nuki_nrf52_bridge.Link.Exchange.{IsIdle, Awaits, Incoming, pieces, bytes_of, exchange, written}
use nuki_nrf52_bridge.Command.Steps.{at}
use nuki_nrf52_bridge.Pairing.{
  name, id_type_app, send_plain, recv_plain, authenticate, request_authorization,
}
use nuki_nrf52_bridge.Pairing.Message.{
  IsPlain, IsPlain-length, recv_plain-IsPlain, send_plain-Awaits,
}

module _ (bo : ByteOrder) where
  open bo use {put_le16, put_le32, get_le32}

  -- A message of the lock.
  pub record Says (cmd : ℕ) (payload : List ℕ) (a : Incoming) : Type 0 where
    pub filled : All NonEmpty (pieces a)
    pub plain : IsPlain bo cmd payload (bytes_of a)

  abbrev pub heard : Link → Transport → List Event → Link
  heard l t rest = at l t rest

  -- A message is sent to which the lock says something.
  pub asks :
      (cmd n cmd' : ℕ) (payload payload' : List ℕ) (a : Incoming) (rest : List Event) (l : Link)
      → cmd < 65536
      → length payload ≡ n
      → n ≤ 156
      → IsIdle l
      → Says cmd' payload' a
      → l.schedule ≡ exchange a rest
      → (w : List ℕ) × (t : Transport) × IsPlain bo cmd payload w
        × (send_plain bo cmd payload n l ≡ (ok tt, written w l t (arrivals a.late rest)))
        × Awaits (bytes_of a) rest (written w l t (arrivals a.late rest))
  asks cmd n cmd' payload payload' a rest l hc hn fits i s e =
      send_plain-Awaits bo cmd n payload a rest l hc hn fits i s.filled
        (IsPlain-length bo cmd' payload' (bytes_of a) s.plain) e

  -- A challenge is accepted.
  pub recv_challenge :
      (nonce w : List ℕ) (rest : List Event) (l : Link)
      → Awaits w rest l
      → IsPlain bo cmd_challenge nonce w
      → length nonce ≡ 32
      → (t : Transport) × (recv_plain bo cmd_challenge 32 l ≡ (ok nonce, at l t rest))
        × IsIdle (at l t rest)
  recv_challenge nonce w rest l a m len =
      recv_plain-IsPlain bo cmd_challenge 32 nonce w rest l a m len refl
        (rw (ap (λ k. k == 32) len))

  module _ (psa : Psa) (key : List ℕ)
      (macs : (d : List ℕ) → (m : List ℕ) × (h1 psa key d ≡ ok m)) where
    abbrev pub mac : List ℕ → List ℕ
    mac d = (macs d).0

    pub length-mac : (d : List ℕ) → length (mac d) ≡ 32
    length-mac d = h1-length psa key d (mac d) ((macs d).1)

    pub authenticate-Says :
        (cl_pub sl_pub challenge w nonce' : List ℕ) (a : Incoming) (cmd' : ℕ) (rest : List Event)
        (l : Link)
        → Awaits w (exchange a rest) l
        → IsPlain bo cmd_challenge challenge w
        → length challenge ≡ 32
        → Says cmd' nonce' a
        → (f : List ℕ) × (l' : Link) × IsPlain bo cmd_auth_authenticator
            (mac (cl_pub ++ sl_pub ++ challenge))
            f
          × (authenticate bo psa cl_pub sl_pub key l ≡ (ok tt, l'))
          × Awaits (bytes_of a) rest l'
          × (l'.sent ≡ l.sent ++ f ∷ [])
          × (l'.entropy ≡ l.entropy)
    unfolding authenticate
    authenticate-Says cl_pub sl_pub challenge w nonce' a cmd' rest l aw m len says =
        let (t, got, idle) = recv_challenge challenge w (exchange a rest) l aw m len in
        let d = cl_pub ++ sl_pub ++ challenge in
        let (f, t', plain, sent, awaits) =
          asks cmd_auth_authenticator 32 cmd' (mac d) nonce' a rest (at l t (exchange a rest))
            (omega arith) (length-mac d) (omega arith) idle says refl in
        (
          f,
          written f (at l t (exchange a rest)) t' (arrivals a.late rest),
          plain,
          rw (got, (macs d).1, sent) refl,
          awaits,
          refl,
          refl,
        )

    -- The application id, the nonce, and what is authenticated of them.
    abbrev pub app_id_of : List ℕ → ℕ
    app_id_of entropy = get_le32 (slice entropy 0 4) 0

    abbrev pub nonce_of : List ℕ → List ℕ
    nonce_of entropy = slice (drop 4 entropy) 0 32

    abbrev pub body_of : List ℕ → List ℕ
    body_of entropy = id_type_app ∷ (put_le32 (app_id_of entropy) ++ name ++ nonce_of entropy)

    length-body_of : (entropy : List ℕ) → length (body_of entropy) ≡ 69
    length-body_of entropy =
        let head = put_le32 (app_id_of entropy) in
        let named : length name ≡ 32 = refl in
        omega (
          arith,
          length-append (head ++ name) (nonce_of entropy),
          length-append head name,
          length-put_le32 bo (app_id_of entropy),
          named,
          length-slice (drop 4 entropy) 0 32,
        )

    pub request_authorization-Says :
        (challenge w payload' : List ℕ) (a : Incoming) (cmd' : ℕ) (rest : List Event) (l : Link)
        → Awaits w (exchange a rest) l
        → IsPlain bo cmd_challenge challenge w
        → length challenge ≡ 32
        → Says cmd' payload' a
        → (f : List ℕ) × (l' : Link) × IsPlain bo cmd_auth_data
            (mac (body_of l.entropy ++ challenge) ++ body_of l.entropy)
            f
          × (request_authorization bo psa key l
              ≡ (ok (app_id_of l.entropy, nonce_of l.entropy), l'))
          × Awaits (bytes_of a) rest l'
          × (l'.sent ≡ l.sent ++ f ∷ [])
    unfolding request_authorization
    request_authorization-Says challenge w payload' a cmd' rest l aw m len says =
        let (t, got, idle) = recv_challenge challenge w (exchange a rest) l aw m len in
        let body = body_of l.entropy in
        let d = body ++ challenge in
        let l1 : Link = record (at l t (exchange a rest)) {
          entropy = drop 32 (drop 4 l.entropy);
        } in
        let idle1 : IsIdle l1 = record {
          kept = idle.kept;
          empty = idle.empty;
          accepting = idle.accepting;
        } in
        let (f, t', plain, sent, awaits) =
          asks cmd_auth_data 101 cmd' (mac d ++ body) payload' a rest l1 (omega arith)
            (omega (arith, length-append (mac d) body, length-mac d, length-body_of l.entropy))
            (omega arith) idle1 says refl in
        (
          f,
          written f l1 t' (arrivals a.late rest),
          plain,
          rw (got, (macs d).1, sent) refl,
          awaits,
          refl,
        )
