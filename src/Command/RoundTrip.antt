-- ===== src/Command/RoundTrip.antt =====
-- src/nuki_command.c: what `send_encrypted` hands to the Bluetooth stack, and `recv_encrypted` on it.
use nuki_nrf52_bridge.Base.{
  concat, ℕ, ◌+◌, ◌≤◌, ◌<◌, ◌≡◌, refl, sym, ap, ◌∙◌, some, List, [], ◌∷◌, ◌++◌, length, slice,
  length-slice, All, ok, arith,
}
use nuki_nrf52_bridge.Zephyr.{ByteOrder}
use nuki_nrf52_bridge.Crypto.Secretbox.{e1}
use nuki_nrf52_bridge.Crypto.Secretbox.RoundTrip.{e1-d1_round}
use nuki_nrf52_bridge.Protocol.Frame.{build_auth}
use nuki_nrf52_bridge.Protocol.Frame.RoundTrip.{parse_auth-build_auth}
use nuki_nrf52_bridge.Transport.{Transport, Event}
use nuki_nrf52_bridge.Transport.Buffer.{IsTransport}
use nuki_nrf52_bridge.Transport.Fragments.{arrivals, NonEmpty}
use nuki_nrf52_bridge.Transport.Arrived.{empty_contents}
use nuki_nrf52_bridge.Link.{Link, write}
use nuki_nrf52_bridge.Command.{send_encrypted, recv_encrypted, wire_of}
use nuki_nrf52_bridge.Command.Steps.{at}
use nuki_nrf52_bridge.Command.Receive.{recv_encrypted_fragments}

last : List (List ℕ) → List ℕ
last [] = []
last (x ∷ []) = x
last (x ∷ (y ∷ ys)) = last (y ∷ ys)

last-append : (xs : List (List ℕ)) (a : List ℕ) → last (xs ++ a ∷ []) ≡ a
unfolding last
last-append [] a = refl
last-append (x ∷ []) a = refl
last-append (x ∷ (y ∷ ys)) a = last-append (y ∷ ys) a

module _ (bo : ByteOrder) (key : List ℕ) where
  pub send_encrypted-sent :
      (auth_id cmd n : ℕ) (payload f c : List ℕ) (l : Link)
      → build_auth bo 160 auth_id cmd payload n ≡ some f
      → e1 f (length f) (slice l.entropy 0 24) key ≡ ok c
      → (send_encrypted bo key auth_id cmd payload n l).1.sent
        ≡ l.sent ++ wire_of bo auth_id (slice l.entropy 0 24) (length f) c ∷ []
  unfolding send_encrypted write
  send_encrypted-sent auth_id cmd n payload f c l built sealed = rw (built, sealed) refl

  -- A command with an authorization id of 32 bits, a command id of 16 bits and a payload of up to
  -- 152 bytes that `send_encrypted` hands to the Bluetooth stack is received by `recv_encrypted`
  -- with the same key, if its caller has room for the payload, with that command and payload,
  -- whatever the non-empty pieces in which the message arrives after a reset; the buffer is empty
  -- then, and later events are left.
  pub recv_encrypted-send_encrypted :
      (most auth_id cmd n : ℕ) (payload : List ℕ) (fs : List (List ℕ)) (rest : List Event)
      (l l' : Link)
      → auth_id < 4294967296
      → cmd < 65536
      → length payload ≡ n
      → n ≤ 152
      → n ≤ most
      → (send_encrypted bo key auth_id cmd payload n l).1.sent ≡ l.sent ++ concat fs ∷ []
      → All NonEmpty fs
      → IsTransport l'.transport
      → l'.transport.rx_len ≡ 0
      → l'.schedule ≡ arrivals fs rest
      → (t : Transport) × (recv_encrypted bo key most l' ≡ (ok (cmd, payload), at l' t rest))
        × (t.rx_len ≡ 0)
        × IsTransport t
  recv_encrypted-send_encrypted most auth_id cmd n payload fs rest l l' ha hc hn fits most_fits sent
        pieces h e s =
      let (f, built, f_len, parsed) =
        parse_auth-build_auth bo 160 auth_id cmd payload n ha hc hn (omega arith) in
      let nonce = slice l.entropy 0 24 in
      let (c, sealed, c_len, opened) = e1-d1_round nonce key (8 + n) f (omega arith) f_len in
      let whole =
        sym (last-append l.sent (concat fs))
        ∙ ap last (sym sent)
        ∙ ap last (
            send_encrypted-sent auth_id cmd n payload f c l built
              (ap (λ k. e1 f k nonce key) f_len ∙ sealed))
        ∙ last-append l.sent (wire_of bo auth_id nonce (length f) c)
        ∙ ap (λ k. wire_of bo auth_id nonce k c) f_len in
      recv_encrypted_fragments bo key most auth_id auth_id cmd (8 + n) nonce f payload c fs rest l'
        h s pieces (ap (λ c. c ++ concat fs) (empty_contents l'.transport e) ∙ whole)
        (length-slice l.entropy 0 24) c_len (omega arith) opened parsed (omega arith)
