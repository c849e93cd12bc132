-- ===== src/Command/Receive.antt =====
-- src/nuki_command.c: receiving a message that arrives in pieces.
use nuki_nrf52_bridge.Base.{
  concat, ℕ, ◌+◌, ◌-◌, ◌≤◌, ◌≡◌, sym, ap, subst, ◌∙◌, List, [], ◌++◌, length, slice, drop,
  length-append, take-append, drop-append, slice-append_left, slice_whole, append_assoc, append-nil,
  All, ok, arith,
}
use nuki_nrf52_bridge.Zephyr.{ByteOrder}
use nuki_nrf52_bridge.Crypto.Secretbox.{d1}
use nuki_nrf52_bridge.Protocol.Frame.{parse_auth}
use nuki_nrf52_bridge.Protocol.Frame.Build.{
  length-put_le16, length-put_le32, get_le16_seam, get_le16-put_le16,
}
use nuki_nrf52_bridge.Transport.{Transport, Event, peek, reset}
use nuki_nrf52_bridge.Transport.Arrived.{Arrived, arrived, reset_count}
use nuki_nrf52_bridge.Transport.Buffer.{IsTransport, contents, contents-reset}
use nuki_nrf52_bridge.Transport.Fragments.{arrivals, NonEmpty}
use nuki_nrf52_bridge.Link.{Link}
use nuki_nrf52_bridge.Command.{recv_encrypted, wire_of}
use nuki_nrf52_bridge.Command.Steps.{at, recv_encrypted-header, recv_body-ok}

module _ (bo : ByteOrder) (key : List ℕ) where
  open bo use {put_le16, put_le32, get_le16}

  -- A message whose ciphertext opens to a frame that parses is received with that command and payload,
  -- when it is what the buffer holds and the non-empty pieces to come; the buffer is empty again then, and
  -- what follows the message in the schedule is left.
  pub recv_encrypted_fragments :
      (most auth_id outer_id cmd n : ℕ) (nonce plain payload sealed : List ℕ) (fs : List (List ℕ))
      (rest : List Event) (l : Link)
      → IsTransport l.transport
      → l.schedule ≡ arrivals fs rest
      → All NonEmpty fs
      → contents l.transport ++ concat fs ≡ wire_of bo outer_id nonce n sealed
      → length nonce ≡ 24
      → length sealed ≡ 16 + n
      → n ≤ 200
      → d1 sealed n nonce key ≡ ok plain
      → parse_auth bo plain n ≡ ok (auth_id, cmd, payload)
      → length payload ≤ most
      → (t : Transport) × (recv_encrypted bo key most l ≡ (ok (cmd, payload), at l t rest))
        × (t.rx_len ≡ 0)
        × IsTransport t
  recv_encrypted_fragments most auth_id outer_id cmd n nonce plain payload sealed fs rest l h s
        pieces whole nonce_len len fits opened parsed most_fits =
      (reset w.t2, answer, count, (contents-reset w.t2 w.kept).1)
    where
      adata : List ℕ
      adata = nonce ++ put_le32 outer_id ++ put_le16 (16 + n)

      front : length (nonce ++ put_le32 outer_id) ≡ 28
      front =
          omega
            (arith, length-append nonce (put_le32 outer_id), nonce_len, length-put_le32 bo outer_id)

      adata_len : length adata ≡ 30
      adata_len = omega (
        arith,
        front,
        length-append (nonce ++ put_le32 outer_id) (put_le16 (16 + n)),
        length-put_le16 bo (16 + n),
      )

      wire : contents l.transport ++ concat fs ≡ adata ++ sealed
      wire =
          whole
          ∙ ap (λ c. c ++ put_le32 outer_id ++ put_le16 (16 + n) ++ sealed)
              (slice_whole nonce 24 nonce_len)

      wire_len : length (adata ++ sealed) ≡ 30 + (16 + n)
      wire_len = omega (arith, adata_len, len, length-append adata sealed)

      w : Arrived 30 (30 + (16 + n)) (adata ++ sealed) rest l.schedule l.transport
      w =
          subst (λ es. Arrived 30 (30 + (16 + n)) (adata ++ sealed) rest es l.transport) (sym s)
            (arrived 30 (30 + (16 + n)) (adata ++ sealed) fs rest l.transport h pieces wire wire_len
              (omega arith) (omega arith))

      header : peek 30 w.t1 ≡ adata
      header = w.header ∙ take-append 30 adata sealed adata_len

      said : get_le16 (peek 30 w.t1) 28 ≡ 16 + n
      said =
          ap (λ b. get_le16 b 28) header
          ∙ get_le16_seam bo (nonce ++ put_le32 outer_id) (put_le16 (16 + n)) 28 front
          ∙ sym (bo.get_le16_lem (put_le16 (16 + n)) 0)
          ∙ ap (λ b. get_le16 b 0) (sym (append-nil (put_le16 (16 + n))))
          ∙ get_le16-put_le16 bo (16 + n) [] (omega arith)

      nonce_read : slice (peek 30 w.t1) 0 24 ≡ nonce
      nonce_read =
          ap (λ b. slice b 0 24) header
          ∙ ap (λ b. slice b 0 24) (append_assoc nonce (put_le32 outer_id) (put_le16 (16 + n)))
          ∙ slice-append_left nonce (put_le32 outer_id ++ put_le16 (16 + n)) 24 nonce_len

      minus : 16 + n - 16 ≡ n
      minus = omega arith

      open_eq :
          d1 (drop 30 (peek (30 + (16 + n)) w.t2)) (16 + n - 16) (slice (peek 30 w.t1) 0 24) key
          ≡ ok plain
      open_eq =
          ap (λ b. d1 b (16 + n - 16) (slice (peek 30 w.t1) 0 24) key)
            (ap (drop 30) w.message ∙ drop-append 30 adata sealed adata_len)
          ∙ ap (λ k. d1 sealed k (slice (peek 30 w.t1) 0 24) key) minus
          ∙ ap (λ b. d1 sealed n b key) nonce_read
          ∙ opened

      answer : recv_encrypted bo key most l ≡ (ok (cmd, payload), at l (reset w.t2) rest)
      answer =
          recv_encrypted-header bo key most (16 + n) l w.t1 w.es1 w.first said (omega arith)
            (omega arith)
          ∙ recv_body-ok bo key (slice (peek 30 w.t1) 0 24) most (16 + n) auth_id cmd plain payload
              (at l w.t1 w.es1) w.t2 rest w.second open_eq
              (ap (λ k. parse_auth bo plain k) minus ∙ parsed) most_fits

      count : (reset w.t2).rx_len ≡ 0
      count = reset_count w.t2
