-- ===== src/Command/Steps.antt =====
-- src/nuki_command.c: `recv_encrypted` on the way to a result, given what its calls answer.
use nuki_nrf52_bridge.Base.{ℕ, ◌+◌, ◌-◌, ◌≤◌, ◌≡◌, ap, List, length, slice, drop, le→ltb_false, ok}
use nuki_nrf52_bridge.Zephyr.{ByteOrder}
use nuki_nrf52_bridge.Crypto.Secretbox.{d1}
use nuki_nrf52_bridge.Protocol.Frame.{parse_auth}
use nuki_nrf52_bridge.Transport.{Transport, Event}
use nuki_nrf52_bridge.Transport as T
use nuki_nrf52_bridge.Link.{Link, wait_min, land}
use nuki_nrf52_bridge.Command.{recv_encrypted, recv_body}

abbrev pub at : Link → Transport → List Event → Link
at l t es = record l { transport = t; schedule = es }

pub wait_min-ok :
    (n : ℕ) (l : Link) (t : Transport) (es : List Event)
    → T.wait_min n l.schedule l.transport ≡ (ok tt, t, es)
    → wait_min n l ≡ (ok tt, at l t es)
unfolding wait_min
wait_min-ok n l t es h = ap (land l) h

module _ (bo : ByteOrder) (key : List ℕ) where
  open bo use {get_le16}

  pub recv_encrypted-header :
      (most ct_len : ℕ) (l : Link) (t : Transport) (es : List Event)
      → T.wait_min 30 l.schedule l.transport ≡ (ok tt, t, es)
      → get_le16 (T.peek 30 t) 28 ≡ ct_len
      → 16 ≤ ct_len
      → ct_len ≤ 216
      → recv_encrypted bo key most l
        ≡ recv_body bo key (slice (T.peek 30 t) 0 24) ct_len most (at l t es)
  unfolding recv_encrypted
  recv_encrypted-header most ct_len l t es h e low high =
      rw (wait_min-ok 30 l t es h, e, le→ltb_false 16 ct_len low, le→ltb_false ct_len 216 high)

  pub recv_body-ok :
      (nonce : List ℕ) (most ct_len auth_id cmd : ℕ) (plain payload : List ℕ) (l : Link)
      (t : Transport) (es : List Event)
      → T.wait_min (30 + ct_len) l.schedule l.transport ≡ (ok tt, t, es)
      → d1 (drop 30 (T.peek (30 + ct_len) t)) (ct_len - 16) nonce key ≡ ok plain
      → parse_auth bo plain (ct_len - 16) ≡ ok (auth_id, cmd, payload)
      → length payload ≤ most
      → recv_body bo key nonce ct_len most l ≡ (ok (cmd, payload), at l (T.reset t) es)
  unfolding recv_body
  recv_body-ok nonce most ct_len auth_id cmd plain payload l t es h opened parsed fits =
      rw (
        wait_min-ok (30 + ct_len) l t es h,
        opened,
        parsed,
        le→ltb_false (length payload) most fits,
      )
