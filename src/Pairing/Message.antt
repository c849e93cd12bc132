-- ===== src/Pairing/Message.antt =====
-- src/nuki_pairing.c: an unencrypted message, sent to a lock that answers, and received.
use nuki_nrf52_bridge.Base.{
  ℕ, ◌+◌, ◌≤◌, ◌<◌, ◌≡◌, refl, sym, ap, ◌∙◌, some, List, [], ◌++◌, length, take, take-append,
  append_assoc, append-nil, All, ok, arith,
}
use nuki_nrf52_bridge.Zephyr.{ByteOrder}
use nuki_nrf52_bridge.Crypto.Crc.{crc16}
use nuki_nrf52_bridge.Protocol.Frame.{build_plain, parse_plain}
use nuki_nrf52_bridge.Protocol.Frame.Build.{build_plain-eq, length-put_le16, get_le16-put_le16}
use nuki_nrf52_bridge.Protocol.Frame.RoundTrip.{parse_plain-build_plain}
use nuki_nrf52_bridge.Transport.{Transport, Event, peek, reset}
use nuki_nrf52_bridge.Transport.Buffer.{contents-reset}
use nuki_nrf52_bridge.Transport.Fragments.{arrivals, NonEmpty}
use nuki_nrf52_bridge.Transport.Arrived.{Arrived, arrived, reset_count}
use nuki_nrf52_bridge.Transport as T
use nuki_nrf52_bridge.Link.{Link}
use nuki_nrf52_bridge.Link.Exchange.{
  IsIdle, Awaits, Incoming, pieces, bytes_of, exchange, written, write-Awaits,
}
use nuki_nrf52_bridge.Command.Steps.{at, wait_min-ok}
use nuki_nrf52_bridge.Pairing.{send_plain, recv_plain, frame_len_of, expected}

some-injective : {a b : List ℕ} → some a ≡ some b → a ≡ b
some-injective h = cc

module _ (bo : ByteOrder) where
  open bo use {put_le16, get_le16}

  -- `w` is the frame of a command and its payload.
  pub record IsPlain (cmd : ℕ) (payload w : List ℕ) : Type 0 where
    pub cmd_bound : cmd < 65536
    pub short : length payload ≤ 156
    pub built : build_plain bo 160 cmd payload (length payload) ≡ some w

  -- What a frame is to its receiver.
  record Parses (cmd : ℕ) (payload w : List ℕ) : Type 0 where
    size : length w ≡ 4 + length payload
    command : get_le16 (take 2 w) 0 ≡ cmd
    parsed : parse_plain bo w (4 + length payload) ≡ ok (cmd, payload)

  IsPlain-Parses : (cmd : ℕ) (payload w : List ℕ) → IsPlain cmd payload w → Parses cmd payload w
  IsPlain-Parses cmd payload w m =
      let (f, built, size, parsed) =
        parse_plain-build_plain bo 160 cmd payload (length payload) m.cmd_bound refl
          (omega (arith, m.short)) in
      let same : f ≡ w = some-injective (sym built ∙ m.built) in
      let whole : put_le16 cmd
            ++ payload
            ++ put_le16 (crc16 (put_le16 cmd ++ payload) (2 + length payload))
          ≡ w =
        some-injective (
          sym (build_plain-eq bo 160 cmd payload (length payload) refl (omega (arith, m.short)))
          ∙ m.built) in
      record {
        size = ap length (sym same) ∙ size;
        command =
            ap (λ b. get_le16 (take 2 b) 0) (sym whole ∙ append_assoc (put_le16 cmd) payload _)
            ∙ ap (λ b. get_le16 b 0) (take-append 2 (put_le16 cmd) _ (length-put_le16 bo cmd))
            ∙ ap (λ b. get_le16 b 0) (sym (append-nil (put_le16 cmd)))
            ∙ get_le16-put_le16 bo cmd [] m.cmd_bound;
        parsed = ap (λ b. parse_plain bo b (4 + length payload)) (sym same) ∙ parsed;
      }

  recv_plain-ok :
      (cmd n k : ℕ) (payload w : List ℕ) (l : Link) (t1 t2 : Transport) (es1 es2 : List Event)
      → T.wait_min 2 l.schedule l.transport ≡ (ok tt, t1, es1)
      → get_le16 (peek 2 t1) 0 ≡ cmd
      → frame_len_of cmd n ≡ k
      → T.wait_min k es1 t1 ≡ (ok tt, t2, es2)
      → peek k t2 ≡ w
      → parse_plain bo w k ≡ ok (cmd, payload)
      → expected cmd n (cmd, payload) ≡ ok payload
      → recv_plain bo cmd n l ≡ (ok payload, at l (reset t2) es2)
  unfolding recv_plain
  recv_plain-ok cmd n k payload w l t1 t2 es1 es2 first said len second message parsed right = rw (
    wait_min-ok 2 l t1 es1 first,
    said,
    len,
    wait_min-ok k (at l t1 es1) t2 es2 second,
    message,
    parsed,
    right,
  )

  -- A message is received when it has arrived and is the one that is expected.
  pub recv_plain-IsPlain :
      (cmd n : ℕ) (payload w : List ℕ) (rest : List Event) (l : Link)
      → Awaits w rest l
      → IsPlain cmd payload w
      → length payload ≡ n
      → frame_len_of cmd n ≡ 4 + n
      → expected cmd n (cmd, payload) ≡ ok payload
      → (t : Transport) × (recv_plain bo cmd n l ≡ (ok payload, at l t rest)) × IsIdle (at l t rest)
  recv_plain-IsPlain cmd n payload w rest l a m len frame_len right = (
    reset r.t2,
    recv_plain-ok cmd n (4 + n) payload w l r.t1 r.t2 r.es1 rest first said frame_len r.second
        r.message parsed right,
    record {
      kept = (contents-reset r.t2 r.kept).1;
      empty = reset_count r.t2;
      accepting = a.accepting;
    },
  )
    where
      p : Parses cmd payload w
      p = IsPlain-Parses cmd payload w m

      r : Arrived 2 (4 + n) w rest (arrivals a.left rest) l.transport
      r =
          arrived 2 (4 + n) w a.left rest l.transport a.kept a.filled a.whole
            (p.size ∙ omega (arith, len)) (omega arith) (omega (arith, len, m.short))

      first : T.wait_min 2 l.schedule l.transport ≡ (ok tt, r.t1, r.es1)
      first = ap (λ es. T.wait_min 2 es l.transport) a.coming ∙ r.first

      said : get_le16 (peek 2 r.t1) 0 ≡ cmd
      said = ap (λ b. get_le16 b 0) r.header ∙ p.command

      parsed : parse_plain bo w (4 + n) ≡ ok (cmd, payload)
      parsed = ap (λ k. parse_plain bo w (4 + k)) (sym len) ∙ p.parsed

  -- A message is sent, and its answer is awaited.
  pub send_plain-Awaits :
      (cmd n : ℕ) (payload : List ℕ) (a : Incoming) (rest : List Event) (l : Link)
      → cmd < 65536
      → length payload ≡ n
      → n ≤ 156
      → IsIdle l
      → All NonEmpty (pieces a)
      → length (bytes_of a) ≤ 256
      → l.schedule ≡ exchange a rest
      → (w : List ℕ) × (t : Transport) × IsPlain cmd payload w
        × (send_plain bo cmd payload n l ≡ (ok tt, written w l t (arrivals a.late rest)))
        × Awaits (bytes_of a) rest (written w l t (arrivals a.late rest))
  unfolding send_plain
  send_plain-Awaits cmd n payload a rest l hc hn fits i filled short s =
      let (f, built, size, parsed) =
        parse_plain-build_plain bo 160 cmd payload n hc hn (omega arith) in
      let (t, answer, awaits) = write-Awaits f a rest l i filled short s in
      (
        f,
        t,
        record {
          cmd_bound = hc;
          short = omega (arith, hn);
          built = ap (build_plain bo 160 cmd payload) hn ∙ built;
        },
        rw built answer,
        awaits,
      )

  pub IsPlain-length : (cmd : ℕ) (payload w : List ℕ) → IsPlain cmd payload w → length w ≤ 256
  IsPlain-length cmd payload w m = omega (arith, (IsPlain-Parses cmd payload w m).size, m.short)
