-- ===== src/Command/Message.antt =====
-- src/nuki_command.c: a message between the bridge and the lock, as `send_encrypted` frames and seals it,
-- sent to a lock that answers, and received.
use nuki_nrf52_bridge.Base.{
  ℕ, ◌+◌, ◌≤◌, ◌<◌, ◌≡◌, refl, sym, ap, ◌∙◌, some, List, ◌++◌, length, slice, drop, length-slice,
  length-append, All, ok, arith,
}
use nuki_nrf52_bridge.Zephyr.{ByteOrder}
use nuki_nrf52_bridge.Crypto.Secretbox.{e1, d1}
use nuki_nrf52_bridge.Crypto.Secretbox.RoundTrip.{e1-d1_round, ok-injective}
use nuki_nrf52_bridge.Protocol.Frame.{build_auth, parse_auth}
use nuki_nrf52_bridge.Protocol.Frame.Build.{length-put_le16, length-put_le32}
use nuki_nrf52_bridge.Protocol.Frame.RoundTrip.{parse_auth-build_auth}
use nuki_nrf52_bridge.Transport.{Transport, Event}
use nuki_nrf52_bridge.Transport.Fragments.{arrivals, NonEmpty}
use nuki_nrf52_bridge.Link.{Link, write}
use nuki_nrf52_bridge.Link.Exchange.{
  IsIdle, Awaits, Incoming, pieces, bytes_of, exchange, written, write-Awaits,
}
use nuki_nrf52_bridge.Command.{send_encrypted, recv_encrypted, wire_of}
use nuki_nrf52_bridge.Command.Steps.{at}
use nuki_nrf52_bridge.Command.Receive.{recv_encrypted_fragments}

some-injective : {a b : List ℕ} → some a ≡ some b → a ≡ b
some-injective h = cc

module _ (bo : ByteOrder) (key : List ℕ) where
  open bo use {put_le16, put_le32}

  -- `w` is a command and its payload, framed and sealed under the key with some nonce.
  pub record IsMessage (auth_id cmd : ℕ) (payload w : List ℕ) : Type 0 where
    pub id_bound : auth_id < 4294967296
    pub cmd_bound : cmd < 65536
    pub short : length payload ≤ 152
    pub frame : List ℕ
    pub nonce : List ℕ
    pub nonce_len : length nonce ≡ 24
    pub sealed : List ℕ
    pub built : build_auth bo 160 auth_id cmd payload (length payload) ≡ some frame
    pub encrypted : e1 frame (length frame) nonce key ≡ ok sealed
    pub wire : w ≡ wire_of bo auth_id nonce (length frame) sealed

  -- What a message is to its receiver.
  record Opens (auth_id cmd : ℕ) (payload w : List ℕ) : Type 0 where
    frame : List ℕ
    nonce : List ℕ
    nonce_len : length nonce ≡ 24
    sealed : List ℕ
    sealed_len : length sealed ≡ 16 + (8 + length payload)
    opened : d1 sealed (8 + length payload) nonce key ≡ ok frame
    parsed : parse_auth bo frame (8 + length payload) ≡ ok (auth_id, cmd, payload)
    wire : w ≡ wire_of bo auth_id nonce (8 + length payload) sealed

  IsMessage-Opens :
      (auth_id cmd : ℕ) (payload w : List ℕ)
      → IsMessage auth_id cmd payload w
      → Opens auth_id cmd payload w
  IsMessage-Opens auth_id cmd payload w m = record {
    frame = f;
    nonce = m.nonce;
    nonce_len = m.nonce_len;
    sealed = m.sealed;
    sealed_len = ap length same_sealed ∙ c_len;
    opened = ap (λ s. d1 s n m.nonce key) same_sealed ∙ opened;
    parsed = parsed;
    wire = m.wire ∙ ap (λ k. wire_of bo auth_id m.nonce k m.sealed) frame_len;
  }
    where
      n : ℕ
      n = 8 + length payload

      whole :
          (f : List ℕ) × (build_auth bo 160 auth_id cmd payload (length payload) ≡ some f)
          × (length f ≡ n)
          × (parse_auth bo f n ≡ ok (auth_id, cmd, payload))
      whole =
          parse_auth-build_auth bo 160 auth_id cmd payload (length payload) m.id_bound m.cmd_bound
            refl (omega (arith, m.short))

      f : List ℕ
      f = whole.0

      same_frame : m.frame ≡ f
      same_frame = some-injective (sym m.built ∙ whole.1)

      frame_len : length m.frame ≡ n
      frame_len = ap length same_frame ∙ whole.2

      parsed : parse_auth bo f n ≡ ok (auth_id, cmd, payload)
      parsed = whole.3

      round :
          (c : List ℕ) × (e1 f n m.nonce key ≡ ok c)
          × (length c ≡ 16 + n)
          × (d1 c n m.nonce key ≡ ok f)
      round = e1-d1_round m.nonce key n f (omega (arith, m.short)) whole.2

      c_len : length round.0 ≡ 16 + n
      c_len = round.2

      opened : d1 round.0 n m.nonce key ≡ ok f
      opened = round.3

      same_sealed : m.sealed ≡ round.0
      same_sealed = ok-injective (
          sym m.encrypted
          ∙ ap (λ k. e1 m.frame k m.nonce key) frame_len
          ∙ ap (λ g. e1 g n m.nonce key) same_frame
          ∙ round.1)

  -- A message is received when it has arrived.
  pub recv_encrypted-IsMessage :
      (most auth_id cmd : ℕ) (payload w : List ℕ) (rest : List Event) (l : Link)
      → Awaits w rest l
      → IsMessage auth_id cmd payload w
      → length payload ≤ most
      → (t : Transport) × (recv_encrypted bo key most l ≡ (ok (cmd, payload), at l t rest))
        × IsIdle (at l t rest)
  recv_encrypted-IsMessage most auth_id cmd payload w rest l a m room =
      let o = IsMessage-Opens auth_id cmd payload w m in
      let (t, answer, empty, kept) =
        recv_encrypted_fragments bo key most auth_id auth_id cmd (8 + length payload) o.nonce
          o.frame payload o.sealed a.left rest l a.kept a.coming a.filled (a.whole ∙ o.wire)
          o.nonce_len o.sealed_len (omega (arith, m.short)) o.opened o.parsed room in
      (t, answer, record { kept = kept; empty = empty; accepting = a.accepting })

  pub IsMessage-length :
      (auth_id cmd : ℕ) (payload w : List ℕ) → IsMessage auth_id cmd payload w → length w ≤ 256
  IsMessage-length auth_id cmd payload w m =
      let o = IsMessage-Opens auth_id cmd payload w m in
      let head = slice o.nonce 0 24 ++ put_le32 auth_id in
      let size = put_le16 (16 + (8 + length payload)) in
      omega (
        arith,
        ap length o.wire,
        length-append (head ++ size) o.sealed,
        length-append head size,
        length-append (slice o.nonce 0 24) (put_le32 auth_id),
        length-slice o.nonce 0 24,
        length-put_le32 bo auth_id,
        length-put_le16 bo (16 + (8 + length payload)),
        o.sealed_len,
        m.short,
      )

  -- What a command is sent as, with the next random bytes as the nonce.
  pub sent-IsMessage :
      (auth_id cmd n : ℕ) (payload : List ℕ) (l : Link)
      → auth_id < 4294967296
      → cmd < 65536
      → length payload ≡ n
      → n ≤ 152
      → (w : List ℕ) × IsMessage auth_id cmd payload w
        × (send_encrypted bo key auth_id cmd payload n l
            ≡ write w (record l { entropy = drop 24 l.entropy }))
  unfolding send_encrypted
  sent-IsMessage auth_id cmd n payload l ha hc hn fits =
      let (f, built, f_len, parsed) =
        parse_auth-build_auth bo 160 auth_id cmd payload n ha hc hn (omega arith) in
      let nonce = slice l.entropy 0 24 in
      let (c, sealed, c_len, opened) =
        e1-d1_round nonce key (length f) f (omega (arith, f_len)) refl in
      (
        wire_of bo auth_id nonce (length f) c,
        record {
          id_bound = ha;
          cmd_bound = hc;
          short = omega (arith, hn);
          frame = f;
          nonce = nonce;
          nonce_len = length-slice l.entropy 0 24;
          sealed = c;
          built = ap (build_auth bo 160 auth_id cmd payload) hn ∙ built;
          encrypted = sealed;
          wire = refl;
        },
        rw (built, sealed) refl,
      )

  -- The link when a command has been sent and the answer is to come.
  abbrev pub asked : List ℕ → Incoming → List Event → Link → Transport → Link
  asked w a rest l t = written w (record l { entropy = drop 24 l.entropy }) t (arrivals a.late rest)

  -- A command is sent, and its answer is awaited.
  pub send_encrypted-Awaits :
      (auth_id cmd n : ℕ) (payload : List ℕ) (a : Incoming) (rest : List Event) (l : Link)
      → auth_id < 4294967296
      → cmd < 65536
      → length payload ≡ n
      → n ≤ 152
      → IsIdle l
      → All NonEmpty (pieces a)
      → length (bytes_of a) ≤ 256
      → l.schedule ≡ exchange a rest
      → (w : List ℕ) × (t : Transport) × IsMessage auth_id cmd payload w
        × (send_encrypted bo key auth_id cmd payload n l ≡ (ok tt, asked w a rest l t))
        × Awaits (bytes_of a) rest (asked w a rest l t)
  send_encrypted-Awaits auth_id cmd n payload a rest l ha hc hn fits i filled short s =
      let (w, m, e) = sent-IsMessage auth_id cmd n payload l ha hc hn fits in
      let idle : IsIdle (record l { entropy = drop 24 l.entropy }) = record {
        kept = i.kept;
        empty = i.empty;
        accepting = i.accepting;
      } in
      let (t, answer, awaits) =
        write-Awaits w a rest (record l { entropy = drop 24 l.entropy }) idle filled short s in
      (w, t, m, e ∙ answer, awaits)
