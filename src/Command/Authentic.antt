-- ===== src/Command/Authentic.antt =====
-- src/nuki_command.c: what a success of `recv_encrypted` says of the bytes that arrived.
use nuki_nrf52_bridge.Base.{
  ℕ, ◌+◌, ◌-◌, ◌≤◌, ◌≡◌, refl, sym, ap, subst, ◌∙◌, Bool, true, false, ◌||◌, List, [], ◌++◌, length,
  slice, take, drop, ltb, if◌then◌else◌, length-slice, length-take, length-drop, get_or-take,
  slice_ext, none, Errno, ok, err, arith,
}
use nuki_nrf52_bridge.Zephyr.{ByteOrder}
use nuki_nrf52_bridge.Crypto.Secretbox.{d1, e1}
use nuki_nrf52_bridge.Crypto.Secretbox.RoundTrip.{d1-e1_iff, ok-injective}
use nuki_nrf52_bridge.Protocol.Frame.{parse_auth}
use nuki_nrf52_bridge.Transport.{Event, peek, reset}
use nuki_nrf52_bridge.Transport.Buffer.{IsTransport, contents, length-contents, peek-contents}
use nuki_nrf52_bridge.Transport.Wait.{bytes}
use nuki_nrf52_bridge.Link.{Link, wait_min}
use nuki_nrf52_bridge.Link.Woke.{Woke, wait_min-Woke, Woke-Woke, header_stays}
use nuki_nrf52_bridge.Link.Inversion.{err≢ok, resume-ok, guard-ok}
use nuki_nrf52_bridge.Command.{recv_encrypted, recv_body}
use nuki_nrf52_bridge.Transport.Arrived.{reset_count}

some_link : Link
some_link = record {
  transport = record { conn = none; value_handle = 0; rx_buf = []; rx_len = 0; write_err = 0 };
  schedule = [];
  accepts = [];
  entropy = [];
  sent = [];
  captured = none;
}

choice :
    (g k : Bool) (e e' : Errno) (x p : List ℕ)
    → (if g then err e else if k then ok x else err e') ≡ ok p
    → x ≡ p
choice true k e e' x p h =
    absurd (err≢ok {l = some_link} {l' = some_link} (ap (λ r. (r, some_link)) h))
choice false true e e' x p h = ok-injective h
choice false false e e' x p h =
    absurd (err≢ok {l = some_link} {l' = some_link} (ap (λ r. (r, some_link)) h))

d1-length :
    (c : List ℕ) (n : ℕ) (nonce key plain : List ℕ) → d1 c n nonce key ≡ ok plain → length plain ≡ n
unfolding d1
d1-length c n nonce key plain h = ap length (sym (choice _ _ _ _ _ plain h)) ∙ length-slice _ 32 n

ltb_false→le : (a b : ℕ) → ltb a b ≡ false → b ≤ a
ltb_false→le a b h = ground arith

module _ (bo : ByteOrder) (key : List ℕ) where
  open bo use {get_le16}

  -- The steps behind a message that was received.
  record Parts (nonce : List ℕ) (ct_len most cmd : ℕ) (payload : List ℕ) (l l' : Link)
      : Type 0 where
    l1 : Link
    plain : List ℕ
    auth_id : ℕ
    waited : wait_min (30 + ct_len) l ≡ (ok tt, l1)
    opened : d1 (drop 30 (peek (30 + ct_len) l1.transport)) (ct_len - 16) nonce key ≡ ok plain
    parsed : parse_auth bo plain (ct_len - 16) ≡ ok (auth_id, cmd, payload)
    left : l' ≡ record l1 { transport = reset l1.transport }
    fits : length payload ≤ most

  recv_body-Parts :
      (nonce : List ℕ) (ct_len most cmd : ℕ) (payload : List ℕ) (l l' : Link)
      → recv_body bo key nonce ct_len most l ≡ (ok (cmd, payload), l')
      → Parts nonce ct_len most cmd payload l l'
  unfolding recv_body
  recv_body-Parts nonce ct_len most cmd payload l l' h =
      let (u, l1, waited, h1) = resume-ok _ (wait_min (30 + ct_len) l) (cmd, payload) l' h in
      let l2 = record l1 { transport = reset l1.transport } in
      let cipher = drop 30 (peek (30 + ct_len) l1.transport) in
      let (plain, l3, opened, h3) =
        resume-ok _ (d1 cipher (ct_len - 16) nonce key, l2) (cmd, payload) l' h1 in
      let (frame, l4, parsed, h4) =
        resume-ok _ (parse_auth bo plain (ct_len - 16), l3) (cmd, payload) l' h3 in
      let (small, h5) = guard-ok _ _ _ l4 (cmd, payload) l' refl h4 in
      let same : (frame.1, frame.2) ≡ (cmd, payload) = ok-injective (ap (λ p. p.0) h5) in
      record {
        l1 = l1;
        plain = plain;
        auth_id = frame.0;
        waited = waited;
        opened = ap (λ p. p.0) opened;
        parsed = ap (λ p. p.0) parsed ∙ ap (λ p. ok (frame.0, p.0, p.1)) same;
        left = sym (ap (λ p. p.1) h5) ∙ sym (ap (λ p. p.1) parsed) ∙ sym (ap (λ p. p.1) opened);
        fits =
            subst (λ p. length p ≤ most) (ap (λ p. p.1) same)
              (ltb_false→le most (length frame.2) small);
      }

  -- The bytes and the message that was read from them.
  pub record Authentic (most cmd : ℕ) (payload : List ℕ) (l l' : Link) : Type 0 where
    pub seen : List Event
    pub split : l.schedule ≡ seen ++ l'.schedule
    pub n : ℕ
    pub wire : List ℕ
    pub in_front : wire ≡ take (46 + n) (take 256 (contents l.transport ++ bytes seen))
    pub whole : length wire ≡ 46 + n
    pub plain : List ℕ
    pub auth_id : ℕ
    pub sealed : e1 plain n (slice wire 0 24) key ≡ ok (drop 30 wire)
    pub parsed : parse_auth bo plain n ≡ ok (auth_id, cmd, payload)
    pub bounds : (n ≤ 200) × (length payload ≤ most)
    pub emptied : l'.transport.rx_len ≡ 0

  plausible : (c : ℕ) → (ltb c 16 || ltb 216 c) ≡ false → (16 ≤ c) × (c ≤ 216)
  plausible c h = ground arith

  join :
      (most cmd ct_len : ℕ) (payload : List ℕ) (l l1 l' : Link)
      → Woke 30 l l1
      → (16 ≤ ct_len) × (ct_len ≤ 216)
      → Parts (slice (peek 30 l1.transport) 0 24) ct_len most cmd payload l1 l'
      → Authentic most cmd payload l l'
  join most cmd ct_len payload l l1 l' a range p = record {
    seen = w.seen;
    split = w.split ∙ ap (λ es. w.seen ++ es) (sym (ap (λ k. k.schedule) p.left));
    n = n;
    wire = wire;
    in_front = front ∙ ap (take (46 + n)) w.collected;
    whole = wire_len;
    plain = p.plain;
    auth_id = p.auth_id;
    sealed =
        (d1-e1_iff (slice wire 0 24) key n p.plain (drop 30 wire) (omega (arith, range))
            (d1-length (drop 30 wire) n (slice wire 0 24) key p.plain opened)
            (omega (arith, length-drop 30 wire, wire_len))).0
          opened;
    parsed = p.parsed;
    bounds = (omega (arith, range), p.fits);
    emptied = ap (λ k. k.transport.rx_len) p.left ∙ reset_count p.l1.transport;
  }
    where
      n : ℕ
      n = ct_len - 16

      wire : List ℕ
      wire = peek (30 + ct_len) p.l1.transport

      b : Woke (30 + ct_len) l1 p.l1
      b = wait_min-Woke (30 + ct_len) l1 p.l1 a.kept p.waited

      w : Woke (30 + ct_len) l p.l1
      w = Woke-Woke 30 (30 + ct_len) l l1 p.l1 a b

      front : wire ≡ take (46 + n) (contents p.l1.transport)
      front =
          peek-contents p.l1.transport (30 + ct_len) b.kept b.enough
          ∙ ap (λ k. take k (contents p.l1.transport)) (omega (arith, range))

      wire_len : length wire ≡ 46 + n
      wire_len = omega (
        arith,
        ap length front,
        length-take (46 + n) (contents p.l1.transport),
        length-contents p.l1.transport b.kept,
        b.enough,
        range,
      )

      nonce_read : slice (peek 30 l1.transport) 0 24 ≡ slice wire 0 24
      nonce_read =
          ap (λ h. slice h 0 24) (header_stays 30 (30 + ct_len) l l1 p.l1 a b (omega arith))
          ∙ slice_ext (take 30 wire) wire 0 24 (λ j _ q. get_or-take 30 wire j 0 (omega arith))

      opened : d1 (drop 30 wire) n (slice wire 0 24) key ≡ ok p.plain
      opened = ap (λ h. d1 (drop 30 wire) n h key) (sym nonce_read) ∙ p.opened

  -- Whatever happens during the call: when `recv_encrypted` gives a command and a payload, the bytes then
  -- collected begin with a message of at most 246 bytes whose ciphertext is what `nuki_crypto_e1` makes, under
  -- the shared key and the message's nonce, of a frame that parses to that command and payload; the payload
  -- fits, and the buffer is empty.
  pub recv_encrypted-Authentic :
      (most cmd : ℕ) (payload : List ℕ) (l l' : Link)
      → IsTransport l.transport
      → recv_encrypted bo key most l ≡ (ok (cmd, payload), l')
      → Authentic most cmd payload l l'
  unfolding recv_encrypted
  recv_encrypted-Authentic most cmd payload l l' h e =
      let (u, l1, waited, h1) = resume-ok _ (wait_min 30 l) (cmd, payload) l' e in
      let header = peek 30 l1.transport in
      let ct_len = get_le16 header 28 in
      let (fine, h2) = guard-ok _ _ _ l1 (cmd, payload) l' refl h1 in
      join most cmd ct_len payload l l1 l' (wait_min-Woke 30 l l1 h waited) (plausible ct_len fine)
        (recv_body-Parts (slice header 0 24) ct_len most cmd payload l1 l' h2)
