-- ===== src/Command/Answered.antt =====
-- src/nuki_command.c: the operations over a lock that answers them.
use nuki_nrf52_bridge.Base.{
  ℕ, ◌≤◌, ◌<◌, ◌≡◌, refl, ap, ◌∙◌, Bool, true, false, if◌then◌else◌, none, List, [], ◌∷◌, ◌++◌,
  length, drop, length-append, append_assoc, slice_whole, ==_iff, All, ok, arith,
}
use nuki_nrf52_bridge.Zephyr.{ByteOrder}
use nuki_nrf52_bridge.Protocol.Commands.{
  cmd_request_data, cmd_challenge, cmd_lock_action, cmd_request_calibration,
}
use nuki_nrf52_bridge.Protocol.Frame.Build.{length-put_le16, length-put_le32}
use nuki_nrf52_bridge.Transport.{Transport, Event}
use nuki_nrf52_bridge.Transport.Fragments.{NonEmpty}
use nuki_nrf52_bridge.Link.{Link, ◌>>◌, resume}
use nuki_nrf52_bridge.Link.Exchange.{IsIdle, Awaits, Incoming, pieces, bytes_of, exchange, deliver}
use nuki_nrf52_bridge.Command.{
  send_encrypted, request_challenge, drain_until_complete, lock_action, calibrate,
}
use nuki_nrf52_bridge.Command.Message.{
  IsMessage, IsMessage-length, recv_encrypted-IsMessage, asked, send_encrypted-Awaits,
}
use nuki_nrf52_bridge.Command.Concludes.{
  Concludes, Concludes-filled, Concludes-length, last_report, drained, drain_rounds-Concludes,
}

module _ (bo : ByteOrder) (key : List ℕ) where
  open bo use {put_le16, put_le32}

  -- A challenge of the lock.
  pub record Challenges (auth_id : ℕ) (nonce_k : List ℕ) (a : Incoming) : Type 0 where
    pub filled : All NonEmpty (pieces a)
    pub message : IsMessage bo key auth_id cmd_challenge nonce_k (bytes_of a)
    pub nonce_len : length nonce_k ≡ 32

  abbrev challenged : List ℕ → List Event → Link → Transport → Link
  challenged w rest l t = record l {
    accepts = drop 1 l.accepts;
    entropy = drop 24 l.entropy;
    sent = l.sent ++ w ∷ [];
    transport = t;
    schedule = rest;
  }

  request_challenge-Challenges :
      (auth_id : ℕ) (nonce_k : List ℕ) (a : Incoming) (rest : List Event) (l : Link)
      → auth_id < 4294967296
      → IsIdle l
      → Challenges auth_id nonce_k a
      → l.schedule ≡ exchange a rest
      → (w : List ℕ) × (t : Transport) × IsMessage bo key auth_id cmd_request_data
          (put_le16 cmd_challenge)
          w
        × (request_challenge bo key auth_id l ≡ (ok nonce_k, challenged w rest l t))
        × IsIdle (challenged w rest l t)
  unfolding request_challenge
  request_challenge-Challenges auth_id nonce_k a rest l ha i c s =
      let (w, t, m, sent, awaits) =
        send_encrypted-Awaits bo key auth_id cmd_request_data 2 (put_le16 cmd_challenge) a rest l ha
          (omega arith) (length-put_le16 bo cmd_challenge) (omega arith) i c.filled
          (IsMessage-length bo key auth_id cmd_challenge nonce_k (bytes_of a) c.message) s in
      let (t', answer, idle) =
        recv_encrypted-IsMessage bo key 200 auth_id cmd_challenge nonce_k (bytes_of a) rest
          (asked bo key w a rest l t) awaits c.message (omega (arith, c.message.short)) in
      (
        w,
        t',
        m,
        rw (
          sent,
          answer,
          (==_iff (length nonce_k) 32).1 c.nonce_len,
          slice_whole nonce_k 32 c.nonce_len,
        ),
        idle,
      )

  -- What a command leaves: two messages more are sent, the second one the command, the lock's messages
  -- are used up, and the caller has the last of the lock's reports.
  pub record Performed (auth_id cmd : ℕ) (payload : List ℕ) (want : Bool) (m : Incoming)
      (ms : List Incoming) (rest : List Event) (l l' : Link) : Type 0 where
    pub asking : List ℕ
    pub doing : List ℕ
    pub sent : l'.sent ≡ l.sent ++ asking ∷ doing ∷ []
    pub challenge_request :
        IsMessage bo key auth_id cmd_request_data (put_le16 cmd_challenge) asking
    pub command : IsMessage bo key auth_id cmd payload doing
    pub left : l'.schedule ≡ rest
    pub reported : l'.captured ≡ last_report bo key want m ms (if want then none else l.captured)
    pub idle : IsIdle l'

  drain_until_complete-Concludes :
      (want : Bool) (auth_id : ℕ) (m : Incoming) (ms : List Incoming) (rest : List Event) (l : Link)
      → length ms < 10
      → Concludes bo key auth_id m ms
      → Awaits (bytes_of m) (deliver ms rest) l
      → (l' : Link) × (drain_until_complete bo key want l ≡ (ok tt, l'))
        × IsIdle l'
        × (l'.sent ≡ l.sent)
        × (l'.schedule ≡ rest)
        × (l'.captured ≡ last_report bo key want m ms (if want then none else l.captured))
  unfolding drain_until_complete
  drain_until_complete-Concludes true auth_id m ms rest l few c w =
      let fresh : Link = record l { captured = none } in
      let w' : Awaits (bytes_of m) (deliver ms rest) fresh = record {
        kept = w.kept;
        accepting = w.accepting;
        left = w.left;
        filled = w.filled;
        coming = w.coming;
        whole = w.whole;
      } in
      let (t, answer, idle) =
        drain_rounds-Concludes bo key true auth_id 10 m ms rest fresh few c w' in
      (drained bo key true m ms rest fresh t, answer, idle, refl, refl, refl)
  drain_until_complete-Concludes false auth_id m ms rest l few c w =
      let (t, answer, idle) = drain_rounds-Concludes bo key false auth_id 10 m ms rest l few c w in
      (drained bo key false m ms rest l t, answer, idle, refl, refl, refl)

  -- The command behind a challenge.
  command-Performed :
      (auth_id cmd n : ℕ) (payload : List ℕ) (want : Bool) (first : List ℕ) (m : Incoming)
      (ms : List Incoming) (rest : List Event) (l l1 : Link)
      → auth_id < 4294967296
      → cmd < 65536
      → length payload ≡ n
      → n ≤ 152
      → IsMessage bo key auth_id cmd_request_data (put_le16 cmd_challenge) first
      → l1.sent ≡ l.sent ++ first ∷ []
      → l1.captured ≡ l.captured
      → IsIdle l1
      → Concludes bo key auth_id m ms
      → length ms < 10
      → l1.schedule ≡ exchange m (deliver ms rest)
      → (l' : Link) × ((send_encrypted bo key auth_id cmd payload n
              >> drain_until_complete bo key want)
            l1
          ≡ (ok tt, l'))
        × Performed auth_id cmd payload want m ms rest l l'
  command-Performed auth_id cmd n payload want first m ms rest l l1 ha hc hn fits asking said held i
        c few s =
      let (w, t, message, sent, awaits) =
        send_encrypted-Awaits bo key auth_id cmd n payload m (deliver ms rest) l1 ha hc hn fits i
          (Concludes-filled bo key auth_id m ms c) (Concludes-length bo key auth_id m ms c) s in
      let l2 = asked bo key w m (deliver ms rest) l1 t in
      let (l', answer, idle, same, left, reported) =
        drain_until_complete-Concludes want auth_id m ms rest l2 few c awaits in
      (
        l',
        ap (resume (λ _. drain_until_complete bo key want)) sent ∙ answer,
        record {
          asking = first;
          doing = w;
          sent = same ∙ ap (λ b. b ++ w ∷ []) said ∙ append_assoc l.sent (first ∷ []) (w ∷ []);
          challenge_request = asking;
          command = message;
          left = left;
          reported =
              reported ∙ ap (λ b. last_report bo key want m ms (if want then none else b)) held;
          idle = idle;
        },
      )

  -- `nuki_command_lock_action` and `nuki_command_calibrate` succeed with a lock that answers. The buffer is
  -- empty, the stack accepts the writes and acknowledges them, and the authorization id has 32 bits; the lock
  -- answers the first request by a challenge of 32 bytes, and the command by up to nine messages that do not
  -- end the wait and then a Status COMPLETE, all sealed under the key and in non-empty pieces, some of which
  -- may come before the write they answer is acknowledged. Then the code is 0, two messages were sent, a
  -- request for a challenge and the command with the lock's challenge in it, the caller has the last report of
  -- the state that was sent and parses, if it wants one, the buffer is empty, and later events are left.
  pub commands_Performed :
      (auth_id app_id action pin : ℕ) (want : Bool) (nonce_k : List ℕ) (a m : Incoming)
      (ms : List Incoming) (rest : List Event) (l : Link)
      → auth_id < 4294967296
      → IsIdle l
      → Challenges auth_id nonce_k a
      → Concludes bo key auth_id m ms
      → length ms < 10
      → l.schedule ≡ exchange a (exchange m (deliver ms rest))
      → ((l' : Link) × (lock_action bo key auth_id app_id action want l ≡ (ok tt, l'))
          × Performed auth_id cmd_lock_action
              (action ∷ (put_le32 app_id ++ 0 ∷ nonce_k))
              want
              m
              ms
              rest
              l
              l')
        × ((l' : Link) × (calibrate bo key auth_id pin l ≡ (ok tt, l'))
            × Performed auth_id cmd_request_calibration
                (nonce_k ++ put_le16 pin)
                false
                m
                ms
                rest
                l
                l')
  unfolding lock_action calibrate
  commands_Performed auth_id app_id action pin want nonce_k a m ms rest l ha i c f few s =
      let (w, t, asking, answer, idle) =
        request_challenge-Challenges auth_id nonce_k a (exchange m (deliver ms rest)) l ha i c s in
      let l1 = challenged w (exchange m (deliver ms rest)) l t in
      let (acted, acted_eq, performed) =
        command-Performed auth_id cmd_lock_action 38 (action ∷ (put_le32 app_id ++ 0 ∷ nonce_k))
          want w m ms rest l l1 ha (omega arith)
          (omega (
            arith,
            length-append (put_le32 app_id) (0 ∷ nonce_k),
            length-put_le32 bo app_id,
            c.nonce_len,
          ))
          (omega arith) asking refl refl idle f few refl in
      let (turned, turned_eq, calibrated) =
        command-Performed auth_id cmd_request_calibration 34 (nonce_k ++ put_le16 pin) false w m ms
          rest l l1 ha (omega arith)
          (omega (arith, length-append nonce_k (put_le16 pin), length-put_le16 bo pin, c.nonce_len))
          (omega arith) asking refl refl idle f few refl in
      ((acted, rw answer acted_eq, performed), (turned, rw answer turned_eq, calibrated))
