-- ===== src/Command/Completed.antt =====
-- src/nuki_command.c: what a lock action that succeeds has been through.
use nuki_nrf52_bridge.Base.{
  ℕ, ◌≡◌, refl, sym, ap, subst, ◌∙◌, Bool, true, false, not, ◌&&◌, ◌||◌, List, ◌∷◌, ◌++◌, length,
  get_or, ◌==◌, ==_iff, if◌then◌else◌, none, Result, ok, err, is_ok, eio, ebadmsg,
}
use nuki_nrf52_bridge.Zephyr.{ByteOrder}
use nuki_nrf52_bridge.Protocol.Commands.{
  cmd_lock_action, cmd_status, cmd_error_report, status_complete,
}
use nuki_nrf52_bridge.Link.{Link}
use nuki_nrf52_bridge.Link.Inversion.{resume-ok}
use nuki_nrf52_bridge.Command.{
  send_encrypted, recv_encrypted, request_challenge, drain_until_complete, drain_rounds,
  lock_action,
}
use nuki_nrf52_bridge.Command.Drain.{
  Drains, gave_up, broke, ended, went_on, passing, verdict, drain_rounds-Drains,
}
use mathlib.Core.Bool.{true≢false}

-- Of the messages that end the loop, one ends it well.
well_ended :
    (report status one complete : Bool)
    → (not report && (not status || (one && not complete))) ≡ false
    → ◌≡◌ {A = Result (Unit {0})}
        (if report then err eio else if one then ok tt else err ebadmsg)
        (ok tt)
    → (status ≡ true) × (one ≡ true) × (complete ≡ true)
well_ended true s o c h e = absurd (true≢false (sym (ap is_ok e)))
well_ended false s false c h e = absurd (true≢false (sym (ap is_ok e)))
well_ended false false true c h e = absurd (true≢false h)
well_ended false true true false h e = absurd (true≢false h)
well_ended false true true true h e = (refl, refl, refl)

module _ (bo : ByteOrder) (key : List ℕ) where
  open bo use {put_le32}

  -- The last message received is a Status COMPLETE.
  pub record Completed (l' : Link) : Type 0 where
    pub before : Link
    pub payload : List ℕ
    pub received : recv_encrypted bo key 200 before ≡ (ok (cmd_status, payload), l')
    pub one_byte : length payload ≡ 1
    pub complete : get_or payload 0 0 ≡ status_complete

  ended-Completed :
      (l l' : Link) (m : ℕ × List ℕ)
      → recv_encrypted bo key 200 l ≡ (ok m, l')
      → passing m ≡ false
      → verdict m ≡ ok tt
      → Completed l'
  ended-Completed l l' (cmd, payload) h p v =
      let (s, o, c) =
        well_ended (cmd == cmd_error_report) (cmd == cmd_status) (length payload == 1)
          (get_or payload 0 0 == status_complete) p v in
      record {
        before = l;
        payload = payload;
        received = h ∙ ap (λ k. (ok (k, payload), l')) ((==_iff cmd cmd_status).0 s);
        one_byte = (==_iff (length payload) 1).0 o;
        complete = (==_iff (get_or payload 0 0) status_complete).0 c;
      }

  Drains-Completed :
      (want : Bool) (n : ℕ) (l l' : Link) (r : Result (Unit {0}))
      → Drains bo key want n l r l'
      → r ≡ ok tt
      → Completed l'
  Drains-Completed want _ _ _ _ (gave_up l) e = absurd (true≢false (sym (ap is_ok e)))
  Drains-Completed want _ _ _ _ (broke n l l' x h) e = absurd (true≢false (sym (ap is_ok e)))
  Drains-Completed want _ _ _ _ (ended n l l' m h p) e = ended-Completed l l' m h p e
  Drains-Completed want _ _ _ _ (went_on n l l1 l' m r h p rest) e =
      Drains-Completed want n _ l' r rest e

  drained : (want : Bool) (l l' : Link) → drain_rounds bo key 10 want l ≡ (ok tt, l') → Completed l'
  drained want l l' h =
      Drains-Completed want 10 l l' (ok tt)
        (subst (λ r. Drains bo key want 10 l r.0 r.1) h (drain_rounds-Drains bo key want 10 l)) refl

  drain_until_complete-Completed :
      (want : Bool) (l l' : Link) → drain_until_complete bo key want l ≡ (ok tt, l') → Completed l'
  unfolding drain_until_complete
  drain_until_complete-Completed true l l' h = drained true (record l { captured = none }) l' h
  drain_until_complete-Completed false l l' h = drained false l l' h

  -- The steps of a lock action.
  pub record Acted (auth_id app_id action : ℕ) (want : Bool) (l l' : Link) : Type 0 where
    pub nonce_k : List ℕ
    pub l1 : Link
    pub l2 : Link
    pub challenged : request_challenge bo key auth_id l ≡ (ok nonce_k, l1)
    pub requested :
        send_encrypted bo key auth_id cmd_lock_action
          (action ∷ (put_le32 app_id ++ 0 ∷ nonce_k))
          38
          l1
        ≡ (ok tt, l2)
    pub drained : drain_until_complete bo key want l2 ≡ (ok tt, l')
    pub completed : Completed l'

  -- When `nuki_command_lock_action` gives 0, the lock gave a challenge, the request with the action, the
  -- application id and that challenge was written without an error, and the last message that was
  -- received, decrypted and authenticated is a Status of one byte, COMPLETE.
  pub lock_action-Acted :
      (auth_id app_id action : ℕ) (want : Bool) (l l' : Link)
      → lock_action bo key auth_id app_id action want l ≡ (ok tt, l')
      → Acted auth_id app_id action want l l'
  unfolding lock_action
  lock_action-Acted auth_id app_id action want l l' h =
      let (nonce_k, l1, challenged, e1) =
        resume-ok _ (request_challenge bo key auth_id l) tt l' h in
      let (u, l2, requested, e2) =
        resume-ok _
          (send_encrypted bo key auth_id cmd_lock_action (action ∷ (put_le32 app_id ++ 0 ∷ nonce_k))
            38 l1)
          tt l' e1 in
      record {
        nonce_k = nonce_k;
        l1 = l1;
        l2 = l2;
        challenged = challenged;
        requested = requested;
        drained = e2;
        completed = drain_until_complete-Completed want l2 l' e2;
      }
