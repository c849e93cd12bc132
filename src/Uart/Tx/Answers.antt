-- ===== src/Uart/Tx/Answers.antt =====
-- src/nuki_uart_proto.c: every request is answered by one well-formed frame.
use nuki_nrf52_bridge.Base.{
  ℕ, ◌+◌, true, false, ◌&&◌, List, [], ◌∷◌, ◌++◌, ◌≡◌, ◌≢◌, refl, sym, subst, ap, ◌∙◌, arith,
  length, replicate, le_bytes, leb, ◌==◌, if◌then◌else◌, if_elim, ==_iff, Result, ok, err,
  length-append, slice_whole,
}
use nuki_nrf52_bridge.Protocol.State.{KeyturnerState}
use nuki_nrf52_bridge.Uart.Rx.{RxFrame}
use nuki_nrf52_bridge.Uart.Api.{AppApi}
use nuki_nrf52_bridge.Uart.Tx.{
  sof_resp, rc_of, bit, send_simple_response, state_fields, filled, send_state, handle_status,
  handle_pair, handle_state, handle_lock_action, after_action, handle_calibrate, dispatch_frame,
}

-- The bytes of the answer to a command, behind the four of `rc`.
abbrev pub extra : ℕ → ℕ
extra cmd = if cmd == 1 then 3 else if leb 3 cmd && leb cmd 6 then 17 else 0

-- One frame that answers the command: the start byte of responses, the command, the length of the
-- payload, and a payload that begins with `rc`. If `rc` is not 0 then the rest of it is zero.
pub record IsAnswer (cmd : ℕ) (out : List ℕ) : Type 0 where
  pub rc : ℕ
  pub fields : List ℕ
  pub bytes : out ≡ sof_resp ∷ cmd ∷ (4 + length fields) ∷ (le_bytes 4 rc ++ fields)
  pub size : length fields ≡ extra cmd
  pub zeroed : rc ≢ 0 → fields ≡ replicate (extra cmd) 0

simple-IsAnswer : (cmd rc : ℕ) → extra cmd ≡ 0 → IsAnswer cmd (send_simple_response cmd rc)
unfolding send_simple_response
simple-IsAnswer cmd rc h = record {
  rc = rc;
  fields = [];
  bytes = refl;
  size = sym h;
  zeroed = λ n. rw h;
}

length-filled : (c : Result (KeyturnerState × ℕ)) → length (filled c) ≡ 17
unfolding state_fields
length-filled (ok (s, age_sec)) = refl
length-filled (err e) = refl

state-IsAnswer :
    (cmd rc : ℕ) (c : Result (KeyturnerState × ℕ))
    → extra cmd ≡ 17
    → (rc ≢ 0 → filled c ≡ replicate 17 0)
    → IsAnswer cmd (send_state cmd rc c)
unfolding send_state
state-IsAnswer cmd rc c h z = record {
  rc = rc;
  fields = filled c;
  bytes =
      ap (λ t. sof_resp ∷ cmd ∷ 21 ∷ t)
        (slice_whole (le_bytes 4 rc ++ filled c) 21
          (length-append (le_bytes 4 rc) (filled c) ∙ ap (λ n. 4 + n) (length-filled c)))
      ∙ ap (λ n. sof_resp ∷ cmd ∷ (4 + n) ∷ (le_bytes 4 rc ++ filled c)) (sym (length-filled c));
  size = length-filled c ∙ sym h;
  zeroed = λ n. z n ∙ ap (λ t. replicate t 0) (sym h);
}

module _ (api : AppApi) where
  open api use {App, lock_action, get_cached_state}

  status-IsAnswer : (a : App) → IsAnswer 1 (handle_status api a).0
  unfolding handle_status
  status-IsAnswer a = record {
    rc = 0;
    fields = bit (api.is_paired a) ∷ bit (api.is_connected a) ∷ bit (api.is_ready a) ∷ [];
    bytes = refl;
    size = refl;
    zeroed = λ n. absurd (n refl);
  }

  filled_failed : (c : Result (KeyturnerState × ℕ)) → rc_of c ≢ 0 → filled c ≡ replicate 17 0
  unfolding rc_of
  filled_failed (ok p) n = absurd (n refl)
  filled_failed (err e) n = refl

  filled-after_action :
      (r : Result (Unit {0})) (a : App)
      → rc_of r ≢ 0
      → filled (after_action api r a) ≡ replicate 17 0
  unfolding rc_of
  filled-after_action (ok u) a n = absurd (n refl)
  filled-after_action (err e) a n = refl

  handle_pair-IsAnswer : (a : App) → IsAnswer 2 (handle_pair api a).0
  unfolding handle_pair
  handle_pair-IsAnswer a = simple-IsAnswer 2 (rc_of (api.pair a).0) refl

  handle_state-IsAnswer : (a : App) → IsAnswer 3 (handle_state api a).0
  unfolding handle_state
  handle_state-IsAnswer a =
      state-IsAnswer 3 (rc_of (get_cached_state a)) (get_cached_state a) refl
        (filled_failed (get_cached_state a))

  handle_lock_action-IsAnswer :
      (action cmd : ℕ) (a : App)
      → extra cmd ≡ 17
      → IsAnswer cmd (handle_lock_action api action cmd a).0
  unfolding handle_lock_action
  handle_lock_action-IsAnswer action cmd a h =
      state-IsAnswer cmd (rc_of (lock_action action a).0)
        (after_action api (lock_action action a).0 (lock_action action a).1) h
        (filled-after_action (lock_action action a).0 (lock_action action a).1)

  handle_calibrate-IsAnswer : (f : RxFrame) (a : App) → IsAnswer 7 (handle_calibrate api f a).0
  unfolding handle_calibrate
  handle_calibrate-IsAnswer f a =
      if_elim (λ (p : List ℕ × App). IsAnswer 7 p.0) (f.len == 2) _ _
        (λ h. simple-IsAnswer 7 _ refl) (λ h. simple-IsAnswer 7 _ refl)

  other_extra :
      (c : ℕ)
      → (c == 1) ≡ false
      → (c == 3) ≡ false
      → (c == 4) ≡ false
      → (c == 5) ≡ false
      → (c == 6) ≡ false
      → extra c ≡ 0
  other_extra c h1 h3 h4 h5 h6 = ground arith

  -- An answer to the command that a test found.
  found :
      (f : RxFrame) (k : ℕ) (out : List ℕ)
      → (f.cmd == k) ≡ true
      → IsAnswer k out
      → IsAnswer f.cmd out
  found f k out h t = subst (λ c. IsAnswer c out) (sym ((==_iff f.cmd k).0 h)) t

  -- Every frame is answered by exactly one frame: it echoes the command, has the length of that
  -- command's response struct, and holds nothing but zeros behind a return code that is not 0.
  pub dispatch_frame-IsAnswer : (f : RxFrame) (a : App) → IsAnswer f.cmd (dispatch_frame api f a).0
  unfolding dispatch_frame
  dispatch_frame-IsAnswer f a =
      if_elim P (f.cmd == 1) _ _ (λ h. found f 1 _ h (status-IsAnswer a))
        λ h1.
          if_elim P (f.cmd == 2) _ _ (λ h. found f 2 _ h (handle_pair-IsAnswer a))
            λ h2.
              if_elim P (f.cmd == 3) _ _ (λ h. found f 3 _ h (handle_state-IsAnswer a))
                λ h3.
                  if_elim P (f.cmd == 4) _ _
                    (λ h. found f 4 _ h (handle_lock_action-IsAnswer 2 4 a refl))
                    λ h4.
                      if_elim P (f.cmd == 5) _ _
                        (λ h. found f 5 _ h (handle_lock_action-IsAnswer 1 5 a refl))
                        λ h5.
                          if_elim P (f.cmd == 6) _ _
                            (λ h. found f 6 _ h (handle_lock_action-IsAnswer 3 6 a refl))
                            λ h6.
                              if_elim P (f.cmd == 7) _ _
                                (λ h. found f 7 _ h (handle_calibrate-IsAnswer f a))
                                λ h7. simple-IsAnswer f.cmd _ (other_extra f.cmd h1 h3 h4 h5 h6)
    where
      P : List ℕ × App → Type 0
      P p = IsAnswer f.cmd p.0
