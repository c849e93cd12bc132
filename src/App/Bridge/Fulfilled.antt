-- ===== src/App/Bridge/Fulfilled.antt =====
-- src/nuki_uart_proto.c over src/nuki_app.c: the answer on the serial line while the lock is in reach and
-- keeps to its protocol.
use nuki_nrf52_bridge.Base.{
  ℕ, ◌<◌, ◌≡◌, sym, ap, ap₂, subst, ◌∙◌, ◌⊎◌, inl, inr, Option, none, some, List, Result, ok, err,
  is_ok,
}
use nuki_nrf52_bridge.Zephyr.{ByteOrder}
use nuki_nrf52_bridge.Crypto.Psa.{Psa}
use nuki_nrf52_bridge.Protocol.State.{KeyturnerState}
use nuki_nrf52_bridge.Storage.{Saved, get_pairing}
use nuki_nrf52_bridge.Uart.Rx.{RxFrame}
use nuki_nrf52_bridge.Uart.Tx.{rc_of, send_state, after_action, handle_lock_action, dispatch_frame}
use nuki_nrf52_bridge.Uart.Tx.Effects.{at_lock, at_unlock, at_unlatch}
use nuki_nrf52_bridge.App.{App}
use nuki_nrf52_bridge.App.Operations.{World, get_cached_state, lock_action}
use nuki_nrf52_bridge.App.Operations.Fulfilled.{Cooperates, Fulfilled, told, lock_action-Fulfilled}
use nuki_nrf52_bridge.App.Bridge.{bridge_api}
use mathlib.Core.Bool.{true≢false}

-- The answer to an action that succeeded: the lock's report of it, no second old, or the cache as it is.
abbrev pub success_reply : ℕ → Option KeyturnerState → App → List ℕ
success_reply cmd (some s) a = send_state cmd 0 (ok (s, 0))
success_reply cmd none a = send_state cmd 0 (get_cached_state a)

module _ (bo : ByteOrder) (psa : Psa) where
  -- The action was carried out, and the answer says so.
  pub record Replied (action cmd : ℕ) (p : Saved) (w : World) (c : Cooperates bo p w)
      (out : List ℕ × World) : Type 0 where
    pub reply : out.0 ≡ success_reply cmd (told bo p w c) out.1.app
    pub done : Fulfilled bo action p w c (ok tt, out.1)

  reply_of :
      (cmd : ℕ) (o : Option KeyturnerState) (a : App)
      → ((o ≡ none) ⊎ ((s : KeyturnerState) × (o ≡ some s) × (get_cached_state a ≡ ok (s, 0))))
      → send_state cmd 0 (get_cached_state a) ≡ success_reply cmd o a
  reply_of cmd o a (inl e) = ap (λ x. success_reply cmd x a) (sym e)
  reply_of cmd o a (inr (s, e, held)) =
      ap (send_state cmd 0) held ∙ ap (λ x. success_reply cmd x a) (sym e)

  replied :
      (action cmd : ℕ) (p : Saved) (w : World) (c : Cooperates bo p w)
      (r : Result (Unit {0}) × World)
      → Fulfilled bo action p w c r
      → Replied action cmd p w c
          (send_state cmd (rc_of r.0) (after_action (bridge_api bo psa) r.0 r.1), r.1)
  unfolding rc_of
  replied action cmd p w c (ok _, w') f = record {
    reply =
        reply_of cmd (told bo p w c) w'.app
          (elim f.cache [ inl kept ↦ inl (kept.0) | inr put ↦ inr put ]);
    done = f;
  }
  replied action cmd p w c (err e, w') f = absurd (true≢false (sym (ap is_ok f.success)))

  handle_lock_action-Replied :
      (action cmd : ℕ) (p : Saved) (w : World) (c : Cooperates bo p w)
      → Fulfilled bo action p w c (lock_action bo action w)
      → Replied action cmd p w c (handle_lock_action (bridge_api bo psa) action cmd w)
  unfolding handle_lock_action
  handle_lock_action-Replied action cmd p w c f =
      replied action cmd p w c (lock_action bo action w) f

  fulfilled :
      (f : RxFrame) (action : ℕ) (p : Saved) (w : World) (c : Cooperates bo p w) (n cmd : ℕ)
      → f.cmd ≡ cmd
      → action ≡ n
      → dispatch_frame (bridge_api bo psa) f w ≡ handle_lock_action (bridge_api bo psa) n cmd w
      → Fulfilled bo action p w c (lock_action bo action w)
      → Replied action f.cmd p w c (dispatch_frame (bridge_api bo psa) f w)
  fulfilled f action p w c n cmd e k at done =
      subst (Replied action f.cmd p w c)
        (sym (at ∙ ap₂ (λ m c'. handle_lock_action (bridge_api bo psa) m c' w) (sym k) (sym e)))
        (handle_lock_action-Replied action f.cmd p w c done)

  -- A LOCK, UNLOCK or UNLATCH request on the serial line is carried out and answered by the code 0 while the
  -- lock is in reach and keeps to its protocol. The bridge is paired, with an authorization id of 32 bits, and
  -- not connected; the stack refuses nothing; after other devices the paired lock advertises, accepts the
  -- connection and offers the characteristic; it answers with a challenge, up to nine messages that do not end
  -- the wait, and a Status COMPLETE, all sealed under the stored key. Then two messages went to the lock, the
  -- second one that action with the lock's challenge, and the fields behind the code are those of the last
  -- report that the lock sent, at an age of 0 seconds, or of the unchanged cache if it sent none.
  pub dispatch_frame-Replied :
      (f : RxFrame) (action : ℕ) (p : Saved) (w : World)
      → ((f.cmd ≡ 4) × (action ≡ 2)) ⊎ ((f.cmd ≡ 5) × (action ≡ 1)) ⊎ ((f.cmd ≡ 6) × (action ≡ 3))
      → get_pairing w.app.storage ≡ some p
      → p.data'.auth_id < 4294967296
      → w.app.conn ≡ none
      → (c : Cooperates bo p w)
      → Replied action f.cmd p w c (dispatch_frame (bridge_api bo psa) f w)
  dispatch_frame-Replied f action p w which paired bound free c =
      let done = lock_action-Fulfilled bo action p w paired bound free c in
      let api = bridge_api bo psa in
      elim which [
        | inl (e, k) ↦ fulfilled f action p w c 2 4 e k (at_lock api f w e) done
        | inr (inl (e, k)) ↦ fulfilled f action p w c 1 5 e k (at_unlock api f w e) done
        | inr (inr (e, k)) ↦ fulfilled f action p w c 3 6 e k (at_unlatch api f w e) done
      ]
