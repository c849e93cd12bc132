-- ===== src/App/Operations/Fulfilled.antt =====
-- src/nuki_app.c: a lock action while the lock is in reach and keeps to its protocol.
use nuki_nrf52_bridge.Base.{
  ℕ, ◌<◌, ◌≡◌, refl, sym, ap, subst, inl, inr, drop, ◌∙◌, ◌⊎◌, true, false, Option, none, some,
  List, [], ◌∷◌, ◌++◌, length, All, Result, ok,
}
use nuki_nrf52_bridge.Zephyr.{ByteOrder}
use nuki_nrf52_bridge.Protocol.Commands.{cmd_lock_action}
use nuki_nrf52_bridge.Protocol.State.{KeyturnerState}
use nuki_nrf52_bridge.Transport.{Event}
use nuki_nrf52_bridge.Link.{Link}
use nuki_nrf52_bridge.Link.Exchange.{IsIdle, Incoming, exchange, deliver}
use nuki_nrf52_bridge.Command as Command
use nuki_nrf52_bridge.Command.Keeps.{lock_action-Keeps}
use nuki_nrf52_bridge.Command.Message.{IsMessage}
use nuki_nrf52_bridge.Command.Concludes.{Concludes, last_report}
use nuki_nrf52_bridge.Command.Answered.{Challenges, Performed, commands_Performed}
use nuki_nrf52_bridge.Storage.{Saved, get_pairing}
use nuki_nrf52_bridge.App.Connect.{Moment}
use nuki_nrf52_bridge.App.Operations.{
  World, connect, disconnect, next_answer, next_wire, start_link, after_command, left_usdio, busy,
  on_usdio_link, lock_action, act, when_paired, when_connected, cache_captured, get_cached_state,
}
use nuki_nrf52_bridge.App.Operations.Cache.{SameCache, used-SameCache}
use nuki_nrf52_bridge.App.Operations.Confirmed.{cached, cached_rest}
use nuki_nrf52_bridge.App.Operations.Reached.{
  Visit, visit, IsOther, reached, connect-Reached, subscribed-IsTransport,
}

module _ (bo : ByteOrder) where
  open bo use {put_le32}

  -- The lock is in reach, and answers as its protocol says: the stack refuses nothing, the lock offers the
  -- encrypted characteristic, it gives a challenge, and fewer than ten messages, none of which ends the
  -- wait, come before its Status COMPLETE. Everything it sends is sealed under the stored key.
  pub record Cooperates (p : Saved) (w : World) : Type 0 where
    pub scanning : next_answer w.scans ≡ ok tt
    pub meeting : Visit
    pub others : All (IsOther (some p)) (meeting.strangers)
    pub later : List Moment
    pub there : w.moments ≡ visit meeting p.addr later
    pub nonce_k : List ℕ
    pub challenge : Incoming
    pub challenges : Challenges bo p.data'.shared_key p.data'.auth_id nonce_k challenge
    pub answer : Incoming
    pub answers : List Incoming
    pub concludes : Concludes bo p.data'.shared_key p.data'.auth_id answer answers
    pub few : length answers < 10
    pub rest : List Event
    pub accepting : (next_wire w.wires).accepts ≡ []
    pub coming :
        (next_wire w.wires).events ≡ exchange challenge (exchange answer (deliver answers rest))

  -- The report of the state that the lock sends last.
  abbrev pub told : (p : Saved) (w : World) → Cooperates p w → Option KeyturnerState
  told p w c = last_report bo p.data'.shared_key true c.answer c.answers none

  -- The action succeeds: two messages went to the lock, the second one the action with the lock's challenge,
  -- and the cache has the lock's report, if it sent one.
  pub record Fulfilled (action : ℕ) (p : Saved) (w : World) (c : Cooperates p w)
      (out : Result (Unit {0}) × World) : Type 0 where
    pub success : out.0 ≡ ok tt
    pub asking : List ℕ
    pub doing : List ℕ
    pub sent : out.1.sent ≡ w.sent ++ asking ∷ doing ∷ []
    pub command :
        IsMessage bo p.data'.shared_key p.data'.auth_id cmd_lock_action
          (action ∷ (put_le32 p.data'.app_id ++ 0 ∷ c.nonce_k))
          doing
    pub cache :
        ((told p w c ≡ none) × SameCache w.app out.1.app)
        ⊎ ((s : KeyturnerState) × (told p w c ≡ some s) × (get_cached_state out.1.app ≡ ok (s, 0)))

  -- The world after a command, and after the action.
  abbrev left : World → Result (Unit {0}) × Link → World
  left w1 (r, l) = let (a, ms) = busy w1.moments w1.app in after_command w1 l (left_usdio l a) ms

  abbrev finish : World → Result (Unit {0}) × Link → Result (Unit {0}) × World
  finish w1 (r, l) = (r, cache_captured r l.captured (disconnect (left w1 (r, l))))

  finish-Fulfilled :
      (action : ℕ) (p : Saved) (w w1 : World) (c : Cooperates p w) (l' : Link)
      → w1.sent ≡ w.sent
      → SameCache w.app (disconnect (left w1 (ok tt, l'))).app
      → Performed bo p.data'.shared_key p.data'.auth_id cmd_lock_action
          (action ∷ (put_le32 p.data'.app_id ++ 0 ∷ c.nonce_k))
          true
          c.answer
          c.answers
          c.rest
          (start_link w1 w1.app.usdio)
          l'
      → Fulfilled action p w c (finish w1 (ok tt, l'))
  unfolding disconnect
  finish-Fulfilled action p w w1 c l' before same f = record {
    success = refl;
    asking = f.asking;
    doing = f.doing;
    sent =
        (cached_rest l'.captured (disconnect (left w1 (ok tt, l')))).0
        ∙ ap (λ b. b ++ l'.sent) before
        ∙ ap (λ b. w.sent ++ b) f.sent;
    command = f.command;
    cache = elim (cached w.app l'.captured (disconnect (left w1 (ok tt, l'))) _ same refl) [
      | inl kept ↦ inl (sym f.reported ∙ kept.0, kept.1)
      | inr put ↦ inr (put.0, sym f.reported ∙ put.1, put.2)
    ];
  }

  act-Fulfilled :
      (action : ℕ) (p : Saved) (w w1 : World) (c : Cooperates p w)
      → p.data'.auth_id < 4294967296
      → IsIdle (start_link w1 w1.app.usdio)
      → w1.wires ≡ w.wires
      → w1.sent ≡ w.sent
      → SameCache w.app w1.app
      → Fulfilled action p w c (act bo action p w1)
  unfolding act on_usdio_link
  act-Fulfilled action p w w1 c bound idle wires before same =
      let d = p.data' in
      let l0 = start_link w1 w1.app.usdio in
      let task = Command.lock_action bo d.shared_key d.auth_id d.app_id action true in
      let (l', done, performed) =
        (commands_Performed bo d.shared_key d.auth_id d.app_id action 0 true c.nonce_k c.challenge
          c.answer c.answers c.rest l0 bound idle c.challenges c.concludes c.few
          (ap (λ ws. (next_wire ws).events) wires ∙ c.coming)).0 in
      let keeps = lock_action-Keeps bo d.shared_key d.auth_id d.app_id action true in
      let kept : SameCache w.app (disconnect (left w1 (task l0))).app =
        used-SameCache w.app task w1 keeps same in
      subst (λ r. Fulfilled action p w c (finish w1 r)) (sym done)
        (finish-Fulfilled action p w w1 c l' before
          (subst (λ r. SameCache w.app (disconnect (left w1 r)).app) done kept) performed)

  -- A lock action succeeds while the lock is in reach and keeps to its protocol.
  pub lock_action-Fulfilled :
      (action : ℕ) (p : Saved) (w : World)
      → get_pairing w.app.storage ≡ some p
      → p.data'.auth_id < 4294967296
      → w.app.conn ≡ none
      → (c : Cooperates p w) → Fulfilled action p w c (lock_action bo action w)
  unfolding lock_action
  lock_action-Fulfilled action p w paired bound free c =
      let w1 : World = record w {
        app = reached c.meeting p.addr w.app;
        moments = c.later;
        scans = drop 1 w.scans;
      } in
      let connected =
        connect-Reached c.meeting p c.later w free paired c.scanning c.others c.there in
      let same : SameCache w.app w1.app = (refl, refl, refl) in
      let idle : IsIdle (start_link w1 w1.app.usdio) = record {
        kept = subscribed-IsTransport c.meeting;
        empty = refl;
        accepting = c.accepting;
      } in
      let f = act-Fulfilled action p w w1 c bound idle refl refl same in
      subst
        (λ o.
          Fulfilled action p w c
            (when_paired o w (λ q. when_connected (connect false w) (act bo action q))))
        (sym paired)
        (subst (λ r. Fulfilled action p w c (when_connected r (act bo action p))) (sym connected) f)
