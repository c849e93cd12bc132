-- ===== src/App/Operations/Confirmed.antt =====
-- src/nuki_app.c: what an operation that succeeds has been through.
use nuki_nrf52_bridge.Base.{
  ℕ, ◌-◌, ◌/◌, ◌%◌, ◌^◌, ◌≡◌, refl, sym, ap, subst, ◌∙◌, ◌⊎◌, inl, inr, Bool, true, false, Option,
  none, some, List, ◌++◌, drop, Result, ok, err, is_ok, arith,
}
use nuki_nrf52_bridge.Zephyr.{ByteOrder}
use nuki_nrf52_bridge.Protocol.State.{KeyturnerState}
use nuki_nrf52_bridge.Link.{Link}
use nuki_nrf52_bridge.Command as Command
use nuki_nrf52_bridge.Command.Keeps.{lock_action-Keeps}
use nuki_nrf52_bridge.Command.Completed.{Acted, lock_action-Acted}
use nuki_nrf52_bridge.Storage.{Saved, get_pairing}
use nuki_nrf52_bridge.App.{App}
use nuki_nrf52_bridge.App.Connect.{Moment, connect_to_lock, disconnect_from_lock}
use nuki_nrf52_bridge.App.Connect.Reports.{
  Reported, Attempted, meanwhile, taken, started, connect_to_lock-Attempted, callback_success,
  is_discovery,
}
use nuki_nrf52_bridge.App.Operations.{
  World, connect, busy, left_usdio, disconnect, next_answer, start_link, on_usdio_link, lock_action,
  act, when_paired, when_connected, cache_captured, get_cached_state, put_cache,
}
use nuki_nrf52_bridge.App.Operations.Cache.{SameCache, used-SameCache, connect-SameCache}
use mathlib.Core.Bool.{true≢false}

-- A pairing was there, and the connection was made.
record Ready {A : Type 0} (o : Option Saved) (r : Result (Unit {0}) × World)
    (f : Saved → World → Result A × World) (out : Result A × World) : Type 0 where
  p : Saved
  paired : o ≡ some p
  w1 : World
  connected : r ≡ (ok tt, w1)
  done : f p w1 ≡ out

operation-Ready :
    {A : Type 0} (o : Option Saved) (r : Result (Unit {0}) × World)
    (f : Saved → World → Result A × World) (w w' : World) (x : A)
    → when_paired o w (λ p. when_connected r (f p)) ≡ (ok x, w')
    → Ready o r f (ok x, w')
operation-Ready none r f w w' x h = absurd (true≢false (sym (ap (λ q. is_ok q.0) h)))
operation-Ready (some p) (err e, w1) f w w' x h = absurd (true≢false (sym (ap (λ q. is_ok q.0) h)))
operation-Ready (some p) (ok _, w1) f w w' x h = record {
  p = p;
  paired = refl;
  w1 = w1;
  connected = refl;
  done = h;
}

-- What `connect` makes of the end of `connect_to_lock`.
abbrev leave : World → Result (Unit {0}) × App × List Moment → Result (Unit {0}) × World
leave w (r, a, ms) = (r, record w { app = a; moments = ms; scans = drop 1 w.scans })

-- A connection that was made, from `w` to `w1`: the scan started; the thread saw a first part of the moments to
-- come, in which the first callback to report was the discovery of the Keyturner service's characteristic, to
-- which the transport subscribed; and `w1` is what these callbacks make of the started attempt.
pub record Connected (need_gdio : Bool) (w w1 : World) : Type 0 where
  pub scanning : next_answer w.scans ≡ ok tt
  pub seen : List Moment
  pub split : w.moments ≡ seen ++ w1.moments
  pub report : Reported seen (started need_gdio w.app)
  pub discovery : is_discovery report.reporter ≡ true
  pub state : w1 ≡ record w {
    app = taken (meanwhile seen (started need_gdio w.app));
    moments = w1.moments;
    scans = drop 1 w.scans;
  }

Attempted-Connected :
    (need_gdio : Bool) (w w1 : World) (out : Result (Unit {0}) × App × List Moment)
    → next_answer w.scans ≡ ok tt
    → Attempted need_gdio w.moments w.app out
    → leave w out ≡ (ok tt, w1)
    → Connected need_gdio w w1
Attempted-Connected need_gdio w w1 out scanning t h =
    let success : out.0 ≡ ok tt = ap (λ q. q.0) h in
    elim t.outcome [
      | inl late ↦ absurd (true≢false (sym (ap is_ok (sym late.1 ∙ success))))
      | inr got ↦
          let r = got.0 in
          subst (Connected need_gdio w) (ap (λ q. q.1) h) (record {
            scanning = scanning;
            seen = t.seen;
            split = t.split;
            report = r;
            discovery = callback_success r.reporter _ r.pending.0 r.settled (sym got.1 ∙ success);
            state = ap (λ a. record w { app = a; moments = out.2; scans = drop 1 w.scans }) (got.2);
          })
    ]

connect-Connected :
    (need_gdio : Bool) (r : Result (Unit {0})) (w w1 : World)
    → next_answer w.scans ≡ r
    → leave w (connect_to_lock need_gdio r w.moments w.app) ≡ (ok tt, w1)
    → Connected need_gdio w w1
unfolding connect_to_lock
connect-Connected need_gdio (err e) w w1 scanning h =
    absurd (true≢false (sym (ap (λ q. is_ok q.0) h)))
connect-Connected need_gdio (ok _) w w1 scanning h =
    Attempted-Connected need_gdio w w1 (connect_to_lock need_gdio (ok tt) w.moments w.app) scanning
      (connect_to_lock-Attempted need_gdio w.moments w.app) h

pub connect-ok :
    (need_gdio : Bool) (w w1 : World) → connect need_gdio w ≡ (ok tt, w1) → Connected need_gdio w w1
unfolding connect
connect-ok need_gdio w w1 h = connect-Connected need_gdio (next_answer w.scans) w w1 refl h

-- Filling the cache touches nothing else of the world.
pub cached_rest :
    (o : Option KeyturnerState) (w : World)
    → let w' = cache_captured (ok tt) o w in
      (w'.sent ≡ w.sent)
      × (w'.scans ≡ w.scans)
      × (w'.wires ≡ w.wires)
      × (w'.moments ≡ w.moments)
      × (w'.app.conn ≡ w.app.conn)
      × (w'.app.requests ≡ w.app.requests)
cached_rest none w = (refl, refl, refl, refl, refl, refl)
cached_rest (some s) w = (refl, refl, refl, refl, refl, refl)

-- What hanging up makes of the application and the moments to come when the command is over.
abbrev pub parting : World → Link → App × List Moment
parting w1 l' = let (a, ms) = busy w1.moments w1.app in disconnect_from_lock ms (left_usdio l' a)

-- A lock action from `w` to `w'` that succeeded: `w1` is what the connection leaves, and `l'` what the command
-- leaves of the link that `w1` starts it with. The cache holds what it held, or the report that the lock sent
-- during the action, which is no second old.
pub record Confirmed (bo : ByteOrder) (action : ℕ) (w w' : World) : Type 0 where
  pub p : Saved
  pub paired : get_pairing w.app.storage ≡ some p
  pub w1 : World
  pub connection : Connected false w w1
  pub l' : Link
  pub acted :
      Acted bo p.data'.shared_key p.data'.auth_id p.data'.app_id action true
        (start_link w1 w1.app.usdio)
        l'
  pub sent : w'.sent ≡ w.sent ++ l'.sent
  pub used : (w'.scans ≡ drop 1 w.scans) × (w'.wires ≡ drop 1 w.wires)
  pub parted :
      (w'.moments ≡ (parting w1 l').1)
      × (w'.app.conn ≡ (parting w1 l').0.conn)
      × (w'.app.requests ≡ (parting w1 l').0.requests)
  pub cache :
      ((l'.captured ≡ none) × SameCache w.app w'.app)
      ⊎ ((s : KeyturnerState) × (l'.captured ≡ some s) × (get_cached_state w'.app ≡ ok (s, 0)))

fresh : (s : KeyturnerState) (a : App) → get_cached_state (put_cache s a) ≡ ok (s, 0)
unfolding get_cached_state
fresh s a = ap (λ t. ok (s, t)) (no_age a.uptime_ms)
  where
    no_age : (t : ℕ) → (t - t) / 1000 % 2 ^ 32 ≡ 0
    no_age t = omega arith

pub cached :
    (a : App) (captured : Option KeyturnerState) (w w' : World)
    → SameCache a w.app
    → cache_captured (ok tt) captured w ≡ w'
    → ((captured ≡ none) × SameCache a w'.app)
      ⊎ ((s : KeyturnerState) × (captured ≡ some s) × (get_cached_state w'.app ≡ ok (s, 0)))
cached a none w w' k h = inl (refl, subst (λ v. SameCache a v.app) h k)
cached a (some s) w w' k h = inr (s, refl, ap (λ v. get_cached_state v.app) (sym h) ∙ fresh s w.app)

module _ (bo : ByteOrder) where
  act-Confirmed :
      (action : ℕ) (p : Saved) (w w1 w' : World)
      → get_pairing w.app.storage ≡ some p
      → Connected false w w1
      → SameCache w.app w1.app
      → act bo action p w1 ≡ (ok tt, w')
      → Confirmed bo action w w'
  unfolding act on_usdio_link disconnect
  act-Confirmed action p w w1 w' paired connection same h =
      let d = p.data' in
      let task = Command.lock_action bo d.shared_key d.auth_id d.app_id action true in
      let l0 = start_link w1 w1.app.usdio in
      let l' = (task l0).1 in
      let done : (task l0).0 ≡ ok tt = ap (λ q. q.0) h in
      let w2 = disconnect (on_usdio_link task w1).2 in
      let there : cache_captured (ok tt) l'.captured w2 ≡ w' =
        ap (λ r. cache_captured r l'.captured w2) (sym done) ∙ ap (λ q. q.1) h in
      let (sent, scans, wires, moments, conn, requests) = cached_rest l'.captured w2 in
      let from = connection.state in
      record {
        p = p;
        paired = paired;
        w1 = w1;
        connection = connection;
        l' = l';
        acted =
            lock_action-Acted bo d.shared_key d.auth_id d.app_id action true l0 l'
              (ap (λ r. (r, l')) done);
        sent = ap (λ v. v.sent) (sym there) ∙ sent ∙ ap (λ v. v.sent ++ l'.sent) from;
        used = (
          ap (λ v. v.scans) (sym there) ∙ scans ∙ ap (λ v. v.scans) from,
          ap (λ v. v.wires) (sym there) ∙ wires ∙ ap (λ v. drop 1 v.wires) from,
        );
        parted = (
          ap (λ v. v.moments) (sym there) ∙ moments,
          ap (λ v. v.app.conn) (sym there) ∙ conn,
          ap (λ v. v.app.requests) (sym there) ∙ requests,
        );
        cache =
            cached w.app l'.captured w2 w'
              (used-SameCache w.app task w1
                (lock_action-Keeps bo d.shared_key d.auth_id d.app_id action true) same)
              there;
      }

  -- When `nuki_app_lock_action` gives 0: the bridge was paired; the scan was started, and the first callback to
  -- report among the next moments of the schedule was a discovery of the lock's encrypted characteristic; over
  -- the transport that these callbacks left, with the next of the wires, the lock confirmed the action with an
  -- authenticated Status COMPLETE under the stored key; the messages of that command are all that was sent,
  -- and one scan and one wire were used; then the bridge hung up, as `disconnect_from_lock` does; and the cache answers with the report that the lock sent during the
  -- action, at an age of 0 seconds, or was left alone if it sent none.
  pub lock_action-Confirmed :
      (action : ℕ) (w w' : World) → lock_action bo action w ≡ (ok tt, w') → Confirmed bo action w w'
  unfolding lock_action
  lock_action-Confirmed action w w' h =
      let r =
        operation-Ready (get_pairing w.app.storage) (connect false w) (act bo action) w w' tt h in
      act-Confirmed action r.p w r.w1 w' r.paired (connect-ok false w r.w1 r.connected)
        (subst (λ v. SameCache w.app v.app) (ap (λ q. q.1) r.connected) (connect-SameCache false w))
        r.done
