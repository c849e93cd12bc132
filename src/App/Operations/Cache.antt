-- ===== src/App/Operations/Cache.antt =====
-- src/nuki_app.c: which operations change the cache.
use nuki_nrf52_bridge.Base.{
  ℕ, ◌≡◌, refl, ◌⊎◌, inl, inr, Bool, true, false, Option, none, some, Result, ok, err, is_ok, arith,
}
use nuki_nrf52_bridge.Zephyr.{ByteOrder}
use nuki_nrf52_bridge.Storage.{Saved, get_pairing}
use nuki_nrf52_bridge.Protocol.State.{KeyturnerState}
use nuki_nrf52_bridge.Link.{Task}
use nuki_nrf52_bridge.Link.Keeps.{Keeps}
use nuki_nrf52_bridge.Command as Command
use nuki_nrf52_bridge.Command.Keeps.{lock_action-Keeps}
use nuki_nrf52_bridge.App.{App}
use nuki_nrf52_bridge.App.Connect.{Callback, callback}
use nuki_nrf52_bridge.App.Operations.{
  World, connect, disconnect, on_usdio_link, lock_action, act, calibrate, get_state, when_paired,
  when_connected, cache_captured,
}
use nuki_nrf52_bridge.App.Operations.Stable.{
  Stable, connect-Stable, disconnect-Stable, on_usdio_link-Stable, get_state-Stable,
  calibrate-Stable,
}

abbrev pub SameCache : App → App → Type 0
SameCache a b =
    (b.cached_state ≡ a.cached_state)
    × (b.cache_valid ≡ a.cache_valid)
    × (b.cache_uptime_ms ≡ a.cache_uptime_ms)

pub callback-SameCache :
    (a : App) (e : Callback) (b : App) → SameCache a b → SameCache a (callback e b)
unfolding callback
callback-SameCache a e b h = ground arith

pub SameCache-Stable : (a : App) → Stable (SameCache a)
SameCache-Stable a = record {
  by_callback = callback-SameCache a;
  by_attempt = λ need b h. h;
  by_timer = λ b h. h;
  by_taken = λ b h. h;
  by_give_up = λ b h. ground arith;
  by_parted = λ b h. h;
  by_disconnect = λ c b h. h;
  by_command = λ l _ b _ _ h. h;
  by_pairing = λ l _ b _ _ h. h;
}

-- What is done between the start of an operation and its end.
pub used-SameCache :
    (a : App) {A : Type 0} (task : Task A) (w : World)
    → Keeps task
    → SameCache a w.app
    → SameCache a (disconnect (on_usdio_link task w).2).app
used-SameCache a task w keeps h =
    disconnect-Stable (SameCache a) (SameCache-Stable a) (on_usdio_link task w).2
      (on_usdio_link-Stable (SameCache a) (SameCache-Stable a) task w keeps h)

pub connect-SameCache : (need_gdio : Bool) (w : World) → SameCache w.app (connect need_gdio w).1.app
connect-SameCache need_gdio w =
    connect-Stable (SameCache w.app) (SameCache-Stable w.app) need_gdio w (refl, refl, refl)

module _ (bo : ByteOrder) where
  act-SameCache :
      (a : App) (action : ℕ) (p : Saved) (w : World)
      → SameCache a w.app
      → (is_ok (act bo action p w).0 ≡ true) ⊎ SameCache a (act bo action p w).1.app
  unfolding act
  act-SameCache a action p w h =
      let d = p.data' in
      let task = Command.lock_action bo d.shared_key d.auth_id d.app_id action true in
      let (r, captured, w') = on_usdio_link task w in
      filled r captured (disconnect w') (
        used-SameCache a task w (lock_action-Keeps bo d.shared_key d.auth_id d.app_id action true)
          h)
    where
      filled :
          (r : Result (Unit {0})) (o : Option KeyturnerState) (w : World)
          → SameCache a w.app
          → (is_ok r ≡ true) ⊎ SameCache a (cache_captured r o w).app
      filled (ok _) o w k = inl refl
      filled (err e) o w k = inr k

  connected-SameCache :
      (a : App) (action : ℕ) (o : Option Saved) (r : Result (Unit {0}) × World) (w : World)
      → SameCache a w.app
      → SameCache a r.1.app
      → let out = when_paired o w (λ p. when_connected r (act bo action p)) in
        (is_ok out.0 ≡ true) ⊎ SameCache a out.1.app
  connected-SameCache a action none r w h k = inr h
  connected-SameCache a action (some p) (err x, w1) w h k = inr k
  connected-SameCache a action (some p) (ok _, w1) w h k = act-SameCache a action p w1 k

  -- In every world: a lock action succeeds or leaves the cache as it is, wherever it fails; and reading the
  -- state for a caller and calibrating leave the cache as it is, whether they succeed or fail.
  pub cache_kept :
      (action pin : ℕ) (w : World)
      → ((is_ok (lock_action bo action w).0 ≡ true)
          ⊎ SameCache w.app (lock_action bo action w).1.app)
        × SameCache w.app (get_state bo w).1.app
        × SameCache w.app (calibrate bo pin w).1.app
  unfolding lock_action
  cache_kept action pin w = (
    connected-SameCache w.app action (get_pairing w.app.storage) (connect false w) w
        (refl, refl, refl) (connect-SameCache false w),
    get_state-Stable (SameCache w.app) (SameCache-Stable w.app) bo w (refl, refl, refl),
    calibrate-Stable (SameCache w.app) (SameCache-Stable w.app) bo pin w (refl, refl, refl),
  )
