-- ===== src/App/Operations/Stable.antt =====
-- src/nuki_app.c: what holds of the application through an operation if each of its steps keeps it.
use nuki_nrf52_bridge.Base.{
  ℕ, Bool, true, false, Option, none, some, List, [], ◌∷◌, Result, ok, err, if_elim,
}
use nuki_nrf52_bridge.Zephyr.{ByteOrder}
use nuki_nrf52_bridge.Protocol.State.{KeyturnerState}
use nuki_nrf52_bridge.Crypto.Psa.{Psa}
use nuki_nrf52_bridge.Transport.Buffer.{IsTransport}
use nuki_nrf52_bridge.Link.{Link, Task}
use nuki_nrf52_bridge.Link.Keeps.{Keeps}
use nuki_nrf52_bridge.Command.Keeps.{get_state-Keeps, lock_action-Keeps, calibrate-Keeps}
use nuki_nrf52_bridge.Pairing.{PairingData, run}
use nuki_nrf52_bridge.Pairing.Keeps.{run-Keeps}
use nuki_nrf52_bridge.Storage.{Saved, Storage, get_pairing}
use nuki_nrf52_bridge.App.{App, ask}
use nuki_nrf52_bridge.App as App
use nuki_nrf52_bridge.App.Connect.{
  Callback, Moment, happens, turn, expired, callback, await_ready, await_disconnected, attempt,
  give_up, on_awaited, connect_to_lock, disconnect_from_lock, hang_up,
}
use nuki_nrf52_bridge.App.Operations.{
  World, connect, disconnect, busy, on_usdio_link, left_usdio, read_state, act, turn_fully,
  get_state, lock_action, calibrate, next_answer, start_link, put_cache, cache_captured,
  when_paired, when_connected, on_gdio_link, left_gdio, save, handshake, pair,
}

-- Every step of an operation but those on the cache keeps the property.
pub record Stable (P : App → Type 0) : Type 0 where
  pub by_callback : (e : Callback) (a : App) → P a → P (callback e a)
  pub by_attempt : (need_gdio : Bool) (a : App) → P a → P (attempt need_gdio a)
  pub by_timer : (a : App) → P a → P (record a { scan_timer = true })
  pub by_taken : (a : App) → P a → P (record a { ready_sem = false })
  pub by_give_up : (a : App) → P a → P (give_up a)
  pub by_parted : (a : App) → P a → P (record a { disconnected_sem = false })
  pub by_disconnect : (c : ℕ) (a : App) → P a → P (ask (App.disconnect c) a)
  pub by_command :
      (l : Link) (b a : App)
      → (IsTransport b.usdio → IsTransport l.transport)
      → P b
      → P a
      → P (left_usdio l a)
  pub by_pairing :
      (l : Link) (b a : App)
      → (IsTransport b.gdio → IsTransport l.transport)
      → P b
      → P a
      → P (left_gdio l a)

module _ (P : App → Type 0) (s : Stable P) where
  await_ready-Stable : (ms : List Moment) (a : App) → P a → P (await_ready ms a).1
  unfolding await_ready
  await_ready-Stable [] a h = s.by_taken a h
  await_ready-Stable (happens e ∷ ms) a h =
      await_ready-Stable ms (callback e a) (s.by_callback e a h)
  await_ready-Stable (turn ∷ ms) a h =
      if_elim (λ (o : Bool × App × List Moment). P o.1) a.ready_sem
        (true, record a { ready_sem = false }, ms) (await_ready ms a) (λ _. s.by_taken a h)
        (λ _. await_ready-Stable ms a h)
  await_ready-Stable (expired ∷ ms) a h = s.by_taken a h

  await_disconnected-Stable : (ms : List Moment) (a : App) → P a → P (await_disconnected ms a).0
  unfolding await_disconnected
  await_disconnected-Stable [] a h = s.by_parted a h
  await_disconnected-Stable (happens e ∷ ms) a h =
      await_disconnected-Stable ms (callback e a) (s.by_callback e a h)
  await_disconnected-Stable (turn ∷ ms) a h =
      if_elim (λ (o : App × List Moment). P o.0) a.disconnected_sem
        (record a { disconnected_sem = false }, ms) (await_disconnected ms a) (λ _. s.by_parted a h)
        (λ _. await_disconnected-Stable ms a h)
  await_disconnected-Stable (expired ∷ ms) a h = s.by_parted a h

  busy-Stable : (ms : List Moment) (a : App) → P a → P (busy ms a).0
  unfolding busy
  busy-Stable [] a h = h
  busy-Stable (happens e ∷ ms) a h = busy-Stable ms (callback e a) (s.by_callback e a h)
  busy-Stable (turn ∷ ms) a h = h
  busy-Stable (expired ∷ ms) a h = busy-Stable ms a h

  on_awaited-Stable : (o : Bool × App × List Moment) → P o.1 → P (on_awaited o).1
  on_awaited-Stable (true, a, ms) h = h
  on_awaited-Stable (false, a, ms) h = s.by_give_up a h

  connect_to_lock-Stable :
      (need_gdio : Bool) (r : Result (Unit {0})) (ms : List Moment) (a : App)
      → P a
      → P (connect_to_lock need_gdio r ms a).1
  unfolding connect_to_lock
  connect_to_lock-Stable need_gdio (ok _) ms a h =
      let begun = s.by_timer (attempt need_gdio a) (s.by_attempt need_gdio a h) in
      on_awaited-Stable (await_ready ms (record (attempt need_gdio a) { scan_timer = true }))
        (await_ready-Stable ms (record (attempt need_gdio a) { scan_timer = true }) begun)
  connect_to_lock-Stable need_gdio (err e) ms a h = s.by_attempt need_gdio a h

  hang_up-Stable : (c : Option ℕ) (ms : List Moment) (a : App) → P a → P (hang_up c ms a).0
  hang_up-Stable none ms a h = h
  hang_up-Stable (some c) ms a h =
      await_disconnected-Stable ms _ (s.by_disconnect c _ (s.by_parted a h))

  pub connect-Stable : (need_gdio : Bool) (w : World) → P w.app → P (connect need_gdio w).1.app
  unfolding connect
  connect-Stable need_gdio w h =
      connect_to_lock-Stable need_gdio (next_answer w.scans) w.moments w.app h

  pub disconnect-Stable : (w : World) → P w.app → P (disconnect w).app
  unfolding disconnect disconnect_from_lock
  disconnect-Stable w h = hang_up-Stable w.app.conn w.moments w.app h

  pub on_usdio_link-Stable :
      {A : Type 0} (task : Task A) (w : World)
      → Keeps task
      → P w.app
      → P (on_usdio_link task w).2.app
  unfolding on_usdio_link
  on_usdio_link-Stable task w keeps h =
      s.by_command (task (start_link w w.app.usdio)).1 w.app (busy w.moments w.app).0
        (keeps (start_link w w.app.usdio)) h (busy-Stable w.moments w.app h)

  pub on_gdio_link-Stable :
      {A : Type 0} (task : Task A) (w : World)
      → Keeps task
      → P w.app
      → P (on_gdio_link task w).1.app
  unfolding on_gdio_link
  on_gdio_link-Stable task w keeps h =
      s.by_pairing (task (start_link w w.app.gdio)).1 w.app (busy w.moments w.app).0
        (keeps (start_link w w.app.gdio)) h (busy-Stable w.moments w.app h)

  -- An operation that needs a pairing and a connection.
  pub operation-Stable :
      {A : Type 0} (o : Option Saved) (r : Result (Unit {0}) × World)
      (f : Saved → World → Result A × World) (w : World)
      → ((p : Saved) (w : World) → P w.app → P (f p w).1.app)
      → P w.app
      → P r.1.app
      → P (when_paired o w (λ p. when_connected r (f p))).1.app
  operation-Stable none r f w keep h k = h
  operation-Stable (some p) (ok _, w') f w keep h k = keep p w' k
  operation-Stable (some p) (err e, w') f w keep h k = k

  module _ (bo : ByteOrder) where
    pub get_state-Stable : (w : World) → P w.app → P (get_state bo w).1.app
    unfolding get_state read_state
    get_state-Stable w h =
        operation-Stable (get_pairing w.app.storage) (connect false w) (read_state bo) w
          (λ p w' k.
            disconnect-Stable _
              (on_usdio_link-Stable _ w' (get_state-Keeps bo p.data'.shared_key p.data'.auth_id) k))
          h (connect-Stable false w h)

    pub calibrate-Stable : (pin : ℕ) (w : World) → P w.app → P (calibrate bo pin w).1.app
    unfolding calibrate turn_fully
    calibrate-Stable pin w h =
        operation-Stable (get_pairing w.app.storage) (connect false w) (turn_fully bo pin) w
          (λ p w' k. disconnect-Stable _ (
            on_usdio_link-Stable _ w' (calibrate-Keeps bo p.data'.shared_key p.data'.auth_id pin)
              k))
          h (connect-Stable false w h)

    module _ (by_cache : (k : KeyturnerState) (a : App) → P a → P (put_cache k a)) where
      cache_captured-Stable :
          (r : Result (Unit {0})) (o : Option KeyturnerState) (w : World)
          → P w.app
          → P (cache_captured r o w).app
      cache_captured-Stable (ok _) (some k) w h = by_cache k w.app h
      cache_captured-Stable (ok _) none w h = h
      cache_captured-Stable (err e) o w h = h

      pub lock_action-Stable :
          (action : ℕ) (w : World) → P w.app → P (lock_action bo action w).1.app
      unfolding lock_action act
      lock_action-Stable action w h =
          operation-Stable (get_pairing w.app.storage) (connect false w) (act bo action) w
            (λ p w' k.
              let d = p.data' in
              let keeps = lock_action-Keeps bo d.shared_key d.auth_id d.app_id action true in
              cache_captured-Stable _ _ _ (disconnect-Stable _ (on_usdio_link-Stable _ w' keeps k)))
            h (connect-Stable false w h)

    module _ (psa : Psa)
        (by_saved : (v : Storage) (a : App) → P a → P (record a { storage = v })) where
      save-Stable : (d : Result PairingData) (w : World) → P w.app → P (save bo psa d w).1.app
      save-Stable (ok d) w h = by_saved _ w.app h
      save-Stable (err e) w h = h

      handshake-Stable : (w : World) → P w.app → P (handshake bo psa w).1.app
      unfolding handshake
      handshake-Stable w h =
          let (d, w') = on_gdio_link (run bo psa) w in
          let kept = save-Stable d w' (on_gdio_link-Stable (run bo psa) w (run-Keeps bo psa) h) in
          if_elim (λ (o : Result (Unit {0}) × World). P o.1.app) w.app.gdio_ready _ _
            (λ _. disconnect-Stable _ kept) (λ _. disconnect-Stable w h)

      connected-Stable :
          (r : Result (Unit {0}) × World)
          → P r.1.app
          → P (when_connected r (handshake bo psa)).1.app
      connected-Stable (ok _, w) h = handshake-Stable w h
      connected-Stable (err e, w) h = h

      pub pair-Stable : (w : World) → P w.app → P (pair bo psa w).1.app
      unfolding pair
      pair-Stable w h = connected-Stable (connect true w) (connect-Stable true w h)
