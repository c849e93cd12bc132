-- ===== src/App/Connect/Shape.antt =====
-- src/nuki_app.c: what holds of the application's variables at all times, and the callbacks.
use nuki_nrf52_bridge.Base.{
  ℕ, ◌≡◌, refl, sym, ◌≤◌, Bool, true, false, Option, none, some, List, Result, ok, err, subst, ◌∙◌,
  etimedout, enotconn, eio, enotsup, arith, if_elim,
}
use nuki_nrf52_bridge.Transport.{Transport}
use nuki_nrf52_bridge.Transport as T
use nuki_nrf52_bridge.Transport.Buffer.{IsTransport}
use nuki_nrf52_bridge.Storage.{get_pairing}
use nuki_nrf52_bridge.App.{
  App, Request, scan_stop, disconnect, discover_pairing, discover_keyturner, ask,
}
use nuki_nrf52_bridge.App.Adverts.{AdField}
use nuki_nrf52_bridge.App.Connect.{
  Callback, device_found, scan_timeout, connected, disconnected, gdio_discovered, gdio_not_found,
  gdio_discovery_error, usdio_discovered, usdio_not_found, usdio_discovery_error, time_passes,
  callback, released, finish_connect_attempt, on_gdio, on_usdio, on_dm_start, on_create, on_device,
  on_disconnected, discover_keyturner_service, wanted, is_conn, ask_disconnect,
}
use mathlib.Core.Bool.{true≢false}

-- Both receive buffers have their size and are not overfull; no report of an attempt is pending while the
-- attempt goes on; the counter of retries is within its limit; the cache was not filled in the future.
pub record IsApp (a : App) : Type 0 where
  pub gdio : IsTransport a.gdio
  pub usdio : IsTransport a.usdio
  pub pending : a.connecting ≡ true → a.ready_sem ≡ false
  pub retries : a.state_poll_retries ≤ 3
  pub cached : a.cache_uptime_ms ≤ a.uptime_ms

on_gdio-IsApp :
    (c handle : ℕ) (r : Result (Unit {0})) (a : App)
    → IsApp a
    → IsApp (on_gdio (T.init c handle r) a)
unfolding T.init
on_gdio-IsApp c handle (ok _) a h = record {
  gdio = record { size = refl; fill = omega arith };
  usdio = h.usdio;
  pending = h.pending;
  retries = h.retries;
  cached = h.cached;
}
on_gdio-IsApp c handle (err e) a h = record {
  gdio = record { size = refl; fill = omega arith };
  usdio = h.usdio;
  pending = h.pending;
  retries = h.retries;
  cached = h.cached;
}

finish-IsApp : (r : Result (Unit {0})) (a : App) → IsApp a → IsApp (finish_connect_attempt r a)
finish-IsApp r a h =
    if_elim IsApp a.connecting _ a
      (λ _. record {
        gdio = h.gdio;
        usdio = h.usdio;
        pending = λ e. absurd (true≢false (sym e));
        retries = h.retries;
        cached = h.cached;
      })
      (λ _. h)

-- An application that differs in what the invariant does not speak of.
pub like-IsApp :
    (a b : App)
    → (b.gdio ≡ a.gdio) × (b.usdio ≡ a.usdio)
    → (b.connecting ≡ a.connecting) × (b.ready_sem ≡ a.ready_sem)
    → (b.state_poll_retries ≡ a.state_poll_retries)
      × (b.cache_uptime_ms ≡ a.cache_uptime_ms)
      × (b.uptime_ms ≡ a.uptime_ms)
    → IsApp a
    → IsApp b
like-IsApp a b t p n h = record {
  gdio = subst IsTransport (sym t.0) h.gdio;
  usdio = subst IsTransport (sym t.1) h.usdio;
  pending = λ e. p.1 ∙ h.pending (sym p.0 ∙ e);
  retries = omega (arith, h.retries, n.0);
  cached = omega (arith, h.cached, n.1, n.2);
}

fresh_usdio-IsApp :
    (c handle : ℕ) (r : Result (Unit {0})) (ready : Bool) (a : App)
    → IsApp a
    → IsApp (record a { usdio = (T.init c handle r).1; usdio_ready = ready })
unfolding T.init
fresh_usdio-IsApp c handle r ready a h = record {
  gdio = h.gdio;
  usdio = record { size = refl; fill = omega arith };
  pending = h.pending;
  retries = h.retries;
  cached = h.cached;
}

on_usdio-IsApp :
    (c handle : ℕ) (r : Result (Unit {0})) (a : App)
    → IsApp a
    → IsApp (on_usdio (T.init c handle r) a)
unfolding T.init
on_usdio-IsApp c handle (ok _) a h =
    finish-IsApp (ok tt) _ (fresh_usdio-IsApp c handle (ok tt) true a h)
on_usdio-IsApp c handle (err e) a h =
    finish-IsApp (err e) _ (fresh_usdio-IsApp c handle (err e) a.usdio_ready a h)

released-IsTransport :
    (ready : Bool) (t : Transport) → IsTransport t → IsTransport (released ready t)
unfolding T.release
released-IsTransport true t h = record { size = h.size; fill = h.fill }
released-IsTransport false t h = h

pub asked-IsApp : (r : Request) (a : App) → IsApp a → IsApp (ask r a)
asked-IsApp r a h = like-IsApp a (ask r a) (refl, refl) (refl, refl) (refl, refl, refl) h

on_dm_start-IsApp : (r : Result (Unit {0})) (a : App) → IsApp a → IsApp (on_dm_start r a)
on_dm_start-IsApp (ok _) a h = h
on_dm_start-IsApp (err e) a h = finish-IsApp (err e) a h

on_create-IsApp : (r : Result ℕ) (a : App) → IsApp a → IsApp (on_create r a)
on_create-IsApp (ok c) a h = like-IsApp a _ (refl, refl) (refl, refl) (refl, refl, refl) h
on_create-IsApp (err e) a h = finish-IsApp (err e) a h

on_device-IsApp :
    (o : Option ℕ) (addr : List ℕ) (ad : List AdField) (stopped : Result (Unit {0}))
    (created : Result ℕ) (a : App)
    → IsApp a
    → IsApp (on_device o addr ad stopped created a)
on_device-IsApp (some c) addr ad stopped created a h = h
on_device-IsApp none addr ad (ok _) created a h =
    if_elim IsApp (wanted (get_pairing a.storage) addr ad) _ a
      (λ _.
        on_create-IsApp created _ (like-IsApp a _ (refl, refl) (refl, refl) (refl, refl, refl) h))
      (λ _. h)
on_device-IsApp none addr ad (err e) created a h =
    if_elim IsApp (wanted (get_pairing a.storage) addr ad) _ a (λ _. asked-IsApp scan_stop a h)
      (λ _. h)

on_disconnected-IsApp : (a : App) → IsApp a → IsApp (on_disconnected a)
on_disconnected-IsApp a h =
    let left : App = record a {
      gdio = released a.gdio_ready a.gdio;
      gdio_ready = false;
      usdio = released a.usdio_ready a.usdio;
      usdio_ready = false;
      conn = none;
    } in
    like-IsApp (finish_connect_attempt (err enotconn) left) _ (refl, refl) (refl, refl)
      (refl, refl, refl)
      (finish-IsApp (err enotconn) left (record {
        gdio = released-IsTransport a.gdio_ready a.gdio h.gdio;
        usdio = released-IsTransport a.usdio_ready a.usdio h.usdio;
        pending = h.pending;
        retries = h.retries;
        cached = h.cached;
      }))

discover-IsApp :
    (c : ℕ) (r : Result (Unit {0})) (a : App) → IsApp a → IsApp (discover_keyturner_service c r a)
discover-IsApp c r a h = on_dm_start-IsApp r _ (asked-IsApp (discover_keyturner c) a h)

pub callback-IsApp : (e : Callback) (a : App) → IsApp a → IsApp (callback e a)
unfolding callback
callback-IsApp (device_found addr ad stopped created) a h =
    on_device-IsApp a.conn addr ad stopped created a h
callback-IsApp scan_timeout a h = finish-IsApp (err etimedout) _ (asked-IsApp scan_stop a h)
callback-IsApp (connected c true started) a h =
    finish-IsApp (err eio) _ (like-IsApp a _ (refl, refl) (refl, refl) (refl, refl, refl) h)
callback-IsApp (connected c false started) a h =
    if_elim IsApp (is_conn c a.conn) _ a
      (λ _.
        if_elim IsApp a.need_gdio _ _
          (λ _. on_dm_start-IsApp started _ (asked-IsApp (discover_pairing c) a h))
          (λ _. discover-IsApp c started a h))
      (λ _. h)
callback-IsApp (disconnected c) a h =
    if_elim IsApp (is_conn c a.conn) _ a (λ _. on_disconnected-IsApp a h) (λ _. h)
callback-IsApp (gdio_discovered c none subscribed started) a h = discover-IsApp c started a h
callback-IsApp (gdio_discovered c (some handle) subscribed started) a h =
    discover-IsApp c started _ (on_gdio-IsApp c handle subscribed a h)
callback-IsApp (gdio_not_found c started) a h = discover-IsApp c started a h
callback-IsApp (gdio_discovery_error c started) a h = discover-IsApp c started a h
callback-IsApp (usdio_discovered c none subscribed) a h = finish-IsApp (err enotsup) a h
callback-IsApp (usdio_discovered c (some handle) subscribed) a h =
    on_usdio-IsApp c handle subscribed a h
callback-IsApp (usdio_not_found c) a h =
    finish-IsApp (err enotsup) _ (asked-IsApp (disconnect c) a h)
callback-IsApp (usdio_discovery_error c) a h =
    finish-IsApp (err eio) _ (asked-IsApp (disconnect c) a h)
callback-IsApp (time_passes ms) a h = record {
  gdio = h.gdio;
  usdio = h.usdio;
  pending = h.pending;
  retries = h.retries;
  cached = omega (arith, h.cached);
}

pub ask_disconnect-IsApp : (o : Option ℕ) (a : App) → IsApp a → IsApp (ask_disconnect o a)
ask_disconnect-IsApp none a h = h
ask_disconnect-IsApp (some c) a h = asked-IsApp (disconnect c) a h
