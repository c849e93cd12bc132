-- ===== src/App/Connect.antt =====
-- src/nuki_app.c: the callbacks of the Bluetooth stack, and the helpers that wait for them.
pub mod Shape
pub mod Reports
pub mod Held
use nuki_nrf52_bridge.Base.{
  ℕ, ◌+◌, Bool, true, false, ◌&&◌, ◌||◌, not, Option, none, some, List, [], ◌∷◌, ◌++◌, ◌==◌,
  if◌then◌else◌, Result, ok, err, Errno, eio, enotsup, enotconn, etimedout,
}
use nuki_nrf52_bridge.Pairing.{same_bytes}
use nuki_nrf52_bridge.Transport.{Transport}
use nuki_nrf52_bridge.Transport as T
use nuki_nrf52_bridge.Storage.{Saved, get_pairing}
use nuki_nrf52_bridge.App.{
  App, Request, scan_start, scan_stop, create, disconnect, discover_pairing, discover_keyturner,
  ask,
}
use nuki_nrf52_bridge.App.Adverts.{AdField, ad_has_uuid, ad_has_nuki_name}

-- A callback of the stack, with the answers that the stack gives to what the callback asks of it:
-- to `bt_le_scan_stop`, `bt_conn_le_create`, `bt_gatt_dm_start` and `bt_gatt_subscribe`. A characteristic
-- that discovery finds is the handle of its value.
pub data Callback : Type 0 where
  device_found : List ℕ → List AdField → Result (Unit {0}) → Result ℕ → Callback
  scan_timeout : Callback
  connected : ℕ → Bool → Result (Unit {0}) → Callback
  disconnected : ℕ → Callback
  gdio_discovered : ℕ → Option ℕ → Result (Unit {0}) → Result (Unit {0}) → Callback
  gdio_not_found gdio_discovery_error : ℕ → Result (Unit {0}) → Callback
  usdio_discovered : ℕ → Option ℕ → Result (Unit {0}) → Callback
  usdio_not_found usdio_discovery_error : ℕ → Callback
  time_passes : ℕ → Callback

abbrev pub finish_connect_attempt : Result (Unit {0}) → App → App
finish_connect_attempt e a =
    if a.connecting
    then record a { connecting = false; connect_err = e; scan_timer = false; ready_sem = true }
    else a

-- `nuki_keyturner_service_uuid`, the lowest byte first.
abbrev pub keyturner_service_uuid : List ℕ
keyturner_service_uuid =
    0x66 ∷ 0x9a ∷ 0x0c ∷ 0x20 ∷ 0x00 ∷ 0x08 ∷ 0x6c ∷ 0x91 ∷ 0xe4 ∷ 0x11 ∷ 0x01 ∷ 0x55 ∷ 0x00 ∷ 0xe2
    ∷ 0x2e ∷ 0xa9 ∷ []

-- `match` in `device_found`.
abbrev pub wanted : Option Saved → List ℕ → List AdField → Bool
wanted (some paired) addr ad = same_bytes paired.addr addr
wanted none addr ad = ad_has_uuid ad keyturner_service_uuid || ad_has_nuki_name ad

abbrev pub on_create : Result ℕ → App → App
on_create (ok c) a = record a { conn = some c }
on_create (err e) a = finish_connect_attempt (err e) a

abbrev pub on_scan_stop : List ℕ → Result (Unit {0}) → Result ℕ → App → App
on_scan_stop addr (ok _) created a =
    on_create created (ask (create addr) (record a { scan_timer = false }))
on_scan_stop addr (err e) created a = a

abbrev pub on_device : Option ℕ → List ℕ → List AdField → Result (Unit {0}) → Result ℕ → App → App
on_device (some c) addr ad stopped created a = a
on_device none addr ad stopped created a =
    if wanted (get_pairing a.storage) addr ad
    then on_scan_stop addr stopped created (ask scan_stop a)
    else a

-- What `bt_gatt_dm_start` answers: an error ends the attempt.
abbrev pub on_dm_start : Result (Unit {0}) → App → App
on_dm_start (ok _) a = a
on_dm_start (err e) a = finish_connect_attempt (err e) a

abbrev pub discover_keyturner_service : ℕ → Result (Unit {0}) → App → App
discover_keyturner_service c started a = on_dm_start started (ask (discover_keyturner c) a)

abbrev pub start_discovery : ℕ → Result (Unit {0}) → App → App
start_discovery c started a =
    if a.need_gdio
    then on_dm_start started (ask (discover_pairing c) a)
    else discover_keyturner_service c started a

-- `c == g_conn`.
abbrev pub is_conn : ℕ → Option ℕ → Bool
is_conn c none = false
is_conn c (some d) = c == d

-- A transport that could not subscribe is set up, but not ready.
abbrev pub on_gdio : Result (Unit {0}) × Transport → App → App
on_gdio (ok _, t) a = record a { gdio = t; gdio_ready = true }
on_gdio (err e, t) a = record a { gdio = t }

abbrev pub on_gdio_chrc : ℕ → Option ℕ → Result (Unit {0}) → App → App
on_gdio_chrc c none subscribed a = a
on_gdio_chrc c (some handle) subscribed a = on_gdio (T.init c handle subscribed) a

abbrev pub on_usdio : Result (Unit {0}) × Transport → App → App
on_usdio (ok _, t) a = finish_connect_attempt (ok tt) (record a { usdio = t; usdio_ready = true })
on_usdio (err e, t) a = finish_connect_attempt (err e) (record a { usdio = t })

abbrev pub on_usdio_chrc : ℕ → Option ℕ → Result (Unit {0}) → App → App
on_usdio_chrc c none subscribed a = finish_connect_attempt (err enotsup) a
on_usdio_chrc c (some handle) subscribed a = on_usdio (T.init c handle subscribed) a

-- `if (ready) { nuki_transport_release(t); ready = false; }`.
abbrev pub released : Bool → Transport → Transport
released ready t = if ready then T.release t else t

abbrev pub on_disconnected : App → App
on_disconnected a =
    let a' = record a {
      gdio = released a.gdio_ready a.gdio;
      gdio_ready = false;
      usdio = released a.usdio_ready a.usdio;
      usdio_ready = false;
      conn = none;
    } in
    let a'' = finish_connect_attempt (err enotconn) a' in record a'' { disconnected_sem = true }

-- One callback.
unfoldable pub callback : Callback → App → App
callback (device_found addr ad stopped created) a = on_device a.conn addr ad stopped created a
callback scan_timeout a = finish_connect_attempt (err etimedout) (ask scan_stop a)
callback (connected c true started) a = finish_connect_attempt (err eio) (record a { conn = none })
callback (connected c false started) a = if is_conn c a.conn then start_discovery c started a else a
callback (disconnected c) a = if is_conn c a.conn then on_disconnected a else a
callback (gdio_discovered c chrc subscribed started) a =
    discover_keyturner_service c started (on_gdio_chrc c chrc subscribed a)
callback (gdio_not_found c started) a = discover_keyturner_service c started a
callback (gdio_discovery_error c started) a = discover_keyturner_service c started a
callback (usdio_discovered c chrc subscribed) a = on_usdio_chrc c chrc subscribed a
callback (usdio_not_found c) a = finish_connect_attempt (err enotsup) (ask (disconnect c) a)
callback (usdio_discovery_error c) a = finish_connect_attempt (err eio) (ask (disconnect c) a)
callback (time_passes ms) a = record a { uptime_ms = a.uptime_ms + ms }

-- What happens next: a callback, the calling thread's turn, or the end of the time it waits at most.
pub data Moment : Type 0 where
  happens : Callback → Moment
  turn : Moment
  expired : Moment

-- `k_sem_take(&g_ready_sem, CONNECT_TIMEOUT)`: whether it was given in time, and what is still to come. The
-- thread looks at the semaphore when it is its turn, so callbacks may come between.
unfoldable pub await_ready : List Moment → App → Bool × App × List Moment
await_ready [] a = (a.ready_sem, record a { ready_sem = false }, [])
await_ready (happens e ∷ ms) a = await_ready ms (callback e a)
await_ready (turn ∷ ms) a =
    let later = await_ready ms a in
    if a.ready_sem then (true, record a { ready_sem = false }, ms) else later
await_ready (expired ∷ ms) a = (a.ready_sem, record a { ready_sem = false }, ms)

-- `k_sem_take(&g_disconnected_sem, DISCONNECT_TIMEOUT)`, whose answer is not looked at.
unfoldable pub await_disconnected : List Moment → App → App × List Moment
await_disconnected [] a = (record a { disconnected_sem = false }, [])
await_disconnected (happens e ∷ ms) a = await_disconnected ms (callback e a)
await_disconnected (turn ∷ ms) a =
    let later = await_disconnected ms a in
    if a.disconnected_sem then (record a { disconnected_sem = false }, ms) else later
await_disconnected (expired ∷ ms) a = (record a { disconnected_sem = false }, ms)

-- `if (g_conn) { bt_conn_disconnect(g_conn, ...); }`.
abbrev pub ask_disconnect : Option ℕ → App → App
ask_disconnect none a = a
ask_disconnect (some c) a = ask (disconnect c) a

abbrev pub give_up : App → App
give_up a = let a' = ask scan_stop (record a { connecting = false }) in ask_disconnect a'.conn a'

-- The end of `connect_to_lock`, once the wait is over.
abbrev pub on_awaited : Bool × App × List Moment → Result (Unit {0}) × App × List Moment
on_awaited (true, a, ms) = (a.connect_err, a, ms)
on_awaited (false, a, ms) = (err etimedout, give_up a, ms)

-- The variables at the start of an attempt.
abbrev pub attempt : Bool → App → App
attempt need_gdio a =
    ask scan_start (record a {
      ready_sem = false;
      connect_err = ok tt;
      need_gdio = need_gdio;
      connecting = true;
    })

-- `connect_to_lock`, given what `bt_le_scan_start` answers.
unfoldable pub connect_to_lock :
    Bool → Result (Unit {0}) → List Moment → App → Result (Unit {0}) × App × List Moment
connect_to_lock need_gdio (ok _) ms a =
    on_awaited (await_ready ms (record (attempt need_gdio a) { scan_timer = true }))
connect_to_lock need_gdio (err e) ms a = (err e, attempt need_gdio a, ms)

abbrev pub hang_up : Option ℕ → List Moment → App → App × List Moment
hang_up none ms a = (a, ms)
hang_up (some c) ms a =
    await_disconnected ms (ask (disconnect c) (record a { disconnected_sem = false }))

-- `disconnect_from_lock`.
unfoldable pub disconnect_from_lock : List Moment → App → App × List Moment
disconnect_from_lock ms a = hang_up a.conn ms a
