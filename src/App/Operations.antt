-- ===== src/App/Operations.antt =====
-- src/nuki_app.c: pairing, reading the state, lock actions and calibration, each over a connection of its
-- own, and the cache. `g_op_lock` lets one operation run at a time, so each is a function of the world.
pub mod Stable
pub mod Invariant
pub mod Peers
pub mod Cache
pub mod Confirmed
pub mod Paired
pub mod Reached
pub mod Fulfilled
pub mod Timely
pub mod Introduced
use nuki_nrf52_bridge.Base.{
  ℕ, ◌+◌, ◌-◌, ◌/◌, ◌%◌, ◌^◌, Bool, true, false, Option, none, some, List, [], ◌∷◌, ◌++◌, drop,
  if◌then◌else◌, Result, ok, err, Errno, enoent, enotsup, enodata,
}
use nuki_nrf52_bridge.Zephyr.{ByteOrder}
use nuki_nrf52_bridge.Crypto.Psa.{Psa}
use nuki_nrf52_bridge.Protocol.State.{KeyturnerState}
use nuki_nrf52_bridge.Transport.{Transport, Event}
use nuki_nrf52_bridge.Link.{Link, Task}
use nuki_nrf52_bridge.Pairing.{PairingData, run}
use nuki_nrf52_bridge.Command as Command
use nuki_nrf52_bridge.Storage.{Saved, Storage, get_pairing, save_pairing}
use nuki_nrf52_bridge.App.{App}
use nuki_nrf52_bridge.App.Connect.{
  Moment, happens, turn, expired, callback, connect_to_lock, disconnect_from_lock,
}

-- What the other threads and the stack do while one command runs.
pub record Wire : Type 0 where
  pub events : List Event
  pub accepts : List (Result (Unit {0}))
  pub entropy : List ℕ

-- The application, and what is still to come: callbacks and turns; the answers of `bt_le_scan_start`; what
-- happens during each command; the answers of `settings_save_one`. `dst` is the address that
-- `bt_conn_get_dst` gives, which nothing is known of without a connection, where the code passes NULL; `sent` is
-- what was handed to `bt_gatt_write` so far.
pub record World : Type 0 where
  pub app : App
  pub moments : List Moment
  pub scans : List (Result (Unit {0}))
  pub wires : List Wire
  pub flash : List (Result (Unit {0}))
  pub dst : Option ℕ → List ℕ
  pub sent : List (List ℕ)

-- The first of the answers to come; without one the call succeeds.
abbrev pub next_answer : List (Result (Unit {0})) → Result (Unit {0})
next_answer [] = ok tt
next_answer (r ∷ rs) = r

-- Without one the lock is silent.
abbrev pub next_wire : List Wire → Wire
next_wire [] = record { events = []; accepts = []; entropy = [] }
next_wire (x ∷ xs) = x

-- The callbacks until it is the calling thread's turn.
unfoldable pub busy : List Moment → App → App × List Moment
busy [] a = (a, [])
busy (happens e ∷ ms) a = busy ms (callback e a)
busy (turn ∷ ms) a = (a, ms)
busy (expired ∷ ms) a = busy ms a

abbrev pub link_of : Wire → Transport → Link
link_of x t = record {
  transport = t;
  schedule = x.events;
  accepts = x.accepts;
  entropy = x.entropy;
  sent = [];
  captured = none;
}

abbrev pub start_link : World → Transport → Link
start_link w t = link_of (next_wire w.wires) t

abbrev pub after_command : World → Link → App → List Moment → World
after_command w l a ms = record w {
  app = a;
  moments = ms;
  wires = drop 1 w.wires;
  sent = w.sent ++ l.sent;
}

-- The buffer is what the command leaves; whether the transport is still held, what the callbacks leave.
abbrev pub left_usdio : Link → App → App
left_usdio l a = record a { usdio = record (l.transport) { conn = a.usdio.conn } }

abbrev pub left_gdio : Link → App → App
left_gdio l a = record a { gdio = record (l.transport) { conn = a.gdio.conn } }

-- A command over the transport of the Keyturner service, and over that of the pairing service.
unfoldable pub on_usdio_link :
    {A : Type 0} → Task A → World → Result A × Option KeyturnerState × World
on_usdio_link task w =
    let (r, l) = task (start_link w w.app.usdio) in
    let (a, ms) = busy w.moments w.app in (r, l.captured, after_command w l (left_usdio l a) ms)

unfoldable pub on_gdio_link : {A : Type 0} → Task A → World → Result A × World
on_gdio_link task w =
    let (r, l) = task (start_link w w.app.gdio) in
    let (a, ms) = busy w.moments w.app in (r, after_command w l (left_gdio l a) ms)

unfoldable pub connect : Bool → World → Result (Unit {0}) × World
connect need_gdio w =
    let (r, a, ms) = connect_to_lock need_gdio (next_answer w.scans) w.moments w.app in
    (r, record w { app = a; moments = ms; scans = drop 1 w.scans })

unfoldable pub disconnect : World → World
disconnect w =
    let (a, ms) = disconnect_from_lock w.moments w.app in record w { app = a; moments = ms }

abbrev pub when_connected :
    {A : Type 0} → Result (Unit {0}) × World → (World → Result A × World) → Result A × World
when_connected (ok _, w) f = f w
when_connected (err e, w) f = (err e, w)

abbrev pub when_paired :
    {A : Type 0} → Option Saved → World → (Saved → Result A × World) → Result A × World
when_paired none w f = (err enoent, w)
when_paired (some p) w f = f p

-- A report goes to the cache, with the time.
abbrev pub put_cache : KeyturnerState → App → App
put_cache s a = record a { cached_state = s; cache_valid = true; cache_uptime_ms = a.uptime_ms }

abbrev pub cache_captured : Result (Unit {0}) → Option KeyturnerState → World → World
cache_captured (ok _) (some s) w = record w { app = put_cache s w.app }
cache_captured (ok _) none w = w
cache_captured (err e) captured w = w

-- `nuki_app_is_connected`, `nuki_app_is_ready` and `nuki_app_is_paired`.
abbrev pub is_some {ℓ} : {A : Type ℓ} → Option A → Bool
is_some none = false
is_some (some a) = true

unfoldable pub is_connected : App → Bool
is_connected a = is_some a.conn

unfoldable pub is_ready : App → Bool
is_ready a = if is_some a.conn then a.usdio_ready else false

unfoldable pub is_paired : App → Bool
is_paired a = is_some (get_pairing a.storage)

-- `nuki_app_get_cached_state`: the state, and its age in seconds as a 32-bit pattern. The clock of the
-- kernel does not go back.
unfoldable pub get_cached_state : App → Result (KeyturnerState × ℕ)
get_cached_state a =
    if a.cache_valid
    then ok (a.cached_state, (a.uptime_ms - a.cache_uptime_ms) / 1000 % 2 ^ 32)
    else err enodata

module _ (bo : ByteOrder) where
  -- `get_state_locked` once connected.
  unfoldable pub read_state : Saved → World → Result KeyturnerState × World
  read_state p w =
      let (r, _, w') = on_usdio_link (Command.get_state bo p.data'.shared_key p.data'.auth_id) w in
      (r, disconnect w')

  -- `nuki_app_get_state`.
  unfoldable pub get_state : World → Result KeyturnerState × World
  get_state w =
      when_paired (get_pairing w.app.storage) w λ p. when_connected (connect false w) (read_state p)

  -- `lock_action_locked` once connected.
  unfoldable pub act : ℕ → Saved → World → Result (Unit {0}) × World
  act action p w =
      let task =
        Command.lock_action bo p.data'.shared_key p.data'.auth_id p.data'.app_id action true in
      let (r, captured, w') = on_usdio_link task w in (r, cache_captured r captured (disconnect w'))

  -- `nuki_app_lock_action`.
  unfoldable pub lock_action : ℕ → World → Result (Unit {0}) × World
  lock_action action w =
      when_paired (get_pairing w.app.storage) w λ p. when_connected (connect false w) (act action p)

  -- `calibrate_locked` once connected.
  unfoldable pub turn_fully : ℕ → Saved → World → Result (Unit {0}) × World
  turn_fully security_pin p w =
      let task = Command.calibrate bo p.data'.shared_key p.data'.auth_id security_pin in
      let (r, _, w') = on_usdio_link task w in (r, disconnect w')

  -- `nuki_app_calibrate`.
  unfoldable pub calibrate : ℕ → World → Result (Unit {0}) × World
  calibrate security_pin w =
      when_paired (get_pairing w.app.storage) w
        λ p. when_connected (connect false w) (turn_fully security_pin p)

  module _ (psa : Psa) where
    -- The pairing data, with the lock's address, is saved.
    abbrev pub save : Result PairingData → World → Result (Unit {0}) × World
    save (ok d) w =
        let saved : Saved = record { addr = w.dst w.app.conn; data' = d } in
        let (r, s) = save_pairing saved (next_answer w.flash) w.app.storage in
        (r, record w { app = record (w.app) { storage = s }; flash = drop 1 w.flash })
    save (err e) w = (err e, w)

    -- `pair_locked` once connected.
    unfoldable pub handshake : World → Result (Unit {0}) × World
    handshake w =
        let (d, w') = on_gdio_link (run bo psa) w in
        let (r, w'') = save d w' in
        if w.app.gdio_ready then (r, disconnect w'') else (err enotsup, disconnect w)

    -- `nuki_app_pair`.
    unfoldable pub pair : World → Result (Unit {0}) × World
    pair w = when_connected (connect true w) handshake
