-- ===== src/App/Operations/Reached.antt =====
-- src/nuki_app.c: a connection to a lock that is there.
use nuki_nrf52_bridge.Base.{
  Option, ℕ, ◌≡◌, refl, ap, ◌∙◌, true, false, none, some, List, [], ◌∷◌, ◌++◌, All, Result, ok,
  drop, replicate, length-replicate, ==_refl, arith,
}
use nuki_nrf52_bridge.Transport.{Transport, init}
use nuki_nrf52_bridge.Transport.Buffer.{IsTransport}
use nuki_nrf52_bridge.Storage.{Saved, get_pairing}
use nuki_nrf52_bridge.App.{App, scan_stop, create, discover_keyturner}
use nuki_nrf52_bridge.App.Adverts.{AdField}
use nuki_nrf52_bridge.Pairing.Fields.{same_bytes_refl}
use nuki_nrf52_bridge.App.Connect.{
  Moment, happens, turn, callback, device_found, connected, usdio_discovered, await_ready,
  connect_to_lock, on_awaited, attempt, wanted,
}
use nuki_nrf52_bridge.App.Operations.{World, connect, next_answer}

-- An advertisement of another device, and the answers that the stack would give.
pub record Stranger : Type 0 where
  pub addr : List ℕ
  pub ad : List AdField
  pub stopped : Result (Unit {0})
  pub created : Result ℕ

-- The lock advertises after some other devices, accepts the connection and offers the characteristic.
pub record Visit : Type 0 where
  pub strangers : List Stranger
  pub ad : List AdField
  pub conn : ℕ
  pub handle : ℕ

abbrev pub passing_by : List Stranger → List Moment → List Moment
passing_by [] ms = ms
passing_by (s ∷ ss) ms = happens (device_found s.addr s.ad s.stopped s.created) ∷ passing_by ss ms

abbrev pub discovery : Visit → List Moment → List Moment
discovery v ms = happens (usdio_discovered v.conn (some v.handle) (ok tt)) ∷ turn ∷ ms

abbrev pub joining : Visit → List Moment → List Moment
joining v ms = happens (connected v.conn false (ok tt)) ∷ discovery v ms

abbrev pub visit : Visit → List ℕ → List Moment → List Moment
visit v addr ms =
    passing_by v.strangers (happens (device_found addr v.ad (ok tt) (ok v.conn)) ∷ joining v ms)

abbrev pub IsOther : Option Saved → Stranger → Type 0
IsOther saved s = wanted saved s.addr s.ad ≡ false

-- A device that is not the one looked for changes nothing.
pub passing_by_lem :
    (o : Option Saved) (ss : List Stranger) (ms : List Moment) (a : App)
    → a.conn ≡ none
    → get_pairing a.storage ≡ o
    → All (IsOther o) ss
    → await_ready (passing_by ss ms) a ≡ await_ready ms a
unfolding await_ready callback
passing_by_lem o [] ms a free known others = refl
passing_by_lem o (s ∷ ss) ms a free known (other, others) =
    ap (await_ready (passing_by ss ms)) (unmoved s other)
    ∙ passing_by_lem o ss ms a free known others
  where
    unmoved :
        (s : Stranger) → IsOther o s → callback (device_found s.addr s.ad s.stopped s.created) a ≡ a
    unmoved s other = rw (free, known, other)

-- `nuki_transport_init` that succeeds.
abbrev pub subscribed : Visit → Transport
subscribed v = record {
  conn = some v.conn;
  value_handle = v.handle;
  rx_buf = replicate 256 0;
  rx_len = 0;
  write_err = 0;
}

pub subscribed-IsTransport : (v : Visit) → IsTransport (subscribed v)
subscribed-IsTransport v = record { size = length-replicate {A = ℕ} 256 0; fill = omega arith }

-- The application when the lock was found, joined and discovered.
abbrev pub found : Visit → List ℕ → App → App
found v addr a = record a {
  scan_timer = false;
  conn = some v.conn;
  requests = a.requests ++ scan_stop ∷ [] ++ create addr ∷ [];
}

abbrev joined : Visit → App → App
joined v a = record a { requests = a.requests ++ discover_keyturner v.conn ∷ [] }

abbrev pub discovered : Visit → App → App
discovered v a = record a {
  usdio = subscribed v;
  usdio_ready = true;
  connecting = false;
  connect_err = ok tt;
  scan_timer = false;
  ready_sem = true;
}

abbrev pub reached : Visit → List ℕ → App → App
reached v addr a =
    let tried = record (attempt false a) { scan_timer = true } in
    record (discovered v (joined v (found v addr tried))) { ready_sem = false }

pub found_lem :
    (v : Visit) (o : Option Saved) (addr : List ℕ) (a : App)
    → a.conn ≡ none
    → get_pairing a.storage ≡ o
    → wanted o addr v.ad ≡ true
    → callback (device_found addr v.ad (ok tt) (ok v.conn)) a ≡ found v addr a
unfolding callback
found_lem v o addr a free known wants = rw (free, known, wants)

joined_lem :
    (v : Visit) (a : App)
    → a.conn ≡ some v.conn
    → a.need_gdio ≡ false
    → callback (connected v.conn false (ok tt)) a ≡ joined v a
unfolding callback
joined_lem v a here plain = rw (here, ==_refl v.conn, plain)

pub discovered_lem :
    (v : Visit) (a : App)
    → a.connecting ≡ true
    → callback (usdio_discovered v.conn (some v.handle) (ok tt)) a ≡ discovered v a
unfolding callback init
discovered_lem v a trying = rw trying

await_ready-visit :
    (v : Visit) (p : Saved) (ms : List Moment) (a : App)
    → a.conn ≡ none
    → a.need_gdio ≡ false
    → a.connecting ≡ true
    → get_pairing a.storage ≡ some p
    → All (IsOther (some p)) (v.strangers)
    → await_ready (visit v p.addr ms) a
      ≡ (true, record (discovered v (joined v (found v p.addr a))) { ready_sem = false }, ms)
unfolding await_ready
await_ready-visit v p ms a free plain trying paired others =
    passing_by_lem (some p) v.strangers _ a free paired others
    ∙ ap (await_ready (joining v ms))
        (found_lem v (some p) p.addr a free paired (same_bytes_refl p.addr))
    ∙ ap (await_ready (discovery v ms)) (joined_lem v (found v p.addr a) refl plain)
    ∙ ap (await_ready (turn ∷ ms)) (discovered_lem v (joined v (found v p.addr a)) trying)

-- The connection is made when the lock that the bridge is paired with is there.
pub connect-Reached :
    (v : Visit) (p : Saved) (ms : List Moment) (w : World)
    → w.app.conn ≡ none
    → get_pairing w.app.storage ≡ some p
    → next_answer w.scans ≡ ok tt
    → All (IsOther (some p)) (v.strangers)
    → w.moments ≡ visit v p.addr ms
    → connect false w
      ≡ (ok tt, record w { app = reached v p.addr w.app; moments = ms; scans = drop 1 w.scans })
unfolding connect connect_to_lock
connect-Reached v p ms w free paired scanning others there =
    let tried : App = record (attempt false w.app) { scan_timer = true } in
    ap (λ r. leave (connect_to_lock false r w.moments w.app)) scanning
    ∙ ap (λ k. leave (on_awaited (await_ready k tried))) there
    ∙ ap (λ k. leave (on_awaited k)) (await_ready-visit v p ms tried free refl refl paired others)
  where
    leave : Result (Unit {0}) × App × List Moment → Result (Unit {0}) × World
    leave (r, a, k) = (r, record w { app = a; moments = k; scans = drop 1 w.scans })
