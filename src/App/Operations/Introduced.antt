-- ===== src/App/Operations/Introduced.antt =====
-- src/nuki_app.c: pairing with a lock that is in reach and keeps to the protocol.
use nuki_nrf52_bridge.Base.{
  ℕ, ◌≡◌, refl, sym, ap, subst, ◌∙◌, true, false, Option, none, some, List, [], ◌∷◌, ◌++◌, All,
  Result, ok, drop, ==_refl,
}
use nuki_nrf52_bridge.Zephyr.{ByteOrder}
use nuki_nrf52_bridge.Crypto.Psa.{Psa, crypto_init, keypair, dh1, h1}
use nuki_nrf52_bridge.Crypto.Salsa.{kdf1}
use nuki_nrf52_bridge.Transport.{Event, init}
use nuki_nrf52_bridge.Link.{Link}
use nuki_nrf52_bridge.Link.Exchange.{IsIdle}
use nuki_nrf52_bridge.Pairing.{PairingData, run}
use nuki_nrf52_bridge.Pairing.Answers.{app_id_of}
use nuki_nrf52_bridge.Pairing.Completes.{Grants, run-Granted}
use nuki_nrf52_bridge.Storage.{Saved, get_pairing, save_pairing}
use nuki_nrf52_bridge.App.{App, discover_pairing, discover_keyturner}
use nuki_nrf52_bridge.App.Connect.{
  Moment, happens, turn, callback, device_found, connected, gdio_discovered, await_ready,
  connect_to_lock, on_awaited, attempt, wanted,
}
use nuki_nrf52_bridge.App.Operations.{
  World, connect, next_answer, next_wire, start_link, busy, pair, handshake, when_connected,
}
use nuki_nrf52_bridge.App.Operations.Paired.{left, ended, handshake_ready, kept_storage, now_saved}
use nuki_nrf52_bridge.App.Operations.Reached.{
  Visit, passing_by, passing_by_lem, IsOther, found, found_lem, discovery, discovered,
  discovered_lem, subscribed, subscribed-IsTransport,
}

-- The lock advertises after some other devices, accepts the connection, and offers the characteristic of the
-- Pairing Service, at a handle, and that of the Keyturner Service.
abbrev services : Visit → ℕ → List Moment → List Moment
services v h ms = happens (gdio_discovered v.conn (some h) (ok tt) (ok tt)) ∷ discovery v ms

abbrev greeting : Visit → ℕ → List Moment → List Moment
greeting v h ms = happens (connected v.conn false (ok tt)) ∷ services v h ms

abbrev pub introduction : Visit → ℕ → List ℕ → List Moment → List Moment
introduction v h addr ms =
    passing_by v.strangers (happens (device_found addr v.ad (ok tt) (ok v.conn)) ∷ greeting v h ms)

-- The transport of the Pairing Service.
abbrev pub pairing_service : Visit → ℕ → Visit
pairing_service v h = record v { handle = h }

abbrev greeted : Visit → App → App
greeted v a = record a { requests = a.requests ++ discover_pairing v.conn ∷ [] }

abbrev offered : Visit → ℕ → App → App
offered v h a = record a {
  gdio = subscribed (pairing_service v h);
  gdio_ready = true;
  requests = a.requests ++ discover_keyturner v.conn ∷ [];
}

abbrev pub introduced : Visit → ℕ → List ℕ → App → App
introduced v h addr a =
    let tried = record (attempt true a) { scan_timer = true } in
    record (discovered v (offered v h (greeted v (found v addr tried)))) { ready_sem = false }

greeted_lem :
    (v : Visit) (a : App)
    → a.conn ≡ some v.conn
    → a.need_gdio ≡ true
    → callback (connected v.conn false (ok tt)) a ≡ greeted v a
unfolding callback
greeted_lem v a here both = rw (here, ==_refl v.conn, both)

offered_lem :
    (v : Visit) (h : ℕ) (a : App)
    → callback (gdio_discovered v.conn (some h) (ok tt) (ok tt)) a ≡ offered v h a
unfolding callback init
offered_lem v h a = refl

await_ready-introduction :
    (v : Visit) (h : ℕ) (o : Option Saved) (addr : List ℕ) (ms : List Moment) (a : App)
    → a.conn ≡ none
    → a.need_gdio ≡ true
    → a.connecting ≡ true
    → get_pairing a.storage ≡ o
    → wanted o addr v.ad ≡ true
    → All (IsOther o) (v.strangers)
    → await_ready (introduction v h addr ms) a ≡ (
      true,
      record (discovered v (offered v h (greeted v (found v addr a)))) { ready_sem = false },
      ms,
    )
unfolding await_ready
await_ready-introduction v h o addr ms a free both trying known wants others =
    passing_by_lem o v.strangers _ a free known others
    ∙ ap (await_ready (greeting v h ms)) (found_lem v o addr a free known wants)
    ∙ ap (await_ready (services v h ms)) (greeted_lem v (found v addr a) refl both)
    ∙ ap (await_ready (discovery v ms)) (offered_lem v h (greeted v (found v addr a)))
    ∙ ap (await_ready (turn ∷ ms))
        (discovered_lem v (offered v h (greeted v (found v addr a))) trying)

connect-Introduced :
    (v : Visit) (h : ℕ) (addr : List ℕ) (ms : List Moment) (w : World)
    → w.app.conn ≡ none
    → next_answer w.scans ≡ ok tt
    → wanted (get_pairing w.app.storage) addr v.ad ≡ true
    → All (IsOther (get_pairing w.app.storage)) (v.strangers)
    → w.moments ≡ introduction v h addr ms
    → connect true w
      ≡ (ok tt, record w { app = introduced v h addr w.app; moments = ms; scans = drop 1 w.scans })
unfolding connect connect_to_lock
connect-Introduced v h addr ms w free scanning wants others there =
    let tried : App = record (attempt true w.app) { scan_timer = true } in
    ap (λ r. leave (connect_to_lock true r w.moments w.app)) scanning
    ∙ ap (λ k. leave (on_awaited (await_ready k tried))) there
    ∙ ap (λ k. leave (on_awaited k))
        (await_ready-introduction v h (get_pairing w.app.storage) addr ms tried free refl refl refl
          wants others)
  where
    leave : Result (Unit {0}) × App × List Moment → Result (Unit {0}) × World
    leave (r, a, k) = (r, record w { app = a; moments = k; scans = drop 1 w.scans })

module _ (bo : ByteOrder) (psa : Psa) where
  -- A lock is in reach, and takes part in the handshake: the stack refuses nothing, the lock is wanted, offers
  -- both services, and grants the authorization; PSA Crypto works, and the flash takes the pairing. The
  -- connection has the lock's address, and nothing but the messages happens during the handshake.
  pub record Introduces (w : World) : Type 0 where
    pub scanning : next_answer w.scans ≡ ok tt
    pub meeting : Visit
    pub handle : ℕ
    pub addr : List ℕ
    pub is_wanted : wanted (get_pairing w.app.storage) addr meeting.ad ≡ true
    pub others : All (IsOther (get_pairing w.app.storage)) (meeting.strangers)
    pub later : List Moment
    pub there : w.moments ≡ introduction meeting handle addr (turn ∷ later)
    pub address : w.dst (some meeting.conn) ≡ addr
    pub cl_pub : List ℕ
    pub cl_priv : List ℕ
    pub sl_pub : List ℕ
    pub dh : List ℕ
    pub up : crypto_init psa ≡ ok tt
    pub keys : keypair psa ≡ ok (cl_pub, cl_priv)
    pub shared : dh1 psa cl_priv sl_pub ≡ ok dh
    pub macs : (d : List ℕ) → (m : List ℕ) × (h1 psa (kdf1 dh) d ≡ ok m)
    pub accepting : (next_wire w.wires).accepts ≡ []
    pub rest : List Event
    pub grants :
        Grants bo psa
          (kdf1 dh)
          macs
          sl_pub
          rest
          (start_link w (subscribed (pairing_service meeting handle)))
    pub flash : next_answer w.flash ≡ ok tt

  -- The pairing that the lock grants.
  abbrev pub granted : (w : World) → Introduces w → Saved
  granted w i = record {
    addr = i.addr;
    data' = record {
      auth_id = i.grants.auth_id;
      app_id = app_id_of bo psa (kdf1 i.dh) i.macs (next_wire w.wires).entropy;
      shared_key = kdf1 i.dh;
      lock_uuid = i.grants.lock_uuid;
    };
  }

  abbrev met : (w : World) → Introduces w → World
  met w i = record w {
    app = introduced i.meeting i.handle i.addr w.app;
    moments = turn ∷ i.later;
    scans = drop 1 w.scans;
  }

  -- The end of the handshake, once it gave the data.
  ended_saved :
      (w1 : World) (l : Link) (d : PairingData) (addr : List ℕ)
      → next_answer w1.flash ≡ ok tt
      → w1.dst (busy w1.moments w1.app).0.conn ≡ addr
      → ((ended bo psa w1 (ok d, l)).0 ≡ ok tt)
        × (get_pairing (ended bo psa w1 (ok d, l)).1.app.storage
            ≡ some (record { addr = addr; data' = d }))
  ended_saved w1 l d addr flash there =
      let peer = w1.dst (busy w1.moments w1.app).0.conn in
      let said : (ended bo psa w1 (ok d, l)).0 ≡ next_answer w1.flash =
        unfold save_pairing in refl in
      (
        said ∙ flash,
        ap get_pairing (kept_storage bo psa _)
            ∙ now_saved (record { addr = peer; data' = d }) (next_answer w1.flash)
                (left bo psa w1 l).app.storage
            ∙ ap (λ b. some (record { addr = b; data' = d })) there,
      )

  turn_taken : (ms : List Moment) (a : App) → busy (turn ∷ ms) a ≡ (a, ms)
  unfolding busy
  turn_taken ms a = refl

  -- Pairing succeeds with a lock that is in reach and takes part in the handshake.
  pub pair-Introduces :
      (w : World)
      → w.app.conn ≡ none
      → (i : Introduces w)
      → ((pair bo psa w).0 ≡ ok tt)
        × (get_pairing (pair bo psa w).1.app.storage ≡ some (granted w i))
  unfolding pair
  pair-Introduces w free i =
      let l0 = start_link w (subscribed (pairing_service i.meeting i.handle)) in
      let idle : IsIdle l0 = record {
        kept = subscribed-IsTransport (pairing_service i.meeting i.handle);
        empty = refl;
        accepting = i.accepting;
      } in
      let g =
        run-Granted bo psa i.cl_pub i.cl_priv i.sl_pub i.dh i.rest l0 i.macs i.up i.keys i.shared
          idle i.grants in
      let w1 = met w i in
      let l1 = (run bo psa l0).1 in
      let here : w1.dst (busy w1.moments w1.app).0.conn ≡ i.addr =
        ap (λ k. w.dst k.0.conn) (turn_taken i.later w1.app) ∙ i.address in
      let connected =
        connect-Introduced i.meeting i.handle i.addr (turn ∷ i.later) w free i.scanning i.is_wanted
          i.others i.there in
      let whole : pair bo psa w ≡ ended bo psa w1 (ok (granted w i).data', l1) =
        ap (λ r. when_connected r (handshake bo psa)) connected
        ∙ handshake_ready bo psa w1 (run bo psa l0) refl refl
        ∙ ap (λ r. ended bo psa w1 (r, l1)) g.result in
      subst (λ out. (out.0 ≡ ok tt) × (get_pairing out.1.app.storage ≡ some (granted w i)))
        (sym whole) (ended_saved w1 l1 (granted w i).data' i.addr i.flash here)
