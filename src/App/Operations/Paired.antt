-- ===== src/App/Operations/Paired.antt =====
-- src/nuki_app.c: what a pairing that succeeds has been through, and what it leaves.
use nuki_nrf52_bridge.Base.{
  ◌≡◌, refl, sym, ap, ◌∙◌, inl, inr, true, false, some, ◌++◌, drop, Result, ok, err, enotsup, is_ok,
  arith, Bool-cases, if◌then◌else◌,
}
use mathlib.Core.Bool.{true≢false}
use nuki_nrf52_bridge.Zephyr.{ByteOrder}
use nuki_nrf52_bridge.Crypto.Psa.{Psa}
use nuki_nrf52_bridge.Link.{Link}
use nuki_nrf52_bridge.Pairing.{PairingData, run}
use nuki_nrf52_bridge.Pairing.Verified.{Verified, run-Verified}
use nuki_nrf52_bridge.Storage.{Saved, Storage, get_pairing, save_pairing}
use nuki_nrf52_bridge.App.{App}
use nuki_nrf52_bridge.App.Connect.{Callback, callback}
use nuki_nrf52_bridge.App.Operations.{
  World, connect, disconnect, start_link, busy, on_gdio_link, save, handshake, pair, when_connected,
  next_answer, after_command, left_gdio,
}
use nuki_nrf52_bridge.App.Operations.Stable.{Stable, disconnect-Stable}
use nuki_nrf52_bridge.App.Operations.Confirmed.{Connected, connect-ok}

callback-storage :
    (v : Storage) (e : Callback) (a : App) → a.storage ≡ v → (callback e a).storage ≡ v
unfolding callback
callback-storage v e a h = ground arith

storage-Stable : (v : Storage) → Stable (λ a. a.storage ≡ v)
storage-Stable v = record {
  by_callback = callback-storage v;
  by_attempt = λ need a h. h;
  by_timer = λ a h. h;
  by_taken = λ a h. h;
  by_give_up = λ a h. ground arith;
  by_parted = λ a h. h;
  by_disconnect = λ c a h. h;
  by_command = λ l _ a _ _ h. h;
  by_pairing = λ l _ a _ _ h. h;
}

-- The connection, the handshake on it, and the pairing that is saved, with the address of the peer.
pub record Paired (bo : ByteOrder) (psa : Psa) (w w' : World) : Type 0 where
  pub w1 : World
  pub connection : Connected true w w1
  pub offered : w1.app.gdio_ready ≡ true
  pub d : PairingData
  pub l' : Link
  pub ran : run bo psa (start_link w1 w1.app.gdio) ≡ (ok d, l')
  pub verified : Verified bo psa d (start_link w1 w1.app.gdio) l'
  pub flash : next_answer w.flash ≡ ok tt
  pub sent : w'.sent ≡ w.sent ++ l'.sent
  pub used : (w'.scans ≡ drop 1 w.scans) × (w'.wires ≡ drop 1 w.wires) × (w'.flash ≡ drop 1 w.flash)
  pub saved :
      get_pairing w'.app.storage
      ≡ some (record { addr = w.dst (busy w1.moments w1.app).0.conn; data' = d })

-- The success of an operation that needs a connection.
record Went {A : Type 0} (r : Result (Unit {0}) × World) (f : World → Result A × World)
    (out : Result A × World) : Type 0 where
  w1 : World
  connected : r ≡ (ok tt, w1)
  done : f w1 ≡ out

when_connected-Went :
    {A : Type 0} (r : Result (Unit {0}) × World) (f : World → Result A × World) (x : A) (w' : World)
    → when_connected r f ≡ (ok x, w')
    → Went r f (ok x, w')
when_connected-Went (ok _, w1) f x w' h = record { w1 = w1; connected = refl; done = h }
when_connected-Went (err e, w1) f x w' h = absurd (true≢false (sym (ap (λ q. is_ok q.0) h)))

pub now_saved :
    (v : Saved) (r : Result (Unit {0})) (s : Storage) → get_pairing (save_pairing v r s).1 ≡ some v
unfolding save_pairing get_pairing
now_saved v r s = refl

module _ (bo : ByteOrder) (psa : Psa) where
  -- What the handshake leaves before the pairing is saved, and how it ends.
  abbrev pub left : World → Link → World
  left w1 l = let (a, ms) = busy w1.moments w1.app in after_command w1 l (left_gdio l a) ms

  abbrev pub ended : World → Result PairingData × Link → Result (Unit {0}) × World
  ended w1 (d, l) = let (r, w3) = save bo psa d (left w1 l) in (r, disconnect w3)

  pub handshake_ready :
      (w1 : World) (r : Result PairingData × Link)
      → w1.app.gdio_ready ≡ true
      → run bo psa (start_link w1 w1.app.gdio) ≡ r
      → handshake bo psa w1 ≡ ended w1 r
  unfolding handshake on_gdio_link
  handshake_ready w1 r offered ran =
      ap
        (λ b.
          if b
          then ended w1 (run bo psa (start_link w1 w1.app.gdio))
          else (err enotsup, disconnect w1))
        offered
      ∙ ap (ended w1) ran

  handshake_refused :
      (w1 : World) → w1.app.gdio_ready ≡ false → handshake bo psa w1 ≡ (err enotsup, disconnect w1)
  unfolding handshake
  handshake_refused w1 h = rw h

  pub kept_storage : (w3 : World) → (disconnect w3).app.storage ≡ w3.app.storage
  kept_storage w3 =
      disconnect-Stable (λ a. a.storage ≡ w3.app.storage) (storage-Stable w3.app.storage) w3 refl

  handshake-Paired :
      (w w1 w' : World) (r : Result PairingData × Link)
      → Connected true w w1
      → w1.app.gdio_ready ≡ true
      → run bo psa (start_link w1 w1.app.gdio) ≡ r
      → ended w1 r ≡ (ok tt, w')
      → Paired bo psa w w'
  unfolding disconnect save_pairing
  handshake-Paired w w1 w' (err e, l') connection offered ran h =
      absurd (true≢false (sym (ap (λ q. is_ok q.0) h)))
  handshake-Paired w w1 w' (ok d, l') connection offered ran h =
      let address = w1.dst (busy w1.moments w1.app).0.conn in
      let from = connection.state in
      record {
        w1 = w1;
        connection = connection;
        offered = offered;
        d = d;
        l' = l';
        ran = ran;
        verified = run-Verified bo psa d (start_link w1 w1.app.gdio) l' ran;
        flash = sym (ap (λ v. next_answer v.flash) from) ∙ ap (λ q. q.0) h;
        sent = ap (λ q. q.1.sent) (sym h) ∙ ap (λ v. v.sent ++ l'.sent) from;
        used = (
          ap (λ q. q.1.scans) (sym h) ∙ ap (λ v. v.scans) from,
          ap (λ q. q.1.wires) (sym h) ∙ ap (λ v. drop 1 v.wires) from,
          ap (λ q. q.1.flash) (sym h) ∙ ap (λ v. drop 1 v.flash) from,
        );
        saved =
            ap (λ q. get_pairing q.1.app.storage) (sym h)
            ∙ ap get_pairing (kept_storage (save bo psa (ok d) (left w1 l')).1)
            ∙ now_saved (record { addr = address; data' = d }) (next_answer w1.flash)
                (left w1 l').app.storage
            ∙ ap (λ v. some (record { addr = v.dst (busy w1.moments w1.app).0.conn; data' = d }))
                from;
      }

  -- When `nuki_app_pair` gives 0: the scan was started, and the first callback to report among the next moments
  -- of the schedule was the discovery that ends an attempt; the pairing characteristic was ready then; the
  -- handshake over the transport that these callbacks left, with the next of the wires, gave pairing data, of
  -- which it verified the lock's authenticator under the key agreed on; its messages are all that was sent, and
  -- one scan, one wire and one answer of the flash were used; the flash took the pairing, and the pairing from
  -- then on is that data with the address that the stack gives for the connection held after the handshake.
  pub pair-Paired : (w w' : World) → pair bo psa w ≡ (ok tt, w') → Paired bo psa w w'
  unfolding pair
  pair-Paired w w' h =
      let g = when_connected-Went (connect true w) (handshake bo psa) tt w' h in
      let connection = connect-ok true w g.w1 g.connected in
      elim (Bool-cases g.w1.app.gdio_ready) [
        | inl offered ↦
            let ran = run bo psa (start_link g.w1 g.w1.app.gdio) in
            handshake-Paired w g.w1 w' ran connection offered refl
              (sym (handshake_ready g.w1 ran offered refl) ∙ g.done)
        | inr missing ↦
            absurd (
              true≢false
                (sym (ap (λ q. is_ok q.0) (sym (handshake_refused g.w1 missing) ∙ g.done))))
      ]
