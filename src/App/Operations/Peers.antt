-- ===== src/App/Operations/Peers.antt =====
-- src/nuki_app.c: to whom the application connects.
use nuki_nrf52_bridge.Base.{ℕ, ◌+◌, ◌≡◌, refl, some, List, [], ◌∷◌, ◌++◌, arith, if◌then◌else◌}
use nuki_nrf52_bridge.Zephyr.{ByteOrder}
use nuki_nrf52_bridge.Pairing.{same_bytes}
use nuki_nrf52_bridge.Storage.{Saved, get_pairing}
use nuki_nrf52_bridge.App.{
  App, Request, scan_start, scan_stop, create, disconnect, discover_pairing, discover_keyturner,
}
use nuki_nrf52_bridge.App.Connect.{Callback, callback, give_up}
use nuki_nrf52_bridge.App.Operations.{World, get_state, lock_action, calibrate}
use nuki_nrf52_bridge.App.Operations.Stable.{
  Stable, get_state-Stable, lock_action-Stable, calibrate-Stable,
}

-- The connections asked for to other addresses than the one given.
abbrev pub strangers : List ℕ → List Request → ℕ
strangers addr [] = 0
strangers addr (create other ∷ rs) = (if same_bytes addr other then 0 else 1) + strangers addr rs
strangers addr (scan_start ∷ rs) = strangers addr rs
strangers addr (scan_stop ∷ rs) = strangers addr rs
strangers addr (disconnect c ∷ rs) = strangers addr rs
strangers addr (discover_pairing c ∷ rs) = strangers addr rs
strangers addr (discover_keyturner c ∷ rs) = strangers addr rs

strangers-append :
    (addr : List ℕ) (rs : List Request) (r : Request)
    → strangers addr (rs ++ r ∷ []) ≡ strangers addr rs + strangers addr (r ∷ [])
strangers-append addr [] r = omega arith
strangers-append addr (create other ∷ rs) r = omega (arith, strangers-append addr rs r)
strangers-append addr (scan_start ∷ rs) r = strangers-append addr rs r
strangers-append addr (scan_stop ∷ rs) r = strangers-append addr rs r
strangers-append addr (disconnect c ∷ rs) r = strangers-append addr rs r
strangers-append addr (discover_pairing c ∷ rs) r = strangers-append addr rs r
strangers-append addr (discover_keyturner c ∷ rs) r = strangers-append addr rs r

-- The lock is paired, and so many strangers were called.
abbrev Calls : Saved → ℕ → App → Type 0
Calls p n a = (get_pairing a.storage ≡ some p) × (strangers p.addr a.requests ≡ n)

callback-Calls :
    (p : Saved) (n : ℕ) (e : Callback) (a : App) → Calls p n a → Calls p n (callback e a)
unfolding callback
callback-Calls p n e a h = grind (arith, strangers-append)

give_up-Calls : (p : Saved) (n : ℕ) (a : App) → Calls p n a → Calls p n (give_up a)
give_up-Calls p n a h = grind (arith, strangers-append)

Calls-Stable : (p : Saved) (n : ℕ) → Stable (Calls p n)
Calls-Stable p n = record {
  by_callback = callback-Calls p n;
  by_attempt = λ need a h. grind (arith, strangers-append);
  by_timer = λ a h. h;
  by_taken = λ a h. h;
  by_give_up = give_up-Calls p n;
  by_parted = λ a h. h;
  by_disconnect = λ c a h. grind (arith, strangers-append);
  by_command = λ l _ a _ _ h. h;
  by_pairing = λ l _ a _ _ h. h;
}

-- An operation on a paired lock, with what it does to the world.
pub data Operation : Type 0 where
  reading : Operation
  acting calibrating : ℕ → Operation

abbrev pub perform : ByteOrder → Operation → World → World
perform bo reading w = (get_state bo w).1
perform bo (acting action) w = (lock_action bo action w).1
perform bo (calibrating pin) w = (calibrate bo pin w).1

perform-Calls :
    (bo : ByteOrder) (p : Saved) (n : ℕ) (o : Operation) (w : World)
    → Calls p n w.app
    → Calls p n (perform bo o w).app
perform-Calls bo p n reading w h = get_state-Stable (Calls p n) (Calls-Stable p n) bo w h
perform-Calls bo p n (acting action) w h =
    lock_action-Stable (Calls p n) (Calls-Stable p n) bo (λ _ a h. h) action w h
perform-Calls bo p n (calibrating pin) w h =
    calibrate-Stable (Calls p n) (Calls-Stable p n) bo pin w h

abbrev pub perform_all : ByteOrder → List Operation → World → World
perform_all bo [] w = w
perform_all bo (o ∷ os) w = perform_all bo os (perform bo o w)

perform_all-Calls :
    (bo : ByteOrder) (p : Saved) (n : ℕ) (os : List Operation) (w : World)
    → Calls p n w.app
    → Calls p n (perform_all bo os w).app
perform_all-Calls bo p n [] w h = h
perform_all-Calls bo p n (o ∷ os) w h =
    perform_all-Calls bo p n os (perform bo o w) (perform-Calls bo p n o w h)

-- Once a lock is paired, reading its state, lock actions and calibrations, any number of them, ask for no
-- connection to another address than that lock's, whatever devices advertise and whatever the stack answers,
-- and they keep the pairing.
pub perform_all_peer :
    (bo : ByteOrder) (p : Saved) (os : List Operation) (w : World)
    → get_pairing w.app.storage ≡ some p
    → (get_pairing (perform_all bo os w).app.storage ≡ some p)
      × (strangers p.addr (perform_all bo os w).app.requests ≡ strangers p.addr w.app.requests)
perform_all_peer bo p os w h =
    perform_all-Calls bo p (strangers p.addr w.app.requests) os w (h, refl)
