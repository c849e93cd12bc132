-- ===== src/App/Operations/Invariant.antt =====
-- src/nuki_app.c: the application's invariant through every operation, poll and callback.
use nuki_nrf52_bridge.Base.{
  ℕ, ◌≡◌, refl, sym, subst, ◌∙◌, ◌⊎◌, inl, inr, false, List, [], ◌∷◌, Result, ok, err, arith,
  if_elim,
}
use nuki_nrf52_bridge.Zephyr.{ByteOrder}
use nuki_nrf52_bridge.Crypto.Psa.{Psa}
use nuki_nrf52_bridge.Protocol.State.{KeyturnerState}
use nuki_nrf52_bridge.Transport.Buffer.{IsTransport}
use nuki_nrf52_bridge.Link.{Link}
use nuki_nrf52_bridge.Storage.{Storage}
use nuki_nrf52_bridge.App.{App, disconnect, init}
use nuki_nrf52_bridge.App.Connect.{Callback, callback}
use nuki_nrf52_bridge.App.Connect.Shape.{
  IsApp, like-IsApp, asked-IsApp, callback-IsApp, ask_disconnect-IsApp,
}
use nuki_nrf52_bridge.App.Operations.{World, pair, left_usdio, left_gdio, put_cache, is_paired}
use nuki_nrf52_bridge.App.Operations.Stable.{
  Stable, get_state-Stable, lock_action-Stable, calibrate-Stable, pair-Stable,
}
use nuki_nrf52_bridge.App.Operations.Peers.{Operation, reading, acting, calibrating, perform}
use nuki_nrf52_bridge.App.Poller.{poll, on_polled}
use mathlib.Core.Bool.{true≢false}

-- What a command leaves: a buffer of the right shape.
left_usdio-IsApp :
    (l : Link) (b a : App)
    → (IsTransport b.usdio → IsTransport l.transport)
    → IsApp b
    → IsApp a
    → IsApp (left_usdio l a)
left_usdio-IsApp l b a keeps h k =
    let t = keeps h.usdio in
    record {
      gdio = k.gdio;
      usdio = record { size = t.size; fill = t.fill };
      pending = k.pending;
      retries = k.retries;
      cached = k.cached;
    }

left_gdio-IsApp :
    (l : Link) (b a : App)
    → (IsTransport b.gdio → IsTransport l.transport)
    → IsApp b
    → IsApp a
    → IsApp (left_gdio l a)
left_gdio-IsApp l b a keeps h k =
    let t = keeps h.gdio in
    record {
      gdio = record { size = t.size; fill = t.fill };
      usdio = k.usdio;
      pending = k.pending;
      retries = k.retries;
      cached = k.cached;
    }

-- The attempt is over, or its report was taken, or is yet to come.
none_pending :
    (a b : App)
    → (b.gdio ≡ a.gdio) × (b.usdio ≡ a.usdio)
    → ((b.connecting ≡ false) ⊎ (b.ready_sem ≡ false))
    → (b.state_poll_retries ≡ a.state_poll_retries)
      × (b.cache_uptime_ms ≡ a.cache_uptime_ms)
      × (b.uptime_ms ≡ a.uptime_ms)
    → IsApp a
    → IsApp b
none_pending a b t p n h = record {
  gdio = subst IsTransport (sym t.0) h.gdio;
  usdio = subst IsTransport (sym t.1) h.usdio;
  pending = λ e. elim p [ inl over ↦ absurd (true≢false (sym e ∙ over)) | inr taken ↦ taken ];
  retries = omega (arith, h.retries, n.0);
  cached = omega (arith, h.cached, n.1, n.2);
}

IsApp-Stable : Stable IsApp
IsApp-Stable = record {
  by_callback = callback-IsApp;
  by_attempt = λ need a h. none_pending a _ (refl, refl) (inr refl) (refl, refl, refl) h;
  by_timer = λ a h. like-IsApp a _ (refl, refl) (refl, refl) (refl, refl, refl) h;
  by_taken = λ a h. none_pending a _ (refl, refl) (inr refl) (refl, refl, refl) h;
  by_give_up = λ a h.
      ask_disconnect-IsApp a.conn _ (none_pending a _ (refl, refl) (inl refl) (refl, refl, refl) h);
  by_parted = λ a h. like-IsApp a _ (refl, refl) (refl, refl) (refl, refl, refl) h;
  by_disconnect = λ c a h. asked-IsApp (disconnect c) a h;
  by_command = left_usdio-IsApp;
  by_pairing = left_gdio-IsApp;
}

put_cache-IsApp : (s : KeyturnerState) (a : App) → IsApp a → IsApp (put_cache s a)
put_cache-IsApp s a h = record {
  gdio = h.gdio;
  usdio = h.usdio;
  pending = h.pending;
  retries = h.retries;
  cached = omega arith;
}

on_polled-IsApp : (r : Result KeyturnerState) (a : App) → IsApp a → IsApp (on_polled r a).1
unfolding on_polled
on_polled-IsApp (ok s) a h =
    let k = put_cache-IsApp s a h in
    record {
      gdio = k.gdio;
      usdio = k.usdio;
      pending = k.pending;
      retries = omega arith;
      cached = k.cached;
    }
on_polled-IsApp (err e) a h = record {
  gdio = ground arith;
  usdio = ground arith;
  pending = ground arith;
  retries = ground arith;
  cached = ground arith;
}

-- What is done to the application over its life: an operation, pairing, a poll of the thread, or a callback
-- between them.
pub data Activity : Type 0 where
  operating : Operation → Activity
  pairing polling : Activity
  between : Callback → Activity

abbrev pub undertake : ByteOrder → Psa → Activity → World → World
undertake bo psa (operating o) w = perform bo o w
undertake bo psa pairing w = (pair bo psa w).1
undertake bo psa polling w = (poll bo w).1
undertake bo psa (between e) w = record w { app = callback e w.app }

abbrev pub undertake_all : ByteOrder → Psa → List Activity → World → World
undertake_all bo psa [] w = w
undertake_all bo psa (x ∷ xs) w = undertake_all bo psa xs (undertake bo psa x w)

perform-IsApp :
    (bo : ByteOrder) (o : Operation) (w : World) → IsApp w.app → IsApp (perform bo o w).app
perform-IsApp bo reading w h = get_state-Stable IsApp IsApp-Stable bo w h
perform-IsApp bo (acting action) w h =
    lock_action-Stable IsApp IsApp-Stable bo put_cache-IsApp action w h
perform-IsApp bo (calibrating pin) w h = calibrate-Stable IsApp IsApp-Stable bo pin w h

undertake-IsApp :
    (bo : ByteOrder) (psa : Psa) (x : Activity) (w : World)
    → IsApp w.app
    → IsApp (undertake bo psa x w).app
unfolding poll
undertake-IsApp bo psa (operating o) w h = perform-IsApp bo o w h
undertake-IsApp bo psa pairing w h =
    pair-Stable IsApp IsApp-Stable bo psa
      (λ v a k. like-IsApp a _ (refl, refl) (refl, refl) (refl, refl, refl) k) w h
undertake-IsApp bo psa polling w h =
    if_elim (λ (o : ℕ × World). IsApp o.1.app) (is_paired w.app) _ _
      (λ _. on_polled-IsApp _ _ (get_state-Stable IsApp IsApp-Stable bo w h)) (λ _. h)
undertake-IsApp bo psa (between e) w h = callback-IsApp e w.app h

kept-IsApp :
    (bo : ByteOrder) (psa : Psa) (xs : List Activity) (w : World)
    → IsApp w.app
    → IsApp (undertake_all bo psa xs w).app
kept-IsApp bo psa [] w h = h
kept-IsApp bo psa (x ∷ xs) w h =
    kept-IsApp bo psa xs (undertake bo psa x w) (undertake-IsApp bo psa x w h)

init-IsApp : (s : Storage) → IsApp (init s)
unfolding init
init-IsApp s = record {
  gdio = record { size = refl; fill = omega arith };
  usdio = record { size = refl; fill = omega arith };
  pending = λ e. refl;
  retries = omega arith;
  cached = omega arith;
}

-- From the start of the application on, through any sequence of pairings, reads of the state, lock actions,
-- calibrations, polls and callbacks, whatever the stack, the lock and the PSA library do: both receive buffers
-- keep their 256 bytes and count at most so many, no attempt to connect that goes on has been reported yet,
-- the counter of retries is at most 3, and the cache's time is not ahead of the clock.
pub undertake_all-IsApp :
    (bo : ByteOrder) (psa : Psa) (xs : List Activity) (s : Storage) (w : World)
    → w.app ≡ init s
    → IsApp (undertake_all bo psa xs w).app
undertake_all-IsApp bo psa xs s w h = kept-IsApp bo psa xs w (subst IsApp (sym h) (init-IsApp s))
