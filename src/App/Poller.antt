-- ===== src/App/Poller.antt =====
-- src/nuki_app.c: the thread that polls the lock's state for the cache.
pub mod Retries
pub mod Refreshed
use nuki_nrf52_bridge.Base.{
  ℕ, zero, suc, ◌+◌, ◌*◌, ◌%◌, ◌^◌, Bool, true, false, List, [], ◌∷◌, ltb, if◌then◌else◌, Result,
  ok, err,
}
use nuki_nrf52_bridge.Zephyr.{ByteOrder}
use nuki_nrf52_bridge.Protocol.State.{KeyturnerState}
use nuki_nrf52_bridge.App.{App}
use nuki_nrf52_bridge.App.Operations.{World, is_paired, get_state, put_cache}

abbrev pub state_poll_interval_sec : ℕ
state_poll_interval_sec = 15 * 60

abbrev pub state_poll_retry_sec : ℕ
state_poll_retry_sec = 3

abbrev pub state_poll_max_retries : ℕ
state_poll_max_retries = 3

abbrev pub set_retries : ℕ → App → App
set_retries n a = record a { state_poll_retries = n }

-- What is done with the answer of a poll: the seconds to sleep, and the application. The counter is a
-- `uint8_t`.
unfoldable pub on_polled : Result KeyturnerState → App → ℕ × App
on_polled (ok s) a = (state_poll_interval_sec, set_retries 0 (put_cache s a))
on_polled (err e) a =
    if ltb a.state_poll_retries state_poll_max_retries
    then (state_poll_retry_sec, set_retries ((a.state_poll_retries + 1) % 2 ^ 8) a)
    else (state_poll_interval_sec, set_retries 0 a)

module _ (bo : ByteOrder) where
  -- One round of the loop up to `k_sleep`: the seconds that it will sleep.
  unfoldable pub poll : World → ℕ × World
  poll w =
      let (r, w') = get_state bo w in
      let (next, a) = on_polled r w'.app in
      if is_paired w.app then (next, record w' { app = a }) else (state_poll_interval_sec, w)

  -- `k_sleep(K_SECONDS(next))`.
  abbrev pub sleep : ℕ → World → World
  sleep next w = record w { app = record (w.app) { uptime_ms = w.app.uptime_ms + 1000 * next } }

  -- The first rounds of the thread, with the seconds slept after each. What other threads do while this
  -- one sleeps is the function `others`.
  unfoldable pub poll_rounds : ℕ → (World → World) → World → List ℕ × World
  poll_rounds zero others w = ([], w)
  poll_rounds (suc n) others w =
      let (next, w') = poll w in
      let (sleeps, w'') = poll_rounds n others (others (sleep next w')) in (next ∷ sleeps, w'')
