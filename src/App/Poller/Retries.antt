-- ===== src/App/Poller/Retries.antt =====
-- src/nuki_app.c: how often a poll that fails is tried again.
use nuki_nrf52_bridge.Base.{
  ℕ, zero, suc, ◌+◌, ◌*◌, ◌==◌, if◌then◌else◌, ◌≤◌, ◌<◌, ◌≡◌, refl, ◌⊎◌, inl, inr, List, [], ◌∷◌,
  Result, ok, err, arith, ◌≢◌, Bool-cases,
}
use nuki_nrf52_bridge.Zephyr.{ByteOrder}
use nuki_nrf52_bridge.Protocol.State.{KeyturnerState}
use nuki_nrf52_bridge.App.{App}
use nuki_nrf52_bridge.App.Operations.{World, get_state, is_paired}
use nuki_nrf52_bridge.App.Operations.Stable.{Stable, get_state-Stable}
use nuki_nrf52_bridge.App.Connect.{Callback, callback}
use nuki_nrf52_bridge.App.Poller.{on_polled, poll, poll_rounds, sleep}

-- How many of the sleeps are the whole interval.
abbrev pub intervals : List ℕ → ℕ
intervals [] = 0
intervals (next ∷ sleeps) = (if next == 900 then 1 else 0) + intervals sleeps

intervals-cons :
    (next : ℕ) (sleeps : List ℕ)
    → ((next ≡ 900) × (intervals (next ∷ sleeps) ≡ suc (intervals sleeps)))
      ⊎ ((next ≢ 900) × (intervals (next ∷ sleeps) ≡ intervals sleeps))
intervals-cons next sleeps = ground arith

-- What a poll does to the counter of retries.
pub record Counted (before : ℕ) (next : ℕ) (after : ℕ) : Type 0 where
  pub capped : after ≤ 3
  pub slept : ((next ≡ 900) × (after ≡ 0)) ⊎ ((next ≡ 3) × (before < 3) × (after ≡ before + 1))

on_polled-Counted :
    (r : Result KeyturnerState) (a : App)
    → a.state_poll_retries ≤ 3
    → Counted a.state_poll_retries (on_polled r a).0 (on_polled r a).1.state_poll_retries
unfolding on_polled
on_polled-Counted (ok s) a h = record { capped = omega arith; slept = inl (refl, refl) }
on_polled-Counted (err e) a h = record { capped = ground arith; slept = ground arith }

callback-Retried :
    (n : ℕ) (e : Callback) (a : App)
    → a.state_poll_retries ≡ n
    → (callback e a).state_poll_retries ≡ n
unfolding callback
callback-Retried n e a h = ground arith

Retried-Stable : (n : ℕ) → Stable (λ a. a.state_poll_retries ≡ n)
Retried-Stable n = record {
  by_callback = callback-Retried n;
  by_attempt = λ need a h. h;
  by_timer = λ a h. h;
  by_taken = λ a h. h;
  by_give_up = λ a h. ground arith;
  by_parted = λ a h. h;
  by_disconnect = λ c a h. h;
  by_command = λ l _ a _ _ h. h;
  by_pairing = λ l _ a _ _ h. h;
}

module _ (bo : ByteOrder) where
  -- A poll sleeps for the interval and clears the counter, or for the retry's time and counts it.
  pub poll-Counted :
      (w : World)
      → w.app.state_poll_retries ≤ 3
      → ((poll bo w).1.app.state_poll_retries ≤ 3)
        × (((poll bo w).0 ≡ 900)
            ⊎ (((poll bo w).0 ≡ 3)
                × ((poll bo w).1.app.state_poll_retries ≡ w.app.state_poll_retries + 1)))
  unfolding poll
  poll-Counted w h =
      let same =
        get_state-Stable (λ a. a.state_poll_retries ≡ w.app.state_poll_retries)
          (Retried-Stable w.app.state_poll_retries) bo w refl in
      let c = on_polled-Counted (get_state bo w).0 (get_state bo w).1.app (omega (arith, same)) in
      elim (Bool-cases (is_paired w.app)) [
        | inl y ↦ rw y (
          c.capped,
          elim c.slept [ inl x ↦ inl x.0 | inr x ↦ inr (x.0, omega (arith, x.2, same)) ],
        )
        | inr n ↦ rw n (h, inl refl)
      ]

  retries_spent :
      (n : ℕ) (others : World → World) (w : World)
      → ((w : World) → (others w).app.state_poll_retries ≡ w.app.state_poll_retries)
      → w.app.state_poll_retries ≤ 3
      → w.app.state_poll_retries + n ≤ 3 + 4 * intervals (poll_rounds bo n others w).0
  unfolding poll_rounds
  retries_spent zero others w keep h = omega arith
  retries_spent (suc n) others w keep h =
      let (capped, slept) = poll-Counted w h in
      let next = (poll bo w).0 in
      let w' : World = sleep bo next (poll bo w).1 in
      let k = keep w' in
      let later = retries_spent n others (others w') keep (omega (arith, k, capped)) in
      elim slept [
        | inl x ↦
            omega (arith, intervals-cons next (poll_rounds bo n others (others w')).0, x, k, later)
        | inr x ↦
            omega (
              arith,
              intervals-cons next (poll_rounds bo n others (others w')).0,
              x.0,
              x.1,
              k,
              later,
            )
      ]

  -- However the polls fail: among any n rounds of the poller in a row, at least (n - 3) / 4 sleep for the whole
  -- interval of 15 minutes, if the other threads leave the poller's counter alone and it stands at three at
  -- most.
  pub poll_rounds_bounded :
      (n : ℕ) (others : World → World) (w : World)
      → ((w : World) → (others w).app.state_poll_retries ≡ w.app.state_poll_retries)
      → w.app.state_poll_retries ≤ 3
      → n ≤ 3 + 4 * intervals (poll_rounds bo n others w).0
  poll_rounds_bounded n others w keep h = omega (arith, retries_spent n others w keep h)
