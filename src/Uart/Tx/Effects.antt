-- ===== src/Uart/Tx/Effects.antt =====
-- src/nuki_uart_proto.c: what a request does to the application, and where the answer's fields stand.
use nuki_nrf52_bridge.Base.{
  ℕ, ◌+◌, ◌*◌, ◌/◌, ◌%◌, ◌<◌, List, [], ◌∷◌, ◌++◌, ◌≡◌, ◌≢◌, ◌⊎◌, inl, inr, refl, sym, subst₂, ap,
  ap₂, ◌∙◌, arith, get_or, length, take, le_bytes, ◌==◌, ok, err, einval, ne→==_false, get_or-take,
}
use nuki_nrf52_bridge.Protocol.State.{KeyturnerState}
use nuki_nrf52_bridge.Uart.Rx.{RxFrame}
use nuki_nrf52_bridge.Uart.Api.{AppApi}
use nuki_nrf52_bridge.Uart.Tx.{
  rc_of, bit, send_simple_response, state_fields, filled, send_state, handle_pair, handle_state,
  handle_lock_action, handle_calibrate, dispatch_frame,
}

-- Two bytes and four bytes, read as little-endian numbers at an offset.
abbrev pub read16 : List ℕ → ℕ → ℕ
read16 xs i = get_or xs i 0 + 256 * get_or xs (i + 1) 0

abbrev pub read32 : List ℕ → ℕ → ℕ
read32 xs i = read16 xs i + 65536 * read16 xs (i + 2)

-- The fields of `struct nuki_uart_resp_state` at the offsets of LOXONE_UART_PROTOCOL.md, section 3.
pub record IsStateAnswer (s : KeyturnerState) (age_sec : ℕ) (resp : List ℕ) : Type 0 where
  pub rc : read32 resp 0 ≡ 0
  pub lock_state : get_or resp 4 0 ≡ s.lock_state
  pub battery_percent : get_or resp 5 0 ≡ s.battery_percent
  pub critical_battery : get_or resp 6 0 ≡ bit s.critical_battery
  pub door_sensor_state : get_or resp 7 0 ≡ s.door_sensor_state
  pub year : read16 resp 8 ≡ s.year
  pub month : get_or resp 10 0 ≡ s.month
  pub day : get_or resp 11 0 ≡ s.day
  pub hour : get_or resp 12 0 ≡ s.hour
  pub minute : get_or resp 13 0 ≡ s.minute
  pub second : get_or resp 14 0 ≡ s.second
  pub timezone_offset_min : read16 resp 15 ≡ s.timezone_offset_min
  pub age : read32 resp 17 ≡ age_sec
  pub whole : length resp ≡ 21

layout :
    (cmd : ℕ) (s : KeyturnerState) (age_sec : ℕ)
    → s.year < 65536
    → s.timezone_offset_min < 65536
    → age_sec < 4294967296
    → (resp : List ℕ) × (send_state cmd 0 (ok (s, age_sec)) ≡ 0x5a ∷ cmd ∷ 21 ∷ resp)
      × IsStateAnswer s age_sec resp
unfolding send_state state_fields
layout cmd s age_sec hy ht ha = (
  le_bytes 4 0 ++ filled (ok (s, age_sec)),
  refl,
  record {
    rc = refl;
    lock_state = refl;
    battery_percent = refl;
    critical_battery = refl;
    door_sensor_state = refl;
    year = omega arith;
    month = refl;
    day = refl;
    hour = refl;
    minute = refl;
    second = refl;
    timezone_offset_min = omega arith;
    age = omega arith;
    whole = refl;
  },
)

module _ (api : AppApi) where
  open api use {App, lock_action, calibrate, get_cached_state}

  -- The handler that each of these commands reaches.
  pub at_pair : (f : RxFrame) (a : App) → f.cmd ≡ 2 → dispatch_frame api f a ≡ handle_pair api a
  unfolding dispatch_frame
  at_pair f a e = rw (ap (λ c. c == 1) e, ap (λ c. c == 2) e)

  pub at_state : (f : RxFrame) (a : App) → f.cmd ≡ 3 → dispatch_frame api f a ≡ handle_state api a
  unfolding dispatch_frame
  at_state f a e = rw (ap (λ c. c == 1) e, ap (λ c. c == 2) e, ap (λ c. c == 3) e)

  pub at_lock :
      (f : RxFrame) (a : App) → f.cmd ≡ 4 → dispatch_frame api f a ≡ handle_lock_action api 2 4 a
  unfolding dispatch_frame
  at_lock f a e =
      rw (ap (λ c. c == 1) e, ap (λ c. c == 2) e, ap (λ c. c == 3) e, ap (λ c. c == 4) e)

  pub at_unlock :
      (f : RxFrame) (a : App) → f.cmd ≡ 5 → dispatch_frame api f a ≡ handle_lock_action api 1 5 a
  unfolding dispatch_frame
  at_unlock f a e = rw (
    ap (λ c. c == 1) e,
    ap (λ c. c == 2) e,
    ap (λ c. c == 3) e,
    ap (λ c. c == 4) e,
    ap (λ c. c == 5) e,
  )

  pub at_unlatch :
      (f : RxFrame) (a : App) → f.cmd ≡ 6 → dispatch_frame api f a ≡ handle_lock_action api 3 6 a
  unfolding dispatch_frame
  at_unlatch f a e = rw (
    ap (λ c. c == 1) e,
    ap (λ c. c == 2) e,
    ap (λ c. c == 3) e,
    ap (λ c. c == 4) e,
    ap (λ c. c == 5) e,
    ap (λ c. c == 6) e,
  )

  pub at_calibrate :
      (f : RxFrame) (a : App) → f.cmd ≡ 7 → dispatch_frame api f a ≡ handle_calibrate api f a
  unfolding dispatch_frame
  at_calibrate f a e = rw (
    ap (λ c. c == 1) e,
    ap (λ c. c == 2) e,
    ap (λ c. c == 3) e,
    ap (λ c. c == 4) e,
    ap (λ c. c == 5) e,
    ap (λ c. c == 6) e,
    ap (λ c. c == 7) e,
  )

  at_other :
      (f : RxFrame) (a : App)
      → (f.cmd ≡ 0) ⊎ (7 < f.cmd)
      → dispatch_frame api f a ≡ (send_simple_response f.cmd (rc_of {A = ℕ} (err einval)), a)
  unfolding dispatch_frame
  at_other f a e = rw (
    ne→==_false f.cmd 1 (λ q. absurd (omega arith)),
    ne→==_false f.cmd 2 (λ q. absurd (omega arith)),
    ne→==_false f.cmd 3 (λ q. absurd (omega arith)),
    ne→==_false f.cmd 4 (λ q. absurd (omega arith)),
    ne→==_false f.cmd 5 (λ q. absurd (omega arith)),
    ne→==_false f.cmd 6 (λ q. absurd (omega arith)),
    ne→==_false f.cmd 7 (λ q. absurd (omega arith)),
  )

  -- What a lock action hands back and sends, once it succeeded with a state in the cache.
  action_sent :
      (action cmd : ℕ) (a a' : App) (s : KeyturnerState) (age_sec : ℕ)
      → lock_action action a ≡ (ok tt, a')
      → get_cached_state a' ≡ ok (s, age_sec)
      → handle_lock_action api action cmd a ≡ (send_state cmd 0 (ok (s, age_sec)), a')
  unfolding handle_lock_action rc_of
  action_sent action cmd a a' s age_sec done cached = rw (done, cached)

  -- The answer and the new application for such an action.
  abbrev pub Performed : ℕ → KeyturnerState → ℕ → App → List ℕ × App → Type 0
  Performed cmd s age_sec a' p =
      (p.1 ≡ a') × ((resp : List ℕ) × (p.0 ≡ 0x5a ∷ cmd ∷ 21 ∷ resp) × IsStateAnswer s age_sec resp)

  -- A successful LOCK, UNLOCK or UNLATCH request performs that action, and is answered by the state
  -- that is in the cache after it, each field at its documented offset.
  pub dispatch_frame_action :
      (f : RxFrame) (a : App) (action : ℕ) {a' : App} {s : KeyturnerState} {age_sec : ℕ}
      → ((f.cmd ≡ 4) × (action ≡ 2)) ⊎ ((f.cmd ≡ 5) × (action ≡ 1)) ⊎ ((f.cmd ≡ 6) × (action ≡ 3))
      → lock_action action a ≡ (ok tt, a')
      → get_cached_state a' ≡ ok (s, age_sec)
      → s.year < 65536
      → s.timezone_offset_min < 65536
      → age_sec < 4294967296
      → Performed f.cmd s age_sec a' (dispatch_frame api f a)
  dispatch_frame_action f a action {a'} {s} {age_sec} (inl (e, k)) done cached hy ht ha =
      subst₂ (λ c p. Performed c s age_sec a' p) (sym e)
        (sym (at_lock f a e ∙ action_sent 2 4 a a' s age_sec (rw k at done) cached))
        (refl, layout 4 s age_sec hy ht ha)
  dispatch_frame_action f a action {a'} {s} {age_sec} (inr (inl (e, k))) done cached hy ht ha =
      subst₂ (λ c p. Performed c s age_sec a' p) (sym e)
        (sym (at_unlock f a e ∙ action_sent 1 5 a a' s age_sec (rw k at done) cached))
        (refl, layout 5 s age_sec hy ht ha)
  dispatch_frame_action f a action {a'} {s} {age_sec} (inr (inr (e, k))) done cached hy ht ha =
      subst₂ (λ c p. Performed c s age_sec a' p) (sym e)
        (sym (at_unlatch f a e ∙ action_sent 3 6 a a' s age_sec (rw k at done) cached))
        (refl, layout 6 s age_sec hy ht ha)

  -- A frame with an unknown command, or a CALIBRATE frame whose payload has not two bytes, is answered
  -- by EINVAL (-22) and leaves the application as it is.
  pub dispatch_frame_reject :
      (f : RxFrame) (a : App)
      → ((f.cmd ≡ 0) ⊎ (7 < f.cmd)) ⊎ ((f.cmd ≡ 7) × (f.len ≢ 2))
      → dispatch_frame api f a ≡ (0x5a ∷ f.cmd ∷ 4 ∷ 0xea ∷ 0xff ∷ 0xff ∷ 0xff ∷ [], a)
  unfolding send_simple_response rc_of
  dispatch_frame_reject f a (inl other_cmd) = at_other f a other_cmd
  dispatch_frame_reject f a (inr (seven, wrong)) =
      at_calibrate f a seven
      ∙ refused
      ∙ ap (λ c. (0x5a ∷ c ∷ 4 ∷ 0xea ∷ 0xff ∷ 0xff ∷ 0xff ∷ [], a)) (sym seven)
    where
      refused : handle_calibrate api f a ≡ (0x5a ∷ 7 ∷ 4 ∷ 0xea ∷ 0xff ∷ 0xff ∷ 0xff ∷ [], a)
      refused = unfold handle_calibrate in rw (ne→==_false f.len 2 wrong)

  -- What the handler does with a payload of two bytes.
  pub calibrated :
      (f : RxFrame) (a : App) (pin : ℕ)
      → pin < 65536
      → f.len ≡ 2
      → take 2 f.payload ≡ le_bytes 2 pin
      → handle_calibrate api f a
        ≡ (send_simple_response 7 (rc_of (calibrate pin a).0), (calibrate pin a).1)
  calibrated f a pin h two args =
      called f a two
      ∙ ap (λ v. (send_simple_response 7 (rc_of (calibrate v a).0), (calibrate v a).1))
          (ap₂ (λ x y. x + 256 * y) low high ∙ omega arith)
    where
      called :
          (f : RxFrame) (a : App)
          → f.len ≡ 2
          → let v = get_or f.payload 0 0 + 256 * get_or f.payload 1 0 in
            handle_calibrate api f a
            ≡ (send_simple_response 7 (rc_of (calibrate v a).0), (calibrate v a).1)
      called f a e = unfold handle_calibrate in rw (ap (λ n. n == 2) e)

      low : get_or f.payload 0 0 ≡ pin % 256
      low = sym (get_or-take 2 f.payload 0 0 (omega arith)) ∙ ap (λ t. get_or t 0 0) args

      high : get_or f.payload 1 0 ≡ pin / 256 % 256
      high = sym (get_or-take 2 f.payload 1 0 (omega arith)) ∙ ap (λ t. get_or t 1 0) args

  -- A CALIBRATE request with a PIN of 16 bits calibrates with that PIN.
  dispatch_frame_calibrate :
      (f : RxFrame) (a : App) (pin : ℕ)
      → pin < 65536
      → f.cmd ≡ 7
      → f.len ≡ 2
      → take 2 f.payload ≡ le_bytes 2 pin
      → (dispatch_frame api f a).1 ≡ (calibrate pin a).1
  dispatch_frame_calibrate f a pin h seven two args =
      ap (λ p. p.1) (at_calibrate f a seven ∙ calibrated f a pin h two args)
