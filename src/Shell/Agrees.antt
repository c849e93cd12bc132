-- ===== src/Shell/Agrees.antt =====
-- src/nuki_shell.c and src/nuki_uart_proto.c: the two ways to give the bridge an order.
use nuki_nrf52_bridge.Base.{
  ℕ, ◌<◌, ◌≤◌, ◌≡◌, ◌⊎◌, inl, inr, refl, sym, ap, subst, subst₂, ◌∙◌, arith, false, List, [], ◌∷◌,
  take, drop, le_bytes, ltb, le→ltb_false, ltb→lt, Result, ok, err, Errno, einval, ◌≢◌, length,
  Bool-cases,
}
use Prim.Native.String.{String}
use nuki_nrf52_bridge.Protocol.State.{KeyturnerState}
use nuki_nrf52_bridge.Uart.Api.{AppApi}
use nuki_nrf52_bridge.Uart.Rx.{RxFrame}
use nuki_nrf52_bridge.Uart.Tx.{
  rc_of, send_simple_response, send_state, handle_pair, handle_lock_action, handle_calibrate,
  dispatch_frame, after_action,
}
use nuki_nrf52_bridge.Uart.Tx.Effects.{
  read32, at_pair, at_lock, at_unlock, at_unlatch, at_calibrate, calibrated,
}
use nuki_nrf52_bridge.Shell.{
  Line, Command, status, pair_command, state, lock, unlock, unlatch, calibrate_command, Outcome,
  finished, do_lock_action, calibrate_with, cmd_nuki_pair, cmd_nuki_lock, cmd_nuki_unlock,
  cmd_nuki_unlatch, cmd_nuki_calibrate, run_command,
}

-- The arguments are the command's name and a number that `strtoul` reads to its end, of 16 bits.
pub record IsPin (strtoul : List ℕ → ℕ × List ℕ) (args : List (List ℕ)) (pin : ℕ) : Type 0 where
  pub name : List ℕ
  pub arg : List ℕ
  pub two : args ≡ name ∷ arg ∷ []
  pub value : strtoul arg ≡ (pin, [])
  pub small : pin ≤ 65535

-- The request on the serial line that gives the same order.
abbrev pub Same : (List ℕ → ℕ × List ℕ) → Command → RxFrame → Type 0
Same strtoul status f = ⊥
Same strtoul state f = ⊥
Same strtoul pair_command f = f.cmd ≡ 2
Same strtoul lock f = f.cmd ≡ 4
Same strtoul unlock f = f.cmd ≡ 5
Same strtoul unlatch f = f.cmd ≡ 6
Same strtoul (calibrate_command args) f =
    (pin : ℕ) × IsPin strtoul args pin
    × (f.cmd ≡ 7)
    × (f.len ≡ 2)
    × (take 2 f.payload ≡ le_bytes 2 pin)

rc_of-small : {A : Type 0} (r : Result A) → rc_of r < 4294967296
unfolding rc_of
rc_of-small (ok a) = omega arith
rc_of-small (err e) = omega arith

code_sent : (cmd rc : ℕ) → rc < 4294967296 → read32 (drop 3 (send_simple_response cmd rc)) 0 ≡ rc
unfolding send_simple_response
code_sent cmd rc h = omega arith

state_code_sent :
    (cmd rc : ℕ) (c : Result (KeyturnerState × ℕ))
    → rc < 4294967296
    → read32 (drop 3 (send_state cmd rc c)) 0 ≡ rc
unfolding send_state
state_code_sent cmd rc c h = omega arith

abbrev second : List (List ℕ) → List ℕ
second [] = []
second (x ∷ []) = []
second (x ∷ y ∷ xs) = y

ltb_false→le : (v : ℕ) → ltb 65535 v ≡ false → v ≤ 65535
ltb_false→le v h = ground arith

module _ (api : AppApi) where
  open api use {App, pair, lock_action, calibrate}

  -- The same effect on the application, and the same code.
  abbrev pub Agrees : Outcome api → List ℕ × App → Type 0
  Agrees o (out, a) = (a ≡ o.2) × (read32 (drop 3 out) 0 ≡ rc_of o.0)

  finished-Agrees :
      (start success : Line) (failure : Errno → Line) (r : Result (Unit {0}) × App) (out : List ℕ)
      → read32 (drop 3 out) 0 ≡ rc_of r.0
      → Agrees (finished api start failure success r) (out, r.1)
  finished-Agrees start success failure (ok _, a) out h = (refl, h)
  finished-Agrees start success failure (err e, a) out h = (refl, h)

  pair-Agrees : (a : App) → Agrees (cmd_nuki_pair api a) (handle_pair api a)
  unfolding cmd_nuki_pair handle_pair
  pair-Agrees a =
      finished-Agrees _ _ _ (pair a) (send_simple_response 2 (rc_of (pair a).0))
        (code_sent 2 (rc_of (pair a).0) (rc_of-small (pair a).0))

  action-Agrees :
      (action cmd : ℕ) (name : String) (a : App)
      → Agrees (do_lock_action api action name a) (handle_lock_action api action cmd a)
  unfolding do_lock_action handle_lock_action
  action-Agrees action cmd name a =
      let r = lock_action action a in
      finished-Agrees _ _ _ r (send_state cmd (rc_of r.0) (after_action api r.0 r.1))
        (state_code_sent cmd (rc_of r.0) (after_action api r.0 r.1) (rc_of-small r.0))

  calibrate-Agrees :
      (strtoul : List ℕ → ℕ × List ℕ) (args : List (List ℕ)) (pin : ℕ) (f : RxFrame) (a : App)
      → IsPin strtoul args pin
      → f.len ≡ 2
      → take 2 f.payload ≡ le_bytes 2 pin
      → Agrees (cmd_nuki_calibrate api strtoul args a) (handle_calibrate api f a)
  calibrate-Agrees strtoul args pin f a p two bytes =
      subst₂ Agrees
        (sym (
          ap (λ xs. cmd_nuki_calibrate api strtoul xs a) p.two
          ∙ asked
          ∙ ap (λ v. calibrate_with api p.arg v a) p.value))
        (sym (calibrated api f a pin (omega (arith, p.small)) two bytes)) passed
    where
      asked :
          cmd_nuki_calibrate api strtoul (p.name ∷ p.arg ∷ []) a
          ≡ calibrate_with api p.arg (strtoul p.arg) a
      asked = unfold cmd_nuki_calibrate in refl

      passed :
          Agrees
            (calibrate_with api p.arg (pin, []) a)
            (send_simple_response 7 (rc_of (calibrate pin a).0), (calibrate pin a).1)
      passed = rw (le→ltb_false pin 65535 p.small) (
          finished-Agrees _ _ _ (calibrate pin a)
            (send_simple_response 7 (rc_of (calibrate pin a).0))
            (code_sent 7 (rc_of (calibrate pin a).0) (rc_of-small (calibrate pin a).0)))

  -- An order given in the shell (pair, lock, unlock, unlatch, or calibrate with a PIN of 16 bits) and the same
  -- order as a request on the serial line do the same to the application, and the code in the answer on the
  -- line is the command's result.
  pub run_command-Agrees :
      (strtoul : List ℕ → ℕ × List ℕ) (c : Command) (f : RxFrame) (a : App)
      → Same strtoul c f
      → Agrees (run_command api strtoul c a) (dispatch_frame api f a)
  unfolding run_command cmd_nuki_lock cmd_nuki_unlock cmd_nuki_unlatch
  run_command-Agrees strtoul status f a s = absurd s
  run_command-Agrees strtoul state f a s = absurd s
  run_command-Agrees strtoul pair_command f a s =
      subst (Agrees (cmd_nuki_pair api a)) (sym (at_pair api f a s)) (pair-Agrees a)
  run_command-Agrees strtoul lock f a s =
      subst (Agrees (cmd_nuki_lock api a)) (sym (at_lock api f a s)) (action-Agrees 2 4 "lock" a)
  run_command-Agrees strtoul unlock f a s =
      subst (Agrees (cmd_nuki_unlock api a)) (sym (at_unlock api f a s))
        (action-Agrees 1 5 "unlock" a)
  run_command-Agrees strtoul unlatch f a s =
      subst (Agrees (cmd_nuki_unlatch api a)) (sym (at_unlatch api f a s))
        (action-Agrees 3 6 "unlatch" a)
  run_command-Agrees strtoul (calibrate_command args) f a (pin, is_pin, seven, two, bytes) =
      subst (Agrees (cmd_nuki_calibrate api strtoul args a)) (sym (at_calibrate api f a seven))
        (calibrate-Agrees strtoul args pin f a is_pin two bytes)

  -- The two ends of `calibrate`: the calibration, and a refusal.
  abbrev pub Calibrated : (List ℕ → ℕ × List ℕ) → List (List ℕ) → App → Outcome api → Type 0
  Calibrated strtoul args a o =
      (pin : ℕ) × IsPin strtoul args pin × (o.0 ≡ (calibrate pin a).0) × (o.2 ≡ (calibrate pin a).1)

  abbrev Refused : (List ℕ → ℕ × List ℕ) → List (List ℕ) → App → Outcome api → Type 0
  Refused strtoul args a o =
      (¬ ((pin : ℕ) × IsPin strtoul args pin)) × (o.0 ≡ err einval) × (o.2 ≡ a)

  finished-effect :
      (start success : Line) (failure : Errno → Line) (r : Result (Unit {0}) × App)
      → ((finished api start failure success r).0 ≡ r.0)
        × ((finished api start failure success r).2 ≡ r.1)
  finished-effect start success failure (ok _, a) = (refl, refl)
  finished-effect start success failure (err e, a) = (refl, refl)

  -- No PIN is in arguments that are not two.
  not_two :
      (strtoul : List ℕ → ℕ × List ℕ) (args : List (List ℕ))
      → length args ≢ 2
      → ¬ ((pin : ℕ) × IsPin strtoul args pin)
  not_two strtoul args n (pin, p) = n (ap length p.two)

  -- What `strtoul` gives is the PIN.
  read_pin :
      (strtoul : List ℕ → ℕ × List ℕ) (name arg : List ℕ) (v pin : ℕ) (rest : List ℕ)
      → strtoul arg ≡ (v, rest)
      → IsPin strtoul (name ∷ arg ∷ []) pin
      → (v ≡ pin) × (length rest ≡ 0)
  read_pin strtoul name arg v pin rest e p =
      let same : (v, rest) ≡ (pin, []) = sym e ∙ ap (λ xs. strtoul (second xs)) p.two ∙ p.value in
      (ap (λ q. q.0) same, ap (λ q. length q.1) same)

  decided :
      (strtoul : List ℕ → ℕ × List ℕ) (name arg : List ℕ) (a : App) (v : ℕ) (rest : List ℕ)
      → strtoul arg ≡ (v, rest)
      → Calibrated strtoul (name ∷ arg ∷ []) a (calibrate_with api arg (v, rest) a)
        ⊎ Refused strtoul (name ∷ arg ∷ []) a (calibrate_with api arg (v, rest) a)
  decided strtoul name arg a v [] e = elim (Bool-cases (ltb 65535 v)) [
    | inl large ↦ rw large (
        inr (
          λ (pin, p). absurd (
              omega
                (arith, p.small, ltb→lt 65535 v large, (read_pin strtoul name arg v pin [] e p).0)),
          refl,
          refl,
        ))
    | inr small ↦ rw small (
        inl (
          v,
          record { name = name; arg = arg; two = refl; value = e; small = ltb_false→le v small },
          (finished-effect _ _ _ (calibrate v a)).0,
          (finished-effect _ _ _ (calibrate v a)).1,
        ))
  ]
  decided strtoul name arg a v (x ∷ rest) e = inr (
    λ (pin, p). absurd (omega (arith, (read_pin strtoul name arg v pin (x ∷ rest) e p).1)),
    refl,
    refl,
  )

  -- `calibrate` calibrates with the number in its one argument if that is a number to its end and has 16 bits,
  -- and else it is refused with EINVAL and leaves the application as it is.
  cmd_nuki_calibrate_lem :
      (strtoul : List ℕ → ℕ × List ℕ) (args : List (List ℕ)) (a : App)
      → Calibrated strtoul args a (cmd_nuki_calibrate api strtoul args a)
        ⊎ Refused strtoul args a (cmd_nuki_calibrate api strtoul args a)
  unfolding cmd_nuki_calibrate
  cmd_nuki_calibrate_lem strtoul [] a =
      inr (not_two strtoul [] (λ e. absurd (omega (arith, e))), refl, refl)
  cmd_nuki_calibrate_lem strtoul (name ∷ []) a =
      inr (not_two strtoul (name ∷ []) (λ e. absurd (omega (arith, e))), refl, refl)
  cmd_nuki_calibrate_lem strtoul (name ∷ arg ∷ []) a =
      decided strtoul name arg a (strtoul arg).0 (strtoul arg).1 refl
  cmd_nuki_calibrate_lem strtoul (name ∷ arg ∷ more ∷ args) a =
      inr (not_two strtoul (name ∷ arg ∷ more ∷ args) (λ e. absurd (omega (arith, e))), refl, refl)
