-- ===== src/Shell/Tests.antt =====
-- The theorems on the shell at concrete inputs, over an application whose state is the last order.
use nuki_nrf52_bridge.Base.{
  ℕ, ◌+◌, ◌-◌, ◌*◌, refl, arith, true, false, ◌&&◌, leb, if◌then◌else◌, List, [], ◌∷◌, replicate,
  ok, err, enodata,
}
use nuki_nrf52_bridge.Uart.Api.{AppApi}
use nuki_nrf52_bridge.Uart.Rx.{RxFrame}
use nuki_nrf52_bridge.Uart.Tx.{dispatch_frame}
use nuki_nrf52_bridge.Shell.{calibrate_command, run_command}
use nuki_nrf52_bridge.Shell.Agrees.{IsPin, Agrees, run_command-Agrees}

abbrev last_order : AppApi
last_order = record {
  App = ℕ;
  is_paired = λ a. true;
  is_connected = λ a. false;
  is_ready = λ a. false;
  pair = λ a. (ok tt, 1000);
  lock_action = λ action a. (ok tt, action);
  calibrate = λ pin a. (ok tt, pin);
  get_state = λ a. (err enodata, a);
  get_cached_state = λ a. err enodata;
}

-- The decimal digits at the start of a text, and the rest.
abbrev digits : ℕ → List ℕ → ℕ × List ℕ
digits n [] = (n, [])
digits n (c ∷ cs) =
    let more = digits (10 * n + (c - 48)) cs in if leb 48 c && leb c 57 then more else (n, c ∷ cs)

-- "calibrate" and "1234".
abbrev args : List (List ℕ)
args = (99 ∷ 97 ∷ 108 ∷ []) ∷ (49 ∷ 50 ∷ 51 ∷ 52 ∷ []) ∷ []

abbrev request : RxFrame
request = record { cmd = 7; len = 2; payload = 0xd2 ∷ 4 ∷ replicate 30 0 }

args-IsPin : IsPin (digits 0) args 1234
args-IsPin = record {
  name = 99 ∷ 97 ∷ 108 ∷ [];
  arg = 49 ∷ 50 ∷ 51 ∷ 52 ∷ [];
  two = refl;
  value = refl;
  small = omega arith;
}

run_command-Agrees_example :
    Agrees last_order
      (run_command last_order (digits 0) (calibrate_command args) 0)
      (dispatch_frame last_order request 0)
run_command-Agrees_example =
    run_command-Agrees last_order (digits 0) (calibrate_command args) request 0
      (1234, args-IsPin, refl, refl, refl)
