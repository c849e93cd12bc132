-- ===== src/Uart/Api.antt =====
-- src/nuki_app.h: the operations of the application that the UART protocol and the shell call, over the
-- application's state. An age in seconds is the 32-bit pattern of its `int32_t`.
use nuki_nrf52_bridge.Base.{ℕ, Bool, Result}
use nuki_nrf52_bridge.Protocol.State.{KeyturnerState}

pub record AppApi : Type 1 where
  pub App : Type 0
  pub is_paired : App → Bool
  pub is_connected : App → Bool
  pub is_ready : App → Bool
  pub pair : App → Result (Unit {0}) × App
  pub lock_action : ℕ → App → Result (Unit {0}) × App
  pub calibrate : ℕ → App → Result (Unit {0}) × App
  pub get_state : App → Result KeyturnerState × App
  pub get_cached_state : App → Result (KeyturnerState × ℕ)
