-- ===== src/App/Bridge.antt =====
-- src/nuki_app.h and src/nuki_uart_proto.c: the application as the UART protocol uses it.
pub mod Served
pub mod Fulfilled
pub mod Introduced
use nuki_nrf52_bridge.Base.{ℕ}
use nuki_nrf52_bridge.Zephyr.{ByteOrder}
use nuki_nrf52_bridge.Crypto.Psa.{Psa}
use nuki_nrf52_bridge.Uart.Api.{AppApi}
use nuki_nrf52_bridge.App.Operations.{
  World, is_paired, is_connected, is_ready, pair, lock_action, calibrate, get_state,
  get_cached_state,
}

-- The operations of src/nuki_app.c, over the world they act in.
abbrev pub bridge_api : ByteOrder → Psa → AppApi
bridge_api bo psa = record {
  App = World;
  is_paired = λ w. is_paired w.app;
  is_connected = λ w. is_connected w.app;
  is_ready = λ w. is_ready w.app;
  pair = pair bo psa;
  lock_action = lock_action bo;
  calibrate = calibrate bo;
  get_state = get_state bo;
  get_cached_state = λ w. get_cached_state w.app;
}
