-- ===== src/Startup.antt =====
-- src/main.c and `nuki_uart_proto_init` of src/nuki_uart_proto.c: what runs after the start.
use nuki_nrf52_bridge.Base.{
  Bool, true, false, Option, none, some, Result, ok, err, enodev, is_ok, if◌then◌else◌,
}
use nuki_nrf52_bridge.Crypto.Psa.{Psa, crypto_init}
use nuki_nrf52_bridge.Storage.{Storage, reset_storage}
use nuki_nrf52_bridge.App.{App, init}

-- What the calls of the start answer: of `bt_enable`, `settings_subsys_init`, `settings_load` (by what it does
-- to the saved pairing), `device_is_ready` and `uart_irq_callback_user_data_set`.
pub record Board : Type 0 where
  pub bt_enable : Result (Unit {0})
  pub settings_subsys_init : Result (Unit {0})
  pub settings_load : Storage → Storage
  pub device_is_ready : Bool
  pub irq_callback : Result (Unit {0})

-- `nuki_uart_proto_init`: its result, and whether the thread was created.
unfoldable pub uart_proto_init : Bool → Result (Unit {0}) → Result (Unit {0}) × Bool
uart_proto_init false set = (err enodev, false)
uart_proto_init true (ok _) = (ok tt, true)
uart_proto_init true (err e) = (err e, false)

-- The application, if it was started, and whether the thread of the serial protocol runs.
pub record Running : Type 0 where
  pub app : Option App
  pub serial : Bool

abbrev pub stopped : Running
stopped = record { app = none; serial = false }

-- `main` goes on without the serial protocol if that cannot be set up.
unfoldable pub main : Board → Psa → Running
main board psa =
    let app = init (board.settings_load reset_storage) in
    let serial = (uart_proto_init board.device_is_ready board.irq_callback).1 in
    if is_ok board.bt_enable
    then if is_ok (crypto_init psa)
      then if is_ok board.settings_subsys_init
        then record { app = some app; serial = serial }
        else stopped
      else stopped
    else stopped
