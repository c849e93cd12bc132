-- ===== src/Command/Keeps.antt =====
-- src/nuki_command.c: the receive buffer keeps its shape through every command.
use nuki_nrf52_bridge.Base.{ℕ, Bool, List}
use nuki_nrf52_bridge.Zephyr.{ByteOrder}
use nuki_nrf52_bridge.Link.Keeps.{Keeps, keeping}
use nuki_nrf52_bridge.Command.{get_state, lock_action, calibrate}
use nuki_nrf52_bridge.Command.Contract.{get_state-Obeys, lock_action-Obeys, calibrate-Obeys}

module _ (bo : ByteOrder) (key : List ℕ) where
  pub get_state-Keeps : (auth_id : ℕ) → Keeps (get_state bo key auth_id)
  get_state-Keeps = get_state-Obeys keeping bo key

  pub lock_action-Keeps :
      (auth_id app_id action : ℕ) (want : Bool)
      → Keeps (lock_action bo key auth_id app_id action want)
  lock_action-Keeps = lock_action-Obeys keeping bo key

  pub calibrate-Keeps : (auth_id pin : ℕ) → Keeps (calibrate bo key auth_id pin)
  calibrate-Keeps = calibrate-Obeys keeping bo key
