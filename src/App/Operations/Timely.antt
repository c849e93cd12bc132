-- ===== src/App/Operations/Timely.antt =====
-- src/nuki_command.c and src/nuki_pairing.c, as src/nuki_app.c calls them: how long an operation waits.
use nuki_nrf52_bridge.Base.{ℕ, Bool, List}
use nuki_nrf52_bridge.Zephyr.{ByteOrder}
use nuki_nrf52_bridge.Crypto.Psa.{Psa}
use nuki_nrf52_bridge.Link.{Link}
use nuki_nrf52_bridge.Link.Timely.{Spends, timely}
use nuki_nrf52_bridge.Command.{get_state, lock_action, calibrate}
use nuki_nrf52_bridge.Command.Contract.{get_state-Obeys, lock_action-Obeys, calibrate-Obeys}
use nuki_nrf52_bridge.Pairing.{run}
use nuki_nrf52_bridge.Pairing.Contract.{run-Obeys}

-- Reading the state, a lock action, a calibration and the handshake end, whatever the other threads do, and
-- give up at the first time limit that runs out: of what happens they use up a part in which none does, and
-- behind it at most one that does, and then they fail.
pub operations_Spend :
    (bo : ByteOrder) (psa : Psa) (key : List ℕ) (auth_id app_id action pin : ℕ) (want : Bool)
    (l : Link)
    → Spends l (get_state bo key auth_id l)
      × Spends l (lock_action bo key auth_id app_id action want l)
      × Spends l (calibrate bo key auth_id pin l)
      × Spends l (run bo psa l)
operations_Spend bo psa key auth_id app_id action pin want l = (
  get_state-Obeys timely bo key auth_id l,
  lock_action-Obeys timely bo key auth_id app_id action want l,
  calibrate-Obeys timely bo key auth_id pin l,
  run-Obeys timely bo psa l,
)
