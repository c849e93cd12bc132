-- ===== src/Pairing/Keeps.antt =====
-- src/nuki_pairing.c: the receive buffer keeps its shape through the handshake.
use nuki_nrf52_bridge.Zephyr.{ByteOrder}
use nuki_nrf52_bridge.Crypto.Psa.{Psa}
use nuki_nrf52_bridge.Link.Keeps.{Keeps, keeping}
use nuki_nrf52_bridge.Pairing.{run}
use nuki_nrf52_bridge.Pairing.Contract.{run-Obeys}

pub run-Keeps : (bo : ByteOrder) (psa : Psa) → Keeps (run bo psa)
run-Keeps bo psa = run-Obeys keeping bo psa
