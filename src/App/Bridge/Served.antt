-- ===== src/App/Bridge/Served.antt =====
-- src/nuki_uart_proto.c over src/nuki_app.c: what an answer on the serial line says about the lock.
use nuki_nrf52_bridge.Base.{ℕ, ◌≡◌, ◌⊎◌, List, ◌∷◌, ◌++◌, le_bytes, replicate, err, Errno}
use nuki_nrf52_bridge.Zephyr.{ByteOrder}
use nuki_nrf52_bridge.Crypto.Psa.{Psa}
use nuki_nrf52_bridge.Uart.Tx.{rc_of, send_state}
use nuki_nrf52_bridge.App.Operations.{World, get_cached_state}
use nuki_nrf52_bridge.App.Operations.Cache.{SameCache}
use nuki_nrf52_bridge.App.Operations.Confirmed.{Confirmed}

-- The answer to a request for an action: the lock confirmed the action, and the answer holds what the cache
-- holds afterwards; or it is a negative code and zeros, and the cache is as before.
abbrev pub Served : ByteOrder → ℕ → ℕ → World → List ℕ × World → Type 0
Served bo action cmd w (out, w') =
    ((out ≡ send_state cmd 0 (get_cached_state w'.app)) × Confirmed bo action w w')
    ⊎ ((e : Errno) × (out
          ≡ 0x5a ∷ cmd ∷ 21 ∷ (le_bytes 4 (rc_of {A = ℕ} (err e)) ++ replicate 17 0))
        × SameCache w.app w'.app)
