-- ===== src/App.antt =====
-- src/nuki_app.c: the application. Its state, and what the Bluetooth stack and the clock do to it.
pub mod Adverts
pub mod Connect
pub mod Operations
pub mod Poller
pub mod Bridge
mod Tests
mod PairTests
mod ServiceTests
use nuki_nrf52_bridge.Base.{
  ℕ, Bool, false, Option, none, List, [], ◌∷◌, ◌++◌, Result, ok, replicate,
}
use nuki_nrf52_bridge.Transport.{Transport}
use nuki_nrf52_bridge.Protocol.State.{KeyturnerState}
use nuki_nrf52_bridge.Protocol.Commands.{wire_max_len}
use nuki_nrf52_bridge.Storage.{Storage, reset_storage}

-- What the application asks the Bluetooth stack to do.
pub data Request : Type 0 where
  scan_start scan_stop : Request
  create : List ℕ → Request
  disconnect : ℕ → Request
  discover_pairing discover_keyturner : ℕ → Request

-- The file's variables, those of src/nuki_storage.c, and the kernel's clock in milliseconds. A connection
-- is a number. Of the semaphores, whose limit is 1, there is whether they are given; of the scan's timer,
-- whether it is running. `requests` holds what was asked of the stack so far, in order.
pub record App : Type 0 where
  pub conn : Option ℕ
  pub gdio : Transport
  pub usdio : Transport
  pub gdio_ready : Bool
  pub usdio_ready : Bool
  pub need_gdio : Bool
  pub ready_sem : Bool
  pub connect_err : Result (Unit {0})
  pub connecting : Bool
  pub disconnected_sem : Bool
  pub scan_timer : Bool
  pub cached_state : KeyturnerState
  pub cache_valid : Bool
  pub cache_uptime_ms : ℕ
  pub state_poll_retries : ℕ
  pub storage : Storage
  pub uptime_ms : ℕ
  pub requests : List Request

-- A transport that was never set up: a struct of zeros.
abbrev pub reset_transport : Transport
reset_transport = record {
  conn = none;
  value_handle = 0;
  rx_buf = replicate wire_max_len 0;
  rx_len = 0;
  write_err = 0;
}

-- A report of zeros.
abbrev pub reset_state : KeyturnerState
reset_state = record {
  nuki_state = 0;
  lock_state = 0;
  trigger = 0;
  year = 0;
  month = 0;
  day = 0;
  hour = 0;
  minute = 0;
  second = 0;
  timezone_offset_min = 0;
  critical_battery = false;
  battery_percent = 0;
  door_sensor_state = 0;
}

-- `nuki_app_init` after the reset of the processor, with the settings loaded.
unfoldable pub init : Storage → App
init s = record {
  conn = none;
  gdio = reset_transport;
  usdio = reset_transport;
  gdio_ready = false;
  usdio_ready = false;
  need_gdio = false;
  ready_sem = false;
  connect_err = ok tt;
  connecting = false;
  disconnected_sem = false;
  scan_timer = false;
  cached_state = reset_state;
  cache_valid = false;
  cache_uptime_ms = 0;
  state_poll_retries = 0;
  storage = s;
  uptime_ms = 0;
  requests = [];
}

abbrev pub ask : Request → App → App
ask r a = record a { requests = a.requests ++ r ∷ [] }
