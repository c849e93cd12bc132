-- ===== src/App/ServiceTests.antt =====
-- Runs of the model of src/nuki_app.c with a lock that is in reach, and the theorems at these inputs.
use nuki_nrf52_bridge.Base.{
  ◌≡◌, refl, true, false, inl, none, some, List, [], ◌∷◌, replicate, ok, arith,
}
use nuki_nrf52_bridge.Zephyr.{little_endian}
use nuki_nrf52_bridge.Transport.{Event, deadline}
use nuki_nrf52_bridge.Link.{Link}
use nuki_nrf52_bridge.Link.Exchange.{Incoming, exchange, deliver}
use nuki_nrf52_bridge.Link.Timely.{Spends}
use nuki_nrf52_bridge.Command as Command
use nuki_nrf52_bridge.Command.Samples.{
  sample_key, challenge_payload, challenge, accepted, reports, challenge-Challenges,
  reports-Concludes, state_payload, state_wire, state-IsMessage,
}
use nuki_nrf52_bridge.Command.Reported.{Reports}
use nuki_nrf52_bridge.Protocol.State.{KeyturnerState, state_parse, decode}
use nuki_nrf52_bridge.Uart.Rx.{RxFrame}
use nuki_nrf52_bridge.App.Poller.{poll}
use nuki_nrf52_bridge.App.Poller.Refreshed.{Present, Refreshed, poll-Refreshed}
use nuki_nrf52_bridge.Pairing.{run}
use nuki_nrf52_bridge.Storage.{get_pairing}
use nuki_nrf52_bridge.App.{init}
use nuki_nrf52_bridge.App.Connect.{Moment, Callback, disconnected, time_passes, turn}
use nuki_nrf52_bridge.App.Connect as C
use nuki_nrf52_bridge.App.Operations.{World}
use nuki_nrf52_bridge.App.Operations.Reached.{Visit, visit}
use nuki_nrf52_bridge.App.Operations.Fulfilled.{Cooperates}
use nuki_nrf52_bridge.App.Operations.Timely.{operations_Spend}
use nuki_nrf52_bridge.App.Bridge.{bridge_api}
use nuki_nrf52_bridge.App.Bridge.Fulfilled.{Replied, dispatch_frame-Replied}
use nuki_nrf52_bridge.Uart.Tx.{dispatch_frame}
use nuki_nrf52_bridge.App.Tests.{paired, paired_storage, stub_psa, lock_frame}

-- Another device advertises first.
abbrev meeting : Visit
meeting = record {
  strangers = record { addr = replicate 7 9; ad = []; stopped = ok tt; created = ok 3 } ∷ [];
  ad = [];
  conn = 1;
  handle = 21;
}

-- Afterwards the lock parts when asked to.
abbrev parting : List Moment
parting = turn ∷ C.happens (disconnected 1) ∷ turn ∷ []

abbrev talking : List Event
talking = exchange challenge (exchange accepted (deliver reports (deadline ∷ [])))

abbrev in_reach : World
in_reach = record {
  app = init paired_storage;
  moments = visit meeting paired.addr parting;
  scans = [];
  wires = record { events = talking; accepts = []; entropy = replicate 24 9 } ∷ [];
  flash = [];
  dst = λ c. 1 ∷ 2 ∷ 3 ∷ 4 ∷ 5 ∷ 6 ∷ 7 ∷ [];
  sent = [];
}

in_reach-Cooperates : Cooperates little_endian paired in_reach
in_reach-Cooperates = record {
  scanning = refl;
  meeting = meeting;
  others = (refl, tt);
  later = parting;
  there = refl;
  nonce_k = challenge_payload;
  challenge = challenge;
  challenges = challenge-Challenges;
  answer = accepted;
  answers = reports;
  concludes = reports-Concludes;
  few = omega arith;
  rest = deadline ∷ [];
  accepting = refl;
  coming = refl;
}

in_reach_known : (get_pairing in_reach.app.storage ≡ some paired) × (in_reach.app.conn ≡ none)
unfolding get_pairing init
in_reach_known = (refl, refl)

dispatch_frame-Replied_example :
    Replied little_endian stub_psa 2 4 paired in_reach in_reach-Cooperates
      (dispatch_frame (bridge_api little_endian stub_psa) lock_frame in_reach)
dispatch_frame-Replied_example =
    dispatch_frame-Replied little_endian stub_psa lock_frame 2 paired in_reach (inl (refl, refl))
      in_reach_known.0 (omega arith) in_reach_known.1 in_reach-Cooperates

abbrev reported : Incoming
reported = record { command = 12; payload = state_payload; early = []; late = state_wire ∷ [] }

-- Locked, 86 percent, the door closed.
abbrev locked : KeyturnerState
locked = record {
  nuki_state = 2;
  lock_state = 1;
  trigger = 0;
  year = 2026;
  month = 8;
  day = 7;
  hour = 14;
  minute = 2;
  second = 10;
  timezone_offset_min = 0;
  critical_battery = false;
  battery_percent = 86;
  door_sensor_state = 2;
}

reported-Reports : Reports little_endian sample_key 5 locked reported
unfolding state_parse decode
reported-Reports = record {
  payload = state_payload;
  filled = (omega arith, tt);
  message = state-IsMessage;
  parses = refl;
}

abbrev watched : World
watched = record in_reach {
  wires =
      record { events = exchange reported (deadline ∷ []); accepts = []; entropy = replicate 24 9 }
      ∷ [];
}

watched-Present : Present little_endian paired watched locked
watched-Present = record {
  scanning = refl;
  meeting = meeting;
  others = (refl, tt);
  later = parting;
  there = refl;
  report = reported;
  reports = reported-Reports;
  rest = deadline ∷ [];
  accepting = refl;
  coming = refl;
}

abbrev state_request : RxFrame
state_request = record { cmd = 3; len = 0; payload = replicate 32 0 }

-- Ten minutes and a half second, with the end of a connection between.
abbrev meanwhile : List Callback
meanwhile = time_passes 600000 ∷ disconnected 1 ∷ time_passes 500 ∷ []

poll-Refreshed_example :
    Refreshed little_endian stub_psa state_request meanwhile paired watched locked
      (poll little_endian watched)
poll-Refreshed_example =
    poll-Refreshed little_endian stub_psa state_request meanwhile paired watched locked refl
      in_reach_known.0 (omega arith) in_reach_known.1 watched-Present

abbrev talk : Link
talk = record {
  transport = record {
    conn = some 1;
    value_handle = 21;
    rx_buf = replicate 256 0;
    rx_len = 0;
    write_err = 0;
  };
  schedule = talking;
  accepts = [];
  entropy = replicate 60 9;
  sent = [];
  captured = none;
}

operations_Spend_example :
    Spends talk (Command.get_state little_endian sample_key 5 talk)
    × Spends talk (Command.lock_action little_endian sample_key 5 6 2 true talk)
    × Spends talk (Command.calibrate little_endian sample_key 5 1234 talk)
    × Spends talk (run little_endian stub_psa talk)
operations_Spend_example = operations_Spend little_endian stub_psa sample_key 5 6 2 1234 true talk
