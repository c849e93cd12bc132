-- ===== src/Uart/Rx.antt =====
-- src/nuki_uart_proto.c: the receiver, a state machine over the bytes of the UART (`serial_cb`).
pub mod Bounds
pub mod Collect
pub mod Frames
use nuki_nrf52_bridge.Base.{
  ℕ, zero, suc, ◌+◌, ◌%◌, ◌^◌, List, [], ◌∷◌, ◌++◌, set, replicate, ltb, ◌==◌, if◌then◌else◌,
}

abbrev pub sof_req : ℕ
sof_req = 0xa5

abbrev pub max_payload : ℕ
max_payload = 32

-- `struct rx_frame`.
pub record RxFrame : Type 0 where
  pub cmd : ℕ
  pub len : ℕ
  pub payload : List ℕ

-- `enum rx_state`.
pub data RxState : Type 0 where
  wait_sof wait_cmd wait_len wait_payload : RxState

-- The file's variables, and the frames that were handed to `k_msgq_put` so far, in order; whether
-- the queue takes one is Zephyr's to say, and the receiver does not look at the answer.
pub record Receiver : Type 0 where
  pub state : RxState
  pub frame : RxFrame
  pub payload_pos : ℕ
  pub handed : List RxFrame

abbrev pub reset_receiver : Receiver
reset_receiver = record {
  state = wait_sof;
  frame = record { cmd = 0; len = 0; payload = replicate 32 0 };
  payload_pos = 0;
  handed = [];
}

-- `k_msgq_put(&nuki_uart_msgq, &rx_frame, K_NO_WAIT)`, and back to hunting.
abbrev pub hand_over : Receiver → Receiver
hand_over r = record r { state = wait_sof; handed = r.handed ++ r.frame ∷ [] }

-- The cases of the `switch`, one for each state.
abbrev pub on_sof : Receiver → ℕ → Receiver
on_sof r c = if c == sof_req then record r { state = wait_cmd } else r

abbrev pub on_cmd : Receiver → ℕ → Receiver
on_cmd r c = record r { frame = record (r.frame) { cmd = c }; state = wait_len }

abbrev pub on_len : Receiver → ℕ → Receiver
on_len r c =
    let r' = record r { frame = record (r.frame) { len = c }; payload_pos = 0 } in
    if ltb max_payload c
    then record r { state = wait_sof }
    else if c == 0
    then hand_over r'
    else record r' { state = wait_payload }

-- `rx_payload_pos` is a `uint8_t`.
abbrev pub on_payload : Receiver → ℕ → Receiver
on_payload r c =
    let pos = (r.payload_pos + 1) % 2 ^ 8 in
    let r' = record r {
      frame = record (r.frame) { payload = set r.frame.payload r.payload_pos c };
      payload_pos = pos;
    } in
    if pos == r.frame.len then hand_over r' else r'

abbrev pub on_state : RxState → Receiver → ℕ → Receiver
on_state wait_sof r c = on_sof r c
on_state wait_cmd r c = on_cmd r c
on_state wait_len r c = on_len r c
on_state wait_payload r c = on_payload r c

-- One round of the loop in `serial_cb`.
unfoldable pub rx_byte : Receiver → ℕ → Receiver
rx_byte r c = on_state r.state r c

-- One call of `serial_cb`, with the bytes that the FIFO gives it.
unfoldable pub serial_cb : Receiver → List ℕ → Receiver
serial_cb r [] = r
serial_cb r (c ∷ cs) = serial_cb (rx_byte r c) cs

-- The calls of `serial_cb` in a run.
unfoldable pub serial_run : Receiver → List (List ℕ) → Receiver
serial_run r [] = r
serial_run r (cs ∷ bursts) = serial_run (serial_cb r cs) bursts
