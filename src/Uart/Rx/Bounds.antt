-- ===== src/Uart/Rx/Bounds.antt =====
-- src/nuki_uart_proto.c: the receiver never writes outside its frame.
use nuki_nrf52_bridge.Base.{
  ℕ, ◌+◌, ◌%◌, ◌^◌, ◌<◌, ◌≤◌, List, [], ◌∷◌, ◌≡◌, refl, ◌∙◌, arith, length, set, All, length-set,
  All-append, Bool-cases, inl, inr, ◌≢◌, ltb, ◌==◌,
}
use nuki_nrf52_bridge.Uart.Rx.{
  RxFrame, RxState, wait_sof, wait_cmd, wait_len, wait_payload, Receiver, reset_receiver, hand_over,
  on_sof, on_cmd, on_len, on_payload, on_state, rx_byte, serial_cb, serial_run,
}

-- A frame as `dispatch_frame` may read it.
abbrev pub IsFrame : RxFrame → Type 0
IsFrame f = (length f.payload ≡ 32) × (f.len ≤ 32) × (f.cmd < 256)

-- While a payload is collected, the next write is inside it and inside the buffer.
pub record IsReceiver (r : Receiver) : Type 0 where
  pub buffer : length r.frame.payload ≡ 32
  pub cmd_lt : r.frame.cmd < 256
  pub collecting : r.state ≡ wait_payload → (r.payload_pos < r.frame.len) × (r.frame.len ≤ 32)
  pub frames : All IsFrame r.handed

hand_over-IsReceiver :
    (r : Receiver)
    → length r.frame.payload ≡ 32
    → r.frame.cmd < 256
    → r.frame.len ≤ 32
    → All IsFrame r.handed
    → IsReceiver (hand_over r)
hand_over-IsReceiver r b c l f = record {
  buffer = b;
  cmd_lt = c;
  collecting = λ e. cc;
  frames = All-append IsFrame r.handed (r.frame ∷ []) f ((b, l, c), tt);
}

-- A state that hunts or reads the header asks nothing of the position.
elsewhere-IsReceiver :
    (s : Receiver)
    → length s.frame.payload ≡ 32
    → s.frame.cmd < 256
    → s.state ≢ wait_payload
    → All IsFrame s.handed
    → IsReceiver s
elsewhere-IsReceiver s b c n f = record {
  buffer = b;
  cmd_lt = c;
  collecting = λ e. absurd (n e);
  frames = f;
}

on_sof-IsReceiver : (r : Receiver) (c : ℕ) → IsReceiver r → IsReceiver (on_sof r c)
on_sof-IsReceiver r c v = elim (Bool-cases (c == 0xa5)) [
  | inl same ↦
      rw same
        (elsewhere-IsReceiver (record r { state = wait_cmd }) v.buffer v.cmd_lt (λ q. cc) v.frames)
  | inr other ↦ rw other v
]

on_len-IsReceiver : (r : Receiver) (c : ℕ) → IsReceiver r → IsReceiver (on_len r c)
on_len-IsReceiver r c v = elim (Bool-cases (ltb 32 c)) [
  | inl bogus ↦
      rw bogus
        (elsewhere-IsReceiver (record r { state = wait_sof }) v.buffer v.cmd_lt (λ q. cc) v.frames)
  | inr fits ↦
      let small : c ≤ 32 = ground arith in
      rw fits (elim (Bool-cases (c == 0)) [
        | inl empty ↦ rw empty (
            hand_over-IsReceiver
              (record r { frame = record (r.frame) { len = c }; payload_pos = 0 }) v.buffer v.cmd_lt
              small v.frames)
        | inr more ↦ rw more (record {
          buffer = v.buffer;
          cmd_lt = v.cmd_lt;
          collecting = λ q. (ground arith, small);
          frames = v.frames;
        })
      ])
]

on_payload-IsReceiver :
    (r : Receiver) (c : ℕ)
    → (r.payload_pos < r.frame.len) × (r.frame.len ≤ 32)
    → IsReceiver r
    → IsReceiver (on_payload r c)
on_payload-IsReceiver r c w v = elim (Bool-cases ((r.payload_pos + 1) % 2 ^ 8 == r.frame.len)) [
  | inl last ↦ rw last (
      hand_over-IsReceiver
        (record r {
          frame = record (r.frame) { payload = set r.frame.payload r.payload_pos c };
          payload_pos = (r.payload_pos + 1) % 2 ^ 8;
        })
        written v.cmd_lt w.1 v.frames)
  | inr more ↦
      let next : (r.payload_pos + 1) % 2 ^ 8 < r.frame.len = ground arith in
      rw more (record {
        buffer = written;
        cmd_lt = v.cmd_lt;
        collecting = λ q. (next, w.1);
        frames = v.frames;
      })
]
  where
    written : length (set r.frame.payload r.payload_pos c) ≡ 32
    written = length-set r.frame.payload r.payload_pos c ∙ v.buffer

on_state-IsReceiver :
    (s : RxState) (r : Receiver) (c : ℕ)
    → r.state ≡ s
    → c < 256
    → IsReceiver r
    → IsReceiver (on_state s r c)
on_state-IsReceiver wait_sof r c e h v = on_sof-IsReceiver r c v
on_state-IsReceiver wait_cmd r c e h v =
    elsewhere-IsReceiver (on_cmd r c) v.buffer h (λ q. cc) v.frames
on_state-IsReceiver wait_len r c e h v = on_len-IsReceiver r c v
on_state-IsReceiver wait_payload r c e h v = on_payload-IsReceiver r c (v.collecting e) v

serial_cb-IsReceiver :
    (r : Receiver) (cs : List ℕ)
    → All (λ c. c < 256) cs
    → IsReceiver r
    → IsReceiver (serial_cb r cs)
unfolding serial_cb rx_byte
serial_cb-IsReceiver r [] h v = v
serial_cb-IsReceiver r (c ∷ cs) h v =
    serial_cb-IsReceiver (on_state r.state r c) cs h.1 (on_state-IsReceiver r.state r c refl h.0 v)

-- Every byte keeps the receiver's invariant: from the reset on, whatever bytes arrive in whatever
-- bursts, each payload byte is written inside the frame's 32-byte buffer, and each frame that is
-- handed over has at most 32 payload bytes.
pub serial_run-IsReceiver :
    (r : Receiver) (bursts : List (List ℕ))
    → All (All (λ c. c < 256)) bursts
    → IsReceiver r
    → IsReceiver (serial_run r bursts)
unfolding serial_run
serial_run-IsReceiver r [] h v = v
serial_run-IsReceiver r (cs ∷ bursts) h v =
    serial_run-IsReceiver (serial_cb r cs) bursts h.1 (serial_cb-IsReceiver r cs h.0 v)

pub reset_receiver-IsReceiver : IsReceiver reset_receiver
reset_receiver-IsReceiver = record {
  buffer = refl;
  cmd_lt = omega arith;
  collecting = λ e. cc;
  frames = tt;
}
