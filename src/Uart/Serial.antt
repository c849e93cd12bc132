-- ===== src/Uart/Serial.antt =====
-- src/nuki_uart_proto.c: the interrupt handler and the thread, side by side, and the message queue between
-- them.
pub mod Order
pub mod Queue
use nuki_nrf52_bridge.Base.{ℕ, ◌<◌, ◌≤◌, ◌≡◌, Option, none, some, List, [], ◌∷◌, ◌++◌, length, drop}
use nuki_nrf52_bridge.Uart.Rx.{RxFrame, Receiver, rx_byte}
use nuki_nrf52_bridge.Uart.Api.{AppApi}
use nuki_nrf52_bridge.Uart.Tx.{dispatch_frame}

-- `K_MSGQ_DEFINE(nuki_uart_msgq, ...)` has room for so many frames.
abbrev pub msgq_depth : ℕ
msgq_depth = 4

-- Zephyr's message queue, which is not in the repository: `put` is `k_msgq_put` with K_NO_WAIT, `get` is
-- `k_msgq_get`, where `none` stands for a thread that waits. A full queue takes nothing.
pub record Msgq : Type 1 where
  pub Queue : Type 0
  pub put : RxFrame → Queue → Queue
  pub get : Queue → Option (RxFrame × Queue)
  pub waiting : Queue → List RxFrame
  pub put_room :
      (f : RxFrame) (q : Queue)
      → length (waiting q) < msgq_depth
      → waiting (put f q) ≡ waiting q ++ f ∷ []
  pub put_full :
      (f : RxFrame) (q : Queue) → msgq_depth ≤ length (waiting q) → waiting (put f q) ≡ waiting q
  pub get_nothing : (q : Queue) → waiting q ≡ [] → get q ≡ none
  pub get_first :
      (q : Queue) (f : RxFrame) (fs : List RxFrame)
      → waiting q ≡ f ∷ fs
      → (q' : Queue) × (get q ≡ some (f, q')) × (waiting q' ≡ fs)

-- What happens next: the UART gives the interrupt handler a byte, or the thread looks at the queue.
pub data Tick : Type 0 where
  byte : ℕ → Tick
  turn : Tick

-- The frames that a step of the receiver hands over.
abbrev pub handed_now : Receiver → Receiver → List RxFrame
handed_now r r' = drop (length r.handed) r'.handed

module _ (queues : Msgq) (api : AppApi) where
  open queues use {Queue, put, get}

  -- The receiver's variables, the queue, the application, and the bytes sent so far.
  pub record Serial : Type 0 where
    pub receiver : Receiver
    pub queue : Queue
    pub app : api.App
    pub out : List ℕ

  abbrev pub put_all : List RxFrame → Queue → Queue
  put_all [] q = q
  put_all (f ∷ fs) q = put_all fs (put f q)

  -- One round of `serial_cb`.
  unfoldable pub on_byte : ℕ → Serial → Serial
  on_byte c s =
      let r = rx_byte s.receiver c in
      record s { receiver = r; queue = put_all (handed_now s.receiver r) s.queue }

  -- One round of `nuki_uart_thread_fn`.
  abbrev pub serve : Option (RxFrame × Queue) → Serial → Serial
  serve none s = s
  serve (some (f, q)) s =
      let (bytes, a) = dispatch_frame api f s.app in
      record s { queue = q; app = a; out = s.out ++ bytes }

  unfoldable pub on_turn : Serial → Serial
  on_turn s = serve (get s.queue) s

  -- The two, in any order.
  unfoldable pub serial : List Tick → Serial → Serial
  serial [] s = s
  serial (byte c ∷ ticks) s = serial ticks (on_byte c s)
  serial (turn ∷ ticks) s = serial ticks (on_turn s)
