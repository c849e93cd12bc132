-- ===== src/Uart/Rx/Collect.antt =====
-- src/nuki_uart_proto.c: the receiver on one request.
use nuki_nrf52_bridge.Base.{
  ℕ, zero, suc, ◌+◌, ◌%◌, ◌^◌, ◌<◌, ◌≤◌, List, [], ◌∷◌, ◌++◌, ◌≡◌, refl, ap, ap₂, ◌∙◌, arith,
  length, set, take, append_assoc, ◌==◌, true, false, le→ltb_false, length-set,
}
use nuki_nrf52_bridge.Uart.Rx.{
  RxFrame, wait_sof, wait_len, wait_payload, Receiver, on_len, on_payload, on_state, rx_byte,
  serial_cb, sof_req,
}

-- A request as the other side means it, and its bytes on the wire.
pub record Request : Type 0 where
  pub cmd : ℕ
  pub args : List ℕ

abbrev pub encode : Request → List ℕ
encode q = sof_req ∷ q.cmd ∷ length q.args ∷ q.args

-- What the dispatcher reads of a frame: the bytes of the buffer behind `len` are old.
abbrev pub view : RxFrame → Request
view f = record { cmd = f.cmd; args = take f.len f.payload }

take-set : (xs : List ℕ) (p x : ℕ) → p < length xs → take (suc p) (set xs p x) ≡ take p xs ++ x ∷ []
take-set [] p x h = absurd (omega arith)
take-set (y ∷ ys) zero x h = refl
take-set (y ∷ ys) (suc p) x h = ap (λ t. y ∷ t) (take-set ys p x (omega arith))

-- What the receiver has done when the last byte `args` of a frame is in: the frame is handed over,
-- behind those that were, and the receiver hunts again.
record Done (r : Receiver) (before args : List ℕ) (r' : Receiver) : Type 0 where
  hunting : r'.state ≡ wait_sof
  handed : r'.handed ≡ r.handed ++ r'.frame ∷ []
  same_cmd : r'.frame.cmd ≡ r.frame.cmd
  taken : take r'.frame.len r'.frame.payload ≡ before ++ args
  buffer : length r'.frame.payload ≡ 32

payload_last :
    (r : Receiver) (x : ℕ)
    → r.frame.len ≡ r.payload_pos + 1
    → r.frame.len ≤ 32
    → length r.frame.payload ≡ 32
    → Done r (take r.payload_pos r.frame.payload) (x ∷ []) (on_payload r x)
payload_last r x e l b = rw end record {
  hunting = refl;
  handed = refl;
  same_cmd = refl;
  taken =
      ap (λ n. take n (set r.frame.payload r.payload_pos x)) {y = suc r.payload_pos} (omega arith)
      ∙ take-set r.frame.payload r.payload_pos x (omega arith);
  buffer = length-set r.frame.payload r.payload_pos x ∙ b;
}
  where
    end : ((r.payload_pos + 1) % 2 ^ 8 == r.frame.len) ≡ true
    end = ground arith

payload_more :
    (r : Receiver) (x : ℕ)
    → r.payload_pos + 1 < r.frame.len
    → r.frame.len ≤ 32
    → on_payload r x ≡ record r {
      frame = record (r.frame) { payload = set r.frame.payload r.payload_pos x };
      payload_pos = r.payload_pos + 1;
    }
payload_more r x h l = rw (more, small)
  where
    more : ((r.payload_pos + 1) % 2 ^ 8 == r.frame.len) ≡ false
    more = ground arith

    small : (r.payload_pos + 1) % 2 ^ 8 ≡ r.payload_pos + 1
    small = omega arith

-- The last bytes are in after a byte that is not the last.
Done-step :
    (r : Receiver) (x : ℕ) (args : List ℕ) (r' : Receiver)
    → r.payload_pos < length r.frame.payload
    → Done
        (record r {
          frame = record (r.frame) { payload = set r.frame.payload r.payload_pos x };
          payload_pos = r.payload_pos + 1;
        })
        (take (r.payload_pos + 1) (set r.frame.payload r.payload_pos x))
        args
        r'
    → Done r (take r.payload_pos r.frame.payload) (x ∷ args) r'
Done-step r x args r' h d = record {
  hunting = d.hunting;
  handed = d.handed;
  same_cmd = d.same_cmd;
  taken =
      d.taken
      ∙ ap (λ n. take n (set r.frame.payload r.payload_pos x) ++ args) {y = suc r.payload_pos}
          (omega arith)
      ∙ ap (λ t. t ++ args) (take-set r.frame.payload r.payload_pos x h)
      ∙ append_assoc (take r.payload_pos r.frame.payload) (x ∷ []) args;
  buffer = d.buffer;
}

collect :
    (r : Receiver) (x : ℕ) (xs : List ℕ)
    → r.state ≡ wait_payload
    → r.frame.len ≡ r.payload_pos + suc (length xs)
    → r.frame.len ≤ 32
    → length r.frame.payload ≡ 32
    → Done r (take r.payload_pos r.frame.payload) (x ∷ xs) (serial_cb r (x ∷ xs))
unfolding serial_cb rx_byte
collect r x [] s e l b = rw (ap (λ st. on_state st r x) s) (payload_last r x (omega arith) l b)
collect r x (y ∷ ys) s e l b =
    rw (ap (λ st. on_state st r x) s ∙ payload_more r x (omega arith) l) (
      Done-step r x (y ∷ ys) (serial_cb (on_state r.state next y) ys) (omega arith)
        (collect next y ys s (omega arith) l (length-set r.frame.payload r.payload_pos x ∙ b)))
  where
    next : Receiver
    next = record r {
      frame = record (r.frame) { payload = set r.frame.payload r.payload_pos x };
      payload_pos = r.payload_pos + 1;
    }

-- A whole request, received by a receiver that hunts.
pub record Took (r : Receiver) (q : Request) (r' : Receiver) : Type 0 where
  pub hunting : r'.state ≡ wait_sof
  pub handed : r'.handed ≡ r.handed ++ r'.frame ∷ []
  pub meant : view r'.frame ≡ q
  pub buffer : length r'.frame.payload ≡ 32

-- The receiver behind the command byte of a request.
abbrev after_cmd : Receiver → ℕ → Receiver
after_cmd r c = record r { frame = record (r.frame) { cmd = c }; state = wait_len }

serial_cb_header :
    (r : Receiver) (c n : ℕ) (rest : List ℕ)
    → r.state ≡ wait_sof
    → serial_cb r (sof_req ∷ c ∷ n ∷ rest) ≡ serial_cb (on_len (after_cmd r c) n) rest
unfolding serial_cb rx_byte
serial_cb_header r c n rest s =
    ap (λ st. serial_cb (rx_byte (rx_byte (on_state st r sof_req) c) n) rest) s

pub Took-frame :
    (r : Receiver) (c : ℕ) (args : List ℕ)
    → r.state ≡ wait_sof
    → length r.frame.payload ≡ 32
    → length args ≤ 32
    → Took r (record { cmd = c; args = args }) (serial_cb r (sof_req ∷ c ∷ length args ∷ args))
Took-frame r c [] s b l =
    rw (serial_cb_header r c 0 [] s)
      (unfold serial_cb in record { hunting = refl; handed = refl; meant = refl; buffer = b })
Took-frame r c (x ∷ xs) s b l =
    rw
      (serial_cb_header r c (suc (length xs)) (x ∷ xs) s, le→ltb_false (suc (length xs)) 32 l, more)
      (record {
        hunting = done.hunting;
        handed = done.handed;
        meant = ap₂ (λ a t. record { cmd = a; args = t }) done.same_cmd done.taken;
        buffer = done.buffer;
      })
  where
    more : (suc (length xs) == 0) ≡ false
    more = ground arith

    start : Receiver
    start = record r {
      frame = record (r.frame) { cmd = c; len = suc (length xs) };
      payload_pos = 0;
      state = wait_payload;
    }

    done : Done start [] (x ∷ xs) (serial_cb start (x ∷ xs))
    done = collect start x xs refl (omega arith) l b
