-- ===== src/Uart/Rx/Frames.antt =====
-- src/nuki_uart_proto.c: which frames the receiver hands over.
use nuki_nrf52_bridge.Base.{
  concat, ℕ, ◌≤◌, List, [], ◌∷◌, ◌++◌, ◌≡◌, ◌≢◌, refl, sym, ap, ◌∙◌, length, All, append_assoc,
  append-nil, ne→==_false, map, map-append,
}
use nuki_nrf52_bridge.Uart.Rx.Collect.{Request, encode, view, Took, Took-frame}
use nuki_nrf52_bridge.Uart.Rx.{
  wait_sof, Receiver, on_state, rx_byte, serial_cb, serial_run, sof_req,
}

-- Bursts do not matter: the receiver sees one sequence of bytes.
serial_cb-append :
    (r : Receiver) (xs ys : List ℕ) → serial_cb r (xs ++ ys) ≡ serial_cb (serial_cb r xs) ys
unfolding serial_cb
serial_cb-append r [] ys = refl
serial_cb-append r (x ∷ xs) ys = serial_cb-append (rx_byte r x) xs ys

serial_run-concat :
    (r : Receiver) (bursts : List (List ℕ)) → serial_run r bursts ≡ serial_cb r (concat bursts)
unfolding serial_run serial_cb
serial_run-concat r [] = refl
serial_run-concat r (cs ∷ bursts) =
    serial_run-concat (serial_cb r cs) bursts ∙ sym (serial_cb-append r cs (concat bursts))

-- Hunting skips what is not a start byte.
serial_cb_noise :
    (r : Receiver) (noise : List ℕ)
    → r.state ≡ wait_sof
    → All (λ c. c ≢ sof_req) noise
    → serial_cb r noise ≡ r
unfolding serial_cb rx_byte
serial_cb_noise r [] e h = refl
serial_cb_noise r (c ∷ cs) e h =
    ap (λ s. serial_cb s cs) (ap (λ st. on_state st r c) e ∙ rw (ne→==_false c sof_req h.0))
    ∙ serial_cb_noise r cs e h.1

-- Requests on the wire, each behind bytes that do not look like a start byte.
abbrev pub wire : List (List ℕ × Request) → List ℕ
wire [] = []
wire ((noise, q) ∷ rest) = noise ++ (encode q ++ wire rest)

abbrev pub IsWire : List (List ℕ × Request) → Type 0
IsWire = All (λ p. All (λ c. c ≢ sof_req) (p.0) × (length (p.1.args) ≤ 32))

abbrev pub Received : Receiver → List (List ℕ × Request) → Receiver → Type 0
Received r sent r' =
    (r'.state ≡ wait_sof) × (map view r'.handed ≡ map view r.handed ++ map (λ p. p.1) sent)

-- One request, and what follows it.
Received-cons :
    (r r' s : Receiver) (noise : List ℕ) (q : Request) (rest : List (List ℕ × Request))
    → Took r q r'
    → Received r' rest s
    → Received r ((noise, q) ∷ rest) s
Received-cons r r' s noise q rest took after = (
  after.0,
  after.1
      ∙ ap (λ t. t ++ map (λ p. p.1) rest)
          (ap (map view) took.handed
            ∙ map-append view r.handed (r'.frame ∷ [])
            ∙ ap (λ t. map view r.handed ++ t ∷ []) took.meant)
      ∙ append_assoc (map view r.handed) (q ∷ []) (map (λ p. p.1) rest),
)

pub wire-Received :
    (r : Receiver) (sent : List (List ℕ × Request))
    → r.state ≡ wait_sof
    → length r.frame.payload ≡ 32
    → IsWire sent
    → Received r sent (serial_cb r (wire sent))
wire-Received r [] s b h = unfold serial_cb in (s, sym (append-nil (map view r.handed)))
wire-Received r ((noise, q) ∷ rest) s b h =
    let took = Took-frame r q.cmd q.args s b h.0.1 in
    rw
      (
        serial_cb-append r noise (encode q ++ wire rest),
        serial_cb_noise r noise s h.0.0,
        serial_cb-append r (encode q) (wire rest),
      )
      (Received-cons r (serial_cb r (encode q)) (serial_cb (serial_cb r (encode q)) (wire rest))
        noise q rest took
        (wire-Received (serial_cb r (encode q)) rest took.hunting took.buffer h.1))

-- However the bytes are cut into bursts: a receiver that hunts hands over exactly the requests that
-- were sent, each of at most 32 payload bytes, in their order, whatever bytes other than the start
-- byte stand before each of them, and it hunts again.
pub serial_run-received :
    (r : Receiver) (bursts : List (List ℕ)) (sent : List (List ℕ × Request))
    → r.state ≡ wait_sof
    → length r.frame.payload ≡ 32
    → IsWire sent
    → concat bursts ≡ wire sent
    → ((serial_run r bursts).state ≡ wait_sof)
      × (map view (serial_run r bursts).handed ≡ map view r.handed ++ map (λ p. p.1) sent)
serial_run-received r bursts sent s b h e =
    rw (serial_run-concat r bursts, e) (wire-Received r sent s b h)
