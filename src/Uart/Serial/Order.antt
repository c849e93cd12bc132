-- ===== src/Uart/Serial/Order.antt =====
-- src/nuki_uart_proto.c: whatever the order of bytes and turns, the thread serves frames as they came.
use nuki_nrf52_bridge.Base.{
  ℕ, ◌+◌, ◌%◌, ◌^◌, ◌==◌, ltb, set, if◌then◌else◌, ◌≡◌, refl, sym, ap, subst, ◌∙◌, some, List, [],
  ◌∷◌, ◌++◌, length, drop, drop-append, append_assoc, append-nil, if_elim,
}
use nuki_nrf52_bridge.Uart.Rx.{
  RxFrame, Receiver, rx_byte, RxState, wait_sof, wait_cmd, wait_len, wait_payload, on_state,
  hand_over, sof_req, max_payload,
}
use nuki_nrf52_bridge.Uart.Api.{AppApi}
use nuki_nrf52_bridge.Uart.Tx.{dispatch_frame, thread}
use nuki_nrf52_bridge.Uart.Serial.{
  Msgq, Tick, byte, turn, handed_now, Serial, on_byte, on_turn, serve, serial,
}
use mathlib.Core.List.{Sublist}
use mathlib.Core.List.Sublist

-- What a step of the receiver adds to the frames handed over.
record Adds (r r' : Receiver) : Type 0 where
  new : List RxFrame
  handed : r'.handed ≡ r.handed ++ new

nothing-Adds : (r r' : Receiver) → r'.handed ≡ r.handed → Adds r r'
nothing-Adds r r' h = record { new = []; handed = h ∙ sym (append-nil r.handed) }

frame-Adds : (r r' : Receiver) (f : RxFrame) → r'.handed ≡ r.handed ++ f ∷ [] → Adds r r'
frame-Adds r r' f h = record { new = f ∷ []; handed = h }

on_state-Adds : (st : RxState) (r : Receiver) (c : ℕ) → Adds r (on_state st r c)
on_state-Adds wait_sof r c =
    let found : Receiver = record r { state = wait_cmd } in
    if_elim (Adds r) (c == sof_req) found r (λ _. nothing-Adds r found refl)
      (λ _. nothing-Adds r r refl)
on_state-Adds wait_cmd r c = nothing-Adds r _ refl
on_state-Adds wait_len r c =
    let lost : Receiver = record r { state = wait_sof } in
    let r' : Receiver = record r { frame = record (r.frame) { len = c }; payload_pos = 0 } in
    let more : Receiver = record r' { state = wait_payload } in
    if_elim (Adds r) (ltb max_payload c) lost (if c == 0 then hand_over r' else more)
      (λ _. nothing-Adds r lost refl)
      (λ _.
        if_elim (Adds r) (c == 0) (hand_over r') more
          (λ _. frame-Adds r (hand_over r') r'.frame refl) (λ _. nothing-Adds r more refl))
on_state-Adds wait_payload r c =
    let pos = (r.payload_pos + 1) % 2 ^ 8 in
    let r' : Receiver = record r {
      frame = record (r.frame) { payload = set r.frame.payload r.payload_pos c };
      payload_pos = pos;
    } in
    if_elim (Adds r) (pos == r.frame.len) (hand_over r') r'
      (λ _. frame-Adds r (hand_over r') r'.frame refl) (λ _. nothing-Adds r r' refl)

rx_byte_handed :
    (r : Receiver) (c : ℕ) → (rx_byte r c).handed ≡ r.handed ++ handed_now r (rx_byte r c)
unfolding rx_byte
rx_byte_handed r c =
    let added = on_state-Adds r.state r c in
    let new = added.new in
    let e = added.handed in
    e
    ∙ ap (λ k. r.handed ++ k)
        (sym (ap (drop (length r.handed)) e ∙ drop-append (length r.handed) r.handed new refl))

-- Relations between what was served and what was handed over.
pub record Chain (R : List RxFrame → List RxFrame → Type 0) : Type 0 where
  pub same : (xs : List RxFrame) → R xs xs
  pub trans : (xs ys zs : List RxFrame) → R xs ys → R ys zs → R xs zs
  pub behind : (xs ys zs : List RxFrame) → R xs ys → R (xs ++ zs) (ys ++ zs)
  pub ahead : (f : RxFrame) (xs ys : List RxFrame) → R xs ys → R (f ∷ xs) (f ∷ ys)

pub sublists : Chain Sublist
sublists = record {
  same = λ xs. Sublist.refl xs;
  trans = λ xs ys zs h k. Sublist.trans h k;
  behind = λ xs ys zs h. Sublist.append h (Sublist.refl zs);
  ahead = λ f xs ys h. Sublist.cons-cons f h;
}

pub equals : Chain (λ xs ys. xs ≡ ys)
equals = record {
  same = λ xs. refl;
  trans = λ xs ys zs h k. h ∙ k;
  behind = λ xs ys zs h. ap (λ k. k ++ zs) h;
  ahead = λ f xs ys h. ap (λ k. f ∷ k) h;
}

module _ (queues : Msgq) (api : AppApi) where
  open queues use {Queue, put, get, waiting}

  -- The thread alone, over the frames that it took, does the same; these and the frames that still wait
  -- are in relation to those that waited and those handed over since.
  pub record Served (R : List RxFrame → List RxFrame → Type 0) (s s' : Serial queues api)
      : Type 0 where
    pub taken : List RxFrame
    pub new : List RxFrame
    pub handed : s'.receiver.handed ≡ s.receiver.handed ++ new
    pub out : s'.out ≡ s.out ++ (thread api taken s.app).0
    pub app : s'.app ≡ (thread api taken s.app).1
    pub kept : R (taken ++ waiting s'.queue) (waiting s.queue ++ new)

  -- The relation holds of what each byte does to the queue.
  abbrev pub Kept : (List RxFrame → List RxFrame → Type 0) → List Tick → Serial queues api → Type 0
  Kept R [] s = Unit
  Kept R (byte c ∷ ticks) s =
      R (waiting (on_byte queues api c s).queue)
        (waiting s.queue ++ handed_now s.receiver (rx_byte s.receiver c))
      × Kept R ticks (on_byte queues api c s)
  Kept R (turn ∷ ticks) s = Kept R ticks (on_turn queues api s)

  byte-Served :
      {R : List RxFrame → List RxFrame → Type 0} (ch : Chain R) (c : ℕ) (s s' : Serial queues api)
      → R
          (waiting (on_byte queues api c s).queue)
          (waiting s.queue ++ handed_now s.receiver (rx_byte s.receiver c))
      → Served R (on_byte queues api c s) s'
      → Served R s s'
  unfolding on_byte
  byte-Served {R} ch c s s' h v =
      let now = handed_now s.receiver (rx_byte s.receiver c) in
      let w1 = waiting (on_byte queues api c s).queue in
      record {
        taken = v.taken;
        new = now ++ v.new;
        handed =
            v.handed
            ∙ ap (λ k. k ++ v.new) (rx_byte_handed s.receiver c)
            ∙ append_assoc s.receiver.handed now v.new;
        out = v.out;
        app = v.app;
        kept = subst (R (v.taken ++ waiting s'.queue)) (append_assoc (waiting s.queue) now v.new) (
            ch.trans (v.taken ++ waiting s'.queue) (w1 ++ v.new) (waiting s.queue ++ now ++ v.new)
              v.kept (ch.behind w1 (waiting s.queue ++ now) v.new h));
      }

  turn-Served :
      {R : List RxFrame → List RxFrame → Type 0} (ch : Chain R) (s s' : Serial queues api)
      (ws : List RxFrame)
      → waiting s.queue ≡ ws
      → Served R (on_turn queues api s) s'
      → Served R s s'
  unfolding on_turn
  turn-Served {R} ch s s' [] e v =
      subst (λ k. Served R k s') (ap (λ g. serve queues api g s) (queues.get_nothing s.queue e)) v
  turn-Served {R} ch s s' (f ∷ fs) e v =
      let (q, got, left) = queues.get_first s.queue f fs e in
      let step = dispatch_frame api f s.app in
      let v' : Served R (serve queues api (some (f, q)) s) s' =
        subst (λ k. Served R k s') (ap (λ g. serve queues api g s) got) v in
      record {
        taken = f ∷ v'.taken;
        new = v'.new;
        handed = v'.handed;
        out =
            v'.out
            ∙ append_assoc s.out step.0 (thread api v'.taken step.1).0
            ∙ ap (λ k. s.out ++ k.0) (sym (thread-cons f v'.taken s.app));
        app = v'.app ∙ ap (λ k. k.1) (sym (thread-cons f v'.taken s.app));
        kept =
            subst (λ k. R (f ∷ (v'.taken ++ waiting s'.queue)) (k ++ v'.new)) (sym e)
              (ch.ahead f (v'.taken ++ waiting s'.queue) (fs ++ v'.new)
                (subst (λ k. R (v'.taken ++ waiting s'.queue) (k ++ v'.new)) left v'.kept));
      }
    where
      thread-cons :
          (g : RxFrame) (gs : List RxFrame) (a : api.App)
          → thread api (g ∷ gs) a ≡ (
            (dispatch_frame api g a).0 ++ (thread api gs (dispatch_frame api g a).1).0,
            (thread api gs (dispatch_frame api g a).1).1,
          )
      thread-cons g gs a = unfold thread in refl

  pub serial-Served :
      {R : List RxFrame → List RxFrame → Type 0} (ch : Chain R) (ticks : List Tick)
      (s : Serial queues api)
      → Kept R ticks s
      → Served R s (serial queues api ticks s)
  unfolding serial
  serial-Served {R} ch [] s h = record {
    taken = [];
    new = [];
    handed = sym (append-nil s.receiver.handed);
    out = unfold thread in sym (append-nil s.out);
    app = unfold thread in refl;
    kept =
        subst (R (waiting s.queue)) (sym (append-nil (waiting s.queue)))
          (ch.same (waiting s.queue));
  }
  serial-Served ch (byte c ∷ ticks) s h =
      byte-Served ch c s (serial queues api ticks (on_byte queues api c s)) h.0
        (serial-Served ch ticks (on_byte queues api c s) h.1)
  serial-Served ch (turn ∷ ticks) s h =
      turn-Served ch s (serial queues api ticks (on_turn queues api s)) (waiting s.queue) refl
        (serial-Served ch ticks (on_turn queues api s) h)
