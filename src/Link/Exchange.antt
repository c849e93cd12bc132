-- ===== src/Link/Exchange.antt =====
-- src/nuki_transport.c: a request that is written, and the answer to it that arrives in pieces, before or
-- after the write is acknowledged.
use nuki_nrf52_bridge.Base.{
  concat, ℕ, ◌+◌, ◌≤◌, ◌≡◌, refl, sym, ap, ◌∙◌, List, [], ◌∷◌, ◌++◌, length, drop, length-append,
  append_assoc, append-nil, All, ok, arith,
}
use nuki_nrf52_bridge.Transport.{
  Transport, Event, happens, write_done, await_write, write_cb, notify_cb, indication,
}
use nuki_nrf52_bridge.Transport.Buffer.{IsTransport, contents}
use nuki_nrf52_bridge.Transport.Fragments.{arrivals, NonEmpty, piece_fits, All-after, concat-append}
use nuki_nrf52_bridge.Transport.Arrived.{empty_contents}
use nuki_nrf52_bridge.Transport as T
use nuki_nrf52_bridge.Link.{Link, write, accept_now, land}

-- Nothing is in the buffer, and the Bluetooth stack refuses no write.
pub record IsIdle (l : Link) : Type 0 where
  pub kept : IsTransport l.transport
  pub empty : l.transport.rx_len ≡ 0
  pub accepting : l.accepts ≡ []

-- What the buffer holds and the pieces that come before `rest` are a message.
pub record Awaits (w : List ℕ) (rest : List Event) (l : Link) : Type 0 where
  pub kept : IsTransport l.transport
  pub accepting : l.accepts ≡ []
  pub left : List (List ℕ)
  pub filled : All NonEmpty left
  pub coming : l.schedule ≡ arrivals left rest
  pub whole : contents l.transport ++ concat left ≡ w

-- A message that is all to come.
pub IsIdle-Awaits :
    (fs : List (List ℕ)) (rest : List Event) (l : Link)
    → IsIdle l
    → All NonEmpty fs
    → l.schedule ≡ arrivals fs rest
    → Awaits (concat fs) rest l
IsIdle-Awaits fs rest l i filled s = record {
  kept = i.kept;
  accepting = i.accepting;
  left = fs;
  filled = filled;
  coming = s;
  whole = ap (λ c. c ++ concat fs) (empty_contents l.transport i.empty);
}

-- A message of the lock, and the pieces that it arrives in: when a write is awaited meanwhile, those before
-- and those after the write is acknowledged.
pub record Incoming : Type 0 where
  pub command : ℕ
  pub payload : List ℕ
  pub early : List (List ℕ)
  pub late : List (List ℕ)

abbrev pub pieces : Incoming → List (List ℕ)
pieces m = m.early ++ m.late

abbrev pub bytes_of : Incoming → List ℕ
bytes_of m = concat (pieces m)

-- A message that answers a request, and what follows it.
abbrev pub exchange : Incoming → List Event → List Event
exchange m rest = arrivals m.early (write_done 0 ∷ arrivals m.late rest)

-- Messages one after the other, and what follows them.
abbrev pub deliver : List Incoming → List Event → List Event
deliver [] rest = rest
deliver (m ∷ ms) rest = arrivals (pieces m) (deliver ms rest)

await_write-early :
    (fs : List (List ℕ)) (es : List Event) (t : Transport)
    → IsTransport t
    → t.rx_len + length (concat fs) ≤ 256
    → (t' : Transport) × (await_write (arrivals fs (write_done 0 ∷ es)) t ≡ (ok tt, t', es))
      × (contents t' ≡ contents t ++ concat fs)
      × IsTransport t'
unfolding await_write contents
await_write-early [] es t h fits =
    (write_cb 0 t, refl, sym (append-nil (contents t)), record { size = h.size; fill = h.fill })
await_write-early (f ∷ fs) es t h fits =
    let total : length (f ++ concat fs) ≡ length f + length (concat fs) =
      length-append f (concat fs) in
    let (joined, kept, count) = piece_fits t f h (omega (arith, total)) in
    let (t', answer, held, kept') =
      await_write-early fs es (notify_cb f t) kept (omega (arith, total, count)) in
    (
      t',
      answer,
      held ∙ ap (λ c. c ++ concat fs) joined ∙ append_assoc (contents t) f (concat fs),
      kept',
    )

abbrev pub written : List ℕ → Link → Transport → List Event → Link
written data' l t es = record l {
  accepts = drop 1 l.accepts;
  sent = l.sent ++ data' ∷ [];
  transport = t;
  schedule = es;
}

-- A request that is written and acknowledged; the answer is awaited then.
pub write-Awaits :
    (data' : List ℕ) (a : Incoming) (rest : List Event) (l : Link)
    → IsIdle l
    → All NonEmpty (pieces a)
    → length (bytes_of a) ≤ 256
    → l.schedule ≡ exchange a rest
    → (t : Transport) × (write data' l ≡ (ok tt, written data' l t (arrivals a.late rest)))
      × Awaits (bytes_of a) rest (written data' l t (arrivals a.late rest))
unfolding write T.write
write-Awaits data' a rest l i filled fits s = (
  t,
  answer,
  record {
    kept = kept;
    accepting = ap (drop 1) i.accepting;
    left = a.late;
    filled = All-after a.early a.late filled;
    coming = refl;
    whole =
        ap (λ c. c ++ concat (a.late))
          (held ∙ ap (λ c. c ++ concat (a.early)) (empty_contents l.transport i.empty))
        ∙ sym (concat-append a.early a.late);
  },
)
  where
    total : length (bytes_of a) ≡ length (concat (a.early)) + length (concat (a.late))
    total =
        ap length (concat-append a.early a.late)
        ∙ length-append (concat (a.early)) (concat (a.late))

    waited :
        (t' : Transport) × (await_write (exchange a rest) l.transport
          ≡ (ok tt, t', arrivals a.late rest))
        × (contents t' ≡ contents l.transport ++ concat (a.early))
        × IsTransport t'
    waited =
        await_write-early a.early (arrivals a.late rest) l.transport i.kept
          (omega (arith, total, fits, i.empty))

    t : Transport
    t = waited.0

    held : contents t ≡ contents l.transport ++ concat (a.early)
    held = waited.2

    kept : IsTransport t
    kept = waited.3

    asked : Link
    asked = record l { accepts = drop 1 l.accepts; sent = l.sent ++ data' ∷ [] }

    answer : write data' l ≡ (ok tt, written data' l t (arrivals a.late rest))
    answer =
        ap (λ r. land asked (T.write (accept_now r) l.schedule l.transport)) i.accepting
        ∙ ap (λ es. land asked (await_write es l.transport)) s
        ∙ ap (land asked) waited.1
