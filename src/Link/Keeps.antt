-- ===== src/Link/Keeps.antt =====
-- The receive buffer keeps its shape through every step of the calling thread.
use nuki_nrf52_bridge.Base.{ℕ, List, [], ◌∷◌, Result, ok, err}
use nuki_nrf52_bridge.Transport.{
  Transport, Event, happens, write_done, deadline, await_write, write_cb, happen,
}
use nuki_nrf52_bridge.Transport as T
use nuki_nrf52_bridge.Transport.Buffer.{IsTransport, contents-happen, contents-reset}
use nuki_nrf52_bridge.Transport.Wait.{wait_min_lem}
use nuki_nrf52_bridge.Link.Contract.{Contract}
use nuki_nrf52_bridge.Link.{Link, Task, write, wait_min, accept_now}

-- What a step leaves.
abbrev pub Left : {A : Type 0} → Result A × Link → Type 0
Left r = IsTransport r.1.transport

abbrev pub Keeps : {A : Type 0} → Task A → Type 0
Keeps task = (l : Link) → IsTransport l.transport → Left (task l)

await_write-IsTransport :
    (es : List Event) (t : Transport) → IsTransport t → IsTransport (await_write es t).1
unfolding await_write
await_write-IsTransport [] t h = h
await_write-IsTransport (happens e ∷ es) t h =
    await_write-IsTransport es (happen e t) (contents-happen t e h).1
await_write-IsTransport (write_done e ∷ es) t h = record { size = h.size; fill = h.fill }
await_write-IsTransport (deadline ∷ es) t h = h

write_IsTransport :
    (r : Result (Unit {0})) (es : List Event) (t : Transport)
    → IsTransport t
    → IsTransport (T.write r es t).1
unfolding T.write
write_IsTransport (ok _) es t h = await_write-IsTransport es t h
write_IsTransport (err e) es t h = h

pub write-Keeps : (data' : List ℕ) → Keeps (write data')
unfolding write
write-Keeps data' l h = write_IsTransport (accept_now l.accepts) l.schedule l.transport h

pub wait_min-Keeps : (n : ℕ) → Keeps (wait_min n)
unfolding wait_min
wait_min-Keeps n l h = (wait_min_lem n l.schedule l.transport h).kept

abbrev pub keeping : Contract
keeping = record {
  Holds = λ l r. IsTransport l.transport → Left r;
  by_nothing = λ r l h. h;
  by_entropy = λ r e l h. h;
  by_captured = λ r s l h. h;
  by_reset = λ r l h. (contents-reset l.transport h).1;
  by_write = write-Keeps;
  by_wait = wait_min-Keeps;
  by_steps = λ a l l1 r h k p. k (h p);
  by_failure = λ e l l1 h. h;
}
