-- ===== src/Transport.antt =====
-- src/nuki_transport.c: writing to a characteristic of the lock, and collecting the indications that it
-- answers with.
pub mod Buffer
pub mod Wait
pub mod Fragments
pub mod Arrived
use nuki_nrf52_bridge.Base.{
  ℕ, zero, suc, ◌+◌, ◌-◌, min, Bool, true, false, Option, none, some, List, [], ◌∷◌, ◌++◌, length,
  slice, take, drop, replicate, leb, ◌==◌, if◌then◌else◌, Errno, Result, ok, err, eio, eagain,
  etimedout,
}
use nuki_nrf52_bridge.Protocol.Commands.{wire_max_len}

-- `struct nuki_transport`, less the locks and the parameter blocks of the Bluetooth stack.
pub record Transport : Type 0 where
  pub conn : Option ℕ
  pub value_handle : ℕ
  pub rx_buf : List ℕ
  pub rx_len : ℕ
  pub write_err : ℕ

-- What the other threads do while the calling thread sleeps. An indication stands for those that
-- arrive between two looks at the buffer.
pub data Happening : Type 0 where
  indication : List ℕ → Happening
  removed : Happening

-- A schedule is a list of these: besides, the answer to a write, and a time limit that runs out.
pub data Event : Type 0 where
  happens : Happening → Event
  write_done : ℕ → Event
  deadline : Event

-- `notify_cb` with data; `length` is that of the data.
unfoldable pub notify_cb : List ℕ → Transport → Transport
notify_cb data' t =
    let space = wire_max_len - t.rx_len in
    let copy = min space (length data') in
    record t {
      rx_buf = take t.rx_len t.rx_buf ++ slice data' 0 copy ++ drop (t.rx_len + copy) t.rx_buf;
      rx_len = t.rx_len + copy;
    }

-- `notify_cb`: without data the subscription is gone, and nothing is written.
abbrev pub happen : Happening → Transport → Transport
happen (indication data') t = notify_cb data' t
happen removed t = t

-- `write_cb`.
abbrev pub write_cb : ℕ → Transport → Transport
write_cb e t = record t { write_err = e }

-- `nuki_transport_init`, given what `bt_gatt_subscribe` answers, and what it makes of the struct, also when it
-- fails: the reference to the connection is given back, but the field is not cleared.
unfoldable pub init : ℕ → ℕ → Result (Unit {0}) → Result (Unit {0}) × Transport
init conn value_handle subscribed = (
  subscribed,
  record {
    conn = some conn;
    value_handle = value_handle;
    rx_buf = replicate wire_max_len 0;
    rx_len = 0;
    write_err = 0;
  },
)

-- `nuki_transport_release`.
unfoldable pub release : Transport → Transport
release t = record t { conn = none }

-- The part of `nuki_transport_write` behind `bt_gatt_write`: the wait for `write_cb`.
unfoldable pub await_write : List Event → Transport → Result (Unit {0}) × Transport × List Event
await_write [] t = (err etimedout, t, [])
await_write (happens h ∷ es) t = await_write es (happen h t)
await_write (write_done e ∷ es) t = (if e == 0 then ok tt else err eio, write_cb e t, es)
await_write (deadline ∷ es) t = (err etimedout, t, es)

-- `nuki_transport_write`, given what `bt_gatt_write` answers.
unfoldable pub write :
    Result (Unit {0}) → List Event → Transport → Result (Unit {0}) × Transport × List Event
write (ok _) es t = await_write es t
write (err e) es t = (err e, t, es)

-- `nuki_transport_wait_min`. A schedule that ends leaves the time limit to run out.
unfoldable pub wait_min : ℕ → List Event → Transport → Result (Unit {0}) × Transport × List Event
wait_min min_len [] t = (if leb min_len t.rx_len then ok tt else err eagain, t, [])
wait_min min_len (happens h ∷ es) t =
    let later = wait_min min_len es (happen h t) in
    if leb min_len t.rx_len then (ok tt, t, happens h ∷ es) else later
wait_min min_len (write_done e ∷ es) t =
    let later = wait_min min_len es (write_cb e t) in
    if leb min_len t.rx_len then (ok tt, t, write_done e ∷ es) else later
wait_min min_len (deadline ∷ es) t =
    if leb min_len t.rx_len then (ok tt, t, deadline ∷ es) else (err eagain, t, es)

-- `nuki_transport_peek`.
unfoldable pub peek : ℕ → Transport → List ℕ
peek len t = slice t.rx_buf 0 len

-- `nuki_transport_reset`.
unfoldable pub reset : Transport → Transport
reset t = record t { rx_len = 0 }

-- `nuki_transport_len`.
unfoldable pub len : Transport → ℕ
len t = t.rx_len
