-- ===== src/Link.antt =====
-- The calling thread of src/nuki_command.c and src/nuki_pairing.c: operations that fail or give a
-- result, over the transport, and what it does to the world.
pub mod Inversion
pub mod Contract
pub mod Keeps
pub mod Timely
pub mod Woke
pub mod Exchange
use nuki_nrf52_bridge.Base.{
  ℕ, ◌+◌, Option, none, some, List, [], ◌∷◌, ◌++◌, slice, drop, Result, ok, err, Errno,
}
use nuki_nrf52_bridge.Transport.{Transport, Event}
use nuki_nrf52_bridge.Transport as T
use nuki_nrf52_bridge.Protocol.State.{KeyturnerState}

-- `schedule` is what the other threads will do, `accepts` what `bt_gatt_write` will answer, `entropy`
-- the bytes `sys_rand_get` will give; `sent` holds the buffers given to `bt_gatt_write` so far, in
-- order; `captured` is the caller's `state_out`, if `got_state` is set.
pub record Link : Type 0 where
  pub transport : Transport
  pub schedule : List Event
  pub accepts : List (Result (Unit {0}))
  pub entropy : List ℕ
  pub sent : List (List ℕ)
  pub captured : Option KeyturnerState

abbrev pub Task : Type 0 → Type 0
Task A = Link → Result A × Link

abbrev pub resume : {A B : Type 0} → (A → Task B) → Result A × Link → Result B × Link
resume f (ok a, l) = f a l
resume f (err e, l) = (err e, l)

infixl 5 ◌>>=◌ ◌>>◌
abbrev pub ◌>>=◌ : {A B : Type 0} → Task A → (A → Task B) → Task B
(m >>= f) l = resume f (m l)

abbrev pub ◌>>◌ : {A B : Type 0} → Task A → Task B → Task B
m >> k = m >>= λ _. k

abbrev pub pure : {A : Type 0} → A → Task A
pure a l = (ok a, l)

abbrev pub fail : {A : Type 0} → Errno → Task A
fail e l = (err e, l)

-- A call that touches nothing.
abbrev pub lift : {A : Type 0} → Result A → Task A
lift r l = (r, l)

abbrev pub some_or : {A : Type 0} → Errno → Option A → Task A
some_or e none = fail e
some_or e (some a) = pure a

abbrev pub sys_rand_get : ℕ → Task (List ℕ)
sys_rand_get n l = (ok (slice l.entropy 0 n), record l { entropy = drop n l.entropy })

-- The first of the answers; a stack that is not said to refuse accepts.
abbrev pub accept_now : List (Result (Unit {0})) → Result (Unit {0})
accept_now [] = ok tt
accept_now (a ∷ as') = a

abbrev pub land : {A : Type 0} → Link → A × Transport × List Event → A × Link
land l (a, t, es) = (a, record l { transport = t; schedule = es })

-- `nuki_transport_write`.
unfoldable pub write : List ℕ → Task (Unit {0})
write data' l =
    let l' = record l { accepts = drop 1 l.accepts; sent = l.sent ++ data' ∷ [] } in
    land l' (T.write (accept_now l.accepts) l.schedule l.transport)

-- `nuki_transport_wait_min`.
unfoldable pub wait_min : ℕ → Task (Unit {0})
wait_min n l = land l (T.wait_min n l.schedule l.transport)

-- `nuki_transport_peek`, `nuki_transport_reset` and `nuki_transport_len`.
abbrev pub peek : ℕ → Task (List ℕ)
peek n l = (ok (T.peek n l.transport), l)

abbrev pub reset : Task (Unit {0})
reset l = (ok tt, record l { transport = T.reset l.transport })

abbrev pub len : Task ℕ
len l = (ok (T.len l.transport), l)
