-- ===== src/Link/Contract.antt =====
-- The calling thread: a property of a step, between the world before it and what it leaves, that the calls of
-- the transport have and that sequences of steps keep.
use nuki_nrf52_bridge.Base.{
  ℕ, Bool, true, false, Option, none, some, List, Result, ok, err, Errno, if◌then◌else◌,
}
use nuki_nrf52_bridge.Protocol.State.{KeyturnerState}
use nuki_nrf52_bridge.Transport as T
use nuki_nrf52_bridge.Link.{Link, Task, resume, some_or, write, wait_min}

pub record Contract : Type 1 where
  pub Holds : {A : Type 0} → Link → Result A × Link → Type 0
  pub by_nothing : {A : Type 0} (r : Result A) (l : Link) → Holds l (r, l)
  pub by_entropy :
      {A : Type 0} (r : Result A) (e : List ℕ) (l : Link) → Holds l (r, record l { entropy = e })
  pub by_captured :
      {A : Type 0} (r : Result A) (s : Option KeyturnerState) (l : Link)
      → Holds l (r, record l { captured = s })
  pub by_reset :
      {A : Type 0} (r : Result A) (l : Link)
      → Holds l (r, record l { transport = T.reset l.transport })
  pub by_write : (data' : List ℕ) (l : Link) → Holds l (write data' l)
  pub by_wait : (n : ℕ) (l : Link) → Holds l (wait_min n l)
  pub by_steps :
      {A B : Type 0} (a : A) (l l1 : Link) (r : Result B × Link)
      → Holds l (ok a, l1)
      → Holds l1 r
      → Holds l r
  pub by_failure :
      {A B : Type 0} (e : Errno) (l l1 : Link)
      → Holds {A = A} l (err e, l1)
      → Holds {A = B} l (err e, l1)

-- A task that has it wherever it starts.
abbrev pub Obeys : Contract → {A : Type 0} → Task A → Type 0
Obeys c task = (l : Link) → c.Holds l (task l)

module _ (c : Contract) where
  -- A step, and the others from its result on.
  pub steps :
      {A B : Type 0} (l : Link) (r : Result A × Link) (f : A → Task B)
      → c.Holds l r
      → ((a : A) → Obeys c (f a))
      → c.Holds l (resume f r)
  steps l (ok a, l1) f h k = c.by_steps a l l1 (f a l1) h (k a l1)
  steps l (err e, l1) f h k = c.by_failure e l l1 h

  pub either :
      {A : Type 0} (b : Bool) (x y : Task A) (l : Link)
      → c.Holds l (x l)
      → c.Holds l (y l)
      → c.Holds l ((if b then x else y) l)
  either true x y l h k = h
  either false x y l h k = k

  pub some_or-Obeys : {A : Type 0} (e : Errno) (o : Option A) → Obeys c (some_or e o)
  some_or-Obeys e none l = c.by_nothing (err e) l
  some_or-Obeys e (some a) l = c.by_nothing (ok a) l
