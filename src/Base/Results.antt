-- ===== src/Base/Results.antt =====
-- The `int` return codes: 0, or a negative errno that the caller passes on.
use Prim.Native.Nat.{ℕ}
use mathlib.Core.Bool.{Bool, true, false}

-- `other n` is the code -n of a call into Zephyr or PSA that the source passes on unread.
pub data Errno : Type 0 where
  enoent eio eagain enomem enodev einval enodata ebadmsg etimedout enotconn enotsup : Errno
  other : ℕ → Errno

-- The positive numbers of the C library, as the UART protocol documents them.
abbrev pub errno_number : Errno → ℕ
errno_number enoent = 2
errno_number eio = 5
errno_number eagain = 11
errno_number enomem = 12
errno_number enodev = 19
errno_number einval = 22
errno_number enodata = 61
errno_number ebadmsg = 77
errno_number etimedout = 116
errno_number enotconn = 128
errno_number enotsup = 134
errno_number (other n) = n

pub data Result {ℓ} (A : Type ℓ) : Type ℓ where
  ok : A → Result A
  err : Errno → Result A

abbrev pub and_then {ℓ κ} : {A : Type ℓ} {B : Type κ} → Result A → (A → Result B) → Result B
and_then (ok a) f = f a
and_then (err e) f = err e

abbrev pub is_ok {ℓ} : {A : Type ℓ} → Result A → Bool
is_ok (ok a) = true
is_ok (err e) = false
