-- ===== src/Link/Inversion.antt =====
-- What a sequence of steps that succeeds says of its parts.
use nuki_nrf52_bridge.Base.{◌≡◌, ◌≢◌, refl, ap, sym, ◌∙◌, Bool, true, false, Result, ok, err, Errno}
use nuki_nrf52_bridge.Base.{is_ok, if◌then◌else◌}
use nuki_nrf52_bridge.Link.{Link, Task, resume}
use mathlib.Core.Bool.{true≢false}

pub err≢ok :
    {A : Type 0} {e : Errno} {a : A} {l l' : Link} → ◌≢◌ {A = Result A × Link} (err e, l) (ok a, l')
err≢ok h = true≢false (sym (ap (λ r. is_ok r.0) h))

-- The first step succeeded, and the others from its result on.
pub resume-ok :
    {A B : Type 0} (f : A → Task B) (r : Result A × Link) (b : B) (l' : Link)
    → resume f r ≡ (ok b, l')
    → (a : A) × (l1 : Link) × (r ≡ (ok a, l1)) × (f a l1 ≡ (ok b, l'))
resume-ok f (ok a, l1) b l' h = (a, l1, refl, h)
resume-ok f (err e, l1) b l' h = absurd (err≢ok h)

-- A guard that fails on `true` was false.
pub guard-ok :
    {B : Type 0} (g : Bool) (x y : Task B) (l : Link) (b : B) (l' : Link)
    → is_ok (x l).0 ≡ false
    → (if g then x else y) l ≡ (ok b, l')
    → (g ≡ false) × (y l ≡ (ok b, l'))
guard-ok true x y l b l' n h = absurd (true≢false (sym (ap (λ r. is_ok r.0) h) ∙ n))
guard-ok false x y l b l' n h = (refl, h)
