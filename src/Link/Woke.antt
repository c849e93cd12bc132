-- ===== src/Link/Woke.antt =====
-- src/nuki_transport.c: waits that succeeded, one after the other, as the caller finds them.
use nuki_nrf52_bridge.Base.{
  ℕ, ◌≤◌, ◌≡◌, refl, sym, ap, subst, ◌∙◌, inl, inr, List, [], ◌∷◌, ◌++◌, take, append_assoc, ok,
  arith,
}
use nuki_nrf52_bridge.Transport.{Event, happens, write_done, deadline, peek}
use nuki_nrf52_bridge.Transport as T
use nuki_nrf52_bridge.Transport.Buffer.{
  IsTransport, brought, contents, length-contents, peek-contents, take_twice, take-within,
}
use nuki_nrf52_bridge.Transport.Wait.{bytes, wait_min_lem, take-take_append}
use nuki_nrf52_bridge.Link.{Link, wait_min}
use nuki_nrf52_bridge.Link.Inversion.{err≢ok}

-- A successful wait, as the next steps find it.
pub record Woke (n : ℕ) (l l1 : Link) : Type 0 where
  pub seen : List Event
  pub split : l.schedule ≡ seen ++ l1.schedule
  pub collected : contents l1.transport ≡ take 256 (contents l.transport ++ bytes seen)
  pub kept : IsTransport l1.transport
  pub enough : n ≤ l1.transport.rx_len

pub wait_min-Woke :
    (n : ℕ) (l l1 : Link) → IsTransport l.transport → wait_min n l ≡ (ok tt, l1) → Woke n l l1
unfolding wait_min
wait_min-Woke n l l1 h e =
    let w = wait_min_lem n l.schedule l.transport h in
    let answer = T.wait_min n l.schedule l.transport in
    let said : answer.0 ≡ ok tt = ap (λ p. p.0) e in
    let there : record l { transport = answer.1; schedule = answer.2 } ≡ l1 = ap (λ p. p.1) e in
    subst (Woke n l) there (record {
      seen = w.seen;
      split = w.split;
      collected = w.collected;
      kept = w.kept;
      enough = elim w.outcome [
        | inl y ↦ y.1
        | inr x ↦ absurd (err≢ok {l = l} {l' = l} (ap (λ r. (r, l)) (sym x.0 ∙ said)))
      ];
    })

bytes-append : (es fs : List Event) → bytes (es ++ fs) ≡ bytes es ++ bytes fs
bytes-append [] fs = refl
bytes-append (happens e ∷ es) fs =
    ap (λ b. brought e ++ b) (bytes-append es fs)
    ∙ sym (append_assoc (brought e) (bytes es) (bytes fs))
bytes-append (write_done e ∷ es) fs = bytes-append es fs
bytes-append (deadline ∷ es) fs = bytes-append es fs

-- Two waits are one longer look at the schedule.
pub Woke-Woke : (n m : ℕ) (l l1 l2 : Link) → Woke n l l1 → Woke m l1 l2 → Woke m l l2
Woke-Woke n m l l1 l2 a b = record {
  seen = a.seen ++ b.seen;
  split = a.split ∙ ap (λ es. a.seen ++ es) b.split ∙ sym (append_assoc a.seen b.seen l2.schedule);
  collected =
      b.collected
      ∙ ap (λ c. take 256 (c ++ bytes b.seen)) a.collected
      ∙ take-take_append 256 (contents l.transport ++ bytes a.seen) (bytes b.seen)
      ∙ ap (take 256) (append_assoc (contents l.transport) (bytes a.seen) (bytes b.seen))
      ∙ ap (λ c. take 256 (contents l.transport ++ c)) (sym (bytes-append a.seen b.seen));
  kept = b.kept;
  enough = b.enough;
}

-- What was read first is still in front.
pub header_stays :
    (n m : ℕ) (l l1 l2 : Link)
    → Woke n l l1
    → Woke m l1 l2
    → n ≤ m
    → peek n l1.transport ≡ take n (peek m l2.transport)
header_stays n m l l1 l2 a b h =
    peek-contents l1.transport n a.kept a.enough
    ∙ sym (
        take-within n (contents l1.transport) (bytes b.seen)
          (omega (arith, length-contents l1.transport a.kept, a.enough)))
    ∙ sym (
        take_twice n 256 (contents l1.transport ++ bytes b.seen)
          (omega (arith, b.enough, b.kept.fill)))
    ∙ ap (take n) (sym b.collected)
    ∙ sym (take_twice n m (contents l2.transport) h)
    ∙ ap (take n) (sym (peek-contents l2.transport m b.kept b.enough))
