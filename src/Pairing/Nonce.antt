-- ===== src/Pairing/Nonce.antt =====
-- src/nuki_pairing.c: where the nonce of the handshake comes from.
use nuki_nrf52_bridge.Base.{
  ℕ, ◌≡◌, refl, sym, ap, ◌∙◌, Option, none, some, List, ◌∷◌, ◌++◌, slice, drop, Result, ok, err,
  einval,
}
use nuki_nrf52_bridge.Zephyr.{ByteOrder}
use nuki_nrf52_bridge.Crypto.Psa.{Psa, keypair, dh1, h1}
use nuki_nrf52_bridge.Crypto.Secretbox.RoundTrip.{ok-injective}
use nuki_nrf52_bridge.Protocol.Frame.{build_plain, parse_plain}
use nuki_nrf52_bridge.Transport.{peek}
use nuki_nrf52_bridge.Link.{Link, Task, resume, some_or, write, wait_min}
use nuki_nrf52_bridge.Link.Inversion.{resume-ok}
use nuki_nrf52_bridge.Pairing.{
  send_plain, recv_plain, frame_len_of, name, exchange_keys, authenticate, request_authorization,
}

-- No random bytes are used up.
abbrev IsFrugal : {A : Type 0} → Task A → Type 0
IsFrugal task = (l : Link) → (task l).1.entropy ≡ l.entropy

steps-IsFrugal :
    {A B : Type 0} (l : Link) (r : Result A × Link) (f : A → Task B)
    → r.1.entropy ≡ l.entropy
    → ((a : A) → IsFrugal (f a))
    → (resume f r).1.entropy ≡ l.entropy
steps-IsFrugal l (ok a, l1) f h k = k a l1 ∙ h
steps-IsFrugal l (err e, l1) f h k = h

some_or-IsFrugal : {A : Type 0} (o : Option A) → IsFrugal (some_or einval o)
some_or-IsFrugal none l = refl
some_or-IsFrugal (some a) l = refl

write-IsFrugal : (data' : List ℕ) → IsFrugal (write data')
unfolding write
write-IsFrugal data' l = refl

wait_min-IsFrugal : (n : ℕ) → IsFrugal (wait_min n)
unfolding wait_min
wait_min-IsFrugal n l = refl

module _ (bo : ByteOrder) where
  open bo use {put_le16, put_le32, get_le16, get_le32}

  send_plain-IsFrugal :
      (cmd : ℕ) (payload : List ℕ) (n : ℕ) → IsFrugal (send_plain bo cmd payload n)
  unfolding send_plain
  send_plain-IsFrugal cmd payload n l =
      let built = build_plain bo 160 cmd payload n in
      steps-IsFrugal l (some_or einval built l) _ (some_or-IsFrugal built l) write-IsFrugal

  recv_plain-IsFrugal : (cmd n : ℕ) → IsFrugal (recv_plain bo cmd n)
  unfolding recv_plain
  recv_plain-IsFrugal cmd n l = steps-IsFrugal l (wait_min 2 l) _ (wait_min-IsFrugal 2 l) (λ _ l1.
      let len = frame_len_of (get_le16 (peek 2 l1.transport) 0) n in
      steps-IsFrugal l1 (wait_min len l1) _ (wait_min-IsFrugal len l1) (λ _ l2.
        steps-IsFrugal l2 (parse_plain bo (peek len l2.transport) len, _) _ refl (λ m l3. refl)))

  module _ (psa : Psa) where
    pub exchange_keys-IsFrugal : IsFrugal (exchange_keys bo psa)
    unfolding exchange_keys
    exchange_keys-IsFrugal l =
        steps-IsFrugal l (send_plain bo 1 (put_le16 3) 2 l) _
          (send_plain-IsFrugal 1 (put_le16 3) 2 l)
          (λ _ l1.
            steps-IsFrugal l1 (recv_plain bo 3 32 l1) _ (recv_plain-IsFrugal 3 32 l1) (λ sl_pub l2.
              steps-IsFrugal l2 (keypair psa, l2) _ refl
                (λ keys l3.
                  steps-IsFrugal l3 (send_plain bo 3 keys.0 32 l3) _
                    (send_plain-IsFrugal 3 keys.0 32 l3)
                    (λ _ l4.
                      steps-IsFrugal l4 (dh1 psa keys.1 sl_pub, l4) _ refl (λ dh l5. refl)))))

    pub authenticate-IsFrugal : (a b k : List ℕ) → IsFrugal (authenticate bo psa a b k)
    unfolding authenticate
    authenticate-IsFrugal a b k l =
        steps-IsFrugal l (recv_plain bo 4 32 l) _ (recv_plain-IsFrugal 4 32 l) (λ challenge l1.
          steps-IsFrugal l1 (h1 psa k (a ++ b ++ challenge), l1) _ refl
            (λ mac. send_plain-IsFrugal 5 mac 32))

    -- The nonce is the next 32 random bytes behind the four of the application id.
    pub request_authorization_nonce :
        (k : List ℕ) (ids : ℕ × List ℕ) (l l' : Link)
        → request_authorization bo psa k l ≡ (ok ids, l')
        → ids.1 ≡ slice (drop 4 l.entropy) 0 32
    unfolding request_authorization
    request_authorization_nonce k ids l l' h =
        let (challenge, l1, received, e1) = resume-ok _ (recv_plain bo 4 32 l) ids l' h in
        let app_id = get_le32 (slice l1.entropy 0 4) 0 in
        let nonce = slice (drop 4 l1.entropy) 0 32 in
        let body = 0 ∷ (put_le32 app_id ++ name ++ nonce) in
        let (mac, l2, computed, e2) = resume-ok _ (h1 psa k (body ++ challenge), _) ids l' e1 in
        let (u, l3, sent, e3) = resume-ok _ (send_plain bo 6 (mac ++ body) 101 l2) ids l' e2 in
        let same : l1.entropy ≡ l.entropy =
          ap (λ r. r.1.entropy) (sym received) ∙ recv_plain-IsFrugal 4 32 l in
        sym (ap (λ q. q.1) (ok-injective (ap (λ r. r.0) e3))) ∙ ap (λ e. slice (drop 4 e) 0 32) same
