-- ===== src/Pairing/Fields.antt =====
-- src/nuki_pairing.c: the fields of the lock's AuthorizationId message.
use nuki_nrf52_bridge.Base.{
  ℕ, ◌+◌, ◌<◌, ◌≡◌, refl, sym, ap, ◌∙◌, true, List, [], ◌∷◌, ◌++◌, length, get_or, slice,
  length-append, append_assoc, slice-append_left, slice-append_right, get_or-append_past, ==_refl,
  arith,
}
use nuki_nrf52_bridge.Zephyr.{ByteOrder}
use nuki_nrf52_bridge.Protocol.Frame.Build.{slice-append, length-put_le32, get_le32-put_le32}
use nuki_nrf52_bridge.Pairing.{same_bytes}

pub same_bytes_refl : (xs : List ℕ) → same_bytes xs xs ≡ true
same_bytes_refl [] = refl
same_bytes_refl (x ∷ xs) = rw (==_refl x, same_bytes_refl xs)

module _ (bo : ByteOrder) where
  open bo use {put_le32, get_le32}

  get_le32_seam : (xs ys : List ℕ) (n : ℕ) → length xs ≡ n → get_le32 (xs ++ ys) n ≡ get_le32 ys 0
  get_le32_seam xs ys n h =
      bo.get_le32_lem (xs ++ ys) n
      ∙ rw (← byte 0 n (omega arith), byte 1 (n + 1) refl, byte 2 (n + 2) refl, byte 3 (n + 3) refl)
          refl
      ∙ sym (bo.get_le32_lem ys 0)
    where
      byte : (k i : ℕ) → n + k ≡ i → get_or (xs ++ ys) i 0 ≡ get_or ys k 0
      byte k i e =
          get_or-append_past xs ys i 0 (omega (arith, h, e))
          ∙ ap (λ j. get_or ys j 0) (omega (arith, h, e))

  -- The authenticator, the authorization id, the lock's id and its nonce.
  abbrev pub auth_id_message : List ℕ → ℕ → List ℕ → List ℕ → List ℕ
  auth_id_message m auth_id lock_uuid nonce_k2 = m ++ put_le32 auth_id ++ lock_uuid ++ nonce_k2

  -- What the bridge reads of it.
  pub record Fields (p m : List ℕ) (auth_id : ℕ) (lock_uuid nonce_k2 : List ℕ) : Type 0 where
    pub size : length p ≡ 84
    pub authenticator : slice p 0 32 ≡ m
    pub authenticated : slice p 32 52 ≡ put_le32 auth_id ++ lock_uuid ++ nonce_k2
    pub id : get_le32 p 32 ≡ auth_id
    pub uuid : slice p 36 16 ≡ lock_uuid
    pub nonce : slice p 52 32 ≡ nonce_k2

  pub auth_id_message-Fields :
      (m : List ℕ) (auth_id : ℕ) (lock_uuid nonce_k2 : List ℕ)
      → length m ≡ 32
      → auth_id < 4294967296
      → length lock_uuid ≡ 16
      → length nonce_k2 ≡ 32
      → Fields (auth_id_message m auth_id lock_uuid nonce_k2) m auth_id lock_uuid nonce_k2
  auth_id_message-Fields m auth_id lock_uuid nonce_k2 hm ha hu hk = record {
    size = whole;
    authenticator = ap (λ b. slice b 0 32) regrouped ∙ slice-append_left m fields 32 hm;
    authenticated =
        ap (λ b. slice b 32 52) regrouped ∙ slice-append_right m fields 32 52 hm fields_len;
    id =
        ap (λ b. get_le32 b 32)
          (regrouped ∙ ap (λ b. m ++ b) (append_assoc (put_le32 auth_id) lock_uuid nonce_k2))
        ∙ get_le32_seam m (put_le32 auth_id ++ (lock_uuid ++ nonce_k2)) 32 hm
        ∙ get_le32-put_le32 bo auth_id (lock_uuid ++ nonce_k2) ha;
    uuid =
        slice-append (m ++ put_le32 auth_id ++ lock_uuid) nonce_k2 36 16 (omega (arith, third))
        ∙ slice-append_right (m ++ put_le32 auth_id) lock_uuid 36 16 second hu;
    nonce = slice-append_right (m ++ put_le32 auth_id ++ lock_uuid) nonce_k2 52 32 third hk;
  }
    where
      second : length (m ++ put_le32 auth_id) ≡ 36
      second = omega (arith, length-append m (put_le32 auth_id), length-put_le32 bo auth_id)

      third : length (m ++ put_le32 auth_id ++ lock_uuid) ≡ 52
      third = omega (arith, second, length-append (m ++ put_le32 auth_id) lock_uuid)

      whole : length (m ++ put_le32 auth_id ++ lock_uuid ++ nonce_k2) ≡ 84
      whole = omega (arith, third, length-append (m ++ put_le32 auth_id ++ lock_uuid) nonce_k2)

      fields : List ℕ
      fields = put_le32 auth_id ++ lock_uuid ++ nonce_k2

      regrouped : m ++ put_le32 auth_id ++ lock_uuid ++ nonce_k2 ≡ m ++ fields
      regrouped =
          ap (λ b. b ++ nonce_k2) (append_assoc m (put_le32 auth_id) lock_uuid)
          ∙ append_assoc m (put_le32 auth_id ++ lock_uuid) nonce_k2

      fields_len : length fields ≡ 52
      fields_len = omega (arith, whole, ap length regrouped, length-append m fields)
