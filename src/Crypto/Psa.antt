-- ===== src/Crypto/Psa.antt =====
-- src/nuki_crypto.c: the functions that pass their work on to PSA Crypto.
use nuki_nrf52_bridge.Base.{
  ℕ, Bool, Option, none, some, List, length, ◌==◌, if◌then◌else◌, Result, ok, err, eio, and_then,
  ◌≡◌, refl, sym, ap, ◌∙◌, ==_iff, is_ok, true, false,
}
use nuki_nrf52_bridge.Crypto.Secretbox.RoundTrip.{ok-injective}
use mathlib.Core.Bool.{true≢false}

-- PSA Crypto, which is not in the repository: its calls with the attributes that the source sets, where
-- `none` stands for a status other than PSA_SUCCESS.
pub record Psa : Type 1 where
  pub KeyId : Type 0
  pub crypto_init : Bool
  pub generate_key : Option KeyId
  pub import_key : List ℕ → Option KeyId
  pub export_key : KeyId → Option (List ℕ)
  pub export_public_key : KeyId → Option (List ℕ)
  pub raw_key_agreement : KeyId → List ℕ → Option (List ℕ)
  pub mac_compute : KeyId → List ℕ → Option (List ℕ)

abbrev status {ℓ} : {A : Type ℓ} → Option A → Result A
status none = err eio
status (some a) = ok a

-- An output of another length than 32 bytes is refused.
abbrev sized : List ℕ → Result (List ℕ)
sized out = if length out == 32 then ok out else err eio

module _ (psa : Psa) where
  unfoldable pub crypto_init : Result (Unit {0})
  crypto_init = if psa.crypto_init then ok tt else err eio

  -- The public and the private key.
  unfoldable pub keypair : Result (List ℕ × List ℕ)
  keypair = and_then (status psa.generate_key) λ key.
      and_then (and_then (status (psa.export_key key)) sized) λ priv.
        and_then (and_then (status (psa.export_public_key key)) sized) λ public. ok (public, priv)

  unfoldable pub dh1 : List ℕ → List ℕ → Result (List ℕ)
  dh1 priv public =
      and_then (status (psa.import_key priv))
        λ key. and_then (status (psa.raw_key_agreement key public)) sized

  unfoldable pub h1 : List ℕ → List ℕ → Result (List ℕ)
  h1 key data' =
      and_then (status (psa.import_key key))
        λ key_id. and_then (status (psa.mac_compute key_id data')) sized

and_then-ok {ℓ κ} :
    {A : Type ℓ} {B : Type κ} (r : Result A) (f : A → Result B) (b : B)
    → and_then r f ≡ ok b
    → (a : A) × (f a ≡ ok b)
and_then-ok (ok a) f b h = (a, h)
and_then-ok (err e) f b h = absurd (true≢false (sym (ap is_ok h)))

choice-length :
    (g : Bool) (out x : List ℕ)
    → (length out == 32) ≡ g
    → (if g then ok out else err eio) ≡ ok x
    → length x ≡ 32
choice-length true out x e h = ap length (sym (ok-injective h)) ∙ (==_iff (length out) 32).0 e
choice-length false out x e h = absurd (true≢false (sym (ap is_ok h)))

-- The outputs that are passed on have 32 bytes.
pub h1-length : (psa : Psa) (key data' out : List ℕ) → h1 psa key data' ≡ ok out → length out ≡ 32
unfolding h1
h1-length psa key data' out h =
    let (key_id, h') =
      and_then-ok (status (psa.import_key key))
        (λ id. and_then (status (psa.mac_compute id data')) sized) out h in
    let (mac, h'') = and_then-ok (status (psa.mac_compute key_id data')) sized out h' in
    choice-length (length mac == 32) mac out refl h''

sized-length : (r : Result (List ℕ)) (x : List ℕ) → and_then r sized ≡ ok x → length x ≡ 32
sized-length (ok out) x h = choice-length (length out == 32) out x refl h
sized-length (err e) x h = absurd (true≢false (sym (ap is_ok h)))

-- The public key has 32 bytes, too.
public_sized :
    (r : Result (List ℕ)) (priv' public priv : List ℕ)
    → and_then {B = List ℕ × List ℕ} (and_then r sized) (λ p. ok (p, priv')) ≡ ok (public, priv)
    → length public ≡ 32
public_sized (ok out) priv' public priv h =
    let (p, e, e') = split (and_then (ok out) sized) h in
    ap length (sym (ap (λ k. k.0) (ok-injective e'))) ∙ sized-length (ok out) p e
  where
    split :
        (r : Result (List ℕ))
        → and_then {B = List ℕ × List ℕ} r (λ p. ok (p, priv')) ≡ ok (public, priv)
        → (p : List ℕ) × (r ≡ ok p)
          × (◌≡◌ {A = Result (List ℕ × List ℕ)} (ok (p, priv')) (ok (public, priv)))
    split (ok p) e = (p, refl, e)
    split (err x) e = absurd (true≢false (sym (ap is_ok e)))
public_sized (err e) priv' public priv h = absurd (true≢false (sym (ap is_ok h)))

pub keypair-length :
    (psa : Psa) (public priv : List ℕ) → keypair psa ≡ ok (public, priv) → length public ≡ 32
unfolding keypair
keypair-length psa public priv h =
    let (key, h') = and_then-ok (status psa.generate_key) _ (public, priv) h in
    let (priv', h'') =
      and_then-ok (and_then (status (psa.export_key key)) sized) _ (public, priv) h' in
    public_sized (status (psa.export_public_key key)) priv' public priv h''
