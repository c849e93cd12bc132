-- ===== src/App/Adverts/Offers.antt =====
-- src/nuki_app.c: `ad_has_uuid` against what an advertisement says.
use nuki_nrf52_bridge.Base.{
  ℕ, zero, suc, ◌+◌, ◌*◌, ◌≤◌, ◌≡◌, ◌↔◌, ◌⊎◌, inl, inr, refl, sym, ap, ◌∙◌, true, false, List, [],
  ◌∷◌, length, slice, leb, leb→le, le→leb, arith, Bool-cases, length-slice,
}
use mathlib.Core.Bool.{true≢false}
use nuki_nrf52_bridge.Pairing.{same_bytes}
use nuki_nrf52_bridge.Pairing.Fields.{same_bytes_refl}
use nuki_nrf52_bridge.Pairing.Verified.{eq_of-same_bytes}
use nuki_nrf52_bridge.App.Adverts.{
  AdType, uuid128_all, uuid128_some, svc_data128, name_complete, name_shortened, other, AdField,
  uuid128_matches, uuid_listed, uuid_in, ad_has_uuid,
}

-- The target stands at the entry `k` of a list of UUIDs that begins at `i`.
abbrev Entry : List ℕ → List ℕ → ℕ → Type 0
Entry target data' i =
    (k : ℕ) × (i + 16 * k + 16 ≤ length data') × (slice data' (i + 16 * k) 16 ≡ target)

module _ (target : List ℕ) (whole : length target ≡ 16) where
  matched :
      (data' : List ℕ) (i : ℕ) → uuid128_matches data' i target ≡ true → slice data' i 16 ≡ target
  matched data' i h =
      eq_of-same_bytes (slice data' i 16) target (length-slice data' i 16 ∙ sym whole) h

  found :
      (fuel i : ℕ) (data' : List ℕ) → uuid_listed fuel i data' target ≡ true → Entry target data' i
  unfolding uuid_listed
  found zero i data' h = absurd (true≢false (sym h))
  found (suc fuel) i data' h = elim (Bool-cases (leb (i + 16) (length data'))) [
    | inl fits ↦ elim (Bool-cases (uuid128_matches data' i target)) [
      | inl here ↦ (
        0,
        omega (arith, leb→le (i + 16) (length data') fits),
        ap (λ j. slice data' j 16) (none_more i) ∙ matched data' i here,
      )
      | inr differs ↦
          let (k, room, there) = found fuel (i + 16) data' (rw (fits, differs) at h) in
          (suc k, omega (arith, room), ap (λ j. slice data' j 16) (one_more i k) ∙ there)
    ]
    | inr past ↦ absurd (true≢false (sym (rw past at h)))
  ]
    where
      none_more : (i : ℕ) → i + 16 * 0 ≡ i
      none_more i = omega arith

      one_more : (i k : ℕ) → i + 16 * suc k ≡ i + 16 + 16 * k
      one_more i k = omega arith

  -- `length data' ≤ i + 16 * fuel` is enough fuel to reach every entry.
  finds :
      (fuel i : ℕ) (data' : List ℕ)
      → length data' ≤ i + 16 * fuel
      → Entry target data' i
      → uuid_listed fuel i data' target ≡ true
  unfolding uuid_listed
  finds zero i data' enough (k, room, there) = absurd (omega (arith, enough, room))
  finds (suc fuel) i data' enough (k, room, there) =
      elim (Bool-cases (uuid128_matches data' i target)) [
        | inl here ↦ rw (le→leb (i + 16) (length data') (omega (arith, room)), here) refl
        | inr differs ↦
            rw (le→leb (i + 16) (length data') (omega (arith, room)), differs)
              (finds fuel (i + 16) data' (omega (arith, enough))
                (later data' i k room there differs))
      ]
    where
      first :
          (data' : List ℕ) (i : ℕ)
          → slice data' i 16 ≡ target
          → uuid128_matches data' i target ≡ true
      first data' i h = ap (λ xs. same_bytes xs target) h ∙ same_bytes_refl target

      none_more : (i : ℕ) → i + 16 * 0 ≡ i
      none_more i = omega arith

      one_more : (i k : ℕ) → i + 16 * suc k ≡ i + 16 + 16 * k
      one_more i k = omega arith

      later :
          (data' : List ℕ) (i k : ℕ)
          → i + 16 * k + 16 ≤ length data'
          → slice data' (i + 16 * k) 16 ≡ target
          → uuid128_matches data' i target ≡ false
          → Entry target data' (i + 16)
      later data' i zero room there differs = absurd (
          true≢false (
            sym (first data' i (ap (λ j. slice data' j 16) (sym (none_more i)) ∙ there)) ∙ differs))
      later data' i (suc k) room there differs =
          (k, omega (arith, room), ap (λ j. slice data' j 16) (sym (one_more i k)) ∙ there)

-- What a field of an advertisement says of the target: a list of UUIDs has it at a multiple of 16 bytes, service
-- data begins with it.
abbrev pub Lists : List ℕ → AdType → List ℕ → Type 0
Lists target uuid128_all data' = Entry target data' 0
Lists target uuid128_some data' = Entry target data' 0
Lists target svc_data128 data' = (16 ≤ length data') × (slice data' 0 16 ≡ target)
Lists target name_complete data' = ⊥
Lists target name_shortened data' = ⊥
Lists target other data' = ⊥

abbrev pub Offers : List ℕ → List AdField → Type 0
Offers target [] = ⊥
Offers target (f ∷ fs) = Lists target f.type f.data' ⊎ Offers target fs

module _ (target : List ℕ) (whole : length target ≡ 16) where
  in_service_data :
      (data' : List ℕ) → (uuid_in target svc_data128 data' ≡ true) ↔ Lists target svc_data128 data'
  unfolding uuid_in
  in_service_data data' = (
    λ h. elim (Bool-cases (leb 16 (length data'))) [
      | inl fits ↦ (leb→le 16 (length data') fits, matched target whole data' 0 (rw fits at h))
      | inr short ↦ absurd (true≢false (sym (rw short at h)))
    ],
    λ (room, there).
        rw (le→leb 16 (length data') room)
          (ap (λ xs. same_bytes xs target) there ∙ same_bytes_refl target),
  )

  in_list :
      (data' : List ℕ) → (uuid_listed (length data') 0 data' target ≡ true) ↔ Entry target data' 0
  in_list data' = (
    found target whole (length data') 0 data',
    finds target whole (length data') 0 data' (omega arith),
  )

  in_field :
      (type : AdType) (data' : List ℕ)
      → (uuid_in target type data' ≡ true) ↔ Lists target type data'
  unfolding uuid_in
  in_field uuid128_all data' = in_list data'
  in_field uuid128_some data' = in_list data'
  in_field svc_data128 data' = in_service_data data'
  in_field name_complete data' = (λ h. true≢false (sym h), λ x. absurd x)
  in_field name_shortened data' = (λ h. true≢false (sym h), λ x. absurd x)
  in_field other data' = (λ h. true≢false (sym h), λ x. absurd x)

  -- For a UUID of 16 bytes: `ad_has_uuid` finds it exactly in the advertisements that have it, at a multiple of
  -- 16 bytes in one of their lists of UUIDs, or at the start of their service data, whatever the other fields.
  pub ad_has_uuid_iff : (ad : List AdField) → (ad_has_uuid ad target ≡ true) ↔ Offers target ad
  unfolding ad_has_uuid
  ad_has_uuid_iff [] = (λ h. true≢false (sym h), λ x. absurd x)
  ad_has_uuid_iff (f ∷ fs) = (
    λ h. elim (Bool-cases (uuid_in target f.type f.data')) [
      | inl here ↦ inl ((in_field f.type f.data').0 here)
      | inr elsewhere ↦ inr ((ad_has_uuid_iff fs).0 (rw elsewhere at h))
    ],
    λ o. elim o [
      | inl here ↦ rw ((in_field f.type f.data').1 here) refl
      | inr there ↦ elim (Bool-cases (uuid_in target f.type f.data')) [
        | inl here ↦ rw here refl
        | inr elsewhere ↦ rw elsewhere ((ad_has_uuid_iff fs).1 there)
      ]
    ],
  )
