-- ===== src/App/Adverts.antt =====
-- src/nuki_app.c: which advertisements are a Nuki lock's.
pub mod Offers
use nuki_nrf52_bridge.Base.{
  ℕ, zero, suc, ◌+◌, min, Bool, true, false, Option, none, some, List, [], ◌∷◌, ◌++◌, length, slice,
  leb, if◌then◌else◌,
}
use nuki_nrf52_bridge.Pairing.{same_bytes}

-- The types of advertising data that the code tells apart.
pub data AdType : Type 0 where
  uuid128_all uuid128_some svc_data128 name_complete name_shortened other : AdType

-- `struct bt_data`: the fields that `bt_data_parse` finds in an advertisement, in order, are a list of these.
pub record AdField : Type 0 where
  pub type : AdType
  pub data' : List ℕ

abbrev pub uuid128_matches : List ℕ → ℕ → List ℕ → Bool
uuid128_matches bytes i target = same_bytes (slice bytes i 16) target

-- The loop over a list of UUIDs from `i` on; a length is enough fuel for a list of that length.
unfoldable pub uuid_listed : ℕ → ℕ → List ℕ → List ℕ → Bool
uuid_listed zero i data' target = false
uuid_listed (suc fuel) i data' target =
    let later = uuid_listed fuel (i + 16) data' target in
    if leb (i + 16) (length data')
    then (if uuid128_matches data' i target then true else later)
    else false

-- `ad_uuid_cb`: whether the target is found in the field, which ends the parsing.
unfoldable pub uuid_in : List ℕ → AdType → List ℕ → Bool
uuid_in target uuid128_all data' = uuid_listed (length data') 0 data' target
uuid_in target uuid128_some data' = uuid_listed (length data') 0 data' target
uuid_in target svc_data128 data' =
    if leb 16 (length data') then uuid128_matches data' 0 target else false
uuid_in target name_complete data' = false
uuid_in target name_shortened data' = false
uuid_in target other data' = false

-- `ad_has_uuid`.
unfoldable pub ad_has_uuid : List AdField → List ℕ → Bool
ad_has_uuid [] target = false
ad_has_uuid (f ∷ fs) target =
    let later = ad_has_uuid fs target in if uuid_in target f.type f.data' then true else later

-- `ad_name_cb`: the text that a field with a name leaves.
unfoldable pub name_in : AdType → List ℕ → Option (List ℕ)
name_in name_complete data' = some (slice data' 0 (min (length data') 30) ++ 0 ∷ [])
name_in name_shortened data' = some (slice data' 0 (min (length data') 30) ++ 0 ∷ [])
name_in uuid128_all data' = none
name_in uuid128_some data' = none
name_in svc_data128 data' = none
name_in other data' = none

abbrev pub first_or : Option (List ℕ) → List ℕ → List ℕ
first_or none later = later
first_or (some name) later = name

-- `ad_get_name`.
unfoldable pub ad_get_name : List AdField → List ℕ
ad_get_name [] = 0 ∷ []
ad_get_name (f ∷ fs) = first_or (name_in f.type f.data') (ad_get_name fs)

-- `NUKI_NAME_PREFIX`, "Nuki_".
abbrev pub name_prefix : List ℕ
name_prefix = 78 ∷ 117 ∷ 107 ∷ 105 ∷ 95 ∷ []

-- `ad_has_nuki_name`: the prefix has no zero, so `strncmp` is 0 exactly on equal bytes.
unfoldable pub ad_has_nuki_name : List AdField → Bool
ad_has_nuki_name ad = same_bytes name_prefix (slice (ad_get_name ad) 0 5)
