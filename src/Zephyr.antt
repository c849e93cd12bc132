-- ===== src/Zephyr.antt =====
-- What the firmware uses of Zephyr and is not in the repository: a parameter of the model, with the
-- documented behaviour as its laws.
use nuki_nrf52_bridge.Base.{ℕ, ◌+◌, ◌*◌, ◌/◌, ◌%◌, List, [], ◌∷◌, ◌≡◌, refl, get_or}

-- zephyr/sys/byteorder.h: `sys_put_le16` and its kin write a number's bytes, the lowest first, and
-- `sys_get_le16(buf + at)` reads them.
pub record ByteOrder : Type 0 where
  pub put_le16 : ℕ → List ℕ
  pub put_le32 : ℕ → List ℕ
  pub get_le16 : List ℕ → ℕ → ℕ
  pub get_le32 : List ℕ → ℕ → ℕ
  pub put_le16_lem : (v : ℕ) → put_le16 v ≡ (v % 256) ∷ (v / 256 % 256) ∷ []
  pub put_le32_lem :
      (v : ℕ)
      → put_le32 v ≡ (v % 256) ∷ (v / 256 % 256) ∷ (v / 65536 % 256) ∷ (v / 16777216 % 256) ∷ []
  pub get_le16_lem :
      (buf : List ℕ) (at : ℕ) → get_le16 buf at ≡ get_or buf at 0 + 256 * get_or buf (at + 1) 0
  pub get_le32_lem :
      (buf : List ℕ) (at : ℕ)
      → get_le32 buf at
        ≡ get_or buf at 0
          + 256 * get_or buf (at + 1) 0
          + 65536 * get_or buf (at + 2) 0
          + 16777216 * get_or buf (at + 3) 0

-- The laws can be met.
abbrev pub little_endian : ByteOrder
little_endian = record {
  put_le16 = λ v. (v % 256) ∷ (v / 256 % 256) ∷ [];
  put_le32 = λ v. (v % 256) ∷ (v / 256 % 256) ∷ (v / 65536 % 256) ∷ (v / 16777216 % 256) ∷ [];
  get_le16 = λ buf at. get_or buf at 0 + 256 * get_or buf (at + 1) 0;
  get_le32 = λ buf at.
      get_or buf at 0
      + 256 * get_or buf (at + 1) 0
      + 65536 * get_or buf (at + 2) 0
      + 16777216 * get_or buf (at + 3) 0;
  put_le16_lem = λ v. refl;
  put_le32_lem = λ v. refl;
  get_le16_lem = λ buf at. refl;
  get_le32_lem = λ buf at. refl;
}
