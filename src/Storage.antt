-- ===== src/Storage.antt =====
-- src/nuki_storage.c: the pairing, in memory and in the flash.
pub mod Restart
mod Tests
use nuki_nrf52_bridge.Base.{
  ℕ, Bool, true, false, ◌&&◌, Option, none, some, List, [], ◌∷◌, ◌++◌, drop, replicate, ◌==◌, ◌≡◌,
  length, if◌then◌else◌, Result, ok, err, enoent,
}
use nuki_nrf52_bridge.Pairing.{PairingData}

-- `struct nuki_pairing_data`.
pub record Saved : Type 0 where
  pub addr : List ℕ
  pub data' : PairingData

-- A call of the settings subsystem: `settings_save_one` with a key and the whole struct as it is in memory, and
-- `settings_delete`.
pub data StoreRequest : Type 0 where
  save_one : List ℕ → Saved → StoreRequest
  delete : List ℕ → StoreRequest

-- The file's variables, and the calls made so far.
pub record Storage : Type 0 where
  pub requests : List StoreRequest
  pub pairing : Saved
  pub have_pairing : Bool

-- A struct of zeros.
abbrev pub zeroed : Saved
zeroed = record {
  addr = replicate 7 0;
  data' = record {
    auth_id = 0;
    app_id = 0;
    shared_key = replicate 32 0;
    lock_uuid = replicate 16 0;
  };
}

-- The variables before the settings are loaded.
abbrev pub reset_storage : Storage
reset_storage = record { requests = []; pairing = zeroed; have_pairing = false }

-- The name of the handler, "nuki", and that of its entry, "pairing".
abbrev pub handler_name : List ℕ
handler_name = 110 ∷ 117 ∷ 107 ∷ 105 ∷ []

abbrev pub entry_name : List ℕ
entry_name = 112 ∷ 97 ∷ 105 ∷ 114 ∷ 105 ∷ 110 ∷ 103 ∷ []

-- "nuki/pairing".
abbrev pub entry_key : List ℕ
entry_key = 110 ∷ 117 ∷ 107 ∷ 105 ∷ 47 ∷ 112 ∷ 97 ∷ 105 ∷ 114 ∷ 105 ∷ 110 ∷ 103 ∷ []

abbrev pub call : StoreRequest → Storage → Storage
call q s = record s { requests = s.requests ++ q ∷ [] }

-- `nuki_storage_has_pairing`.
unfoldable pub has_pairing : Storage → Bool
has_pairing s = s.have_pairing

-- `nuki_storage_get_pairing`.
unfoldable pub get_pairing : Storage → Option Saved
get_pairing s = if s.have_pairing then some s.pairing else none

-- `nuki_storage_save_pairing`, given what `settings_save_one` answers.
unfoldable pub save_pairing : Saved → Result (Unit {0}) → Storage → Result (Unit {0}) × Storage
save_pairing d saved s =
    let s' = record s { pairing = d; have_pairing = true } in
    (saved, call (save_one entry_key s'.pairing) s')

-- `nuki_storage_clear_pairing`, given what `settings_delete` answers.
unfoldable pub clear_pairing : Result (Unit {0}) → Storage → Result (Unit {0}) × Storage
clear_pairing deleted s =
    (deleted, call (delete entry_key) (record s { have_pairing = false; pairing = zeroed }))

-- How the compiler lays out the struct in memory, which the repository does not say: a parameter. The
-- laws hold of the values that a struct can hold.
pub record Layout : Type 1 where
  pub size : ℕ
  pub Holds : Saved → Type 0
  pub encode : Saved → List ℕ
  pub decode : List ℕ → Saved
  pub length-encode : (d : Saved) → Holds d → length (encode d) ≡ size
  pub decode-encode : (d : Saved) → Holds d → decode (encode d) ≡ d

-- The names of settings, which Zephyr's settings subsystem matches: what follows the name of a handler in a
-- key, and `settings_name_steq` without its last argument.
pub record Names : Type 0 where
  pub rest_of : List ℕ → List ℕ → List ℕ
  pub steq : List ℕ → List ℕ → Bool
  pub rest_of_path : (handler name : List ℕ) → rest_of handler (handler ++ 47 ∷ name) ≡ name
  pub steq_same : (name : List ℕ) → steq name name ≡ true

-- What is done behind the read, which has changed the struct to `there` even if it fails.
abbrev pub on_read : Result (Unit {0}) → Saved → Storage → Result (Unit {0}) × Storage
on_read (ok _) there s = (ok tt, record s { pairing = there; have_pairing = true })
on_read (err e) there s = (err e, record s { pairing = there })

-- `nuki_settings_set`, given what `read_cb` does: the bytes that it writes over the first ones of the struct, and
-- its answer.
unfoldable pub settings_set :
    Names → Layout → List ℕ → ℕ → List ℕ → Result (Unit {0}) → Storage → Result (Unit {0}) × Storage
settings_set names lay name len bytes answer s =
    let there = lay.decode (bytes ++ drop (length bytes) (lay.encode s.pairing)) in
    if names.steq name entry_name && (len == lay.size)
    then on_read answer there s
    else (err enoent, s)
