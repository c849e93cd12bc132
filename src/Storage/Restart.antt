-- ===== src/Storage/Restart.antt =====
-- src/nuki_storage.c: what a restart makes of the bytes in the flash.
use nuki_nrf52_bridge.Base.{
  ℕ, zero, suc, ◌∷◌, ◌≤◌, ◌≡◌, refl, ap, ◌∙◌, true, ◌&&◌, none, some, List, [], ◌++◌, length, drop,
  append-nil, ◌==◌, ==_refl, arith, Result, ok,
}
use nuki_nrf52_bridge.Storage.{
  Saved, Storage, Layout, Names, save_one, delete, handler_name, entry_name, entry_key, get_pairing,
  save_pairing, clear_pairing, settings_set,
}

drop_past : (n : ℕ) (xs : List ℕ) → length xs ≤ n → drop n xs ≡ []
drop_past zero [] h = refl
drop_past (suc n) [] h = refl
drop_past zero (x ∷ xs) h = absurd (omega arith)
drop_past (suc n) (x ∷ xs) h = drop_past n xs (omega arith)

module _ (names : Names) (lay : Layout) where
  open lay use {size, Holds, encode, decode, length-encode, decode-encode}
  open names use {rest_of, steq, rest_of_path, steq_same}

  -- A read that gives all the bytes of a struct leaves nothing of the old one.
  loaded :
      (d old : Saved)
      → Holds d
      → Holds old
      → decode (encode d ++ drop (length (encode d)) (encode old)) ≡ d
  loaded d old h k =
      ap (λ xs. decode (encode d ++ xs))
        (drop_past (length (encode d)) (encode old)
          (omega (arith, length-encode d h, length-encode old k)))
      ∙ ap decode (append-nil (encode d))
      ∙ decode-encode d h

  -- What the call that saved `d` leads to: the entry of its key with the bytes of its struct, when it is read at
  -- the next start, and when it is deleted.
  pub record Restored (d : Saved) (before saved cleared s : Storage) : Type 0 where
    pub key : List ℕ
    pub value : Saved
    pub stored : saved.requests ≡ before.requests ++ save_one key value ∷ []
    pub removed : cleared.requests ≡ saved.requests ++ delete key ∷ []
    pub success :
        (settings_set names lay
          (rest_of handler_name key)
          (length (encode value))
          (encode value)
          (ok tt)
          s).0
        ≡ ok tt
    pub loaded_pairing :
        get_pairing
          (settings_set names lay
            (rest_of handler_name key)
            (length (encode value))
            (encode value)
            (ok tt)
            s).1
        ≡ some d
    pub held : get_pairing saved ≡ some d
    pub gone : get_pairing cleared ≡ none

  -- `nuki_storage_save_pairing` makes one call of the settings subsystem. When the entry of the key of that call,
  -- with the bytes of the struct of that call, is read at the next start, the read succeeds and gives the pairing
  -- saved, whatever was in memory, if the struct can hold both; and memory has that pairing at once, whatever the
  -- call answers. `nuki_storage_clear_pairing` deletes the entry of that same key, and no pairing is left.
  pub settings_set-save_pairing :
      (d : Saved) (saved deleted : Result (Unit {0})) (before s : Storage)
      → Holds d
      → Holds s.pairing
      → let after = (save_pairing d saved before).1 in
        Restored d before after (clear_pairing deleted after).1 s
  unfolding settings_set get_pairing save_pairing clear_pairing
  settings_set-save_pairing d saved deleted before s h k =
      let ours : (steq (rest_of handler_name entry_key) entry_name && (length (encode d) == size))
          ≡ true =
        rw (rest_of_path handler_name entry_name, steq_same entry_name, length-encode d h)
          (==_refl size) in
      record {
        key = entry_key;
        value = d;
        stored = refl;
        removed = refl;
        success = rw ours refl;
        loaded_pairing = rw ours (ap some (loaded d s.pairing h k));
        held = refl;
        gone = refl;
      }
