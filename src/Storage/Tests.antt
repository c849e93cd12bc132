-- ===== src/Storage/Tests.antt =====
-- A layout of the pairing struct without padding, and the theorems at concrete inputs.
use nuki_nrf52_bridge.Base.{
  true, ℕ, suc, ◌+◌, ◌*◌, ◌<◌, ◌≡◌, refl, ap, ◌∙◌, arith, List, [], ◌∷◌, ◌++◌, length, get_or,
  le_bytes, replicate, take, drop, take-append, drop-append, length-append, ok, err, eio,
}
use nuki_nrf52_bridge.Storage.{
  Saved, Layout, Names, reset_storage, zeroed, entry_name, save_pairing, clear_pairing,
  settings_set,
}
use nuki_nrf52_bridge.Storage.Restart.{Restored, settings_set-save_pairing}
use nuki_nrf52_bridge.Pairing.{same_bytes}
use nuki_nrf52_bridge.Pairing.Fields.{same_bytes_refl}

record Fits (d : Saved) : Type 0 where
  addr : length d.addr ≡ 7
  auth_id : d.data'.auth_id < 4294967296
  app_id : d.data'.app_id < 4294967296
  shared_key : length d.data'.shared_key ≡ 32
  lock_uuid : length d.data'.lock_uuid ≡ 16

abbrev number : List ℕ → ℕ
number xs = get_or xs 0 0 + 256 * get_or xs 1 0 + 65536 * get_or xs 2 0 + 16777216 * get_or xs 3 0

number-le_bytes : (v : ℕ) → v < 4294967296 → number (le_bytes 4 v) ≡ v
number-le_bytes v h = omega arith

abbrev write_struct : Saved → List ℕ
write_struct d =
    le_bytes 4 d.data'.auth_id
    ++ le_bytes 4 d.data'.app_id
    ++ (d.addr ++ (d.data'.shared_key ++ d.data'.lock_uuid))

abbrev struct_of : ℕ → ℕ → List ℕ → List ℕ → List ℕ → Saved
struct_of auth_id app_id addr key uuid = record {
  addr = addr;
  data' = record { auth_id = auth_id; app_id = app_id; shared_key = key; lock_uuid = uuid };
}

abbrev read_struct : List ℕ → Saved
read_struct xs =
    let rest = drop 8 xs in
    struct_of (number xs) (number (drop 4 xs)) (take 7 rest) (take 32 (drop 7 rest))
      (drop 32 (drop 7 rest))

same_struct :
    {a a' b b' : ℕ} {x x' y y' z z' : List ℕ}
    → a ≡ a'
    → b ≡ b'
    → x ≡ x'
    → y ≡ y'
    → z ≡ z'
    → struct_of a b x y z ≡ struct_of a' b' x' y' z'
same_struct p q r s t = cc

read_struct-write_struct : (d : Saved) → Fits d → read_struct (write_struct d) ≡ d
read_struct-write_struct d h =
    let key = d.data'.shared_key in
    let uuid = d.data'.lock_uuid in
    let rest = drop-append 7 d.addr (key ++ uuid) h.addr in
    same_struct (number-le_bytes d.data'.auth_id h.auth_id)
      (number-le_bytes d.data'.app_id h.app_id) (take-append 7 d.addr (key ++ uuid) h.addr)
      (ap (take 32) rest ∙ take-append 32 key uuid h.shared_key)
      (ap (drop 32) rest ∙ drop-append 32 key uuid h.shared_key)

abbrev packed : Layout
packed = record {
  size = 63;
  Holds = Fits;
  encode = write_struct;
  decode = read_struct;
  length-encode = λ d h. omega (
    arith,
    length-append d.addr (d.data'.shared_key ++ d.data'.lock_uuid),
    length-append d.data'.shared_key d.data'.lock_uuid,
    h.addr,
    h.shared_key,
    h.lock_uuid,
  );
  decode-encode = read_struct-write_struct;
}

abbrev one_lock : Saved
one_lock =
    struct_of 77 0x09090909 (1 ∷ 2 ∷ 3 ∷ 4 ∷ 5 ∷ 6 ∷ 7 ∷ []) (replicate 32 5) (replicate 16 8)

one_lock-Fits : Fits one_lock
one_lock-Fits = record {
  addr = refl;
  auth_id = omega arith;
  app_id = omega arith;
  shared_key = refl;
  lock_uuid = refl;
}

zeroed-Fits : Fits zeroed
zeroed-Fits = record {
  addr = refl;
  auth_id = omega arith;
  app_id = omega arith;
  shared_key = refl;
  lock_uuid = refl;
}

drop_path : (handler name : List ℕ) → drop (length handler + 1) (handler ++ 47 ∷ name) ≡ name
drop_path [] name = refl
drop_path (c ∷ handler) name =
    ap (λ n. drop n (c ∷ (handler ++ 47 ∷ name))) (one_more (length handler))
    ∙ drop_path handler name
  where
    one_more : (n : ℕ) → suc n + 1 ≡ suc (n + 1)
    one_more n = omega arith

abbrev plain_names : Names
plain_names = record {
  rest_of = λ handler key. drop (length handler + 1) key;
  steq = λ name entry. same_bytes entry name;
  rest_of_path = drop_path;
  steq_same = same_bytes_refl;
}

settings_set-save_pairing_example :
    Restored plain_names packed one_lock reset_storage
      (save_pairing one_lock (ok tt) reset_storage).1
      (clear_pairing (ok tt) (save_pairing one_lock (ok tt) reset_storage).1).1
      reset_storage
settings_set-save_pairing_example =
    settings_set-save_pairing plain_names packed one_lock (ok tt) (ok tt) reset_storage
      reset_storage one_lock-Fits zeroed-Fits

-- A read that fails half way leaves a struct of two pairings in memory.
read_fails_half_way :
    settings_set plain_names packed entry_name 63 (77 ∷ 1 ∷ []) (err eio) reset_storage ≡ (
      err eio,
      record reset_storage {
        pairing = struct_of 333 0 (replicate 7 0) (replicate 32 0) (replicate 16 0);
      },
    )
unfolding settings_set
read_fails_half_way = refl

-- A read of no bytes counts as a pairing.
reads_nothing :
    settings_set plain_names packed entry_name 63 [] (ok tt) reset_storage
    ≡ (ok tt, record reset_storage { have_pairing = true })
unfolding settings_set
reads_nothing = refl
