-- ===== src/Pairing/Samples.antt =====
-- The handshake of src/nuki_pairing.c with a lock and a stand-in for PSA Crypto.
use nuki_nrf52_bridge.Base.{ℕ, ◌≡◌, refl, true, some, List, [], ◌∷◌, ◌++◌, replicate, ok, arith}
use nuki_nrf52_bridge.Zephyr.{little_endian}
use nuki_nrf52_bridge.Crypto.Crc.{crc16}
use nuki_nrf52_bridge.Crypto.Salsa.{kdf1}
use nuki_nrf52_bridge.Crypto.Psa.{Psa, crypto_init, keypair, dh1, h1}
use nuki_nrf52_bridge.Protocol.Frame.{build_plain}
use nuki_nrf52_bridge.Transport.{Event, happens, indication, write_done}
use nuki_nrf52_bridge.Link.{Link}
use nuki_nrf52_bridge.Pairing.Answers.{Says}
use nuki_nrf52_bridge.Pairing.Completes.{Grants}
use nuki_nrf52_bridge.Link.Exchange.{Incoming}

-- A stand-in for PSA Crypto: a key is its bytes, and every output is 32 bytes long.
abbrev pub toy_psa : Psa
toy_psa = record {
  KeyId = List ℕ;
  crypto_init = true;
  generate_key = some (replicate 32 3);
  import_key = λ k. some k;
  export_key = λ k. some k;
  export_public_key = λ k. some k;
  raw_key_agreement = λ k p. some p;
  mac_compute = λ k data'. some (replicate 32 6);
}

-- A frame of the lock, in one indication.
abbrev pub arrives : List ℕ → Event
arrives frame = happens (indication frame)

abbrev pub key_frame : List ℕ
key_frame = 3 ∷ 0 ∷ (replicate 32 1 ++ 73 ∷ 31 ∷ [])

abbrev pub challenge_frame : List ℕ
challenge_frame = 4 ∷ 0 ∷ (replicate 32 4 ++ 146 ∷ 243 ∷ [])

abbrev pub grant_payload : List ℕ
grant_payload = replicate 32 6 ++ 77 ∷ 0 ∷ 0 ∷ 0 ∷ [] ++ replicate 16 8 ++ replicate 32 2

abbrev pub grant_frame : List ℕ
grant_frame = 7 ∷ 0 ∷ (grant_payload ++ 174 ∷ 27 ∷ [])

abbrev pub status_frame : List ℕ
status_frame = 14 ∷ 0 ∷ 0 ∷ 157 ∷ 215 ∷ []

-- The lock's part of the handshake.
abbrev pub handshake : List Event
handshake =
    write_done 0
    ∷ arrives key_frame
    ∷ write_done 0
    ∷ arrives challenge_frame
    ∷ write_done 0
    ∷ arrives challenge_frame
    ∷ write_done 0
    ∷ arrives grant_frame
    ∷ write_done 0
    ∷ arrives status_frame
    ∷ []

pub toy_mac : (d : List ℕ) → h1 toy_psa (kdf1 (replicate 32 1)) d ≡ ok (replicate 32 6)
unfolding h1
toy_mac d = refl

abbrev pub toy_macs : (d : List ℕ) → (m : List ℕ) × (h1 toy_psa (kdf1 (replicate 32 1)) d ≡ ok m)
toy_macs d = (replicate 32 6, toy_mac d)

abbrev pub says : ℕ → List ℕ → List ℕ → Incoming
says cmd payload frame = record { command = cmd; payload = payload; early = []; late = frame ∷ [] }

frames_built :
    (build_plain little_endian 160 3 (replicate 32 1) 32 ≡ some key_frame)
    × (build_plain little_endian 160 4 (replicate 32 4) 32 ≡ some challenge_frame)
    × (build_plain little_endian 160 7 grant_payload 84 ≡ some grant_frame)
    × (build_plain little_endian 160 14 (0 ∷ []) 1 ≡ some status_frame)
unfolding build_plain crc16
frames_built = (refl, refl, refl, refl)

challenge_said : Says little_endian 4 (replicate 32 4) (says 4 (replicate 32 4) challenge_frame)
challenge_said = record {
  filled = (omega arith, tt);
  plain = record { cmd_bound = omega arith; short = omega arith; built = frames_built.1 };
}

pub toy_calls :
    (crypto_init toy_psa ≡ ok tt)
    × (keypair toy_psa ≡ ok (replicate 32 3, replicate 32 3))
    × (dh1 toy_psa (replicate 32 3) (replicate 32 1) ≡ ok (replicate 32 1))
unfolding crypto_init keypair dh1
toy_calls = (refl, refl, refl)

pub granting :
    (l : Link)
    → l.schedule ≡ handshake
    → Grants little_endian toy_psa (kdf1 (replicate 32 1)) toy_macs (replicate 32 1) [] l
granting l s = record {
  key_len = refl;
  public_key = says 3 (replicate 32 1) key_frame;
  gives_key = record {
    filled = (omega arith, tt);
    plain = record { cmd_bound = omega arith; short = omega arith; built = frames_built.0 };
  };
  nonce1 = replicate 32 4;
  nonce1_len = refl;
  challenge1 = says 4 (replicate 32 4) challenge_frame;
  challenges1 = challenge_said;
  nonce2 = replicate 32 4;
  nonce2_len = refl;
  challenge2 = says 4 (replicate 32 4) challenge_frame;
  challenges2 = challenge_said;
  auth_id = 77;
  id_bound = omega arith;
  lock_uuid = replicate 16 8;
  uuid_len = refl;
  nonce_k2 = replicate 32 2;
  nonce_len = refl;
  grant = says 7 grant_payload grant_frame;
  authorizes = record {
    filled = (omega arith, tt);
    plain = record { cmd_bound = omega arith; short = omega arith; built = frames_built.2 };
  };
  status = says 14 (0 ∷ []) status_frame;
  completes = record {
    filled = (omega arith, tt);
    plain = record { cmd_bound = omega arith; short = omega arith; built = frames_built.3 };
  };
  coming = s;
}
