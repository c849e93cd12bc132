-- ===== src/Command/Samples.antt =====
-- Messages of a lock, sealed with a nonce of nines under a key of sevens; the bytes are those of another
-- implementation of NaCl.
use nuki_nrf52_bridge.Base.{
  ℕ, ◌≡◌, refl, List, [], ◌∷◌, ◌++◌, replicate, take, drop, some, ok, arith,
}
use nuki_nrf52_bridge.Zephyr.{little_endian}
use nuki_nrf52_bridge.Crypto.Words.{rotl32, load_le32, store_le32}
use nuki_nrf52_bridge.Crypto.Salsa.{
  core_salsa20, core_hsalsa20, load_words, round, rounds, store_words, mix,
}
use nuki_nrf52_bridge.Crypto.Stream.{xor_bytes, stream_loop, next_block, xsalsa20_xor}
use nuki_nrf52_bridge.Crypto.Poly1305.{clamp, absorb, freeze, poly1305}
use nuki_nrf52_bridge.Crypto.Secretbox.{e1}
use nuki_nrf52_bridge.Crypto.Crc.{crc16}
use nuki_nrf52_bridge.Protocol.Frame.{build_auth}
use nuki_nrf52_bridge.Link.Exchange.{Incoming}
use nuki_nrf52_bridge.Command.Message.{IsMessage}
use nuki_nrf52_bridge.Command.Concludes.{Concludes}
use nuki_nrf52_bridge.Command.Answered.{Challenges}

abbrev pub sample_key : List ℕ
sample_key = replicate 32 7

abbrev pub sample_nonce : List ℕ
sample_nonce = replicate 24 9

-- A Challenge of eights.
abbrev pub challenge_payload : List ℕ
challenge_payload = replicate 32 8

abbrev challenge_frame : List ℕ
challenge_frame =
    5 ∷ 0 ∷ 0 ∷ 0 ∷ 4 ∷ 0 ∷ 8 ∷ 8 ∷ 8 ∷ 8 ∷ 8 ∷ 8 ∷ 8 ∷ 8 ∷ 8 ∷ 8 ∷ 8 ∷ 8 ∷ 8 ∷ 8 ∷ 8 ∷ 8 ∷ 8 ∷ 8
    ∷ 8 ∷ 8 ∷ 8 ∷ 8 ∷ 8 ∷ 8 ∷ 8 ∷ 8 ∷ 8 ∷ 8 ∷ 8 ∷ 8 ∷ 8 ∷ 8 ∷ 229 ∷ 77 ∷ []

abbrev challenge_sealed : List ℕ
challenge_sealed =
    142 ∷ 46 ∷ 67 ∷ 37 ∷ 184 ∷ 59 ∷ 115 ∷ 49 ∷ 234 ∷ 55 ∷ 230 ∷ 83 ∷ 69 ∷ 212 ∷ 104 ∷ 80 ∷ 137 ∷ 74
    ∷ 19 ∷ 246 ∷ 59 ∷ 81 ∷ 58 ∷ 228 ∷ 12 ∷ 124 ∷ 26 ∷ 224 ∷ 162 ∷ 60 ∷ 189 ∷ 90 ∷ 104 ∷ 149 ∷ 134
    ∷ 58 ∷ 92 ∷ 71 ∷ 198 ∷ 213 ∷ 128 ∷ 46 ∷ 228 ∷ 6 ∷ 239 ∷ 204 ∷ 88 ∷ 96 ∷ 68 ∷ 221 ∷ 165 ∷ 135
    ∷ 223 ∷ 155 ∷ 155 ∷ 105 ∷ []

abbrev pub challenge_wire : List ℕ
challenge_wire = sample_nonce ++ 5 ∷ 0 ∷ 0 ∷ 0 ∷ 56 ∷ 0 ∷ challenge_sealed

challenge_known :
    (build_auth little_endian 160 5 4 challenge_payload 32 ≡ some challenge_frame)
    × (e1 challenge_frame 40 sample_nonce sample_key ≡ ok challenge_sealed)
unfolding build_auth crc16 e1 poly1305 clamp absorb freeze xsalsa20_xor stream_loop next_block
    xor_bytes core_salsa20 core_hsalsa20 load_words round rounds store_words mix rotl32 load_le32
    store_le32
challenge_known = (refl, refl)

pub challenge-IsMessage : IsMessage little_endian sample_key 5 4 challenge_payload challenge_wire
challenge-IsMessage = record {
  id_bound = omega arith;
  cmd_bound = omega arith;
  short = omega arith;
  frame = challenge_frame;
  nonce = sample_nonce;
  nonce_len = refl;
  sealed = challenge_sealed;
  built = challenge_known.0;
  encrypted = challenge_known.1;
  wire = refl;
}

-- A Status ACCEPTED.
abbrev pub accepted_payload : List ℕ
accepted_payload = 1 ∷ []

abbrev accepted_frame : List ℕ
accepted_frame = 5 ∷ 0 ∷ 0 ∷ 0 ∷ 14 ∷ 0 ∷ 1 ∷ 73 ∷ 131 ∷ []

abbrev accepted_sealed : List ℕ
accepted_sealed =
    94 ∷ 181 ∷ 55 ∷ 220 ∷ 70 ∷ 219 ∷ 120 ∷ 122 ∷ 194 ∷ 192 ∷ 136 ∷ 231 ∷ 250 ∷ 90 ∷ 18 ∷ 86 ∷ 137
    ∷ 74 ∷ 19 ∷ 246 ∷ 49 ∷ 81 ∷ 51 ∷ 165 ∷ 135 ∷ []

abbrev pub accepted_wire : List ℕ
accepted_wire = sample_nonce ++ 5 ∷ 0 ∷ 0 ∷ 0 ∷ 25 ∷ 0 ∷ accepted_sealed

accepted_known :
    (build_auth little_endian 160 5 14 accepted_payload 1 ≡ some accepted_frame)
    × (e1 accepted_frame 9 sample_nonce sample_key ≡ ok accepted_sealed)
unfolding build_auth crc16 e1 poly1305 clamp absorb freeze xsalsa20_xor stream_loop next_block
    xor_bytes core_salsa20 core_hsalsa20 load_words round rounds store_words mix rotl32 load_le32
    store_le32
accepted_known = (refl, refl)

pub accepted-IsMessage : IsMessage little_endian sample_key 5 14 accepted_payload accepted_wire
accepted-IsMessage = record {
  id_bound = omega arith;
  cmd_bound = omega arith;
  short = omega arith;
  frame = accepted_frame;
  nonce = sample_nonce;
  nonce_len = refl;
  sealed = accepted_sealed;
  built = accepted_known.0;
  encrypted = accepted_known.1;
  wire = refl;
}

-- A report: locked, 86 percent, the door closed.
abbrev pub state_payload : List ℕ
state_payload = 2 ∷ 1 ∷ 0 ∷ 234 ∷ 7 ∷ 8 ∷ 7 ∷ 14 ∷ 2 ∷ 10 ∷ 0 ∷ 0 ∷ 172 ∷ 0 ∷ 0 ∷ 0 ∷ 0 ∷ 0 ∷ 2 ∷ []

abbrev state_frame : List ℕ
state_frame =
    5 ∷ 0 ∷ 0 ∷ 0 ∷ 12 ∷ 0 ∷ 2 ∷ 1 ∷ 0 ∷ 234 ∷ 7 ∷ 8 ∷ 7 ∷ 14 ∷ 2 ∷ 10 ∷ 0 ∷ 0 ∷ 172 ∷ 0 ∷ 0 ∷ 0 ∷ 0
    ∷ 0 ∷ 2 ∷ 240 ∷ 104 ∷ []

abbrev state_sealed : List ℕ
state_sealed =
    174 ∷ 213 ∷ 133 ∷ 37 ∷ 41 ∷ 11 ∷ 83 ∷ 0 ∷ 190 ∷ 243 ∷ 45 ∷ 212 ∷ 108 ∷ 39 ∷ 250 ∷ 13 ∷ 137 ∷ 74
    ∷ 19 ∷ 246 ∷ 51 ∷ 81 ∷ 48 ∷ 237 ∷ 4 ∷ 158 ∷ 21 ∷ 224 ∷ 173 ∷ 58 ∷ 183 ∷ 88 ∷ 96 ∷ 157 ∷ 34 ∷ 50
    ∷ 84 ∷ 79 ∷ 206 ∷ 221 ∷ 138 ∷ 214 ∷ 132 ∷ []

abbrev pub state_wire : List ℕ
state_wire = sample_nonce ++ 5 ∷ 0 ∷ 0 ∷ 0 ∷ 43 ∷ 0 ∷ state_sealed

state_known :
    (build_auth little_endian 160 5 12 state_payload 19 ≡ some state_frame)
    × (e1 state_frame 27 sample_nonce sample_key ≡ ok state_sealed)
unfolding build_auth crc16 e1 poly1305 clamp absorb freeze xsalsa20_xor stream_loop next_block
    xor_bytes core_salsa20 core_hsalsa20 load_words round rounds store_words mix rotl32 load_le32
    store_le32
state_known = (refl, refl)

pub state-IsMessage : IsMessage little_endian sample_key 5 12 state_payload state_wire
state-IsMessage = record {
  id_bound = omega arith;
  cmd_bound = omega arith;
  short = omega arith;
  frame = state_frame;
  nonce = sample_nonce;
  nonce_len = refl;
  sealed = state_sealed;
  built = state_known.0;
  encrypted = state_known.1;
  wire = refl;
}

-- A Status COMPLETE.
abbrev pub complete_payload : List ℕ
complete_payload = 0 ∷ []

abbrev complete_frame : List ℕ
complete_frame = 5 ∷ 0 ∷ 0 ∷ 0 ∷ 14 ∷ 0 ∷ 0 ∷ 104 ∷ 147 ∷ []

abbrev complete_sealed : List ℕ
complete_sealed =
    21 ∷ 159 ∷ 154 ∷ 56 ∷ 160 ∷ 177 ∷ 225 ∷ 43 ∷ 172 ∷ 24 ∷ 165 ∷ 56 ∷ 90 ∷ 113 ∷ 49 ∷ 81 ∷ 137 ∷ 74
    ∷ 19 ∷ 246 ∷ 49 ∷ 81 ∷ 50 ∷ 132 ∷ 151 ∷ []

abbrev pub complete_wire : List ℕ
complete_wire = sample_nonce ++ 5 ∷ 0 ∷ 0 ∷ 0 ∷ 25 ∷ 0 ∷ complete_sealed

complete_known :
    (build_auth little_endian 160 5 14 complete_payload 1 ≡ some complete_frame)
    × (e1 complete_frame 9 sample_nonce sample_key ≡ ok complete_sealed)
unfolding build_auth crc16 e1 poly1305 clamp absorb freeze xsalsa20_xor stream_loop next_block
    xor_bytes core_salsa20 core_hsalsa20 load_words round rounds store_words mix rotl32 load_le32
    store_le32
complete_known = (refl, refl)

pub complete-IsMessage : IsMessage little_endian sample_key 5 14 complete_payload complete_wire
complete-IsMessage = record {
  id_bound = omega arith;
  cmd_bound = omega arith;
  short = omega arith;
  frame = complete_frame;
  nonce = sample_nonce;
  nonce_len = refl;
  sealed = complete_sealed;
  built = complete_known.0;
  encrypted = complete_known.1;
  wire = refl;
}

-- The challenge comes in three pieces, the first of them before the write is acknowledged; the lock
-- reports its state before it is done.
abbrev pub challenge : Incoming
challenge = record {
  command = 4;
  payload = challenge_payload;
  early = take 20 challenge_wire ∷ [];
  late = take 20 (drop 20 challenge_wire) ∷ drop 40 challenge_wire ∷ [];
}

abbrev pub accepted : Incoming
accepted = record {
  command = 14;
  payload = accepted_payload;
  early = [];
  late = accepted_wire ∷ [];
}

abbrev pub reports : List Incoming
reports =
    record { command = 12; payload = state_payload; early = []; late = state_wire ∷ [] }
    ∷ record { command = 14; payload = 0 ∷ []; early = []; late = complete_wire ∷ [] }
    ∷ []

pub challenge-Challenges : Challenges little_endian sample_key 5 challenge_payload challenge
challenge-Challenges = record {
  filled = (omega arith, (omega arith, (omega arith, tt)));
  message = challenge-IsMessage;
  nonce_len = refl;
}

pub reports-Concludes : Concludes little_endian sample_key 5 accepted reports
reports-Concludes = (
  record { filled = (omega arith, tt); message = accepted-IsMessage; passes = refl },
  (
    record { filled = (omega arith, tt); message = state-IsMessage; passes = refl },
    record { filled = (omega arith, tt); message = complete-IsMessage },
  ),
)
