-- ===== src/Protocol/Commands.antt =====
-- src/nuki_protocol.h: the command identifiers and the other numbers of the protocol.
use nuki_nrf52_bridge.Base.{ℕ}

abbrev pub cmd_request_data : ℕ
cmd_request_data = 0x0001

abbrev pub cmd_public_key : ℕ
cmd_public_key = 0x0003

abbrev pub cmd_challenge : ℕ
cmd_challenge = 0x0004

abbrev pub cmd_auth_authenticator : ℕ
cmd_auth_authenticator = 0x0005

abbrev pub cmd_auth_data : ℕ
cmd_auth_data = 0x0006

abbrev pub cmd_auth_id : ℕ
cmd_auth_id = 0x0007

abbrev pub cmd_keyturner_states : ℕ
cmd_keyturner_states = 0x000c

abbrev pub cmd_lock_action : ℕ
cmd_lock_action = 0x000d

abbrev pub cmd_status : ℕ
cmd_status = 0x000e

abbrev pub cmd_error_report : ℕ
cmd_error_report = 0x0012

abbrev pub cmd_request_calibration : ℕ
cmd_request_calibration = 0x001a

abbrev pub cmd_auth_id_confirmation : ℕ
cmd_auth_id_confirmation = 0x001e

abbrev pub status_complete : ℕ
status_complete = 0

abbrev pub action_unlock : ℕ
action_unlock = 1

abbrev pub action_lock : ℕ
action_lock = 2

abbrev pub action_unlatch : ℕ
action_unlatch = 3

abbrev pub name_len : ℕ
name_len = 32

abbrev pub frame_max_len : ℕ
frame_max_len = 160

abbrev pub wire_max_len : ℕ
wire_max_len = 256
