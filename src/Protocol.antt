-- ===== src/Protocol.antt =====
-- src/nuki_protocol.c, src/nuki_protocol.h: the frames of the Nuki BLE protocol and their contents.
pub mod Commands
pub mod Frame
pub mod State
pub mod Names
mod Tests
