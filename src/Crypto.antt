-- ===== src/Crypto.antt =====
-- src/nuki_crypto.c: the primitives of the Nuki protocol that the firmware implements itself.
pub mod Words
pub mod Salsa
pub mod Stream
pub mod Poly1305
pub mod Secretbox
pub mod Crc
pub mod Psa
mod Vectors
