-- ===== src/Crypto.antt =====
-- src/app_crypto.c.
pub mod Hex
pub mod State
pub mod Iv
pub mod Ctr
pub mod Buffers
pub mod Session
pub mod Init
pub mod Tests
