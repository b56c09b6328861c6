-- ===== src/Persist.antt =====
-- src/persist_state.c, built with CONFIG_APP_USE_AES_ENCRYPTION.
pub mod Nvs
pub mod Blob
pub mod Store
pub mod Mount
pub mod Api
pub mod Boot
pub mod Working
pub mod Sync
pub mod Storm
pub mod Keys
pub mod Memory
pub mod Tests
