-- ===== src/Crypto/State.antt =====
-- The static variables of src/app_crypto.c and the functions that only read them.
use zephyr_secure_supervisor.Base.{ℕ, List, Bool, true, false, ◌&&◌, not}
use zephyr_secure_supervisor.Aes.Block.{AesCtx}

abbrev pub iv_len : ℕ
iv_len = 12

-- `enum app_crypto_backend_type`
pub data Backend : Type 0 where
  none aes curve25519 : Backend

pub record Crypto : Type 0 where
  pub key_buf : List ℕ
  pub key_len : ℕ
  pub iv_seed : List ℕ
  pub crypto_ready : Bool
  pub iv_counter : ℕ
  pub prng_state : ℕ
  pub aes_ctx : AesCtx
  pub session_mac_key : List ℕ
  pub session_counter : ℕ
  pub session_salt : ℕ
  pub active_backend : Backend

abbrev pub is_none : Backend → Bool
is_none Backend.none = true
is_none aes = false
is_none curve25519 = false

abbrev pub is_curve25519 : Backend → Bool
is_curve25519 curve25519 = true
is_curve25519 Backend.none = false
is_curve25519 aes = false

unfoldable pub is_enabled : Crypto → Bool
is_enabled s = s.crypto_ready && not (is_none s.active_backend)

unfoldable pub get_backend : Crypto → Backend
get_backend s = s.active_backend

unfoldable pub get_session_counter : Crypto → ℕ
get_session_counter s = s.session_counter

unfoldable pub get_session_salt : Crypto → ℕ
get_session_salt s = s.session_salt
