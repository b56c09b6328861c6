-- ===== src/Persist/Blob.antt =====
-- `struct persist_blob` of src/persist_state_priv.h and its twenty bytes in memory.
use zephyr_secure_supervisor.Base.{ℕ, ◌+◌, ◌*◌, ◌<◌, ◌≡◌, List, ◌++◌, get_or, arith}
use zephyr_secure_supervisor.Crypto.Iv.{le32}

pub record PersistBlob : Type 0 where
  pub magic : ℕ
  pub consecutive_watchdog : ℕ
  pub total_watchdog : ℕ
  pub watchdog_override_ms : ℕ
  pub session_counter : ℕ

-- 'LEDS'
abbrev pub persist_magic : ℕ
persist_magic = 0x4C454453

abbrev pub blob_size : ℕ
blob_size = 20

-- `sizeof(struct persist_blob_encrypted)`: the IV and as many bytes as the blob.
abbrev pub encrypted_size : ℕ
encrypted_size = 32

unfoldable pub blob_bytes : PersistBlob → List ℕ
blob_bytes b =
    le32 b.magic
    ++ le32 b.consecutive_watchdog
    ++ le32 b.total_watchdog
    ++ le32 b.watchdog_override_ms
    ++ le32 b.session_counter

-- The uint32_t at byte `i`.
unfoldable pub word_of : List ℕ → ℕ → ℕ
word_of bytes i =
    get_or bytes i 0
    + 256 * get_or bytes (i + 1) 0
    + 65536 * get_or bytes (i + 2) 0
    + 16777216 * get_or bytes (i + 3) 0

unfoldable pub blob_of_bytes : List ℕ → PersistBlob
blob_of_bytes bytes = record {
  magic = word_of bytes 0;
  consecutive_watchdog = word_of bytes 4;
  total_watchdog = word_of bytes 8;
  watchdog_override_ms = word_of bytes 12;
  session_counter = word_of bytes 16;
}

-- All fields are uint32_t values.
pub record IsBlob (b : PersistBlob) : Type 0 where
  pub magic_fits : b.magic < 4294967296
  pub consecutive_fits : b.consecutive_watchdog < 4294967296
  pub total_fits : b.total_watchdog < 4294967296
  pub override_fits : b.watchdog_override_ms < 4294967296
  pub session_fits : b.session_counter < 4294967296

pub blob_of_bytes-blob_bytes : (b : PersistBlob) → IsBlob b → blob_of_bytes (blob_bytes b) ≡ b
unfolding blob_of_bytes blob_bytes word_of
blob_of_bytes-blob_bytes b h = ground arith
