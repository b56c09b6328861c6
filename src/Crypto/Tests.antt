-- ===== src/Crypto/Tests.antt =====
-- The theorems of src/app_crypto.c at concrete inputs.
use zephyr_secure_supervisor.Base.{
  ℕ, ◌*◌, ◌≡◌, ◌≤◌, ◌<◌, refl, true, false, List, [], ◌∷◌, some, replicate, length, xor_bytes, Rc,
  done, arith,
}
use zephyr_secure_supervisor.Crypto.State.{Crypto, Backend, curve25519, is_enabled}
use zephyr_secure_supervisor.Crypto.Hex.{
  hex_value, safe_strlen, hex_loop, parse_hex_string, bytes_to_hex,
}
use zephyr_secure_supervisor.Crypto.Hex.Laws.{parse_hex_string-bytes_to_hex}
use zephyr_secure_supervisor.Crypto.Hex.Sound.{Encodes, parse_hex_string-Encodes}
use zephyr_secure_supervisor.Crypto.Ctr.{ctr_process, ctr_loop}
use zephyr_secure_supervisor.Crypto.Ctr.Keystream.{keystream, ctr_process-keystream}
use zephyr_secure_supervisor.Crypto.Buffers.{Sealed, encrypt_buffer, decrypt_buffer}
use zephyr_secure_supervisor.Crypto.Buffers.Laws.{decrypt_buffer-encrypt_buffer}
use zephyr_secure_supervisor.Crypto.Buffers.Reuse.{encrypt_buffer-reuse}
use zephyr_secure_supervisor.Crypto.Init.{
  Config, app_crypto_init, init_backend, init_curve, start_session, agree, with_peer, install_key,
}
use zephyr_secure_supervisor.Aes.Block.{encrypt_block, encrypt_rounds, add_round_key, shift_rows}
use zephyr_secure_supervisor.Aes.Key.{setkey_enc}
use zephyr_secure_supervisor.Curve.{clamp_scalar}
use zephyr_secure_supervisor.Crypto.Iv.{generate_iv, random_words, next_pseudo_entropy, mix_counter}
use zephyr_secure_supervisor.Crypto.Session.{derive_session_material, fallback_session_salt}
use zephyr_secure_supervisor.Persist.Store.{
  State, persist_load_blob, persist_load_plain, persist_read_encrypted, persist_commit_locked,
  persist_store_blob, store_sealed, store_record,
}
use zephyr_secure_supervisor.Persist.Mount.{
  fresh_blob, init_fs_if_needed, configure_fs, mount_fs, load_or_reset, adopt_blob, retry,
}
use zephyr_secure_supervisor.Persist.Blob.{blob_bytes}
use zephyr_secure_supervisor.Persist.Boot.{power_up}
use zephyr_secure_supervisor.Persist.Memory.{memory, memory-IsNvs, Items}
use zephyr_secure_supervisor.Persist.Api.{next_session_counter, commit_blob}
use zephyr_secure_supervisor.Persist.Keys.{
  get_secret, get_peer, keep_secret, curve_secret_generate, parse_hex_secret, secret_loop,
  hex_nibble,
}
use zephyr_secure_supervisor.Crypto.Init.Curve.{app_crypto_init_forgets}
use zephyr_secure_supervisor.Persist.Tests.{
  ready, ready-IsReady, two_resets, committed, committed-HoldsSealed,
}

abbrev two_bytes : List ℕ
two_bytes = 0x4c ∷ 0xe5 ∷ []

abbrev mixed_case : List ℕ
mixed_case = b'4' ∷ b'c' ∷ b'E' ∷ b'5' ∷ []

parse_mixed_case : parse_hex_string mixed_case 12 ≡ (done 2, two_bytes)
unfolding parse_hex_string hex_loop hex_value safe_strlen
parse_mixed_case = refl

parse_hex_string-bytes_to_hex_example :
    ((bytes_to_hex two_bytes 5).0 ≡ done 0)
    × (parse_hex_string (bytes_to_hex two_bytes 5).1 12 ≡ (done 2, two_bytes))
parse_hex_string-bytes_to_hex_example =
    parse_hex_string-bytes_to_hex two_bytes 5 12 (omega arith) (omega arith) (omega arith)
      (omega arith) (omega arith)

parse_hex_string-Encodes_example :
    (◌≡◌ {A = ℕ} 2 2)
    × (0 < 2)
    × (2 ≤ 12)
    × (2 ≤ 32)
    × (safe_strlen mixed_case 65 ≡ 2 * 2)
    × Encodes mixed_case two_bytes
parse_hex_string-Encodes_example =
    parse_hex_string-Encodes mixed_case 12 2 two_bytes parse_mixed_case

ctr_process-keystream_example :
    ctr_process ready.aes_ctx two_bytes ready.iv_seed
    ≡ xor_bytes two_bytes (keystream ready.aes_ctx ready.iv_seed 2 0)
ctr_process-keystream_example =
    ctr_process-keystream ready.aes_ctx ready.iv_seed (omega arith) (omega arith) two_bytes

decrypt_buffer-encrypt_buffer_example :
    (sealed : Sealed) × ((encrypt_buffer ready two_bytes 2).0 ≡ done 0)
    × ((encrypt_buffer ready two_bytes 2).1 ≡ some sealed)
    × (length sealed.iv ≡ 12)
    × (length sealed.cipher ≡ 2)
    × (decrypt_buffer ready sealed.cipher sealed.iv 20 ≡ (done 0, some two_bytes))
decrypt_buffer-encrypt_buffer_example =
    decrypt_buffer-encrypt_buffer ready ready two_bytes 2 20 ready-IsReady ready-IsReady.enabled
      refl (omega arith) (omega arith) (omega arith)

-- The next boot, with another session.
abbrev next_boot : Crypto
next_boot = record ready { session_salt = 77 }

next_boot_enabled : is_enabled next_boot ≡ true
unfolding is_enabled
next_boot_enabled = refl

abbrev other_bytes : List ℕ
other_bytes = 1 ∷ 2 ∷ []

encrypt_buffer-reuse_example :
    (a b : Sealed) × ((encrypt_buffer ready two_bytes 2).1 ≡ some a)
    × ((encrypt_buffer next_boot other_bytes 2).1 ≡ some b)
    × (a.iv ≡ b.iv)
    × (xor_bytes a.cipher b.cipher ≡ xor_bytes two_bytes other_bytes)
encrypt_buffer-reuse_example =
    encrypt_buffer-reuse ready next_boot two_bytes other_bytes 2 ready-IsReady next_boot_enabled
      refl refl refl refl (omega arith) (omega arith) refl

-- A boot of the Curve25519 build, over the flash that a ready build left.
abbrev pub curve_config : Config
curve_config = record {
  backend = curve25519;
  static_iv_hex = replicate 24 b'0';
  static_key_hex = [];
  static_secret_hex = replicate 64 b'7';
  static_peer_hex = replicate 64 b'9';
  dev_id = [];
  cycles = 1;
}

abbrev pub scalarmult : List ℕ → List ℕ → Rc × List ℕ
scalarmult secret peer = (done 0, peer)

abbrev pub unready : Crypto
unready = record ready { crypto_ready = false; active_backend = Backend.none }

abbrev curve_boot : Rc × State Items
curve_boot = app_crypto_init memory scalarmult curve_config (power_up unready committed.flash)

pub curve_boot_done : curve_boot.0 ≡ done 0
unfolding app_crypto_init init_backend init_curve start_session agree with_peer install_key
    get_secret get_peer keep_secret init_fs_if_needed configure_fs mount_fs load_or_reset adopt_blob
    retry persist_load_blob persist_load_plain persist_read_encrypted persist_commit_locked
    persist_store_blob store_sealed store_record encrypt_buffer is_enabled generate_iv random_words
    next_pseudo_entropy mix_counter ctr_process ctr_loop encrypt_block encrypt_rounds add_round_key
    xor_bytes parse_hex_string hex_loop hex_value safe_strlen next_session_counter commit_blob
    setkey_enc curve_secret_generate parse_hex_secret secret_loop hex_nibble clamp_scalar
    derive_session_material fallback_session_salt blob_bytes shift_rows
curve_boot_done = refl

app_crypto_init_forgets_example :
    (curve_boot.1.blob ≡ record fresh_blob { session_counter = 1 }) × (curve_boot.1.loaded ≡ true)
app_crypto_init_forgets_example =
    app_crypto_init_forgets memory scalarmult curve_config memory-IsNvs refl unready committed.flash
      ready.aes_ctx two_resets refl committed-HoldsSealed curve_boot_done
