-- ===== src/Crypto/Session.antt =====
-- The session material and the sample tag of src/app_crypto.c.
use zephyr_secure_supervisor.Base.{
  ℕ, zero, suc, ◌+◌, ◌*◌, ◌%◌, List, [], ◌∷◌, not, ◌||◌, bit_and, bit_xor, ◌>>◌, u8, length, get_or,
  ◌==◌, if◌then◌else◌,
}
use zephyr_secure_supervisor.Crypto.State.{Crypto, is_curve25519}
use zephyr_secure_supervisor.Crypto.Iv.{next_pseudo_entropy, le32}

-- `cycles` is the value of `k_cycle_get_32`.
unfoldable pub fallback_session_salt : ℕ → Crypto → ℕ × Crypto
fallback_session_salt cycles s =
    let (seed, s') = next_pseudo_entropy s in (if seed == 0 then cycles else seed, s')

-- Byte `k % 4` of a uint32_t.
abbrev pub byte_of : ℕ → ℕ → ℕ
byte_of w k = u8 (bit_and (w >> ((k % 4) * 8)) 0xFF)

-- `left` bytes from index `i` on: the shared secret from `shift` on, repeated, under the counter's
-- bytes from `c` on and the salt's from `d` on.
unfoldable pub mix_shared : List ℕ → ℕ → ℕ → ℕ → ℕ → ℕ → ℕ → ℕ → List ℕ
mix_shared shared counter salt shift c d zero i = []
mix_shared shared counter salt shift c d (suc left) i =
    bit_xor (bit_xor (get_or shared ((i + shift) % length shared) 0) (byte_of counter (i + c)))
      (byte_of salt (i + d))
    ∷ mix_shared shared counter salt shift c d left (suc i)

-- `counter` is the value of `persist_state_next_session_counter`.
unfoldable pub derive_session_material : ℕ → ℕ → List ℕ → Crypto → Crypto
derive_session_material counter cycles shared s =
    let (salt, s') = fallback_session_salt cycles s in
    record s' {
      session_counter = counter;
      session_salt = salt;
      key_buf = mix_shared shared counter salt 0 0 1 32 0;
      session_mac_key = mix_shared shared counter salt 8 2 3 16 0;
    }

-- The CRC of Zephyr: of a buffer, and continued from an earlier value.
module _ (crc32_ieee : List ℕ → ℕ) (crc32_ieee_update : ℕ → List ℕ → ℕ) where
  unfoldable pub compute_sample_mac : Crypto → List ℕ → List ℕ → ℕ
  compute_sample_mac s iv cipher =
      if not (is_curve25519 s.active_backend) || not s.crypto_ready
      then 0
      else (let keyed = crc32_ieee s.session_mac_key in
          let over_iv = crc32_ieee_update keyed iv in
          let over_cipher = crc32_ieee_update over_iv cipher in
          bit_xor (crc32_ieee_update over_cipher (le32 s.session_counter)) s.session_salt)
