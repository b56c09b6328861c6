-- ===== src/Crypto/Buffers.antt =====
-- `app_crypto_encrypt_buffer` and `app_crypto_decrypt_buffer` of src/app_crypto.c.
pub mod Laws
pub mod Reuse
use zephyr_secure_supervisor.Base.{
  ℕ, List, Option, none, some, not, length, ltb, ◌==◌, if◌then◌else◌, Rc, done, fail, eacces,
  einval, enospc,
}
use zephyr_secure_supervisor.Crypto.State.{Crypto, is_enabled}
use zephyr_secure_supervisor.Crypto.Iv.{generate_iv}
use zephyr_secure_supervisor.Crypto.Ctr.{ctr_process}

-- What an encryption stores through its out pointers; `cipher_len` is the length of `cipher`.
pub record Sealed : Type 0 where
  pub iv : List ℕ
  pub cipher : List ℕ

abbrev pub sealed_under : List ℕ → Crypto → List ℕ × Crypto → Rc × Option Sealed × Crypto
sealed_under input s (iv, s') =
    (done 0, some (record { iv = iv; cipher = ctr_process s.aes_ctx input iv }), s')

-- Nothing is stored on an error. `input_len` is the length of `input`.
unfoldable pub encrypt_buffer : Crypto → List ℕ → ℕ → Rc × Option Sealed × Crypto
encrypt_buffer s input cipher_capacity =
    if not (is_enabled s)
    then (fail eacces, none, s)
    else (if length input == 0
        then (fail einval, none, s)
        else (if ltb cipher_capacity (length input)
            then (fail enospc, none, s)
            else sealed_under input s (generate_iv s)))

unfoldable pub decrypt_buffer : Crypto → List ℕ → List ℕ → ℕ → Rc × Option (List ℕ)
decrypt_buffer s cipher iv plain_capacity =
    if not (is_enabled s)
    then (fail eacces, none)
    else (if length cipher == 0
        then (fail einval, none)
        else (if ltb plain_capacity (length cipher)
            then (fail enospc, none)
            else (done 0, some (ctr_process s.aes_ctx cipher iv))))
