-- ===== src/Crypto/Buffers/Laws.antt =====
-- Every branch of the buffer functions, and the round trip.
use zephyr_secure_supervisor.Base.{
  ℕ, ◌≤◌, ◌<◌, ◌≡◌, ◌↔◌, ap, ◌∙◌, List, some, length, true, done, arith,
}
use zephyr_secure_supervisor.Aes.Size.{IsKeyed}
use zephyr_secure_supervisor.Crypto.State.{Crypto, is_enabled}
use zephyr_secure_supervisor.Crypto.Iv.{generate_iv, random_words, next_pseudo_entropy}
use zephyr_secure_supervisor.Crypto.Iv.Size.{length-generate_iv}
use zephyr_secure_supervisor.Crypto.Ctr.{ctr_process}
use zephyr_secure_supervisor.Crypto.Ctr.Keystream.{length-ctr_process, ctr_process_cancel}
use zephyr_secure_supervisor.Crypto.Buffers.{Sealed, encrypt_buffer, decrypt_buffer}

-- What the functions need of the state: a key schedule for all rounds, and a full IV seed.
pub record IsReady (s : Crypto) : Type 0 where
  pub enabled : is_enabled s ≡ true
  pub keyed : IsKeyed s.aes_ctx
  pub seeded : length s.iv_seed ≡ 12

-- Encrypting changes only the generator and the IV counter.
pub encrypt_buffer-IsReady :
    (s : Crypto) (input : List ℕ) (capacity : ℕ)
    → IsReady s
    → IsReady (encrypt_buffer s input capacity).2
unfolding encrypt_buffer generate_iv random_words next_pseudo_entropy is_enabled
encrypt_buffer-IsReady s input capacity r = ground arith

pub encrypt_buffer_keeps :
    (s : Crypto) (input : List ℕ) (capacity : ℕ)
    → (encrypt_buffer s input capacity).2.aes_ctx ≡ s.aes_ctx
unfolding encrypt_buffer generate_iv random_words next_pseudo_entropy
encrypt_buffer_keeps s input capacity = ground arith

decrypt_opens :
    (t : Crypto) (cipher iv : List ℕ) (capacity : ℕ) (plain : List ℕ)
    → is_enabled t ≡ true
    → 0 < length cipher
    → length cipher ≤ capacity
    → ctr_process t.aes_ctx cipher iv ≡ plain
    → decrypt_buffer t cipher iv capacity ≡ (done 0, some plain)
unfolding decrypt_buffer
decrypt_opens t cipher iv capacity plain e pos room back = ground arith

-- `app_crypto_encrypt_buffer` succeeds exactly when crypto is enabled and the input is neither
-- empty nor longer than the output.
encrypt_buffer_iff :
    (s : Crypto) (input : List ℕ) (capacity : ℕ)
    → ((encrypt_buffer s input capacity).0 ≡ done 0)
      ↔ ((is_enabled s ≡ true) × (0 < length input) × (length input ≤ capacity))
unfolding encrypt_buffer
encrypt_buffer_iff s input capacity = ground arith

-- What `app_crypto_encrypt_buffer` seals, `app_crypto_decrypt_buffer` opens in any state with the
-- same key, given room: success on both sides, a full IV, and a cipher text as long as the text.
pub decrypt_buffer-encrypt_buffer :
    (s t : Crypto) (input : List ℕ) (capacity capacity' : ℕ)
    → IsReady s
    → is_enabled t ≡ true
    → t.aes_ctx ≡ s.aes_ctx
    → 0 < length input
    → length input ≤ capacity
    → length input ≤ capacity'
    → (sealed : Sealed) × ((encrypt_buffer s input capacity).0 ≡ done 0)
      × ((encrypt_buffer s input capacity).1 ≡ some sealed)
      × (length sealed.iv ≡ 12)
      × (length sealed.cipher ≡ length input)
      × (decrypt_buffer t sealed.cipher sealed.iv capacity' ≡ (done 0, some input))
decrypt_buffer-encrypt_buffer s t input capacity capacity' r e k pos room room' =
    let iv = (generate_iv s).0 in
    let full = length-generate_iv s r.seeded in
    let size = length-ctr_process s.aes_ctx iv r.keyed full input in
    let back = ctr_process_cancel s.aes_ctx iv r.keyed full input in
    (
      record { iv = iv; cipher = ctr_process s.aes_ctx input iv },
      unfold encrypt_buffer in ground (arith, r.enabled),
      unfold encrypt_buffer in ground (arith, r.enabled),
      full,
      size,
      decrypt_opens t (ctr_process s.aes_ctx input iv) iv capacity' input e (omega arith)
          (omega arith) (ap (λ x. ctr_process x (ctr_process s.aes_ctx input iv) iv) k ∙ back),
    )
