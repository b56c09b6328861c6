-- ===== src/Crypto/Buffers/Reuse.antt =====
-- Two boots that start with the same generator state, as the constants of src/app_crypto.c and a
-- static configuration make them.
use zephyr_secure_supervisor.Base.{
  ℕ, ◌≤◌, ◌<◌, ◌≡◌, ap, ap₂, ◌∙◌, sym, List, some, length, true, xor_bytes, xor_bytes_same_mask,
  arith, refl,
}
use zephyr_secure_supervisor.Crypto.State.{Crypto, is_enabled}
use zephyr_secure_supervisor.Crypto.Iv.{generate_iv, random_words, next_pseudo_entropy}
use zephyr_secure_supervisor.Crypto.Iv.Size.{length-generate_iv}
use zephyr_secure_supervisor.Crypto.Ctr.{ctr_process}
use zephyr_secure_supervisor.Crypto.Ctr.Keystream.{
  keystream, length-keystream, ctr_process-keystream,
}
use zephyr_secure_supervisor.Crypto.Buffers.{Sealed, encrypt_buffer}
use zephyr_secure_supervisor.Crypto.Buffers.Laws.{IsReady}

-- The IV depends on the seed, the generator and the counter alone.
generate_iv-same :
    (s t : Crypto)
    → t.iv_seed ≡ s.iv_seed
    → t.prng_state ≡ s.prng_state
    → t.iv_counter ≡ s.iv_counter
    → (generate_iv t).0 ≡ (generate_iv s).0
unfolding generate_iv random_words next_pseudo_entropy
generate_iv-same s t seed prng counter = rw (seed, prng, counter) refl

-- What a ready state seals.
encrypt_buffer-seals :
    (s : Crypto) (input : List ℕ) (capacity : ℕ)
    → is_enabled s ≡ true
    → 0 < length input
    → length input ≤ capacity
    → (encrypt_buffer s input capacity).1
      ≡ some (record {
        iv = (generate_iv s).0;
        cipher = ctr_process s.aes_ctx input (generate_iv s).0;
      })
unfolding encrypt_buffer
encrypt_buffer-seals s input capacity on pos room = ground arith

-- Two states that agree in the key, the IV seed, the generator and the IV counter seal two texts of
-- one length under the same IV, and the exclusive or of the cipher texts is that of the texts.
pub encrypt_buffer-reuse :
    (s t : Crypto) (xs ys : List ℕ) (capacity : ℕ)
    → IsReady s
    → is_enabled t ≡ true
    → t.aes_ctx ≡ s.aes_ctx
    → t.iv_seed ≡ s.iv_seed
    → t.prng_state ≡ s.prng_state
    → t.iv_counter ≡ s.iv_counter
    → 0 < length xs
    → length xs ≤ capacity
    → length xs ≡ length ys
    → (a b : Sealed) × ((encrypt_buffer s xs capacity).1 ≡ some a)
      × ((encrypt_buffer t ys capacity).1 ≡ some b)
      × (a.iv ≡ b.iv)
      × (xor_bytes a.cipher b.cipher ≡ xor_bytes xs ys)
encrypt_buffer-reuse s t xs ys capacity r on key seed prng counter pos room same =
    let iv = (generate_iv s).0 in
    let iv' = (generate_iv t).0 in
    let same_iv : iv' ≡ iv = generate_iv-same s t seed prng counter in
    let full = length-generate_iv s r.seeded in
    let stream = keystream s.aes_ctx iv (length xs) 0 in
    let enough : length xs ≤ length stream =
      omega (arith, length-keystream s.aes_ctx iv r.keyed full (length xs) 0) in
    let first = ctr_process-keystream s.aes_ctx iv r.keyed full xs in
    let second : ctr_process t.aes_ctx ys iv' ≡ xor_bytes ys stream =
      ap₂ (λ c v. ctr_process c ys v) key same_iv
      ∙ ctr_process-keystream s.aes_ctx iv r.keyed full ys
      ∙ ap (λ n. xor_bytes ys (keystream s.aes_ctx iv n 0)) (sym same) in
    (
      record { iv = iv; cipher = ctr_process s.aes_ctx xs iv },
      record { iv = iv'; cipher = ctr_process t.aes_ctx ys iv' },
      encrypt_buffer-seals s xs capacity r.enabled pos room,
      encrypt_buffer-seals t ys capacity on (omega arith) (omega arith),
      sym same_iv,
      ap₂ xor_bytes first second ∙ xor_bytes_same_mask xs ys stream same enough,
    )
