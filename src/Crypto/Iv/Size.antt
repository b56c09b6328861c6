-- ===== src/Crypto/Iv/Size.antt =====
-- `generate_iv` fills its twelve bytes and leaves the keys alone.
use zephyr_secure_supervisor.Base.{
  ℕ, zero, suc, ◌*◌, ◌≡◌, refl, ◌∙◌, List, length, length-set, length-xor_bytes, arith,
}
use zephyr_secure_supervisor.Crypto.State.{Crypto}
use zephyr_secure_supervisor.Crypto.Iv.{next_pseudo_entropy, random_words, mix_counter, generate_iv}

length-mix_counter : (ctr left i : ℕ) (iv : List ℕ) → length (mix_counter ctr left i iv) ≡ length iv
unfolding mix_counter
length-mix_counter ctr zero i iv = refl
length-mix_counter ctr (suc left) i iv = length-mix_counter ctr left (suc i) _ ∙ length-set iv _ _

length-random_words : (n : ℕ) (s : Crypto) → length (random_words n s).0 ≡ 4 * n
unfolding random_words
length-random_words zero s = refl
length-random_words (suc n) s = omega (arith, length-random_words n (next_pseudo_entropy s).1)

pub length-generate_iv : (s : Crypto) → length s.iv_seed ≡ 12 → length (generate_iv s).0 ≡ 12
unfolding generate_iv random_words next_pseudo_entropy
length-generate_iv s h = length-mix_counter _ 4 0 _ ∙ length-xor_bytes _ s.iv_seed (omega arith)
