-- ===== src/Crypto/Ctr/Keystream.antt =====
-- Counter mode is the exclusive or with a key stream, and so undoes itself.
use zephyr_secure_supervisor.Base.{
  ℕ, zero, suc, ◌+◌, ◌*◌, ◌≤◌, ◌≡◌, refl, ap, ◌∙◌, sym, List, [], ◌∷◌, ◌++◌, length, drop,
  replicate, length-append, length-drop, take_all, xor_bytes, xor_bytes-append, xor_bytes_cancel,
  length-xor_bytes, arith,
}
use zephyr_secure_supervisor.Aes.Block.{AesCtx, encrypt_block}
use zephyr_secure_supervisor.Aes.Size.{IsKeyed, length-encrypt_block}
use zephyr_secure_supervisor.Crypto.Ctr.{ctr_loop, ctr_process}
use zephyr_secure_supervisor.Crypto.Ctr.Counter.{counter_block, increment_counter_block}

-- `n` blocks of key stream from the block number `k` on.
abbrev pub keystream : AesCtx → List ℕ → ℕ → ℕ → List ℕ
keystream ctx iv zero k = []
keystream ctx iv (suc n) k = encrypt_block ctx (counter_block iv k) ++ keystream ctx iv n (k + 1)

module _ (ctx : AesCtx) (iv : List ℕ) (keyed : IsKeyed ctx) (size : length iv ≡ 12) where
  pub length-keystream : (n k : ℕ) → length (keystream ctx iv n k) ≡ 16 * n
  length-keystream zero k = refl
  length-keystream (suc n) k = omega (
    arith,
    length-append {0} (encrypt_block ctx (counter_block iv k)) (keystream ctx iv n (k + 1)),
    length-encrypt_block ctx (counter_block iv k) keyed,
    length-keystream n (k + 1),
  )

  ctr_loop-keystream :
      (fuel : ℕ) (input : List ℕ) (k : ℕ)
      → length input ≤ fuel
      → ctr_loop ctx fuel input (counter_block iv k) ≡ xor_bytes input (keystream ctx iv fuel k)
  unfolding ctr_loop
  ctr_loop-keystream zero [] k h = unfold xor_bytes in refl
  ctr_loop-keystream zero (x ∷ input) k h = absurd (omega arith)
  ctr_loop-keystream (suc fuel) [] k h = unfold xor_bytes in refl
  ctr_loop-keystream (suc fuel) (x ∷ input) k h =
      let block = encrypt_block ctx (counter_block iv k) in
      let rest = drop 16 (x ∷ input) in
      let sixteen = length-encrypt_block ctx (counter_block iv k) keyed in
      let ih = ctr_loop-keystream fuel rest (k + 1) (omega (arith, length-drop 16 (x ∷ input))) in
      let split = xor_bytes-append (x ∷ input) block (keystream ctx iv fuel (k + 1)) in
      ap (λ r. xor_bytes (x ∷ input) block ++ r)
        (ap (ctr_loop ctx fuel rest) (increment_counter_block iv k size) ∙ ih)
      ∙ ap
          (λ m.
            xor_bytes (x ∷ input) block
            ++ xor_bytes (drop m (x ∷ input)) (keystream ctx iv fuel (k + 1)))
          (sym sixteen)
      ∙ sym split

  -- Under a key schedule for all rounds and a full IV, `ctr_process` is the exclusive or of the
  -- input with the key stream of the block numbers 0, 1, 2 and so on.
  pub ctr_process-keystream :
      (input : List ℕ)
      → ctr_process ctx input iv ≡ xor_bytes input (keystream ctx iv (length input) 0)
  unfolding ctr_process
  ctr_process-keystream input =
      ap (λ v. ctr_loop ctx (length input) input (v ++ replicate 4 0))
        (take_all iv 12 (omega arith))
      ∙ ctr_loop-keystream (length input) input 0 (omega arith)

  enough_stream : (input : List ℕ) → length input ≤ length (keystream ctx iv (length input) 0)
  enough_stream input = omega (arith, length-keystream (length input) 0)

  pub length-ctr_process : (input : List ℕ) → length (ctr_process ctx input iv) ≡ length input
  length-ctr_process input =
      ap length (ctr_process-keystream input)
      ∙ length-xor_bytes input (keystream ctx iv (length input) 0) (enough_stream input)

  pub ctr_process_cancel : (input : List ℕ) → ctr_process ctx (ctr_process ctx input iv) iv ≡ input
  ctr_process_cancel input =
      let c = ctr_process ctx input iv in
      let stream = keystream ctx iv (length input) 0 in
      ctr_process-keystream c
      ∙ ap (λ n. xor_bytes c (keystream ctx iv n 0)) (length-ctr_process input)
      ∙ ap (λ r. xor_bytes r stream) (ctr_process-keystream input)
      ∙ xor_bytes_cancel input stream (enough_stream input)
