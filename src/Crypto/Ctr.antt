-- ===== src/Crypto/Ctr.antt =====
-- The counter mode of src/app_crypto.c.
pub mod Counter
pub mod Keystream
use zephyr_secure_supervisor.Base.{
  ℕ, zero, suc, ◌+◌, ◌-◌, List, [], ◌∷◌, ◌++◌, u8, length, get_or, set, take, drop, replicate, ◌==◌,
  if◌then◌else◌, xor_bytes,
}
use zephyr_secure_supervisor.Aes.Block.{AesCtx, encrypt_block}
use zephyr_secure_supervisor.Crypto.State.{iv_len}

-- The loop of `increment_counter` at byte `i`, with `left` bytes to go.
unfoldable pub increment_loop : ℕ → ℕ → List ℕ → List ℕ
increment_loop zero i counter = counter
increment_loop (suc left) i counter =
    let byte = u8 (get_or counter i 0 + 1) in
    let counter' = set counter i byte in
    let carry = increment_loop left (i - 1) counter' in if byte == 0 then carry else counter'

-- Bytes 15 down to 12.
unfoldable pub increment_counter : List ℕ → List ℕ
increment_counter counter = increment_loop 4 15 counter

-- `while (len > 0)`, with fuel. The bytes of a block stop with the input.
unfoldable pub ctr_loop : AesCtx → ℕ → List ℕ → List ℕ → List ℕ
ctr_loop ctx zero input counter = []
ctr_loop ctx (suc fuel) [] counter = []
ctr_loop ctx (suc fuel) (x ∷ input) counter =
    xor_bytes (x ∷ input) (encrypt_block ctx counter)
    ++ ctr_loop ctx fuel (drop 16 (x ∷ input)) (increment_counter counter)

-- Each round takes at least one byte, so as many rounds as bytes are enough.
unfoldable pub ctr_process : AesCtx → List ℕ → List ℕ → List ℕ
ctr_process ctx input iv = ctr_loop ctx (length input) input (take iv_len iv ++ replicate 4 0)
