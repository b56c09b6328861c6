-- ===== src/Crypto/Ctr/Counter.antt =====
-- The counter block: `increment_counter` adds one to its last four bytes, read big endian.
use zephyr_secure_supervisor.Base.{
  ℕ, zero, suc, ◌+◌, ◌/◌, ◌%◌, ◌≡◌, refl, ap, List, [], ◌∷◌, ◌++◌, length, get_or, arith,
}
use zephyr_secure_supervisor.Crypto.Ctr.{increment_loop, increment_counter}

-- The block number `k` in four bytes, big endian; it wraps at 2^32.
abbrev pub be32 : ℕ → List ℕ
be32 k = k / 16777216 % 256 ∷ k / 65536 % 256 ∷ k / 256 % 256 ∷ k % 256 ∷ []

-- The block that is enciphered for the block number `k`.
abbrev pub counter_block : List ℕ → ℕ → List ℕ
counter_block iv k = iv ++ be32 k

-- The first `n` values of `f`.
abbrev tabulate : ℕ → (ℕ → ℕ) → List ℕ
tabulate zero f = []
tabulate (suc n) f = f 0 ∷ tabulate n (λ i. f (suc i))

tabulate-get_or : (n : ℕ) (xs : List ℕ) → length xs ≡ n → xs ≡ tabulate n (λ i. get_or xs i 0)
tabulate-get_or zero [] h = refl
tabulate-get_or zero (x ∷ xs) h = absurd (omega arith)
tabulate-get_or (suc n) [] h = absurd (omega arith)
tabulate-get_or (suc n) (x ∷ xs) h = ap (λ r. x ∷ r) (tabulate-get_or n xs (omega arith))

increment_tabulated :
    (f : ℕ → ℕ) (k : ℕ)
    → increment_counter (tabulate 12 f ++ be32 k) ≡ tabulate 12 f ++ be32 (k + 1)
unfolding increment_counter increment_loop
increment_tabulated f k = ground arith

-- One increment goes to the next block number.
pub increment_counter_block :
    (iv : List ℕ) (k : ℕ)
    → length iv ≡ 12
    → increment_counter (counter_block iv k) ≡ counter_block iv (k + 1)
increment_counter_block iv k h =
    let e = tabulate-get_or 12 iv h in rw e (increment_tabulated (λ i. get_or iv i 0) k)
