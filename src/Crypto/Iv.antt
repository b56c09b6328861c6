-- ===== src/Crypto/Iv.antt =====
-- The pseudo-random generator and the initial values of src/app_crypto.c.
pub mod Size
use zephyr_secure_supervisor.Base.{
  ℕ, zero, suc, ◌+◌, ◌*◌, ◌-◌, List, [], ◌∷◌, ◌++◌, bit_and, bit_xor, ◌<<◌, ◌>>◌, u8, u32, get_or,
  set, xor_bytes,
}
use zephyr_secure_supervisor.Crypto.State.{Crypto, iv_len}

-- A uint32_t in memory: little endian.
abbrev pub le32 : ℕ → List ℕ
le32 w = u8 w ∷ u8 (w >> 8) ∷ u8 (w >> 16) ∷ u8 (w >> 24) ∷ []

unfoldable pub lcg_next : ℕ → ℕ
lcg_next current = u32 (current * 1664525 + 1013904223)

unfoldable pub xorshift : ℕ → ℕ
xorshift x =
    let x1 = bit_xor x (u32 (x << 13)) in
    let x2 = bit_xor x1 (x1 >> 17) in bit_xor x2 (u32 (x2 << 5))

-- `next_pseudo_entropy`: the compare-and-swap loop takes one step of the state atomically.
unfoldable pub next_pseudo_entropy : Crypto → ℕ × Crypto
next_pseudo_entropy s =
    let next = lcg_next s.prng_state in (xorshift next, record s { prng_state = next })

-- The first loop of `generate_iv`, with `left` words to go: the chunk is always four bytes.
unfoldable pub random_words : ℕ → Crypto → List ℕ × Crypto
random_words zero s = ([], s)
random_words (suc left) s =
    let (rnd, s1) = next_pseudo_entropy s in
    let (more, s2) = random_words left s1 in (le32 rnd ++ more, s2)

-- The last loop of `generate_iv`, at byte `i` of the counter with `left` bytes to go.
unfoldable pub mix_counter : ℕ → ℕ → ℕ → List ℕ → List ℕ
mix_counter ctr zero i iv = iv
mix_counter ctr (suc left) i iv =
    let idx = iv_len - 1 - i in
    let byte = u8 (bit_and (ctr >> (i * 8)) 0xFF) in
    mix_counter ctr left (suc i) (set iv idx (bit_xor (get_or iv idx 0) byte))

unfoldable pub generate_iv : Crypto → List ℕ × Crypto
generate_iv s =
    let (random, s1) = random_words 3 s in
    let seeded = xor_bytes random s1.iv_seed in
    (mix_counter s1.iv_counter 4 0 seeded, record s1 { iv_counter = u32 (s1.iv_counter + 1) })
