-- ===== src/Aes/Field.antt =====
-- Multiplication in GF(2^8) as src/simple_aes.c does it, for MixColumns.
use zephyr_secure_supervisor.Base.{
  ℕ, zero, suc, ◌*◌, true, false, u8, ◌<<◌, ◌>>◌, bit_and, bit_xor, ◌==◌, if◌then◌else◌,
}

unfoldable pub xtime : ℕ → ℕ
xtime x = u8 (bit_xor (x << 1) ((x >> 7) * 0x1B))

-- `while (b != 0)`, with fuel.
unfoldable pub gf_mul_loop : ℕ → ℕ → ℕ → ℕ → ℕ
gf_mul_loop zero a b res = res
gf_mul_loop (suc fuel) a b res = elim (b == 0) [
  | true ↦ res
  | false ↦ gf_mul_loop fuel (xtime a) (b >> 1) (if bit_and b 1 == 0 then res else bit_xor res a)
]

-- `b` halves in each round, so `b` rounds are enough.
unfoldable pub gf_mul : ℕ → ℕ → ℕ
gf_mul a b = gf_mul_loop b a b 0
