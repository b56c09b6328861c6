-- ===== src/Aes/Block.antt =====
-- The block cipher of src/simple_aes.c. A state is the list of its sixteen bytes.
use zephyr_secure_supervisor.Base.{
  ℕ, zero, suc, ◌*◌, ◌-◌, List, [], ◌∷◌, map, bit_xor, get_or, take, drop, xor_bytes,
}
use zephyr_secure_supervisor.Aes.Tables.{sub_byte}
use zephyr_secure_supervisor.Aes.Field.{gf_mul}

abbrev pub block_bytes : ℕ
block_bytes = 16

-- `struct simple_aes_ctx`
pub record AesCtx : Type 0 where
  pub round_keys : List ℕ
  pub rounds : ℕ

unfoldable pub sub_bytes : List ℕ → List ℕ
sub_bytes state = map sub_byte state

unfoldable pub shift_rows : List ℕ → List ℕ
shift_rows tmp =
    let at = λ (i : ℕ). get_or tmp i 0 in
    at 0
    ∷ at 5
    ∷ at 10
    ∷ at 15
    ∷ at 4
    ∷ at 9
    ∷ at 14
    ∷ at 3
    ∷ at 8
    ∷ at 13
    ∷ at 2
    ∷ at 7
    ∷ at 12
    ∷ at 1
    ∷ at 6
    ∷ at 11
    ∷ []

-- The body of the loop over the four columns, in place at the head of the list.
unfoldable pub mix_columns : List ℕ → List ℕ
mix_columns (a0 ∷ a1 ∷ a2 ∷ a3 ∷ rest) =
    bit_xor (bit_xor (bit_xor (gf_mul a0 2) (gf_mul a1 3)) a2) a3
    ∷ bit_xor (bit_xor (bit_xor a0 (gf_mul a1 2)) (gf_mul a2 3)) a3
    ∷ bit_xor (bit_xor (bit_xor a0 a1) (gf_mul a2 2)) (gf_mul a3 3)
    ∷ bit_xor (bit_xor (bit_xor (gf_mul a0 3) a1) a2) (gf_mul a3 2)
    ∷ mix_columns rest
mix_columns rest = rest

unfoldable pub add_round_key : List ℕ → List ℕ → List ℕ
add_round_key state round_key = xor_bytes state round_key

-- `&ctx->round_keys[16 * round]`
abbrev pub round_key : AesCtx → ℕ → List ℕ
round_key ctx round = take block_bytes (drop (block_bytes * round) ctx.round_keys)

-- The rounds from `round` on, `left` of them to go.
unfoldable pub encrypt_rounds : AesCtx → ℕ → ℕ → List ℕ → List ℕ
encrypt_rounds ctx zero round state = state
encrypt_rounds ctx (suc left) round state =
    encrypt_rounds ctx left (suc round)
      (add_round_key (mix_columns (shift_rows (sub_bytes state))) (round_key ctx round))

unfoldable pub encrypt_block : AesCtx → List ℕ → List ℕ
encrypt_block ctx input =
    let state = add_round_key (take block_bytes input) (round_key ctx 0) in
    let last = encrypt_rounds ctx (ctx.rounds - 1) 1 state in
    add_round_key (shift_rows (sub_bytes last)) (round_key ctx ctx.rounds)
