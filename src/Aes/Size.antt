-- ===== src/Aes/Size.antt =====
-- A block goes through the cipher with its length kept.
use zephyr_secure_supervisor.Base.{
  ℕ, ◌+◌, ◌*◌, ◌≤◌, ◌≡◌, refl, ◌∙◌, List, length, length-take, length-drop, length-xor_bytes, arith,
}
use zephyr_secure_supervisor.Aes.Block.{AesCtx, shift_rows, add_round_key, round_key, encrypt_block}

-- The context holds a key for each round.
abbrev pub IsKeyed : AesCtx → Type 0
IsKeyed ctx = 16 * (ctx.rounds + 1) ≤ length ctx.round_keys

pub length-round_key :
    (ctx : AesCtx) (round : ℕ)
    → IsKeyed ctx
    → round ≤ ctx.rounds
    → length (round_key ctx round) ≡ 16
length-round_key ctx round keyed h =
    length-take 16 _ (omega (arith, length-drop (16 * round) ctx.round_keys))

pub length-add_round_key :
    (state key : List ℕ)
    → length state ≡ 16
    → length key ≡ 16
    → length (add_round_key state key) ≡ 16
unfolding add_round_key
length-add_round_key state key p q = length-xor_bytes state key (omega arith) ∙ p

-- Whatever goes in, sixteen bytes come out.
pub length-encrypt_block :
    (ctx : AesCtx) (input : List ℕ) → IsKeyed ctx → length (encrypt_block ctx input) ≡ 16
unfolding encrypt_block shift_rows
length-encrypt_block ctx input keyed =
    length-add_round_key _ (round_key ctx ctx.rounds) refl
      (length-round_key ctx ctx.rounds keyed (omega arith))
