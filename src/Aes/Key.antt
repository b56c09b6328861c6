-- ===== src/Aes/Key.antt =====
-- The key expansion of src/simple_aes.c.
use zephyr_secure_supervisor.Base.{
  ℕ, zero, suc, ◌+◌, ◌*◌, ◌-◌, ◌/◌, ◌%◌, List, ◌++◌, bit_xor, ◌&&◌, not, get_or, set, take, drop,
  u8, ltb, ◌==◌, if◌then◌else◌, Rc, done, fail, other,
}
use zephyr_secure_supervisor.Aes.Tables.{sub_byte, rcon}
use zephyr_secure_supervisor.Aes.Block.{AesCtx}

-- `uint8_t temp[4]`
pub record Word : Type 0 where
  pub w0 : ℕ
  pub w1 : ℕ
  pub w2 : ℕ
  pub w3 : ℕ

unfoldable pub sub_word : Word → Word
sub_word w = record {
  w0 = sub_byte w.w0;
  w1 = sub_byte w.w1;
  w2 = sub_byte w.w2;
  w3 = sub_byte w.w3;
}

unfoldable pub rot_word : Word → Word
rot_word w = record { w0 = w.w1; w1 = w.w2; w2 = w.w3; w3 = w.w0 }

-- Word `i` of the round keys.
abbrev pub word_at : List ℕ → ℕ → Word
word_at keys i = record {
  w0 = get_or keys (4 * i) 0;
  w1 = get_or keys (4 * i + 1) 0;
  w2 = get_or keys (4 * i + 2) 0;
  w3 = get_or keys (4 * i + 3) 0;
}

abbrev pub set_word : List ℕ → ℕ → Word → List ℕ
set_word keys i w =
    set (set (set (set keys (4 * i) w.w0) (4 * i + 1) w.w1) (4 * i + 2) w.w2) (4 * i + 3) w.w3

abbrev pub xor_word : Word → Word → Word
xor_word v w = record {
  w0 = bit_xor v.w0 w.w0;
  w1 = bit_xor v.w1 w.w1;
  w2 = bit_xor v.w2 w.w2;
  w3 = bit_xor v.w3 w.w3;
}

-- What the loop body does to `temp` before the last exclusive or.
unfoldable pub mix_temp : ℕ → ℕ → Word → Word
mix_temp nk i temp =
    if i % nk == 0
    then (let t = sub_word (rot_word temp) in
        record t { w0 = bit_xor t.w0 (get_or rcon (i / nk) 0) })
    else (if ltb 6 nk && i % nk == 4 then sub_word temp else temp)

-- The loop at word `i`, with `left` words to go.
unfoldable pub expand_loop : ℕ → ℕ → ℕ → List ℕ → List ℕ
expand_loop nk zero i keys = keys
expand_loop nk (suc left) i keys =
    let temp = mix_temp nk i (word_at keys (i - 1)) in
    expand_loop nk left (suc i) (set_word keys i (xor_word (word_at keys (i - nk)) temp))

unfoldable pub setkey_enc : AesCtx → List ℕ → ℕ → Rc × AesCtx
setkey_enc ctx key key_len =
    if not (key_len == 16) && (not (key_len == 24) && not (key_len == 32))
    then (fail (other 1), ctx)
    else (let nk = key_len / 4 in
        let rounds = u8 (nk + 6) in
        let total_words = 4 * (rounds + 1) in
        let keys = take key_len key ++ drop key_len ctx.round_keys in
        (
          done 0,
          record { round_keys = expand_loop nk (total_words - nk) nk keys; rounds = rounds },
        ))
