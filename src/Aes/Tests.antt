-- ===== src/Aes/Tests.antt =====
-- Known answers of FIPS-197, appendix C, for the three key lengths.
use zephyr_secure_supervisor.Base.{
  ℕ, List, [], ◌∷◌, ◌≡◌, refl, inl, replicate, xor_bytes, done, arith,
}
use zephyr_secure_supervisor.Aes.Block.{
  AesCtx, encrypt_block, encrypt_rounds, add_round_key, mix_columns, shift_rows, sub_bytes,
}
use zephyr_secure_supervisor.Aes.Field.{gf_mul, gf_mul_loop, xtime}
use zephyr_secure_supervisor.Aes.Tables.{sub_byte}
use zephyr_secure_supervisor.Aes.Range.{all_bytes_sound, setkey_enc-AllBytes}
use zephyr_secure_supervisor.Aes.Size.{IsKeyed}
use zephyr_secure_supervisor.Aes.Permutation.{encrypt_block_one_to_one}
use zephyr_secure_supervisor.Aes.Standard.{
  setkey_enc-standard, standard_word, substitute, sub_byte-substitute,
}
use zephyr_secure_supervisor.Aes.Key.{
  word_at, setkey_enc, expand_loop, mix_temp, sub_word, rot_word,
}

abbrev blank : AesCtx
blank = record { round_keys = replicate 240 0; rounds = 0 }

abbrev key : List ℕ
key =
    0x00 ∷ 0x01 ∷ 0x02 ∷ 0x03 ∷ 0x04 ∷ 0x05 ∷ 0x06 ∷ 0x07 ∷ 0x08 ∷ 0x09 ∷ 0x0a ∷ 0x0b ∷ 0x0c ∷ 0x0d
    ∷ 0x0e ∷ 0x0f ∷ 0x10 ∷ 0x11 ∷ 0x12 ∷ 0x13 ∷ 0x14 ∷ 0x15 ∷ 0x16 ∷ 0x17 ∷ 0x18 ∷ 0x19 ∷ 0x1a
    ∷ 0x1b ∷ 0x1c ∷ 0x1d ∷ 0x1e ∷ 0x1f ∷ []

abbrev plain : List ℕ
plain =
    0x00 ∷ 0x11 ∷ 0x22 ∷ 0x33 ∷ 0x44 ∷ 0x55 ∷ 0x66 ∷ 0x77 ∷ 0x88 ∷ 0x99 ∷ 0xaa ∷ 0xbb ∷ 0xcc ∷ 0xdd
    ∷ 0xee ∷ 0xff ∷ []

-- The cipher text of `plain` under the first `n` bytes of `key`.
answer : ℕ → List ℕ
unfolding encrypt_block encrypt_rounds add_round_key mix_columns shift_rows sub_bytes xor_bytes
    setkey_enc expand_loop mix_temp sub_word rot_word sub_byte gf_mul gf_mul_loop xtime
answer n = encrypt_block (setkey_enc blank key n).1 plain

aes_128 :
    answer 16
    ≡ 0x69 ∷ 0xc4 ∷ 0xe0 ∷ 0xd8 ∷ 0x6a ∷ 0x7b ∷ 0x04 ∷ 0x30 ∷ 0xd8 ∷ 0xcd ∷ 0xb7 ∷ 0x80 ∷ 0x70
      ∷ 0xb4 ∷ 0xc5 ∷ 0x5a ∷ []
unfolding answer
aes_128 = refl

aes_192 :
    answer 24
    ≡ 0xdd ∷ 0xa9 ∷ 0x7c ∷ 0xa4 ∷ 0x86 ∷ 0x4c ∷ 0xdf ∷ 0xe0 ∷ 0x6e ∷ 0xaf ∷ 0x70 ∷ 0xa0 ∷ 0xec
      ∷ 0x0d ∷ 0x71 ∷ 0x91 ∷ []
unfolding answer
aes_192 = refl

aes_256 :
    answer 32
    ≡ 0x8e ∷ 0xa2 ∷ 0xb7 ∷ 0xca ∷ 0x51 ∷ 0x67 ∷ 0x45 ∷ 0xbf ∷ 0xea ∷ 0xfc ∷ 0x49 ∷ 0x90 ∷ 0x4b
      ∷ 0x49 ∷ 0x60 ∷ 0x89 ∷ []
unfolding answer
aes_256 = refl

setkey_enc-standard_example :
    let (rc, new) = setkey_enc blank key 16 in
    (rc ≡ done 0)
    × (new.rounds ≡ 10)
    × (word_at new.round_keys 0 ≡ word_at key 0)
    × (word_at new.round_keys 4 ≡ standard_word 4 4 new.round_keys)
setkey_enc-standard_example =
    setkey_enc-standard blank key 4 (inl refl) (omega arith) refl 0 (omega arith) 4 (omega arith)
      (omega arith)

sub_byte-substitute_example : sub_byte 0x53 ≡ substitute 0x53
sub_byte-substitute_example = sub_byte-substitute 0x53 (omega arith)

abbrev keyed : AesCtx
keyed = (setkey_enc blank key 16).1

keyed-IsKeyed : IsKeyed keyed
unfolding setkey_enc expand_loop
keyed-IsKeyed = omega arith

encrypt_block_one_to_one_example : plain ≡ plain
encrypt_block_one_to_one_example =
    encrypt_block_one_to_one keyed keyed-IsKeyed
      (setkey_enc-AllBytes blank key 16 (all_bytes_sound blank.round_keys refl)
        (all_bytes_sound key refl))
      plain plain refl (all_bytes_sound plain refl) refl (all_bytes_sound plain refl) refl
