-- ===== src/Aes/Standard.antt =====
-- The S-box and the key expansion of FIPS-197, written from the standard, against src/simple_aes.c.
use zephyr_secure_supervisor.Base.{
  ℕ, zero, suc, ◌+◌, ◌*◌, ◌-◌, ◌/◌, ◌%◌, ◌≤◌, ◌<◌, ◌≡◌, refl, ap, ◌∙◌, Bool, true, ◌&&◌, ltb, ◌==◌,
  ==_iff, if◌then◌else◌, List, length, get_or, bit_xor, done, u8, arith, all_below, all_below_sound,
  inl, inr,
}
use zephyr_secure_supervisor.Aes.Tables.{sub_byte, rcon}
use zephyr_secure_supervisor.Aes.Block.{AesCtx}
use zephyr_secure_supervisor.Aes.Key.{
  Word, word_at, xor_word, mix_temp, sub_word, rot_word, setkey_enc,
}
use zephyr_secure_supervisor.Aes.Schedule.{IsKeyWords, setkey_enc-IsExpanded}

-- Multiplication by x in GF(2^8), modulo x^8 + x^4 + x^3 + x + 1 (section 4.2.1).
abbrev pub double : ℕ → ℕ
double b = if ltb b 128 then 2 * b else bit_xor (2 * b) 0x11b

-- The product in GF(2^8), by Horner's rule over the digits of the second factor.
unfoldable pub times_digits : ℕ → ℕ → ℕ → ℕ
times_digits zero a b = 0
times_digits (suc digits) a b =
    let high = double (times_digits digits a (b / 2)) in if b % 2 == 0 then high else bit_xor a high

abbrev pub times : ℕ → ℕ → ℕ
times a b = times_digits 8 a b

-- The inverse is the power 254; that of 0 is 0.
abbrev pub inverse : ℕ → ℕ
inverse b =
    let b2 = times b b in
    let b4 = times b2 b2 in
    let b8 = times b4 b4 in
    let b16 = times b8 b8 in
    let b32 = times b16 b16 in
    let b64 = times b32 b32 in
    times b2 (times b4 (times b8 (times b16 (times b32 (times b64 (times b64 b64))))))

-- A rotation by the digits of `power`, a power of 2.
abbrev pub rotate : ℕ → ℕ → ℕ
rotate power b = u8 (power * b) + power * b / 256

-- The inverse, then the affine map (section 5.1.1).
abbrev pub substitute : ℕ → ℕ
substitute b =
    let c = inverse b in
    bit_xor (bit_xor (bit_xor c (rotate 2 c)) (bit_xor (rotate 4 c) (rotate 8 c)))
      (bit_xor (rotate 16 c) 0x63)

abbrev substitutes : ℕ → Bool
substitutes b = sub_byte b == substitute b

substitutes_table : all_below 256 substitutes ≡ true
unfolding all_below times_digits sub_byte
substitutes_table = refl

-- On bytes the table `sbox` is the S-box of FIPS-197: the inverse in GF(2^8), then the affine map.
pub sub_byte-substitute : (b : ℕ) → b < 256 → sub_byte b ≡ substitute b
sub_byte-substitute b h = (==_iff _ _).0 (all_below_sound 256 substitutes b substitutes_table h)

-- The round constant x^k.
unfoldable pub power_of_x : ℕ → ℕ
power_of_x zero = 1
power_of_x (suc k) = double (power_of_x k)

abbrev constants : ℕ → Bool
constants k = get_or rcon (k + 1) 0 == power_of_x k

constants_table : all_below 10 constants ≡ true
unfolding all_below power_of_x
constants_table = refl

rcon-power_of_x : (k : ℕ) → 0 < k → k < 11 → get_or rcon k 0 ≡ power_of_x (k - 1)
rcon-power_of_x k pos h =
    let e = all_below_sound 10 constants (k - 1) constants_table (omega arith) in
    let here = (==_iff (get_or rcon (k - 1 + 1) 0) (power_of_x (k - 1))).0 e in
    let same : k - 1 + 1 ≡ k = omega arith in rw same at here

-- The temporary word of section 5.2 at index `i`, from the word before.
abbrev pub standard_temp : ℕ → ℕ → Word → Word
standard_temp nk i w =
    if i % nk == 0
    then record {
      w0 = bit_xor (sub_byte w.w1) (power_of_x (i / nk - 1));
      w1 = sub_byte w.w2;
      w2 = sub_byte w.w3;
      w3 = sub_byte w.w0;
    }
    else (if nk == 8 && i % 8 == 4
        then record {
          w0 = sub_byte w.w0;
          w1 = sub_byte w.w1;
          w2 = sub_byte w.w2;
          w3 = sub_byte w.w3;
        }
        else w)

abbrev pub standard_word : ℕ → ℕ → List ℕ → Word
standard_word nk i keys =
    xor_word (word_at keys (i - nk)) (standard_temp nk i (word_at keys (i - 1)))

mix_temp-standard :
    (nk i : ℕ) (w : Word)
    → IsKeyWords nk
    → nk ≤ i
    → i < 4 * (nk + 7)
    → mix_temp nk i w ≡ standard_temp nk i w
unfolding mix_temp sub_word rot_word
mix_temp-standard nk i w (inl e) lo hi =
    rw (e, rcon-power_of_x (i / 4) (omega (arith, e)) (omega (arith, e))) refl
mix_temp-standard nk i w (inr (inl e)) lo hi =
    rw (e, rcon-power_of_x (i / 6) (omega (arith, e)) (omega (arith, e))) refl
mix_temp-standard nk i w (inr (inr e)) lo hi =
    rw (e, rcon-power_of_x (i / 8) (omega (arith, e)) (omega (arith, e))) refl

module _ (ctx : AesCtx) (key : List ℕ) where
  -- For a key of `nk` = 4, 6 or 8 words, no longer than its buffer, `simple_aes_setkey_enc` succeeds
  -- with `nk + 6` rounds, the first `nk` words of the round keys are the key, and each later word
  -- `j` follows from the words `j - nk` and `j - 1` as in FIPS-197, section 5.2.
  pub setkey_enc-standard :
      (nk : ℕ)
      → IsKeyWords nk
      → 4 * nk ≤ length key
      → length ctx.round_keys ≡ 240
      → (i : ℕ) → i < nk
      → (j : ℕ) → nk ≤ j
      → j < 4 * (nk + 7)
      → let (rc, new) = setkey_enc ctx key (4 * nk) in
        (rc ≡ done 0)
        × (new.rounds ≡ nk + 6)
        × (word_at new.round_keys i ≡ word_at key i)
        × (word_at new.round_keys j ≡ standard_word nk j new.round_keys)
  setkey_enc-standard nk words enough room i below j lo hi =
      let (rc, e) = setkey_enc-IsExpanded ctx key nk words enough room in
      let keys = (setkey_enc ctx key (4 * nk)).1.round_keys in
      let temp = mix_temp-standard nk j (word_at keys (j - 1)) words lo hi in
      (
        rc,
        e.round_count,
        e.first i below,
        e.later j lo hi ∙ ap (xor_word (word_at keys (j - nk))) temp,
      )
