-- ===== src/Uart/Command/Tokens.antt =====
-- Hexadecimal tokens on a line.
use zephyr_secure_supervisor.Base.{
  ℕ, zero, suc, ◌*◌, ◌≡◌, ◌<◌, refl, sym, ap, Bool, true, false, not, ◌&&◌, ◌==◌, List, [], ◌∷◌,
  ◌++◌, length, Rc, done, arith, All, AllBytes, all_below, all_below_sound, and_true,
}
use zephyr_secure_supervisor.Crypto.Hex.{hex_value, hex_round, hex_loop, hex_digits}
use zephyr_secure_supervisor.Crypto.Hex.Laws.{
  high_digit, low_digit, hex_loop-hex_digits, length-hex_digits,
}
use zephyr_secure_supervisor.Uart.Text.{String, is_space, skip_spaces, token, after_token}
use zephyr_secure_supervisor.Uart.Command.{hex_value_cli, token_loop, decode_hex_token}

abbrev pub IsGlyph : ℕ → Type 0
IsGlyph c = is_space c ≡ false

glyph_table :
    all_below 256 (λ b. not (is_space (high_digit b)) && not (is_space (low_digit b))) ≡ true
unfolding all_below
glyph_table = refl

false_of_not : (b : Bool) → not b ≡ true → b ≡ false
false_of_not b h = ground arith

pub hex_digits-glyphs : (src : List ℕ) → AllBytes src → All IsGlyph (hex_digits src)
unfolding hex_digits
hex_digits-glyphs [] h = tt
hex_digits-glyphs (b ∷ src) h =
    let both = and_true _ _ (
      all_below_sound 256 (λ x. not (is_space (high_digit x)) && not (is_space (low_digit x))) b
        glyph_table h.0) in
    (false_of_not _ both.0, (false_of_not _ both.1, hex_digits-glyphs src h.1))

pub token-append : (word rest : String) → All IsGlyph word → token (word ++ b' ' ∷ rest) ≡ word
unfolding token
token-append [] rest h = refl
token-append (c ∷ word) rest h = rw h.0 (ap (λ r. c ∷ r) (token-append word rest h.1))

pub after_token-append :
    (word rest : String) → All IsGlyph word → after_token (word ++ b' ' ∷ rest) ≡ b' ' ∷ rest
unfolding after_token
after_token-append [] rest h = refl
after_token-append (c ∷ word) rest h = rw h.0 (after_token-append word rest h.1)

pub token_self : (word : String) → All IsGlyph word → token word ≡ word
unfolding token
token_self [] h = refl
token_self (c ∷ word) h = rw h.0 (ap (λ r. c ∷ r) (token_self word h.1))

pub skip_word :
    (word rest : String)
    → All IsGlyph word
    → 0 < length word
    → skip_spaces (word ++ rest) ≡ word ++ rest
unfolding skip_spaces
skip_word [] rest h p = absurd (omega arith)
skip_word (c ∷ word) rest h p = rw h.0 refl

token_loop-hex_loop : (n : ℕ) (s : String) → token_loop n s ≡ hex_loop 0 n s
unfolding token_loop hex_loop hex_value_cli hex_value
token_loop-hex_loop zero s = refl
token_loop-hex_loop (suc n) (h ∷ l ∷ s) =
    ap (λ (r : Rc × List ℕ). hex_round (hex_value_cli h) (hex_value_cli l) r)
      (token_loop-hex_loop n s)
token_loop-hex_loop (suc n) (h ∷ []) = refl
token_loop-hex_loop (suc n) [] = refl

-- The digits that are printed for some bytes decode to them.
pub decode_hex_token-hex_digits :
    (src : List ℕ) (n : ℕ)
    → AllBytes src
    → length src ≡ n
    → decode_hex_token (hex_digits src) n ≡ (done 0, src)
unfolding decode_hex_token
decode_hex_token-hex_digits src n bytes h =
    let size : (length (hex_digits src) == n * 2) ≡ true = ground (arith, length-hex_digits src) in
    rw
      (
        size,
        sym h,
        token_loop-hex_loop (length src) (hex_digits src),
        hex_loop-hex_digits 0 src bytes,
      )
      refl
