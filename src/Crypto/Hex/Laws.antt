-- ===== src/Crypto/Hex/Laws.antt =====
-- Printing and parsing of hexadecimal strings are inverse, and parsing stays in its buffer.
use zephyr_secure_supervisor.Base.{
  ℕ, zero, suc, ◌*◌, ◌≤◌, ◌<◌, ◌≡◌, refl, ap, ◌∙◌, List, [], ◌∷◌, Bool, true, false, Option, none,
  some, bit_and, ◌>>◌, length, get_or, AllBytes, all_below, all_below_sound, ◌==◌, ==_iff, not,
  ◌&&◌, Rc, done, arith,
}
use zephyr_secure_supervisor.Crypto.Hex.{
  hex_value, safe_strlen, hex_round, hex_loop, then_byte, byte_of_nibbles, parse_hex_string,
  hex_chars, hex_digits, bytes_to_hex,
}

abbrev pub high_digit : ℕ → ℕ
high_digit b = get_or hex_chars (bit_and (b >> 4) 0xF) 0

abbrev pub low_digit : ℕ → ℕ
low_digit b = get_or hex_chars (bit_and b 0xF) 0

-- Both digits of `b` are read back, make `b`, and are no NUL.
abbrev reads_back : Option ℕ → Option ℕ → ℕ → Bool
reads_back (some hi) (some lo) b = byte_of_nibbles hi lo == b
reads_back (some hi) none b = false
reads_back none lo b = false

digit_table :
    all_below 256 (λ b. reads_back (hex_value (high_digit b)) (hex_value (low_digit b)) b) ≡ true
unfolding all_below hex_value
digit_table = refl

reads_back-round :
    (x y : Option ℕ) (b : ℕ) (rest : Rc × List ℕ)
    → reads_back x y b ≡ true
    → hex_round x y rest ≡ then_byte b rest
reads_back-round (some hi) (some lo) b rest h =
    ap (λ c. then_byte c rest) ((==_iff (byte_of_nibbles hi lo) b).0 h)
reads_back-round (some hi) none b rest h = cc
reads_back-round none y b rest h = cc

pub hex_loop-hex_digits :
    (total : ℕ) (src : List ℕ)
    → AllBytes src
    → hex_loop total (length src) (hex_digits src) ≡ (done total, src)
unfolding hex_loop hex_digits
hex_loop-hex_digits total [] bytes = refl
hex_loop-hex_digits total (b ∷ src) bytes =
    reads_back-round _ _ b _ (all_below_sound 256 _ b digit_table bytes.0)
    ∙ ap (then_byte b) (hex_loop-hex_digits total src bytes.1)

-- The printed digits are no NULs, so `safe_strlen` counts them all.
no_nul_table : all_below 256 (λ b. not (high_digit b == 0) && not (low_digit b == 0)) ≡ true
unfolding all_below
no_nul_table = refl

safe_strlen-hex_digits :
    (src : List ℕ) (max_len : ℕ)
    → AllBytes src
    → 2 * length src ≤ max_len
    → safe_strlen (hex_digits src) max_len ≡ 2 * length src
unfolding safe_strlen hex_digits
safe_strlen-hex_digits [] zero bytes h = refl
safe_strlen-hex_digits [] (suc m) bytes h = refl
safe_strlen-hex_digits (b ∷ src) zero bytes h = absurd (omega arith)
safe_strlen-hex_digits (b ∷ src) (suc zero) bytes h = absurd (omega arith)
safe_strlen-hex_digits (b ∷ src) (suc (suc m)) bytes h = ground (
  arith,
  all_below_sound 256 (λ x. not (high_digit x == 0) && not (low_digit x == 0)) b no_nul_table
      bytes.0,
  safe_strlen-hex_digits src m bytes.1,
)

-- What `app_crypto_bytes_to_hex` prints of 1 to 32 bytes into a buffer with room for the digits
-- and the NUL, `parse_hex_string` reads back, into any buffer with room for the bytes.
pub parse_hex_string-bytes_to_hex :
    (src : List ℕ) (dst_len max_len : ℕ)
    → AllBytes src
    → 0 < length src
    → length src ≤ 32
    → length src * 2 < dst_len
    → length src ≤ max_len
    → ((bytes_to_hex src dst_len).0 ≡ done 0)
      × (parse_hex_string (bytes_to_hex src dst_len).1 max_len ≡ (done (length src), src))
unfolding bytes_to_hex parse_hex_string
parse_hex_string-bytes_to_hex src dst_len max_len bytes pos short room fits =
    ground (arith, safe_strlen-hex_digits src 65 bytes, hex_loop-hex_digits (length src) src bytes)

pub length-hex_digits : (src : List ℕ) → length (hex_digits src) ≡ 2 * length src
unfolding hex_digits
length-hex_digits [] = refl
length-hex_digits (b ∷ src) = omega (arith, length-hex_digits src)
