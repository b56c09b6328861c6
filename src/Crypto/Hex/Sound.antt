-- ===== src/Crypto/Hex/Sound.antt =====
-- What `parse_hex_string` accepts, and what it then wrote.
use zephyr_secure_supervisor.Base.{
  ℕ, zero, suc, ◌+◌, ◌*◌, ◌-◌, ◌/◌, ◌%◌, ◌≤◌, ◌<◌, ◌≡◌, refl, ap, sym, List, [], ◌∷◌, Bool, true,
  ◌&&◌, Option, none, some, map, bit_and, ◌>>◌, length, take, get_or, AllBytes, all_below,
  all_below_sound, ltb, leb, ltb→lt, and_true, ◌==◌, ==_iff, if◌then◌else◌, Rc, done, arith, dec_lt,
}
use zephyr_secure_supervisor.Crypto.Hex.{
  hex_value, safe_strlen, hex_round, hex_loop, byte_of_nibbles, parse_hex_string, hex_chars,
  hex_digits,
}

-- A lower-case digit in upper case.
abbrev pub upper : ℕ → ℕ
upper c = if leb b'a' c && leb c b'f' then c - 32 else c

abbrev is_digit : Option ℕ → ℕ → Bool
is_digit none c = true
is_digit (some v) c = ltb v 16 && get_or hex_chars v 0 == upper c

value_table : all_below 128 (λ c. is_digit (hex_value c) c) ≡ true
unfolding all_below hex_value
value_table = refl

hex_value-is_digit : (c : ℕ) → is_digit (hex_value c) c ≡ true
hex_value-is_digit c = elim (dec_lt c 128) [
  | yes h ↦ all_below_sound 128 (λ c. is_digit (hex_value c) c) c value_table h
  | no h ↦ unfold hex_value in ground arith
]

-- The digit value is below 16, and printing it gives the digit in upper case.
hex_value_digit : (c v : ℕ) → hex_value c ≡ some v → (v < 16) × (get_or hex_chars v 0 ≡ upper c)
hex_value_digit c v h =
    let t = hex_value-is_digit c in
    let t' : (ltb v 16 && get_or hex_chars v 0 == upper c) ≡ true = rw h at t in
    let (small, digit) = and_true (ltb v 16) (get_or hex_chars v 0 == upper c) t' in
    (ltb→lt v 16 small, (==_iff (get_or hex_chars v 0) (upper c)).0 digit)

abbrev joins : ℕ → ℕ → Bool
joins hi lo =
    let b = byte_of_nibbles hi lo in
    ltb b 256 && (bit_and (b >> 4) 0xF == hi && bit_and b 0xF == lo)

join_table : all_below 256 (λ k. joins (k / 16) (k % 16)) ≡ true
unfolding all_below
join_table = refl

-- A byte made of two nibbles prints as their digits.
byte_of_nibbles_lem :
    (hi lo : ℕ)
    → hi < 16
    → lo < 16
    → let b = byte_of_nibbles hi lo in
      (b < 256) × (bit_and (b >> 4) 0xF ≡ hi) × (bit_and b 0xF ≡ lo)
byte_of_nibbles_lem hi lo p q =
    let k = 16 * hi + lo in
    let high : k / 16 ≡ hi = omega arith in
    let low : k % 16 ≡ lo = omega arith in
    let t = all_below_sound 256 (λ k. joins (k / 16) (k % 16)) k join_table (omega arith) in
    let t' : joins hi lo ≡ true = rw (high, low) at t in
    let b = byte_of_nibbles hi lo in
    let (small, both) = and_true (ltb b 256) _ t' in
    let (h, l) = and_true (bit_and (b >> 4) 0xF == hi) (bit_and b 0xF == lo) both in
    (ltb→lt b 256 small, (==_iff _ hi).0 h, (==_iff _ lo).0 l)

-- `out` are bytes, and print as `s` in upper case.
pub record Encodes (s out : List ℕ) : Type 0 where
  pub bytes : AllBytes out
  pub digits : hex_digits out ≡ map upper (take (2 * length out) s)

Encodes-cons :
    (h l hi lo : ℕ) (s out : List ℕ)
    → hex_value h ≡ some hi
    → hex_value l ≡ some lo
    → Encodes s out
    → Encodes (h ∷ l ∷ s) (byte_of_nibbles hi lo ∷ out)
unfolding hex_digits
Encodes-cons h l hi lo s out p q e =
    let (hi16, hd) = hex_value_digit h hi p in
    let (lo16, ld) = hex_value_digit l lo q in
    let (small, high, low) = byte_of_nibbles_lem hi lo hi16 lo16 in
    let two : 2 * suc (length out) ≡ suc (suc (2 * length out)) = omega arith in
    record { bytes = (small, e.bytes); digits = rw (two, high, low, hd, ld, e.digits) }

hex_round-eq-done :
    (x y : Option ℕ) (rest : Rc × List ℕ) (n : ℕ) (out : List ℕ)
    → hex_round x y rest ≡ (done n, out)
    → (hi lo : ℕ) × (x ≡ some hi)
      × (y ≡ some lo)
      × (rest.0 ≡ done n)
      × (out ≡ byte_of_nibbles hi lo ∷ rest.1)
hex_round-eq-done none y rest n out h = cc (ap (λ r. r.0) h)
hex_round-eq-done (some hi) none rest n out h = cc (ap (λ r. r.0) h)
hex_round-eq-done (some hi) (some lo) rest n out h =
    (hi, lo, refl, refl, ap (λ r. r.0) h, sym (ap (λ r. r.1) h))

hex_loop-Encodes :
    (total left : ℕ) (s : List ℕ) (n : ℕ) (out : List ℕ)
    → hex_loop total left s ≡ (done n, out)
    → (n ≡ total) × (length out ≡ left) × Encodes s out
unfolding hex_loop hex_digits
hex_loop-Encodes total zero s n out h =
    let e : out ≡ [] = sym (ap (λ r. r.1) h) in
    (cc (ap (λ r. r.0) h), rw e, rw e (record { bytes = tt; digits = refl }))
hex_loop-Encodes total (suc left) [] n out h = cc (ap (λ r. r.0) h)
hex_loop-Encodes total (suc left) (x ∷ []) n out h = cc (ap (λ r. r.0) h)
hex_loop-Encodes total (suc left) (x ∷ y ∷ s) n out h =
    let (hi, lo, p, q, rc, e) =
      hex_round-eq-done (hex_value x) (hex_value y) (hex_loop total left s) n out h in
    let rest = (hex_loop total left s).1 in
    let (a, b, enc) = hex_loop-Encodes total left s n rest (λ i. (rc i, rest)) in
    (a, rw e (ap suc b), rw e (Encodes-cons x y hi lo s rest p q enc))

safe_strlen-le : (str : List ℕ) (max_len : ℕ) → safe_strlen str max_len ≤ max_len
unfolding safe_strlen
safe_strlen-le str zero = omega arith
safe_strlen-le [] (suc m) = omega arith
safe_strlen-le (c ∷ str) (suc m) = ground (arith, safe_strlen-le str m)

parse_hex_string-eq-done :
    (hex : List ℕ) (max_len n : ℕ) (out : List ℕ)
    → parse_hex_string hex max_len ≡ (done n, out)
    → let len = safe_strlen hex 65 in
      (hex_loop (len / 2) (len / 2) hex ≡ (done n, out))
      × (len % 2 ≡ 0)
      × (0 < len / 2)
      × (len / 2 ≤ max_len)
unfolding parse_hex_string
parse_hex_string-eq-done hex max_len n out h = ground arith

-- When `parse_hex_string` returns a count, the string is the hexadecimal form, in either case, of
-- the bytes that it wrote: that many, at least one, at most 32 and at most the buffer holds.
pub parse_hex_string-Encodes :
    (hex : List ℕ) (max_len n : ℕ) (out : List ℕ)
    → parse_hex_string hex max_len ≡ (done n, out)
    → (n ≡ length out)
      × (0 < n)
      × (n ≤ max_len)
      × (n ≤ 32)
      × (safe_strlen hex 65 ≡ 2 * n)
      × Encodes hex out
parse_hex_string-Encodes hex max_len n out h =
    let (loop, even, pos, fits) = parse_hex_string-eq-done hex max_len n out h in
    let half = safe_strlen hex 65 / 2 in
    let (total, size, enc) = hex_loop-Encodes half half hex n out loop in
    let short = safe_strlen-le hex 65 in
    (omega arith, omega arith, omega arith, omega arith, omega arith, enc)
