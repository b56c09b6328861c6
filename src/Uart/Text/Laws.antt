-- ===== src/Uart/Text/Laws.antt =====
-- Spaces and decimal numbers that the commands read.
use zephyr_secure_supervisor.Base.{
  ℕ, suc, ◌+◌, ◌*◌, ◌-◌, ◌%◌, ◌^◌, ◌≡◌, ◌≤◌, refl, ap, ◌∙◌, Bool, true, false, not, [], ◌∷◌, ◌++◌,
  length, All, ◌==◌, arith, le→ltb,
}
use native.Mathlib.Numerals.{unary_clauses}
use zephyr_secure_supervisor.Uart.Text.{
  String, is_space, skip_spaces, is_digit, Number, digits, limited, signed, strtoul,
}

abbrev pub IsSpace : ℕ → Type 0
IsSpace c = is_space c ≡ true

abbrev pub IsDigit : ℕ → Type 0
IsDigit c = is_digit c ≡ true

-- The number that decimal digits write, by the place of each.
unfoldable pub decimal : String → ℕ
decimal [] = 0
decimal (c ∷ s) = (c - b'0') * 10 ^ length s + decimal s

-- Text that ends a number: its first character, if any, is no digit.
abbrev pub ends_number : String → Bool
ends_number [] = true
ends_number (c ∷ s) = not (is_digit c)

pub skip_spaces-append :
    (spaces s : String) → All IsSpace spaces → skip_spaces (spaces ++ s) ≡ skip_spaces s
unfolding skip_spaces
skip_spaces-append [] s h = refl
skip_spaces-append (c ∷ spaces) s h = rw h.0 (skip_spaces-append spaces s h.1)

pub skip_spaces_none : (c : ℕ) (s : String) → is_space c ≡ false → skip_spaces (c ∷ s) ≡ c ∷ s
unfolding skip_spaces
skip_spaces_none c s h = rw h refl

pub digit_no_space : (c : ℕ) → IsDigit c → is_space c ≡ false
digit_no_space c h = ground arith

horner : (n c p v : ℕ) → (n * 10 + c) * p + v ≡ n * (10 * p) + (c * p + v)
horner n c p v = omega arith

pow_suc : (a n : ℕ) → a * a ^ n ≡ a ^ suc n
pow_suc a n = simp unary_clauses (omega arith)

-- A number that was read, before `rest`.
abbrev pub found_at : String → ℕ → Number
found_at rest value = record { value = value; end = rest; found = true; overflow = false }

pub digits-decimal :
    (n : ℕ) (ds rest : String)
    → All IsDigit ds
    → ends_number rest ≡ true
    → digits n true (ds ++ rest) ≡ found_at rest (n * 10 ^ length ds + decimal ds)
unfolding digits decimal
digits-decimal n [] [] h e = ap (found_at []) (omega arith)
digits-decimal n [] (c ∷ rest) h e =
    let ends : is_digit c ≡ false = ground arith in rw ends (ap (found_at (c ∷ rest)) (omega arith))
digits-decimal n (c ∷ ds) rest h e =
    let p = 10 ^ length ds in
    rw h.0 (
      digits-decimal (n * 10 + (c - b'0')) ds rest h.1 e
      ∙ ap (found_at rest) (
          horner n (c - b'0') p (decimal ds)
          ∙ ap (λ (t : ℕ). n * t + ((c - b'0') * p + decimal ds)) (pow_suc 10 (length ds))))

digits_fits :
    (max c : ℕ) (ds rest : String)
    → All IsDigit (c ∷ ds)
    → ends_number rest ≡ true
    → decimal (c ∷ ds) ≤ max
    → limited max (digits 0 false (c ∷ (ds ++ rest))) ≡ found_at rest (decimal (c ∷ ds))
digits_fits max c ds rest h e fits =
    let first : digits 0 false (c ∷ (ds ++ rest)) ≡ digits 0 true (c ∷ (ds ++ rest)) =
      unfold digits in rw h.0 refl in
    let read : digits 0 true (c ∷ (ds ++ rest)) ≡ found_at rest (decimal (c ∷ ds)) =
      digits-decimal 0 (c ∷ ds) rest h e ∙ ap (found_at rest) (omega arith) in
    rw (first, read, le→ltb max (decimal (c ∷ ds)) fits) refl

-- A number that fits is read whole, up to what ends it.
pub strtoul-decimal :
    (max c : ℕ) (ds rest : String)
    → All IsDigit (c ∷ ds)
    → ends_number rest ≡ true
    → decimal (c ∷ ds) ≤ max
    → strtoul max (c ∷ (ds ++ rest)) ≡ found_at rest (decimal (c ∷ ds))
unfolding strtoul signed decimal
strtoul-decimal max c ds rest h e fits =
    let digit = h.0 in
    let minus : (c == b'-') ≡ false = ground (arith, digit) in
    let plus : (c == b'+') ≡ false = ground (arith, digit) in
    rw
      (
        strtoul,
        skip_spaces_none c (ds ++ rest) (digit_no_space c h.0),
        signed,
        minus,
        plus,
        digits_fits max c ds rest h e fits,
      )
      refl

-- Behind a minus sign it is negated in the type `unsigned long`.
pub strtoul-minus :
    (max c : ℕ) (ds rest : String)
    → All IsDigit (c ∷ ds)
    → ends_number rest ≡ true
    → decimal (c ∷ ds) ≤ max
    → strtoul max (b'-' ∷ c ∷ (ds ++ rest))
      ≡ found_at rest ((max + 1 - decimal (c ∷ ds)) % (max + 1))
unfolding strtoul signed decimal
strtoul-minus max c ds rest h e fits =
    rw
      (
        strtoul,
        skip_spaces_none b'-' (c ∷ (ds ++ rest)) refl,
        signed,
        digits_fits max c ds rest h e fits,
      )
      refl
