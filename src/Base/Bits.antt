-- ===== src/Base/Bits.antt =====
-- Laws of `bit_xor` at every width, from its recursion on binary digits.
use Prim.Native.Nat.{ℕ, zero, suc, ◌+◌, ◌*◌, ◌/◌, ◌%◌, ◌^◌, ◌≤◌, ◌<◌, bit_xor, digits}
use Prim.Native.Nat.{differ, bit_xor-bitwise}
use mathlib.Core.Path.{◌≡◌, refl, sym, ap, ◌∙◌}
use native.Mathlib.Nat.{le_refl, pow-suc}
use native.Mathlib.Omega.{arith}

-- The recursion on digits comes to the same for every fuel that covers the first word.
abbrev xor_within : ℕ → ℕ → ℕ → ℕ
xor_within fuel a b = digits (λ low. low) differ fuel a b

xor_within_settled : (a b n m : ℕ) → a ≤ n → a ≤ m → xor_within n a b ≡ xor_within m a b
xor_within_settled zero b zero zero small small' = refl
xor_within_settled zero b (suc n) zero small small' = refl
xor_within_settled zero b zero (suc m) small small' = refl
xor_within_settled zero b (suc n) (suc m) small small' = refl
xor_within_settled (suc a) b zero m small small' = absurd (omega arith)
xor_within_settled (suc a) b (suc n) zero small small' = absurd (omega arith)
xor_within_settled (suc a) b (suc n) (suc m) small small' =
    let halves = suc a / 2 in
    let ih = xor_within_settled halves (b / 2) n m (omega arith) (omega arith) in omega (arith, ih)

differ_bits : (x y : ℕ) → x < 2 → y < 2 → differ x y ≡ (x + y) % 2
differ_bits zero zero p q = refl
differ_bits zero (suc zero) p q = refl
differ_bits (suc zero) zero p q = refl
differ_bits (suc zero) (suc zero) p q = refl
differ_bits zero (suc (suc y)) p q = absurd (omega arith)
differ_bits (suc zero) (suc (suc y)) p q = absurd (omega arith)
differ_bits (suc (suc x)) y p q = absurd (omega arith)

pub zero-bit_xor : (b : ℕ) → bit_xor 0 b ≡ b
zero-bit_xor b = bit_xor-bitwise 0 b

-- The law of the lowest digit.
pub bit_xor_step : (a b : ℕ) → bit_xor a b ≡ bit_xor (a / 2) (b / 2) * 2 + (a + b) % 2
bit_xor_step zero b = omega (arith, zero-bit_xor b, zero-bit_xor (b / 2))
bit_xor_step (suc a) b =
    let low = differ_bits (suc a % 2) (b % 2) (omega arith) (omega arith) in
    let halves = suc a / 2 in
    let fuel = xor_within_settled halves (b / 2) a halves (omega arith) (le_refl _) in
    omega (arith, low, fuel, bit_xor-bitwise (suc a) b, bit_xor-bitwise halves (b / 2))

-- A number below the fuel halves below the fuel that is left, whence the inductions.
bit_xor_cancel_fuel : (n a b : ℕ) → a ≤ n → b ≤ n → bit_xor (bit_xor a b) b ≡ a
bit_xor_cancel_fuel zero zero zero p q = refl
bit_xor_cancel_fuel zero zero (suc b) p q = absurd (omega arith)
bit_xor_cancel_fuel zero (suc a) b p q = absurd (omega arith)
bit_xor_cancel_fuel (suc n) a b p q =
    let half : bit_xor a b / 2 ≡ bit_xor (a / 2) (b / 2) = omega (arith, bit_xor_step a b) in
    let ih = bit_xor_cancel_fuel n (a / 2) (b / 2) (omega arith) (omega arith) in
    let step = bit_xor_step (bit_xor a b) b in omega (arith, bit_xor_step a b, rw half at step, ih)

-- Masking twice with the same word gives the word back.
pub bit_xor_cancel : (a b : ℕ) → bit_xor (bit_xor a b) b ≡ a
bit_xor_cancel a b = bit_xor_cancel_fuel (a + b) a b (omega arith) (omega arith)

-- The three laws of a commutative group of exponent two, by the same induction.
bit_xor_comm_fuel : (n a b : ℕ) → a ≤ n → b ≤ n → bit_xor a b ≡ bit_xor b a
bit_xor_comm_fuel zero zero zero p q = refl
bit_xor_comm_fuel zero zero (suc b) p q = absurd (omega arith)
bit_xor_comm_fuel zero (suc a) b p q = absurd (omega arith)
bit_xor_comm_fuel (suc n) a b p q =
    let ih = bit_xor_comm_fuel n (a / 2) (b / 2) (omega arith) (omega arith) in
    omega (arith, bit_xor_step a b, bit_xor_step b a, ih)

pub bit_xor_comm : (a b : ℕ) → bit_xor a b ≡ bit_xor b a
bit_xor_comm a b = bit_xor_comm_fuel (a + b) a b (omega arith) (omega arith)

pub bit_xor-half : (a b : ℕ) → bit_xor a b / 2 ≡ bit_xor (a / 2) (b / 2)
bit_xor-half a b = omega (arith, bit_xor_step a b)

bit_xor_assoc_fuel :
    (n a b c : ℕ) → a ≤ n → b ≤ n → c ≤ n → bit_xor (bit_xor a b) c ≡ bit_xor a (bit_xor b c)
bit_xor_assoc_fuel zero zero zero zero p q r = refl
bit_xor_assoc_fuel zero zero zero (suc c) p q r = absurd (omega arith)
bit_xor_assoc_fuel zero zero (suc b) c p q r = absurd (omega arith)
bit_xor_assoc_fuel zero (suc a) b c p q r = absurd (omega arith)
bit_xor_assoc_fuel (suc n) a b c p q r =
    let ih =
      bit_xor_assoc_fuel n (a / 2) (b / 2) (c / 2) (omega arith) (omega arith) (omega arith) in
    let left = bit_xor_step (bit_xor a b) c in
    let right = bit_xor_step a (bit_xor b c) in
    let left' = rw (bit_xor-half a b) at left in
    let right' = rw (bit_xor-half b c) at right in
    omega (arith, left', right', bit_xor_step a b, bit_xor_step b c, ih)

pub bit_xor_assoc : (a b c : ℕ) → bit_xor (bit_xor a b) c ≡ bit_xor a (bit_xor b c)
bit_xor_assoc a b c = bit_xor_assoc_fuel (a + b + c) a b c (omega arith) (omega arith) (omega arith)

pub bit_xor_self : (a : ℕ) → bit_xor a a ≡ 0
bit_xor_self a = sym (ap (λ x. bit_xor x a) (zero-bit_xor a)) ∙ bit_xor_cancel 0 a

bit_xor-lt_pow : (k a b : ℕ) → a < 2 ^ k → b < 2 ^ k → bit_xor a b < 2 ^ k
bit_xor-lt_pow zero zero zero p q = p
bit_xor-lt_pow zero zero (suc b) p q = absurd (omega arith)
bit_xor-lt_pow zero (suc a) b p q = absurd (omega arith)
bit_xor-lt_pow (suc k) a b p q =
    let e = pow-suc 2 k in
    omega (
      arith,
      e,
      bit_xor_step a b,
      bit_xor-lt_pow k (a / 2) (b / 2) (omega (arith, e)) (omega (arith, e)),
    )

pub bit_xor-IsByte : (a b : ℕ) → a < 256 → b < 256 → bit_xor a b < 256
bit_xor-IsByte a b p q = bit_xor-lt_pow 8 a b p q

pub bit_xor-lt_word : (a b : ℕ) → a < 4294967296 → b < 4294967296 → bit_xor a b < 4294967296
bit_xor-lt_word a b p q = bit_xor-lt_pow 32 a b p q
