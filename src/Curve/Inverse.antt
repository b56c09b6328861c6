-- ===== src/Curve/Inverse.antt =====
-- `fe_invert` of src/curve25519_ref10.c, as a number.
use zephyr_secure_supervisor.Base.{
  ℕ, zero, suc, ◌+◌, ◌-◌, ◌*◌, ◌/◌, ◌%◌, ◌^◌, ◌≡◌, refl, sym, ap, ap₂, ◌∙◌, arith,
}
use native.Mathlib.Nat.{pow-suc, pow-zero}
use zephyr_secure_supervisor.Curve.Field.{Fe, fe_mul}
use zephyr_secure_supervisor.Curve.Invert.{fe_invert}
use zephyr_secure_supervisor.Curve.Carry.{prime, AreWithin}
use zephyr_secure_supervisor.Curve.Power.{fe_invert-power}
use zephyr_secure_supervisor.Curve.Value.{value, tight, loosen, fe_mul-value}

one_times : (n : ℕ) → 1 * n ≡ n
one_times n = omega arith

times_one : (n : ℕ) → n * 1 ≡ n
times_one n = omega arith

plus_zero : (n : ℕ) → n ≡ n + 0
plus_zero n = omega arith

plus_suc : (m n : ℕ) → suc (m + n) ≡ m + suc n
plus_suc m n = omega arith

mul_assoc : (x y a : ℕ) → x * (y * a) ≡ x * y * a
mul_assoc x y a = omega arith

pow_add : (a m n : ℕ) → a ^ m * a ^ n ≡ a ^ (m + n)
pow_add a m zero =
    ap (λ (x : ℕ). a ^ m * x) (pow-zero a) ∙ times_one (a ^ m) ∙ ap (λ (n : ℕ). a ^ n) (plus_zero m)
pow_add a m (suc n) =
    ap (λ (x : ℕ). a ^ m * x) (pow-suc a n)
    ∙ mul_assoc (a ^ m) (a ^ n) a
    ∙ ap (λ (x : ℕ). x * a) (pow_add a m n)
    ∙ sym (pow-suc a (m + n))
    ∙ ap (λ (k : ℕ). a ^ k) (plus_suc m n)

same_remainders :
    (r s x y u v m n : ℕ)
    → m ≡ (r + prime * x) * (s + prime * y)
    → n ≡ (r + prime * u) * (s + prime * v)
    → m % prime ≡ n % prime
same_remainders r s x y u v m n p q = omega (arith, p, q)

divided : (a r : ℕ) → a % prime ≡ r → a ≡ r + prime * (a / prime)
divided a r e = omega (arith, e)

-- Congruent factors have congruent products.
pub mul_congruent :
    (a b c d : ℕ) → a % prime ≡ c % prime → b % prime ≡ d % prime → a * b % prime ≡ c * d % prime
mul_congruent a b c d p q =
    let r = c % prime in
    let s = d % prime in
    same_remainders r s (a / prime) (b / prime) (c / prime) (d / prime) (a * b) (c * d)
      (ap₂ ◌*◌ (divided a r p) (divided b s q)) (ap₂ ◌*◌ (divided c r refl) (divided d s refl))

-- `f` is the power `n` of `z`.
abbrev IsPowerOf : Fe → ℕ → Fe → Type 0
IsPowerOf z n f = AreWithin 32 tight f × (value f % prime ≡ value z ^ n % prime)

adds :
    (z : Fe) (m n : ℕ) (f g : Fe)
    → IsPowerOf z m f
    → IsPowerOf z n g
    → IsPowerOf z (m + n) (fe_mul f g)
adds z m n f g (p, e) (q, e') =
    let (product, within, _) = fe_mul-value f g (loosen f p) (loosen g q) in
    (
      within,
      product
          ∙ mul_congruent (value f) (value g) (value z ^ m) (value z ^ n) e e'
          ∙ ap (λ (x : ℕ). x % prime) (pow_add (value z) m n),
    )

once : (a : ℕ) → a ≡ a ^ 1
once a = sym (pow-suc a zero ∙ ap (λ (x : ℕ). x * a) (pow-zero a) ∙ one_times a)

-- On limbs of no more than 2 ^ 26 in magnitude the inverse is the power of exponent p - 2 modulo the
-- prime p, as Fermat's little theorem asks, with limbs of no more than 2 ^ 26.
pub fe_invert-value :
    (z : Fe)
    → AreWithin 32 tight z
    → AreWithin 32 tight (fe_invert z)
      × (value (fe_invert z) % prime ≡ value z ^ (2 ^ 255 - 21) % prime)
fe_invert-value z p =
    fe_invert-power (IsPowerOf z) (adds z) z (p, ap (λ (x : ℕ). x % prime) (once (value z)))
