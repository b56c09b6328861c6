-- ===== src/Curve/Signed.antt =====
-- What a bit pattern of src/curve25519_ref10.c stands for: the number `up - down`, of which one is 0.
use zephyr_secure_supervisor.Base.{
  ℕ, ◌+◌, ◌-◌, ◌*◌, ◌/◌, ◌^◌, ◌≤◌, ◌<◌, ◌≡◌, ap, ap₂, ltb, if◌then◌else◌, arith,
}
use zephyr_secure_supervisor.Curve.Ints.{wrap, add, sub, mul, widen}
use zephyr_secure_supervisor.Curve.Field.{carry, less}

abbrev pub up : ℕ → ℕ → ℕ
up w x = if ltb x (2 ^ (w - 1)) then x else 0

abbrev pub down : ℕ → ℕ → ℕ
down w x = if ltb x (2 ^ (w - 1)) then 0 else 2 ^ w - x

-- A pattern of `w` bits for a number of no more than `b` in magnitude.
pub record IsWithin (w b x : ℕ) : Type 0 where
  pub fits : x < 2 ^ w
  pub small : up w x + down w x ≤ b

-- Where the sign is written as a bit.
abbrev pub sign : ℕ → ℕ → ℕ
sign w x = if ltb x (2 ^ (w - 1)) then 0 else 1

pub widen_parts :
    (x : ℕ) → x < 2 ^ 32 → widen x + down 32 x ≡ up 32 x + 18446744073709551616 * sign 32 x
widen_parts x h = ground arith

-- The product of two differences, modulo `m`.
pub product_parts :
    (m x y a b c d s t : ℕ)
    → x + b ≡ a + m * s
    → y + d ≡ c + m * t
    → x * y + (a * d + b * c) + m * (s * d + t * b)
      ≡ a * c + b * d + m * (s * c + t * a + m * s * t)
product_parts m x y a b c d s t p q =
    let both = ap₂ ◌*◌ p q in
    let left = ap (λ (n : ℕ). n * d) p in
    let right = ap (λ (n : ℕ). b * n) q in omega (arith, both, left, right)

-- A sum that wraps still is the number meant, where that is small enough.
pub settled :
    (total p n x y : ℕ)
    → total + n + 18446744073709551616 * x ≡ p + 18446744073709551616 * y
    → p + n ≤ 2 ^ 62 + 2 ^ 60
    → (up 64 (wrap 64 total) + n ≡ down 64 (wrap 64 total) + p)
      × IsWithin 64 (2 ^ 62 + 2 ^ 60) (wrap 64 total)
      × (p + n ≤ 2 ^ 62 + 2 ^ 60)
settled total p n x y e h = ground arith

module _ (b h : ℕ) (within : IsWithin 64 b h) (room : b ≤ 2 ^ 62 + 2 ^ 61) where
  abbrev IsExact : ℕ → Type 0
  IsExact k =
      let c = carry 64 k h in
      let low = less 64 k h c in
      (up 64 low + 2 ^ k * up 64 c + down 64 h ≡ down 64 low + 2 ^ k * down 64 c + up 64 h)
      × IsWithin 64 (2 ^ (k - 1)) low
      × IsWithin 64 (b / 2 ^ k + 1) c

  pub carry26 : IsExact 26
  carry26 = ground arith

  pub carry25 : IsExact 25
  carry25 = ground arith

pub add_parts :
    (b c x y : ℕ)
    → IsWithin 64 b x
    → IsWithin 64 c y
    → b + c ≤ 2 ^ 63 - 1
    → (up 64 (add 64 x y) + down 64 x + down 64 y ≡ down 64 (add 64 x y) + up 64 x + up 64 y)
      × IsWithin 64 (b + c) (add 64 x y)
add_parts b c x y p q room = ground arith

pub mul19_parts :
    (b x : ℕ)
    → IsWithin 64 b x
    → b ≤ 2 ^ 58
    → (up 64 (mul 64 x 19) ≡ 19 * up 64 x)
      × (down 64 (mul 64 x 19) ≡ 19 * down 64 x)
      × IsWithin 64 (19 * b) (mul 64 x 19)
mul19_parts b x p room = ground arith

-- The cast to int32_t.
pub narrow_parts :
    (x : ℕ)
    → IsWithin 64 (2 ^ 26) x
    → (up 32 (wrap 32 x) ≡ up 64 x)
      × (down 32 (wrap 32 x) ≡ down 64 x)
      × IsWithin 32 (2 ^ 26) (wrap 32 x)
narrow_parts x p = ground arith

-- Sums and differences of two int32_t with room to spare.
pub add32_parts :
    (x y : ℕ)
    → IsWithin 32 (2 ^ 26) x
    → IsWithin 32 (2 ^ 26) y
    → (up 32 (add 32 x y) + (down 32 x + down 32 y) ≡ down 32 (add 32 x y) + (up 32 x + up 32 y))
      × IsWithin 32 (2 ^ 27) (add 32 x y)
add32_parts x y p q = ground arith

pub sub32_parts :
    (x y : ℕ)
    → IsWithin 32 (2 ^ 26) x
    → IsWithin 32 (2 ^ 26) y
    → (up 32 (sub 32 x y) + (down 32 x + up 32 y) ≡ down 32 (sub 32 x y) + (up 32 x + down 32 y))
      × IsWithin 32 (2 ^ 27) (sub 32 x y)
sub32_parts x y p q = ground arith
