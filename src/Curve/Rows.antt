-- ===== src/Curve/Rows.antt =====
-- The sums of `fe_mul` in src/curve25519_ref10.c, row by row: none of them overflows int64_t.
pub mod Low
pub mod Middle
pub mod High
use zephyr_secure_supervisor.Base.{ℕ, ◌+◌, ◌*◌, ◌^◌, ◌≤◌, ◌≡◌, arith}
use native.Mathlib.Nat.{mul-le-mul}
use zephyr_secure_supervisor.Curve.Ints.{widen}
use zephyr_secure_supervisor.Curve.Field.{Fe, fe_0, each, each_two, products}
use zephyr_secure_supervisor.Curve.Signed.{
  up, down, sign, IsWithin, widen_parts, product_parts, settled,
}
use zephyr_secure_supervisor.Curve.Carry.{AreWithin, ups, downs}

-- `products` on numbers without a sign and without a bound.
unfoldable pub convolve : Fe → Fe → Fe
convolve f g = record {
  h0 =
      f.h0 * g.h0
      + 38 * (f.h1 * g.h9)
      + 19 * (f.h2 * g.h8)
      + 38 * (f.h3 * g.h7)
      + 19 * (f.h4 * g.h6)
      + 38 * (f.h5 * g.h5)
      + 19 * (f.h6 * g.h4)
      + 38 * (f.h7 * g.h3)
      + 19 * (f.h8 * g.h2)
      + 38 * (f.h9 * g.h1);
  h1 =
      f.h0 * g.h1
      + f.h1 * g.h0
      + 19 * (f.h2 * g.h9)
      + 19 * (f.h3 * g.h8)
      + 19 * (f.h4 * g.h7)
      + 19 * (f.h5 * g.h6)
      + 19 * (f.h6 * g.h5)
      + 19 * (f.h7 * g.h4)
      + 19 * (f.h8 * g.h3)
      + 19 * (f.h9 * g.h2);
  h2 =
      f.h0 * g.h2
      + 2 * (f.h1 * g.h1)
      + f.h2 * g.h0
      + 38 * (f.h3 * g.h9)
      + 19 * (f.h4 * g.h8)
      + 38 * (f.h5 * g.h7)
      + 19 * (f.h6 * g.h6)
      + 38 * (f.h7 * g.h5)
      + 19 * (f.h8 * g.h4)
      + 38 * (f.h9 * g.h3);
  h3 =
      f.h0 * g.h3
      + f.h1 * g.h2
      + f.h2 * g.h1
      + f.h3 * g.h0
      + 19 * (f.h4 * g.h9)
      + 19 * (f.h5 * g.h8)
      + 19 * (f.h6 * g.h7)
      + 19 * (f.h7 * g.h6)
      + 19 * (f.h8 * g.h5)
      + 19 * (f.h9 * g.h4);
  h4 =
      f.h0 * g.h4
      + 2 * (f.h1 * g.h3)
      + f.h2 * g.h2
      + 2 * (f.h3 * g.h1)
      + f.h4 * g.h0
      + 38 * (f.h5 * g.h9)
      + 19 * (f.h6 * g.h8)
      + 38 * (f.h7 * g.h7)
      + 19 * (f.h8 * g.h6)
      + 38 * (f.h9 * g.h5);
  h5 =
      f.h0 * g.h5
      + f.h1 * g.h4
      + f.h2 * g.h3
      + f.h3 * g.h2
      + f.h4 * g.h1
      + f.h5 * g.h0
      + 19 * (f.h6 * g.h9)
      + 19 * (f.h7 * g.h8)
      + 19 * (f.h8 * g.h7)
      + 19 * (f.h9 * g.h6);
  h6 =
      f.h0 * g.h6
      + 2 * (f.h1 * g.h5)
      + f.h2 * g.h4
      + 2 * (f.h3 * g.h3)
      + f.h4 * g.h2
      + 2 * (f.h5 * g.h1)
      + f.h6 * g.h0
      + 38 * (f.h7 * g.h9)
      + 19 * (f.h8 * g.h8)
      + 38 * (f.h9 * g.h7);
  h7 =
      f.h0 * g.h7
      + f.h1 * g.h6
      + f.h2 * g.h5
      + f.h3 * g.h4
      + f.h4 * g.h3
      + f.h5 * g.h2
      + f.h6 * g.h1
      + f.h7 * g.h0
      + 19 * (f.h8 * g.h9)
      + 19 * (f.h9 * g.h8);
  h8 =
      f.h0 * g.h8
      + 2 * (f.h1 * g.h7)
      + f.h2 * g.h6
      + 2 * (f.h3 * g.h5)
      + f.h4 * g.h4
      + 2 * (f.h5 * g.h3)
      + f.h6 * g.h2
      + 2 * (f.h7 * g.h1)
      + f.h8 * g.h0
      + 38 * (f.h9 * g.h9);
  h9 =
      f.h0 * g.h9
      + f.h1 * g.h8
      + f.h2 * g.h7
      + f.h3 * g.h6
      + f.h4 * g.h5
      + f.h5 * g.h4
      + f.h6 * g.h3
      + f.h7 * g.h2
      + f.h8 * g.h1
      + f.h9 * g.h0;
}

-- What two limbs come to, with the words `over` and `under` that wrap.
pub record Pair (x y : ℕ) : Type 0 where
  pub over : ℕ
  pub under : ℕ
  pub product :
      widen x * widen y + (up 32 x * down 32 y + down 32 x * up 32 y) + 18446744073709551616 * over
      ≡ up 32 x * up 32 y + down 32 x * down 32 y + 18446744073709551616 * under
  pub bound :
      up 32 x * up 32 y + down 32 x * down 32 y + (up 32 x * down 32 y + down 32 x * up 32 y)
      ≤ 2 ^ 54

pair_bound :
    (a b c d : ℕ) → a + b ≤ 2 ^ 27 → c + d ≤ 2 ^ 27 → a * c + b * d + (a * d + b * c) ≤ 2 ^ 54
pair_bound a b c d p q = omega (arith, mul-le-mul p q)

pub pair : (x y : ℕ) → IsWithin 32 (2 ^ 27) x → IsWithin 32 (2 ^ 27) y → Pair x y
pair x y p q = record {
  over = sign 32 x * down 32 y + sign 32 y * down 32 x;
  under = sign 32 x * up 32 y + sign 32 y * up 32 x + 18446744073709551616 * sign 32 x * sign 32 y;
  product =
      product_parts 18446744073709551616 (widen x) (widen y) (up 32 x) (down 32 x) (up 32 y)
        (down 32 y) (sign 32 x) (sign 32 y) (widen_parts x p.fits) (widen_parts y q.fits);
  bound = pair_bound (up 32 x) (down 32 x) (up 32 y) (down 32 y) p.small q.small;
}

-- A row of the sums stands for the same number as that row of the parts, which together are small.
abbrev pub IsRow : (positive negative row : ℕ) → Type 0
IsRow positive negative row =
    (up 64 row + negative ≡ down 64 row + positive)
    × IsWithin 64 (2 ^ 62 + 2 ^ 60) row
    × (positive + negative ≤ 2 ^ 62 + 2 ^ 60)

abbrev pub wide : Fe
wide = each (λ a. 2 ^ 27) fe_0

-- The positive terms of the sums, and the negative ones without their sign.
abbrev pub positive : Fe → Fe → Fe
positive f g = each_two ◌+◌ (convolve (ups 32 f) (ups 32 g)) (convolve (downs 32 f) (downs 32 g))

abbrev pub negative : Fe → Fe → Fe
negative f g = each_two ◌+◌ (convolve (ups 32 f) (downs 32 g)) (convolve (downs 32 f) (ups 32 g))

-- The magnitudes of the terms of each sum, together.
abbrev pub magnitudes : Fe → Fe → Fe
magnitudes f g = each_two ◌+◌ (positive f g) (negative f g)

abbrev pub AllAtMost : ℕ → Fe → Type 0
AllAtMost b f =
    (f.h0 ≤ b)
    × (f.h1 ≤ b)
    × (f.h2 ≤ b)
    × (f.h3 ≤ b)
    × (f.h4 ≤ b)
    × (f.h5 ≤ b)
    × (f.h6 ≤ b)
    × (f.h7 ≤ b)
    × (f.h8 ≤ b)
    × (f.h9 ≤ b)
