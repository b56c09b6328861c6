-- ===== src/Curve/Carry.antt =====
-- The carries of `fe_mul` in src/curve25519_ref10.c keep the number that the limbs stand for.
pub mod Steps
use zephyr_secure_supervisor.Base.{ℕ, ◌+◌, ◌-◌, ◌*◌, ◌/◌, ◌^◌, ◌≤◌, ◌≡◌, arith}
use zephyr_secure_supervisor.Curve.Ints.{add, mul}
use zephyr_secure_supervisor.Curve.Field.{Fe, each, carry, less}
use zephyr_secure_supervisor.Curve.Signed.{
  up, down, IsWithin, carry25, carry26, add_parts, mul19_parts,
}

-- The modulus of the field, 2 ^ 255 - 19.
abbrev pub prime : ℕ
prime = 2 ^ 255 - 19

-- The limbs by their weights.
unfoldable pub whole : Fe → ℕ
whole h =
    h.h0
    + 2 ^ 26 * h.h1
    + 2 ^ 51 * h.h2
    + 2 ^ 77 * h.h3
    + 2 ^ 102 * h.h4
    + 2 ^ 128 * h.h5
    + 2 ^ 153 * h.h6
    + 2 ^ 179 * h.h7
    + 2 ^ 204 * h.h8
    + 2 ^ 230 * h.h9

-- The positive and the negative parts of the limbs.
abbrev pub ups : ℕ → Fe → Fe
ups w f = each (up w) f

abbrev pub downs : ℕ → Fe → Fe
downs w f = each (down w) f

-- Each limb within its bound.
pub record AreWithin (w : ℕ) (b h : Fe) : Type 0 where
  pub l0 : IsWithin w b.h0 h.h0
  pub l1 : IsWithin w b.h1 h.h1
  pub l2 : IsWithin w b.h2 h.h2
  pub l3 : IsWithin w b.h3 h.h3
  pub l4 : IsWithin w b.h4 h.h4
  pub l5 : IsWithin w b.h5 h.h5
  pub l6 : IsWithin w b.h6 h.h6
  pub l7 : IsWithin w b.h7 h.h7
  pub l8 : IsWithin w b.h8 h.h8
  pub l9 : IsWithin w b.h9 h.h9

-- The limbs of `g` and of `h` stand for the same number modulo the prime.
pub record AreSame (g h : Fe) : Type 0 where
  pub more : ℕ
  pub fewer : ℕ
  pub same :
      whole (ups 64 h) + whole (downs 64 g) + prime * more
      ≡ whole (downs 64 h) + whole (ups 64 g) + prime * fewer

pub AreSame-trans : (f g h : Fe) → AreSame f g → AreSame g h → AreSame f h
AreSame-trans f g h p q = record {
  more = p.more + q.more;
  fewer = p.fewer + q.fewer;
  same = omega (arith, p.same, q.same);
}

abbrev pub limit : ℕ
limit = 2 ^ 62 + 2 ^ 61

-- A carry between two neighbours.
abbrev pub IsMoved : ℕ → ℕ → ℕ → ℕ → ℕ → Type 0
IsMoved k b d lo hi =
    let c = carry 64 k lo in
    let low = less 64 k lo c in
    let next = add 64 hi c in
    (up 64 low + 2 ^ k * up 64 next + (down 64 lo + 2 ^ k * down 64 hi)
      ≡ down 64 low + 2 ^ k * down 64 next + (up 64 lo + 2 ^ k * up 64 hi))
    × IsWithin 64 (2 ^ (k - 1)) low
    × IsWithin 64 (d + (b / 2 ^ k + 1)) next

module _ (b d lo hi : ℕ) (p : IsWithin 64 b lo) (q : IsWithin 64 d hi) (r : b ≤ limit)
    (s : d ≤ limit) where
  pub carry26-IsMoved : IsMoved 26 b d lo hi
  carry26-IsMoved =
      let (e, low, out) = carry26 b lo p r in
      let (e', next) = add_parts d (b / 2 ^ 26 + 1) hi (carry 64 26 lo) q out (omega arith) in
      (omega (arith, e, e'), low, next)

  pub carry25-IsMoved : IsMoved 25 b d lo hi
  carry25-IsMoved =
      let (e, low, out) = carry25 b lo p r in
      let (e', next) = add_parts d (b / 2 ^ 25 + 1) hi (carry 64 25 lo) q out (omega arith) in
      (omega (arith, e, e'), low, next)

  -- From the last limb into the first.
  pub carry_around :
      let c = carry 64 25 lo in
      let low = less 64 25 lo c in
      let next = add 64 hi (mul 64 c 19) in
      (19 * up 64 low + 2 ^ 25 * up 64 next + (19 * down 64 lo + 2 ^ 25 * down 64 hi)
        ≡ 19 * down 64 low + 2 ^ 25 * down 64 next + (19 * up 64 lo + 2 ^ 25 * up 64 hi))
      × (up 64 next + down 64 hi + 19 * down 64 c ≡ down 64 next + up 64 hi + 19 * up 64 c)
      × IsWithin 64 (2 ^ 24) low
      × IsWithin 64 (d + 19 * (b / 2 ^ 25 + 1)) next
  carry_around =
      let c = carry 64 25 lo in
      let (e, low, out) = carry25 b lo p r in
      let (u, v, nineteen) = mul19_parts (b / 2 ^ 25 + 1) c out (omega arith) in
      let (e', next) =
        add_parts d (19 * (b / 2 ^ 25 + 1)) hi (mul 64 c 19) q nineteen (omega arith) in
      (omega (arith, e, e', u, v), omega (arith, e', u, v), low, next)
