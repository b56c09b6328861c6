-- ===== src/Curve/Value.antt =====
-- `fe_mul` of src/curve25519_ref10.c is the product modulo 2 ^ 255 - 19, on limbs that may be sums.
use zephyr_secure_supervisor.Base.{ℕ, ◌+◌, ◌-◌, ◌*◌, ◌%◌, ◌^◌, ◌≤◌, ◌≡◌, ltb, if◌then◌else◌, arith}
use zephyr_secure_supervisor.Curve.Ints.{wrap}
use zephyr_secure_supervisor.Curve.Field.{Fe, fe_0, each, each_two, products, carry_chain, fe_mul}
use zephyr_secure_supervisor.Curve.Signed.{up, down, sign, IsWithin, product_parts, narrow_parts}
use zephyr_secure_supervisor.Curve.Carry.{prime, whole, ups, downs, AreWithin, AreSame}
use zephyr_secure_supervisor.Curve.Carry.Steps.{
  Carried, carry_limb0_lem, carry_limb1_lem, carry_limb2_lem, carry_limb3_lem, carry_limb4_lem,
  carry_limb5_lem, carry_limb6_lem, carry_limb7_lem, carry_limb8_lem, carry_limb9_lem,
}
use zephyr_secure_supervisor.Curve.Rows.{convolve, wide, positive, negative, magnitudes, AllAtMost}
use zephyr_secure_supervisor.Curve.Rows.Low.{row0, row1, row2, row3}
use zephyr_secure_supervisor.Curve.Rows.Middle.{row4, row5, row6}
use zephyr_secure_supervisor.Curve.Rows.High.{row7, row8, row9}
use zephyr_secure_supervisor.Curve.Convolution.{overflow, whole-convolve, whole-add, whole_balance}

-- The number that an int32_t stands for, modulo the prime.
abbrev pub residue : ℕ → ℕ
residue x = if ltb x (2 ^ 31) then x else x + (prime - 2 ^ 32)

-- The number that the limbs stand for.
abbrev pub value : Fe → ℕ
value f = whole (each residue f)

-- Limbs of no more than 2 ^ 26 in magnitude.
abbrev pub tight : Fe
tight = each (λ a. 2 ^ 26) fe_0

residue_parts :
    (x : ℕ) → IsWithin 32 (2 ^ 27) x → residue x + down 32 x ≡ up 32 x + prime * sign 32 x
residue_parts x h = ground arith

pub value_parts :
    (f : Fe)
    → AreWithin 32 wide f
    → value f + whole (downs 32 f) ≡ whole (ups 32 f) + prime * whole (each (sign 32) f)
unfolding whole
value_parts f p = omega (
  arith,
  residue_parts f.h0 p.l0,
  residue_parts f.h1 p.l1,
  residue_parts f.h2 p.l2,
  residue_parts f.h3 p.l3,
  residue_parts f.h4 p.l4,
  residue_parts f.h5 p.l5,
  residue_parts f.h6 p.l6,
  residue_parts f.h7 p.l7,
  residue_parts f.h8 p.l8,
  residue_parts f.h9 p.l9,
)

-- The sums before the carries.
abbrev sums : Fe
sums = each (λ a. 2 ^ 62 + 2 ^ 60) fe_0

-- Each limb after the carries.
abbrev within_tight : (b x : ℕ) → IsWithin 64 b x → b ≤ 2 ^ 26 → IsWithin 64 (2 ^ 26) x
within_tight b x h le = record { fits = h.fits; small = omega (arith, h.small) }

carry_chain-Carried :
    (h : Fe) → AreWithin 64 sums h → AreWithin 64 tight (carry_chain h) × AreSame h (carry_chain h)
unfolding carry_chain
carry_chain-Carried h p =
    let s : Carried h sums h = record {
      within = p;
      same = record { more = 0; fewer = 0; same = omega arith };
    } in
    let s0 = carry_limb0_lem h _ _ s (omega arith) (omega arith) in
    let s1 = carry_limb4_lem h _ _ s0 (omega arith) (omega arith) in
    let s2 = carry_limb1_lem h _ _ s1 (omega arith) (omega arith) in
    let s3 = carry_limb5_lem h _ _ s2 (omega arith) (omega arith) in
    let s4 = carry_limb2_lem h _ _ s3 (omega arith) (omega arith) in
    let s5 = carry_limb6_lem h _ _ s4 (omega arith) (omega arith) in
    let s6 = carry_limb3_lem h _ _ s5 (omega arith) (omega arith) in
    let s7 = carry_limb7_lem h _ _ s6 (omega arith) (omega arith) in
    let s8 = carry_limb4_lem h _ _ s7 (omega arith) (omega arith) in
    let s9 = carry_limb8_lem h _ _ s8 (omega arith) (omega arith) in
    let s10 = carry_limb9_lem h _ _ s9 (omega arith) (omega arith) in
    let s11 = carry_limb0_lem h _ _ s10 (omega arith) (omega arith) in
    let w = s11.within in
    (
      record {
        l0 = within_tight _ _ w.l0 (omega arith);
        l1 = within_tight _ _ w.l1 (omega arith);
        l2 = within_tight _ _ w.l2 (omega arith);
        l3 = within_tight _ _ w.l3 (omega arith);
        l4 = within_tight _ _ w.l4 (omega arith);
        l5 = within_tight _ _ w.l5 (omega arith);
        l6 = within_tight _ _ w.l6 (omega arith);
        l7 = within_tight _ _ w.l7 (omega arith);
        l8 = within_tight _ _ w.l8 (omega arith);
        l9 = within_tight _ _ w.l9 (omega arith);
      },
      s11.same,
    )

narrow-AreWithin :
    (h : Fe)
    → AreWithin 64 tight h
    → let n = each (wrap 32) h in
      AreWithin 32 tight n
      × (whole (ups 32 n) ≡ whole (ups 64 h))
      × (whole (downs 32 n) ≡ whole (downs 64 h))
unfolding whole
narrow-AreWithin h p =
    let (u0, d0, n0) = narrow_parts h.h0 p.l0 in
    let (u1, d1, n1) = narrow_parts h.h1 p.l1 in
    let (u2, d2, n2) = narrow_parts h.h2 p.l2 in
    let (u3, d3, n3) = narrow_parts h.h3 p.l3 in
    let (u4, d4, n4) = narrow_parts h.h4 p.l4 in
    let (u5, d5, n5) = narrow_parts h.h5 p.l5 in
    let (u6, d6, n6) = narrow_parts h.h6 p.l6 in
    let (u7, d7, n7) = narrow_parts h.h7 p.l7 in
    let (u8, d8, n8) = narrow_parts h.h8 p.l8 in
    let (u9, d9, n9) = narrow_parts h.h9 p.l9 in
    (
      record {
        l0 = n0;
        l1 = n1;
        l2 = n2;
        l3 = n3;
        l4 = n4;
        l5 = n5;
        l6 = n6;
        l7 = n7;
        l8 = n8;
        l9 = n9;
      },
      omega (arith, u0, u1, u2, u3, u4, u5, u6, u7, u8, u9),
      omega (arith, d0, d1, d2, d3, d4, d5, d6, d7, d8, d9),
    )

products-parts :
    (f g : Fe)
    → AreWithin 32 wide f
    → AreWithin 32 wide g
    → AreWithin 64 sums (products f g)
      × (whole (ups 64 (products f g)) + whole (negative f g)
          ≡ whole (downs 64 (products f g)) + whole (positive f g))
      × AllAtMost (2 ^ 62 + 2 ^ 60) (magnitudes f g)
products-parts f g p q =
    let (e0, w0, b0) = row0 f g p q in
    let (e1, w1, b1) = row1 f g p q in
    let (e2, w2, b2) = row2 f g p q in
    let (e3, w3, b3) = row3 f g p q in
    let (e4, w4, b4) = row4 f g p q in
    let (e5, w5, b5) = row5 f g p q in
    let (e6, w6, b6) = row6 f g p q in
    let (e7, w7, b7) = row7 f g p q in
    let (e8, w8, b8) = row8 f g p q in
    let (e9, w9, b9) = row9 f g p q in
    (
      record {
        l0 = w0;
        l1 = w1;
        l2 = w2;
        l3 = w3;
        l4 = w4;
        l5 = w5;
        l6 = w6;
        l7 = w7;
        l8 = w8;
        l9 = w9;
      },
      whole_balance (ups 64 (products f g)) (negative f g) (downs 64 (products f g)) (positive f g)
          e0 e1 e2 e3 e4 e5 e6 e7 e8 e9,
      (b0, b1, b2, b3, b4, b5, b6, b7, b8, b9),
    )

-- A tight limb is a wide one.
pub loosen : (f : Fe) → AreWithin 32 tight f → AreWithin 32 wide f
loosen f p = record {
  l0 = record { fits = p.l0.fits; small = omega (arith, p.l0.small) };
  l1 = record { fits = p.l1.fits; small = omega (arith, p.l1.small) };
  l2 = record { fits = p.l2.fits; small = omega (arith, p.l2.small) };
  l3 = record { fits = p.l3.fits; small = omega (arith, p.l3.small) };
  l4 = record { fits = p.l4.fits; small = omega (arith, p.l4.small) };
  l5 = record { fits = p.l5.fits; small = omega (arith, p.l5.small) };
  l6 = record { fits = p.l6.fits; small = omega (arith, p.l6.small) };
  l7 = record { fits = p.l7.fits; small = omega (arith, p.l7.small) };
  l8 = record { fits = p.l8.fits; small = omega (arith, p.l8.small) };
  l9 = record { fits = p.l9.fits; small = omega (arith, p.l9.small) };
}

-- Two products of wholes.
crosses :
    (a b c d : Fe)
    → whole a * whole b + whole c * whole d
      ≡ whole (each_two ◌+◌ (convolve a b) (convolve c d)) + prime * (overflow a b + overflow c d)
crosses a b c d =
    omega (arith, whole-convolve a b, whole-convolve c d, whole-add (convolve a b) (convolve c d))

congruence :
    (out m n a b c d s t positive negative x y : ℕ)
    → m + b ≡ a + prime * s
    → n + d ≡ c + prime * t
    → out + negative + prime * x ≡ positive + prime * y
    → (k l : ℕ) → a * c + b * d ≡ positive + prime * k
    → a * d + b * c ≡ negative + prime * l
    → out % prime ≡ m * n % prime
congruence out m n a b c d s t positive negative x y p q e k l more fewer =
    omega (arith, product_parts prime m n a b c d s t p q, e, more, fewer)

module _ (f g h out : Fe) where
  -- From the parts to the numbers.
  combine :
      AreWithin 32 wide f
      → AreWithin 32 wide g
      → AreWithin 32 tight out
      → whole (ups 32 out) ≡ whole (ups 64 h)
      → whole (downs 32 out) ≡ whole (downs 64 h)
      → AreSame (products f g) h
      → whole (ups 64 (products f g)) + whole (negative f g)
        ≡ whole (downs 64 (products f g)) + whole (positive f g)
      → value out % prime ≡ value f * value g % prime
  combine p q o u d same parts =
      let m = value_parts f p in
      let n = value_parts g q in
      congruence (value out) (value f) (value g) (whole (ups 32 f)) (whole (downs 32 f))
        (whole (ups 32 g)) (whole (downs 32 g)) (whole (each (sign 32) f))
        (whole (each (sign 32) g)) (whole (positive f g)) (whole (negative f g)) same.more
        (same.fewer + whole (each (sign 32) out)) m n
        (omega (arith, value_parts out (loosen out o), u, d, same.same, parts))
        (overflow (ups 32 f) (ups 32 g) + overflow (downs 32 f) (downs 32 g))
        (overflow (ups 32 f) (downs 32 g) + overflow (downs 32 f) (ups 32 g))
        (crosses (ups 32 f) (ups 32 g) (downs 32 f) (downs 32 g))
        (crosses (ups 32 f) (downs 32 g) (downs 32 f) (ups 32 g))

-- On limbs of no more than 2 ^ 27 in magnitude, as the sum or the difference of two products has them,
-- the product stands for the product of the two numbers modulo 2 ^ 255 - 19, and its limbs are of no
-- more than 2 ^ 26 in magnitude. The terms of each of the ten sums before the carries, with their
-- factors 2, 19 and 38, together have a magnitude of no more than 2 ^ 62 + 2 ^ 60, so that none of these sums
-- overflows int64_t, in whatever order it is taken.
pub fe_mul-value :
    (f g : Fe)
    → AreWithin 32 wide f
    → AreWithin 32 wide g
    → (value (fe_mul f g) % prime ≡ value f * value g % prime)
      × AreWithin 32 tight (fe_mul f g)
      × AllAtMost (2 ^ 62 + 2 ^ 60) (magnitudes f g)
unfolding fe_mul
fe_mul-value f g p q =
    let h = carry_chain (products f g) in
    let (sums_within, parts, bounds) = products-parts f g p q in
    let (within, same) = carry_chain-Carried (products f g) sums_within in
    let (narrow, u, d) = narrow-AreWithin h within in
    (combine f g h (each (wrap 32) h) p q narrow u d same parts, narrow, bounds)
