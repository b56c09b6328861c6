-- ===== src/Curve/Convolution.antt =====
-- The rows of `fe_mul` in src/curve25519_ref10.c, by their weights, are a product modulo 2 ^ 255 - 19.
use zephyr_secure_supervisor.Base.{ℕ, ◌+◌, ◌*◌, ◌≡◌, arith}
use zephyr_secure_supervisor.Curve.Field.{Fe, each, each_two}
use zephyr_secure_supervisor.Curve.Carry.{prime, whole}
use zephyr_secure_supervisor.Curve.Rows.{convolve}

-- One limb of the second factor.
column : (f : Fe) (b : ℕ) → whole f * b ≡ whole (each (λ a. a * b) f)
unfolding whole
column f b = omega arith

-- What lies above 2 ^ 255, over that power.
unfoldable pub overflow : Fe → Fe → ℕ
overflow f g =
    2 * (f.h1 * g.h9)
    + 1 * (f.h2 * g.h8)
    + 67108864 * (f.h2 * g.h9)
    + 2 * (f.h3 * g.h7)
    + 67108864 * (f.h3 * g.h8)
    + 4503599627370496 * (f.h3 * g.h9)
    + 1 * (f.h4 * g.h6)
    + 67108864 * (f.h4 * g.h7)
    + 2251799813685248 * (f.h4 * g.h8)
    + 151115727451828646838272 * (f.h4 * g.h9)
    + 2 * (f.h5 * g.h5)
    + 67108864 * (f.h5 * g.h6)
    + 4503599627370496 * (f.h5 * g.h7)
    + 151115727451828646838272 * (f.h5 * g.h8)
    + 10141204801825835211973625643008 * (f.h5 * g.h9)
    + 1 * (f.h6 * g.h4)
    + 67108864 * (f.h6 * g.h5)
    + 2251799813685248 * (f.h6 * g.h6)
    + 151115727451828646838272 * (f.h6 * g.h7)
    + 5070602400912917605986812821504 * (f.h6 * g.h8)
    + 340282366920938463463374607431768211456 * (f.h6 * g.h9)
    + 2 * (f.h7 * g.h3)
    + 67108864 * (f.h7 * g.h4)
    + 4503599627370496 * (f.h7 * g.h5)
    + 151115727451828646838272 * (f.h7 * g.h6)
    + 10141204801825835211973625643008 * (f.h7 * g.h7)
    + 340282366920938463463374607431768211456 * (f.h7 * g.h8)
    + 22835963083295358096932575511191922182123945984 * (f.h7 * g.h9)
    + 1 * (f.h8 * g.h2)
    + 67108864 * (f.h8 * g.h3)
    + 2251799813685248 * (f.h8 * g.h4)
    + 151115727451828646838272 * (f.h8 * g.h5)
    + 5070602400912917605986812821504 * (f.h8 * g.h6)
    + 340282366920938463463374607431768211456 * (f.h8 * g.h7)
    + 11417981541647679048466287755595961091061972992 * (f.h8 * g.h8)
    + 766247770432944429179173513575154591809369561091801088 * (f.h8 * g.h9)
    + 2 * (f.h9 * g.h1)
    + 67108864 * (f.h9 * g.h2)
    + 4503599627370496 * (f.h9 * g.h3)
    + 151115727451828646838272 * (f.h9 * g.h4)
    + 10141204801825835211973625643008 * (f.h9 * g.h5)
    + 340282366920938463463374607431768211456 * (f.h9 * g.h6)
    + 22835963083295358096932575511191922182123945984 * (f.h9 * g.h7)
    + 766247770432944429179173513575154591809369561091801088 * (f.h9 * g.h8)
    + 51422017416287688817342786954917203280710495801049370729644032 * (f.h9 * g.h9)

-- With the first factor as one number.
sum_of_columns :
    (n : ℕ) (f g : Fe)
    → ((b : ℕ) → n * b ≡ whole (each (λ a. a * b) f))
    → n * whole g ≡ whole (convolve f g) + prime * overflow f g
unfolding whole convolve overflow
sum_of_columns n f g by = omega (
  arith,
  by g.h0,
  by g.h1,
  by g.h2,
  by g.h3,
  by g.h4,
  by g.h5,
  by g.h6,
  by g.h7,
  by g.h8,
  by g.h9,
)

pub whole-convolve : (f g : Fe) → whole f * whole g ≡ whole (convolve f g) + prime * overflow f g
whole-convolve f g = sum_of_columns (whole f) f g (column f)

-- Sums limb by limb.
pub whole-add : (a b : Fe) → whole (each_two ◌+◌ a b) ≡ whole a + whole b
unfolding whole
whole-add a b = omega arith

pub whole_balance :
    (a b c d : Fe)
    → a.h0 + b.h0 ≡ c.h0 + d.h0
    → a.h1 + b.h1 ≡ c.h1 + d.h1
    → a.h2 + b.h2 ≡ c.h2 + d.h2
    → a.h3 + b.h3 ≡ c.h3 + d.h3
    → a.h4 + b.h4 ≡ c.h4 + d.h4
    → a.h5 + b.h5 ≡ c.h5 + d.h5
    → a.h6 + b.h6 ≡ c.h6 + d.h6
    → a.h7 + b.h7 ≡ c.h7 + d.h7
    → a.h8 + b.h8 ≡ c.h8 + d.h8
    → a.h9 + b.h9 ≡ c.h9 + d.h9
    → whole a + whole b ≡ whole c + whole d
unfolding whole
whole_balance a b c d e0 e1 e2 e3 e4 e5 e6 e7 e8 e9 = omega arith
