-- ===== src/Curve/Field/Limbs.antt =====
-- The field elements of src/curve25519_ref10.c: ten limbs of 26 and 25 bits in turn.
use zephyr_secure_supervisor.Base.{ℕ, ◌-◌, ◌^◌}
use zephyr_secure_supervisor.Curve.Ints.{add, sub, mul, shl, sar}

-- `fe`, and also the ten sums of `fe_mul`.
pub record Fe : Type 0 where
  pub h0 : ℕ
  pub h1 : ℕ
  pub h2 : ℕ
  pub h3 : ℕ
  pub h4 : ℕ
  pub h5 : ℕ
  pub h6 : ℕ
  pub h7 : ℕ
  pub h8 : ℕ
  pub h9 : ℕ

abbrev pub fe_0 : Fe
fe_0 = record { h0 = 0; h1 = 0; h2 = 0; h3 = 0; h4 = 0; h5 = 0; h6 = 0; h7 = 0; h8 = 0; h9 = 0 }

abbrev pub fe_1 : Fe
fe_1 = record fe_0 { h0 = 1 }

-- The loops over the limbs of two elements and of one.
abbrev pub each_two : (ℕ → ℕ → ℕ) → Fe → Fe → Fe
each_two op f g = record {
  h0 = op f.h0 g.h0;
  h1 = op f.h1 g.h1;
  h2 = op f.h2 g.h2;
  h3 = op f.h3 g.h3;
  h4 = op f.h4 g.h4;
  h5 = op f.h5 g.h5;
  h6 = op f.h6 g.h6;
  h7 = op f.h7 g.h7;
  h8 = op f.h8 g.h8;
  h9 = op f.h9 g.h9;
}

abbrev pub each : (ℕ → ℕ) → Fe → Fe
each op f = record {
  h0 = op f.h0;
  h1 = op f.h1;
  h2 = op f.h2;
  h3 = op f.h3;
  h4 = op f.h4;
  h5 = op f.h5;
  h6 = op f.h6;
  h7 = op f.h7;
  h8 = op f.h8;
  h9 = op f.h9;
}

unfoldable pub fe_add : Fe → Fe → Fe
fe_add f g = each_two (add 32) f g

unfoldable pub fe_sub : Fe → Fe → Fe
fe_sub f g = each_two (sub 32) f g

unfoldable pub fe_mul121666 : Fe → Fe
fe_mul121666 f = each (λ a. mul 32 a 121666) f

-- `(h + (1 << (k - 1))) >> k`, the carry out of a limb of `k` bits, in integers of `w` bits.
abbrev pub carry : ℕ → ℕ → ℕ → ℕ
carry w k h = sar w (add w h (2 ^ (k - 1))) k

-- `h -= c << k`
abbrev pub less : ℕ → ℕ → ℕ → ℕ → ℕ
less w k h c = sub w h (shl w c k)

-- The carry from the limb of each number into the next.
unfoldable pub carry_limb0 : ℕ → Fe → Fe
carry_limb0 w h = let c = carry w 26 h.h0 in record h { h1 = add w h.h1 c; h0 = less w 26 h.h0 c }

unfoldable pub carry_limb1 : ℕ → Fe → Fe
carry_limb1 w h = let c = carry w 25 h.h1 in record h { h2 = add w h.h2 c; h1 = less w 25 h.h1 c }

unfoldable pub carry_limb2 : ℕ → Fe → Fe
carry_limb2 w h = let c = carry w 26 h.h2 in record h { h3 = add w h.h3 c; h2 = less w 26 h.h2 c }

unfoldable pub carry_limb3 : ℕ → Fe → Fe
carry_limb3 w h = let c = carry w 25 h.h3 in record h { h4 = add w h.h4 c; h3 = less w 25 h.h3 c }

unfoldable pub carry_limb4 : ℕ → Fe → Fe
carry_limb4 w h = let c = carry w 26 h.h4 in record h { h5 = add w h.h5 c; h4 = less w 26 h.h4 c }

unfoldable pub carry_limb5 : ℕ → Fe → Fe
carry_limb5 w h = let c = carry w 25 h.h5 in record h { h6 = add w h.h6 c; h5 = less w 25 h.h5 c }

unfoldable pub carry_limb6 : ℕ → Fe → Fe
carry_limb6 w h = let c = carry w 26 h.h6 in record h { h7 = add w h.h7 c; h6 = less w 26 h.h6 c }

unfoldable pub carry_limb7 : ℕ → Fe → Fe
carry_limb7 w h = let c = carry w 25 h.h7 in record h { h8 = add w h.h8 c; h7 = less w 25 h.h7 c }

unfoldable pub carry_limb8 : ℕ → Fe → Fe
carry_limb8 w h = let c = carry w 26 h.h8 in record h { h9 = add w h.h9 c; h8 = less w 26 h.h8 c }

unfoldable pub carry_limb9 : ℕ → Fe → Fe
carry_limb9 w h =
    let c = carry w 25 h.h9 in record h { h0 = add w h.h0 (mul w c 19); h9 = less w 25 h.h9 c }
