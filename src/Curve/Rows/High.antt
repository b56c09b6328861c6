-- ===== src/Curve/Rows/High.antt =====
-- The last three rows of the sums of `fe_mul` in src/curve25519_ref10.c.
use zephyr_secure_supervisor.Base.{◌+◌, ◌*◌, arith}
use zephyr_secure_supervisor.Curve.Field.{Fe, products}
use zephyr_secure_supervisor.Curve.Signed.{settled}
use zephyr_secure_supervisor.Curve.Carry.{AreWithin}
use zephyr_secure_supervisor.Curve.Rows.{convolve, wide, positive, negative, pair, IsRow}

module _ (f g : Fe) (p : AreWithin 32 wide f) (q : AreWithin 32 wide g) where
  pub row7 : IsRow (positive f g).h7 (negative f g).h7 (products f g).h7
  unfolding products convolve
  row7 =
      let m0 = pair f.h0 g.h7 p.l0 q.l7 in
      let m1 = pair f.h1 g.h6 p.l1 q.l6 in
      let m2 = pair f.h2 g.h5 p.l2 q.l5 in
      let m3 = pair f.h3 g.h4 p.l3 q.l4 in
      let m4 = pair f.h4 g.h3 p.l4 q.l3 in
      let m5 = pair f.h5 g.h2 p.l5 q.l2 in
      let m6 = pair f.h6 g.h1 p.l6 q.l1 in
      let m7 = pair f.h7 g.h0 p.l7 q.l0 in
      let m8 = pair f.h8 g.h9 p.l8 q.l9 in
      let m9 = pair f.h9 g.h8 p.l9 q.l8 in
      settled _ (positive f g).h7 (negative f g).h7
        (m0.over
          + m1.over
          + m2.over
          + m3.over
          + m4.over
          + m5.over
          + m6.over
          + m7.over
          + 19 * m8.over
          + 19 * m9.over)
        (m0.under
          + m1.under
          + m2.under
          + m3.under
          + m4.under
          + m5.under
          + m6.under
          + m7.under
          + 19 * m8.under
          + 19 * m9.under)
        (omega (
          arith, m0.product, m1.product, m2.product, m3.product, m4.product, m5.product, m6.product,
          m7.product, m8.product, m9.product,
        ))
        (omega (
          arith, m0.bound, m1.bound, m2.bound, m3.bound, m4.bound, m5.bound, m6.bound, m7.bound,
          m8.bound, m9.bound,
        ))

  pub row8 : IsRow (positive f g).h8 (negative f g).h8 (products f g).h8
  unfolding products convolve
  row8 =
      let m0 = pair f.h0 g.h8 p.l0 q.l8 in
      let m1 = pair f.h1 g.h7 p.l1 q.l7 in
      let m2 = pair f.h2 g.h6 p.l2 q.l6 in
      let m3 = pair f.h3 g.h5 p.l3 q.l5 in
      let m4 = pair f.h4 g.h4 p.l4 q.l4 in
      let m5 = pair f.h5 g.h3 p.l5 q.l3 in
      let m6 = pair f.h6 g.h2 p.l6 q.l2 in
      let m7 = pair f.h7 g.h1 p.l7 q.l1 in
      let m8 = pair f.h8 g.h0 p.l8 q.l0 in
      let m9 = pair f.h9 g.h9 p.l9 q.l9 in
      settled _ (positive f g).h8 (negative f g).h8
        (m0.over
          + 2 * m1.over
          + m2.over
          + 2 * m3.over
          + m4.over
          + 2 * m5.over
          + m6.over
          + 2 * m7.over
          + m8.over
          + 38 * m9.over)
        (m0.under
          + 2 * m1.under
          + m2.under
          + 2 * m3.under
          + m4.under
          + 2 * m5.under
          + m6.under
          + 2 * m7.under
          + m8.under
          + 38 * m9.under)
        (omega (
          arith, m0.product, m1.product, m2.product, m3.product, m4.product, m5.product, m6.product,
          m7.product, m8.product, m9.product,
        ))
        (omega (
          arith, m0.bound, m1.bound, m2.bound, m3.bound, m4.bound, m5.bound, m6.bound, m7.bound,
          m8.bound, m9.bound,
        ))

  pub row9 : IsRow (positive f g).h9 (negative f g).h9 (products f g).h9
  unfolding products convolve
  row9 =
      let m0 = pair f.h0 g.h9 p.l0 q.l9 in
      let m1 = pair f.h1 g.h8 p.l1 q.l8 in
      let m2 = pair f.h2 g.h7 p.l2 q.l7 in
      let m3 = pair f.h3 g.h6 p.l3 q.l6 in
      let m4 = pair f.h4 g.h5 p.l4 q.l5 in
      let m5 = pair f.h5 g.h4 p.l5 q.l4 in
      let m6 = pair f.h6 g.h3 p.l6 q.l3 in
      let m7 = pair f.h7 g.h2 p.l7 q.l2 in
      let m8 = pair f.h8 g.h1 p.l8 q.l1 in
      let m9 = pair f.h9 g.h0 p.l9 q.l0 in
      settled _ (positive f g).h9 (negative f g).h9
        (m0.over + m1.over + m2.over + m3.over + m4.over + m5.over + m6.over + m7.over + m8.over
          + m9.over)
        (m0.under + m1.under + m2.under + m3.under + m4.under + m5.under + m6.under + m7.under
          + m8.under + m9.under)
        (omega (
          arith, m0.product, m1.product, m2.product, m3.product, m4.product, m5.product, m6.product,
          m7.product, m8.product, m9.product,
        ))
        (omega (
          arith, m0.bound, m1.bound, m2.bound, m3.bound, m4.bound, m5.bound, m6.bound, m7.bound,
          m8.bound, m9.bound,
        ))
