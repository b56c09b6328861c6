-- ===== src/Curve/Rows/Middle.antt =====
-- The middle three rows of the sums of `fe_mul` in src/curve25519_ref10.c.
use zephyr_secure_supervisor.Base.{◌+◌, ◌*◌, arith}
use zephyr_secure_supervisor.Curve.Field.{Fe, products}
use zephyr_secure_supervisor.Curve.Signed.{settled}
use zephyr_secure_supervisor.Curve.Carry.{AreWithin}
use zephyr_secure_supervisor.Curve.Rows.{convolve, wide, positive, negative, pair, IsRow}

module _ (f g : Fe) (p : AreWithin 32 wide f) (q : AreWithin 32 wide g) where
  pub row4 : IsRow (positive f g).h4 (negative f g).h4 (products f g).h4
  unfolding products convolve
  row4 =
      let m0 = pair f.h0 g.h4 p.l0 q.l4 in
      let m1 = pair f.h1 g.h3 p.l1 q.l3 in
      let m2 = pair f.h2 g.h2 p.l2 q.l2 in
      let m3 = pair f.h3 g.h1 p.l3 q.l1 in
      let m4 = pair f.h4 g.h0 p.l4 q.l0 in
      let m5 = pair f.h5 g.h9 p.l5 q.l9 in
      let m6 = pair f.h6 g.h8 p.l6 q.l8 in
      let m7 = pair f.h7 g.h7 p.l7 q.l7 in
      let m8 = pair f.h8 g.h6 p.l8 q.l6 in
      let m9 = pair f.h9 g.h5 p.l9 q.l5 in
      settled _ (positive f g).h4 (negative f g).h4
        (m0.over
          + 2 * m1.over
          + m2.over
          + 2 * m3.over
          + m4.over
          + 38 * m5.over
          + 19 * m6.over
          + 38 * m7.over
          + 19 * m8.over
          + 38 * m9.over)
        (m0.under
          + 2 * m1.under
          + m2.under
          + 2 * m3.under
          + m4.under
          + 38 * m5.under
          + 19 * m6.under
          + 38 * m7.under
          + 19 * m8.under
          + 38 * m9.under)
        (omega (
          arith, m0.product, m1.product, m2.product, m3.product, m4.product, m5.product, m6.product,
          m7.product, m8.product, m9.product,
        ))
        (omega (
          arith, m0.bound, m1.bound, m2.bound, m3.bound, m4.bound, m5.bound, m6.bound, m7.bound,
          m8.bound, m9.bound,
        ))

  pub row5 : IsRow (positive f g).h5 (negative f g).h5 (products f g).h5
  unfolding products convolve
  row5 =
      let m0 = pair f.h0 g.h5 p.l0 q.l5 in
      let m1 = pair f.h1 g.h4 p.l1 q.l4 in
      let m2 = pair f.h2 g.h3 p.l2 q.l3 in
      let m3 = pair f.h3 g.h2 p.l3 q.l2 in
      let m4 = pair f.h4 g.h1 p.l4 q.l1 in
      let m5 = pair f.h5 g.h0 p.l5 q.l0 in
      let m6 = pair f.h6 g.h9 p.l6 q.l9 in
      let m7 = pair f.h7 g.h8 p.l7 q.l8 in
      let m8 = pair f.h8 g.h7 p.l8 q.l7 in
      let m9 = pair f.h9 g.h6 p.l9 q.l6 in
      settled _ (positive f g).h5 (negative f g).h5
        (m0.over
          + m1.over
          + m2.over
          + m3.over
          + m4.over
          + m5.over
          + 19 * m6.over
          + 19 * m7.over
          + 19 * m8.over
          + 19 * m9.over)
        (m0.under
          + m1.under
          + m2.under
          + m3.under
          + m4.under
          + m5.under
          + 19 * m6.under
          + 19 * m7.under
          + 19 * m8.under
          + 19 * m9.under)
        (omega (
          arith, m0.product, m1.product, m2.product, m3.product, m4.product, m5.product, m6.product,
          m7.product, m8.product, m9.product,
        ))
        (omega (
          arith, m0.bound, m1.bound, m2.bound, m3.bound, m4.bound, m5.bound, m6.bound, m7.bound,
          m8.bound, m9.bound,
        ))

  pub row6 : IsRow (positive f g).h6 (negative f g).h6 (products f g).h6
  unfolding products convolve
  row6 =
      let m0 = pair f.h0 g.h6 p.l0 q.l6 in
      let m1 = pair f.h1 g.h5 p.l1 q.l5 in
      let m2 = pair f.h2 g.h4 p.l2 q.l4 in
      let m3 = pair f.h3 g.h3 p.l3 q.l3 in
      let m4 = pair f.h4 g.h2 p.l4 q.l2 in
      let m5 = pair f.h5 g.h1 p.l5 q.l1 in
      let m6 = pair f.h6 g.h0 p.l6 q.l0 in
      let m7 = pair f.h7 g.h9 p.l7 q.l9 in
      let m8 = pair f.h8 g.h8 p.l8 q.l8 in
      let m9 = pair f.h9 g.h7 p.l9 q.l7 in
      settled _ (positive f g).h6 (negative f g).h6
        (m0.over
          + 2 * m1.over
          + m2.over
          + 2 * m3.over
          + m4.over
          + 2 * m5.over
          + m6.over
          + 38 * m7.over
          + 19 * m8.over
          + 38 * m9.over)
        (m0.under
          + 2 * m1.under
          + m2.under
          + 2 * m3.under
          + m4.under
          + 2 * m5.under
          + m6.under
          + 38 * m7.under
          + 19 * m8.under
          + 38 * m9.under)
        (omega (
          arith, m0.product, m1.product, m2.product, m3.product, m4.product, m5.product, m6.product,
          m7.product, m8.product, m9.product,
        ))
        (omega (
          arith, m0.bound, m1.bound, m2.bound, m3.bound, m4.bound, m5.bound, m6.bound, m7.bound,
          m8.bound, m9.bound,
        ))
