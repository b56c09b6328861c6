-- ===== src/Curve/Rows/Low.antt =====
-- The first four rows of the sums of `fe_mul` in src/curve25519_ref10.c.
use zephyr_secure_supervisor.Base.{◌+◌, ◌*◌, arith}
use zephyr_secure_supervisor.Curve.Field.{Fe, products}
use zephyr_secure_supervisor.Curve.Signed.{settled}
use zephyr_secure_supervisor.Curve.Carry.{AreWithin}
use zephyr_secure_supervisor.Curve.Rows.{convolve, wide, positive, negative, pair, IsRow}

module _ (f g : Fe) (p : AreWithin 32 wide f) (q : AreWithin 32 wide g) where
  pub row0 : IsRow (positive f g).h0 (negative f g).h0 (products f g).h0
  unfolding products convolve
  row0 =
      let m0 = pair f.h0 g.h0 p.l0 q.l0 in
      let m1 = pair f.h1 g.h9 p.l1 q.l9 in
      let m2 = pair f.h2 g.h8 p.l2 q.l8 in
      let m3 = pair f.h3 g.h7 p.l3 q.l7 in
      let m4 = pair f.h4 g.h6 p.l4 q.l6 in
      let m5 = pair f.h5 g.h5 p.l5 q.l5 in
      let m6 = pair f.h6 g.h4 p.l6 q.l4 in
      let m7 = pair f.h7 g.h3 p.l7 q.l3 in
      let m8 = pair f.h8 g.h2 p.l8 q.l2 in
      let m9 = pair f.h9 g.h1 p.l9 q.l1 in
      settled _ (positive f g).h0 (negative f g).h0
        (m0.over
          + 38 * m1.over
          + 19 * m2.over
          + 38 * m3.over
          + 19 * m4.over
          + 38 * m5.over
          + 19 * m6.over
          + 38 * m7.over
          + 19 * m8.over
          + 38 * m9.over)
        (m0.under
          + 38 * m1.under
          + 19 * m2.under
          + 38 * m3.under
          + 19 * m4.under
          + 38 * m5.under
          + 19 * m6.under
          + 38 * m7.under
          + 19 * m8.under
          + 38 * m9.under)
        (omega (
          arith, m0.product, m1.product, m2.product, m3.product, m4.product, m5.product, m6.product,
          m7.product, m8.product, m9.product,
        ))
        (omega (
          arith, m0.bound, m1.bound, m2.bound, m3.bound, m4.bound, m5.bound, m6.bound, m7.bound,
          m8.bound, m9.bound,
        ))

  pub row1 : IsRow (positive f g).h1 (negative f g).h1 (products f g).h1
  unfolding products convolve
  row1 =
      let m0 = pair f.h0 g.h1 p.l0 q.l1 in
      let m1 = pair f.h1 g.h0 p.l1 q.l0 in
      let m2 = pair f.h2 g.h9 p.l2 q.l9 in
      let m3 = pair f.h3 g.h8 p.l3 q.l8 in
      let m4 = pair f.h4 g.h7 p.l4 q.l7 in
      let m5 = pair f.h5 g.h6 p.l5 q.l6 in
      let m6 = pair f.h6 g.h5 p.l6 q.l5 in
      let m7 = pair f.h7 g.h4 p.l7 q.l4 in
      let m8 = pair f.h8 g.h3 p.l8 q.l3 in
      let m9 = pair f.h9 g.h2 p.l9 q.l2 in
      settled _ (positive f g).h1 (negative f g).h1
        (m0.over
          + m1.over
          + 19 * m2.over
          + 19 * m3.over
          + 19 * m4.over
          + 19 * m5.over
          + 19 * m6.over
          + 19 * m7.over
          + 19 * m8.over
          + 19 * m9.over)
        (m0.under
          + m1.under
          + 19 * m2.under
          + 19 * m3.under
          + 19 * m4.under
          + 19 * m5.under
          + 19 * m6.under
          + 19 * m7.under
          + 19 * m8.under
          + 19 * m9.under)
        (omega (
          arith, m0.product, m1.product, m2.product, m3.product, m4.product, m5.product, m6.product,
          m7.product, m8.product, m9.product,
        ))
        (omega (
          arith, m0.bound, m1.bound, m2.bound, m3.bound, m4.bound, m5.bound, m6.bound, m7.bound,
          m8.bound, m9.bound,
        ))

  pub row2 : IsRow (positive f g).h2 (negative f g).h2 (products f g).h2
  unfolding products convolve
  row2 =
      let m0 = pair f.h0 g.h2 p.l0 q.l2 in
      let m1 = pair f.h1 g.h1 p.l1 q.l1 in
      let m2 = pair f.h2 g.h0 p.l2 q.l0 in
      let m3 = pair f.h3 g.h9 p.l3 q.l9 in
      let m4 = pair f.h4 g.h8 p.l4 q.l8 in
      let m5 = pair f.h5 g.h7 p.l5 q.l7 in
      let m6 = pair f.h6 g.h6 p.l6 q.l6 in
      let m7 = pair f.h7 g.h5 p.l7 q.l5 in
      let m8 = pair f.h8 g.h4 p.l8 q.l4 in
      let m9 = pair f.h9 g.h3 p.l9 q.l3 in
      settled _ (positive f g).h2 (negative f g).h2
        (m0.over
          + 2 * m1.over
          + m2.over
          + 38 * m3.over
          + 19 * m4.over
          + 38 * m5.over
          + 19 * m6.over
          + 38 * m7.over
          + 19 * m8.over
          + 38 * m9.over)
        (m0.under
          + 2 * m1.under
          + m2.under
          + 38 * m3.under
          + 19 * m4.under
          + 38 * m5.under
          + 19 * m6.under
          + 38 * m7.under
          + 19 * m8.under
          + 38 * m9.under)
        (omega (
          arith, m0.product, m1.product, m2.product, m3.product, m4.product, m5.product, m6.product,
          m7.product, m8.product, m9.product,
        ))
        (omega (
          arith, m0.bound, m1.bound, m2.bound, m3.bound, m4.bound, m5.bound, m6.bound, m7.bound,
          m8.bound, m9.bound,
        ))

  pub row3 : IsRow (positive f g).h3 (negative f g).h3 (products f g).h3
  unfolding products convolve
  row3 =
      let m0 = pair f.h0 g.h3 p.l0 q.l3 in
      let m1 = pair f.h1 g.h2 p.l1 q.l2 in
      let m2 = pair f.h2 g.h1 p.l2 q.l1 in
      let m3 = pair f.h3 g.h0 p.l3 q.l0 in
      let m4 = pair f.h4 g.h9 p.l4 q.l9 in
      let m5 = pair f.h5 g.h8 p.l5 q.l8 in
      let m6 = pair f.h6 g.h7 p.l6 q.l7 in
      let m7 = pair f.h7 g.h6 p.l7 q.l6 in
      let m8 = pair f.h8 g.h5 p.l8 q.l5 in
      let m9 = pair f.h9 g.h4 p.l9 q.l4 in
      settled _ (positive f g).h3 (negative f g).h3
        (m0.over
          + m1.over
          + m2.over
          + m3.over
          + 19 * m4.over
          + 19 * m5.over
          + 19 * m6.over
          + 19 * m7.over
          + 19 * m8.over
          + 19 * m9.over)
        (m0.under
          + m1.under
          + m2.under
          + m3.under
          + 19 * m4.under
          + 19 * m5.under
          + 19 * m6.under
          + 19 * m7.under
          + 19 * m8.under
          + 19 * m9.under)
        (omega (
          arith, m0.product, m1.product, m2.product, m3.product, m4.product, m5.product, m6.product,
          m7.product, m8.product, m9.product,
        ))
        (omega (
          arith, m0.bound, m1.bound, m2.bound, m3.bound, m4.bound, m5.bound, m6.bound, m7.bound,
          m8.bound, m9.bound,
        ))
