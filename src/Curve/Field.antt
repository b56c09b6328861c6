-- ===== src/Curve/Field.antt =====
-- The product of field elements in src/curve25519_ref10.c. The child holds the elements, what goes limb
-- by limb, and the carries.
mod Limbs
pub use Limbs.*
unfoldable pub use Limbs.{
  fe_add, fe_sub, fe_mul121666, carry_limb0, carry_limb1, carry_limb2, carry_limb3, carry_limb4,
  carry_limb5, carry_limb6, carry_limb7, carry_limb8, carry_limb9,
}
use zephyr_secure_supervisor.Base.{ℕ, ◌+◌, ◌*◌}
use zephyr_secure_supervisor.Curve.Ints.{wrap, widen}

-- The sums of `fe_mul` before the carries. They wrap once, at the end, which comes to the same.
unfoldable pub products : Fe → Fe → Fe
products f g =
    let f0 = widen f.h0 in
    let f1 = widen f.h1 in
    let f2 = widen f.h2 in
    let f3 = widen f.h3 in
    let f4 = widen f.h4 in
    let f5 = widen f.h5 in
    let f6 = widen f.h6 in
    let f7 = widen f.h7 in
    let f8 = widen f.h8 in
    let f9 = widen f.h9 in
    let g0 = widen g.h0 in
    let g1 = widen g.h1 in
    let g2 = widen g.h2 in
    let g3 = widen g.h3 in
    let g4 = widen g.h4 in
    let g5 = widen g.h5 in
    let g6 = widen g.h6 in
    let g7 = widen g.h7 in
    let g8 = widen g.h8 in
    let g9 = widen g.h9 in
    let g1_19 = 19 * g1 in
    let g2_19 = 19 * g2 in
    let g3_19 = 19 * g3 in
    let g4_19 = 19 * g4 in
    let g5_19 = 19 * g5 in
    let g6_19 = 19 * g6 in
    let g7_19 = 19 * g7 in
    let g8_19 = 19 * g8 in
    let g9_19 = 19 * g9 in
    let f1_2 = 2 * f1 in
    let f3_2 = 2 * f3 in
    let f5_2 = 2 * f5 in
    let f7_2 = 2 * f7 in
    let f9_2 = 2 * f9 in
    record {
      h0 = wrap 64 (
          f0 * g0
          + f1_2 * g9_19
          + f2 * g8_19
          + f3_2 * g7_19
          + f4 * g6_19
          + f5_2 * g5_19
          + f6 * g4_19
          + f7_2 * g3_19
          + f8 * g2_19
          + f9_2 * g1_19);
      h1 = wrap 64 (
          f0 * g1
          + f1 * g0
          + f2 * g9_19
          + f3 * g8_19
          + f4 * g7_19
          + f5 * g6_19
          + f6 * g5_19
          + f7 * g4_19
          + f8 * g3_19
          + f9 * g2_19);
      h2 = wrap 64 (
          f0 * g2
          + f1_2 * g1
          + f2 * g0
          + f3_2 * g9_19
          + f4 * g8_19
          + f5_2 * g7_19
          + f6 * g6_19
          + f7_2 * g5_19
          + f8 * g4_19
          + f9_2 * g3_19);
      h3 = wrap 64 (
          f0 * g3
          + f1 * g2
          + f2 * g1
          + f3 * g0
          + f4 * g9_19
          + f5 * g8_19
          + f6 * g7_19
          + f7 * g6_19
          + f8 * g5_19
          + f9 * g4_19);
      h4 = wrap 64 (
          f0 * g4
          + f1_2 * g3
          + f2 * g2
          + f3_2 * g1
          + f4 * g0
          + f5_2 * g9_19
          + f6 * g8_19
          + f7_2 * g7_19
          + f8 * g6_19
          + f9_2 * g5_19);
      h5 = wrap 64 (
          f0 * g5
          + f1 * g4
          + f2 * g3
          + f3 * g2
          + f4 * g1
          + f5 * g0
          + f6 * g9_19
          + f7 * g8_19
          + f8 * g7_19
          + f9 * g6_19);
      h6 = wrap 64 (
          f0 * g6
          + f1_2 * g5
          + f2 * g4
          + f3_2 * g3
          + f4 * g2
          + f5_2 * g1
          + f6 * g0
          + f7_2 * g9_19
          + f8 * g8_19
          + f9_2 * g7_19);
      h7 = wrap 64 (
          f0 * g7
          + f1 * g6
          + f2 * g5
          + f3 * g4
          + f4 * g3
          + f5 * g2
          + f6 * g1
          + f7 * g0
          + f8 * g9_19
          + f9 * g8_19);
      h8 = wrap 64 (
          f0 * g8
          + f1_2 * g7
          + f2 * g6
          + f3_2 * g5
          + f4 * g4
          + f5_2 * g3
          + f6 * g2
          + f7_2 * g1
          + f8 * g0
          + f9_2 * g9_19);
      h9 = wrap 64 (
          f0 * g9
          + f1 * g8
          + f2 * g7
          + f3 * g6
          + f4 * g5
          + f5 * g4
          + f6 * g3
          + f7 * g2
          + f8 * g1
          + f9 * g0);
    }

-- The carries of `fe_mul`, in the order of the code.
unfoldable pub carry_chain : Fe → Fe
carry_chain h =
    let a = carry_limb5 64 (carry_limb1 64 (carry_limb4 64 (carry_limb0 64 h))) in
    let b = carry_limb7 64 (carry_limb3 64 (carry_limb6 64 (carry_limb2 64 a))) in
    carry_limb0 64 (carry_limb9 64 (carry_limb8 64 (carry_limb4 64 b)))

-- The casts to int32_t come last.
unfoldable pub fe_mul : Fe → Fe → Fe
fe_mul f g = each (wrap 32) (carry_chain (products f g))

unfoldable pub fe_sq : Fe → Fe
fe_sq f = fe_mul f f
