-- ===== src/Curve/Round.antt =====
-- What a round of the ladder in src/curve25519_ref10.c computes of the first point.
use zephyr_secure_supervisor.Base.{ℕ, ◌+◌, ◌*◌, ◌%◌, ◌≡◌, ◌∙◌, arith}
use zephyr_secure_supervisor.Curve.Field.{Fe, each_two, fe_add, fe_sub, fe_sq}
use zephyr_secure_supervisor.Curve.Signed.{add32_parts, sub32_parts}
use zephyr_secure_supervisor.Curve.Carry.{prime, whole, ups, downs, AreWithin}
use zephyr_secure_supervisor.Curve.Rows.{wide}
use zephyr_secure_supervisor.Curve.Convolution.{whole-add, whole_balance}
use zephyr_secure_supervisor.Curve.Value.{value, tight, loosen, value_parts, fe_mul-value}
use zephyr_secure_supervisor.Curve.Inverse.{mul_congruent}
use zephyr_secure_supervisor.Curve.Ladder.{Rungs, climb}

module _ (f g : Fe) (p : AreWithin 32 tight f) (q : AreWithin 32 tight g) where
  add_congruence :
      (out : Fe)
      → AreWithin 32 wide out
      → whole (ups 32 out) + whole (each_two ◌+◌ (downs 32 f) (downs 32 g))
        ≡ whole (downs 32 out) + whole (each_two ◌+◌ (ups 32 f) (ups 32 g))
      → value out % prime ≡ (value f + value g) % prime
  add_congruence out w e =
      let m = value_parts f (loosen f p) in
      let n = value_parts g (loosen g q) in
      omega (
        arith,
        e,
        m,
        n,
        value_parts out w,
        whole-add (downs 32 f) (downs 32 g),
        whole-add (ups 32 f) (ups 32 g),
      )

  fe_add-value :
      (value (fe_add f g) % prime ≡ (value f + value g) % prime) × AreWithin 32 wide (fe_add f g)
  unfolding fe_add
  fe_add-value =
      let (e0, w0) = add32_parts f.h0 g.h0 p.l0 q.l0 in
      let (e1, w1) = add32_parts f.h1 g.h1 p.l1 q.l1 in
      let (e2, w2) = add32_parts f.h2 g.h2 p.l2 q.l2 in
      let (e3, w3) = add32_parts f.h3 g.h3 p.l3 q.l3 in
      let (e4, w4) = add32_parts f.h4 g.h4 p.l4 q.l4 in
      let (e5, w5) = add32_parts f.h5 g.h5 p.l5 q.l5 in
      let (e6, w6) = add32_parts f.h6 g.h6 p.l6 q.l6 in
      let (e7, w7) = add32_parts f.h7 g.h7 p.l7 q.l7 in
      let (e8, w8) = add32_parts f.h8 g.h8 p.l8 q.l8 in
      let (e9, w9) = add32_parts f.h9 g.h9 p.l9 q.l9 in
      let within : AreWithin 32 wide (fe_add f g) = record {
        l0 = w0;
        l1 = w1;
        l2 = w2;
        l3 = w3;
        l4 = w4;
        l5 = w5;
        l6 = w6;
        l7 = w7;
        l8 = w8;
        l9 = w9;
      } in
      (
        add_congruence (fe_add f g) within (
            whole_balance (ups 32 (fe_add f g)) (each_two ◌+◌ (downs 32 f) (downs 32 g))
              (downs 32 (fe_add f g)) (each_two ◌+◌ (ups 32 f) (ups 32 g)) e0 e1 e2 e3 e4 e5 e6 e7
              e8 e9),
        within,
      )

  sub_congruence :
      (out : Fe)
      → AreWithin 32 wide out
      → whole (ups 32 out) + whole (each_two ◌+◌ (downs 32 f) (ups 32 g))
        ≡ whole (downs 32 out) + whole (each_two ◌+◌ (ups 32 f) (downs 32 g))
      → (value out + value g) % prime ≡ value f % prime
  sub_congruence out w e =
      let m = value_parts f (loosen f p) in
      let n = value_parts g (loosen g q) in
      omega (
        arith,
        e,
        m,
        n,
        value_parts out w,
        whole-add (downs 32 f) (ups 32 g),
        whole-add (ups 32 f) (downs 32 g),
      )

  fe_sub-value :
      ((value (fe_sub f g) + value g) % prime ≡ value f % prime) × AreWithin 32 wide (fe_sub f g)
  unfolding fe_sub
  fe_sub-value =
      let (e0, w0) = sub32_parts f.h0 g.h0 p.l0 q.l0 in
      let (e1, w1) = sub32_parts f.h1 g.h1 p.l1 q.l1 in
      let (e2, w2) = sub32_parts f.h2 g.h2 p.l2 q.l2 in
      let (e3, w3) = sub32_parts f.h3 g.h3 p.l3 q.l3 in
      let (e4, w4) = sub32_parts f.h4 g.h4 p.l4 q.l4 in
      let (e5, w5) = sub32_parts f.h5 g.h5 p.l5 q.l5 in
      let (e6, w6) = sub32_parts f.h6 g.h6 p.l6 q.l6 in
      let (e7, w7) = sub32_parts f.h7 g.h7 p.l7 q.l7 in
      let (e8, w8) = sub32_parts f.h8 g.h8 p.l8 q.l8 in
      let (e9, w9) = sub32_parts f.h9 g.h9 p.l9 q.l9 in
      let within : AreWithin 32 wide (fe_sub f g) = record {
        l0 = w0;
        l1 = w1;
        l2 = w2;
        l3 = w3;
        l4 = w4;
        l5 = w5;
        l6 = w6;
        l7 = w7;
        l8 = w8;
        l9 = w9;
      } in
      (
        sub_congruence (fe_sub f g) within (
            whole_balance (ups 32 (fe_sub f g)) (each_two ◌+◌ (downs 32 f) (ups 32 g))
              (downs 32 (fe_sub f g)) (each_two ◌+◌ (ups 32 f) (downs 32 g)) e0 e1 e2 e3 e4 e5 e6 e7
              e8 e9),
        within,
      )

-- The square of an element that stands for `a`.
square :
    (f : Fe) (a : ℕ)
    → AreWithin 32 wide f
    → value f % prime ≡ a % prime
    → (value (fe_sq f) % prime ≡ a * a % prime) × AreWithin 32 tight (fe_sq f)
unfolding fe_sq
square f a p e =
    let (product, within, _) = fe_mul-value f f p p in
    (product ∙ mul_congruent (value f) (value f) a a e e, within)

cancelled : (x z b : ℕ) → (x + z) % prime ≡ (b + z) % prime → x % prime ≡ b % prime
cancelled x z b e = omega (arith, e)

-- Where the limbs of `x2` and `z2` are tight, a stands for x2 + z2 and b for x2 - z2 modulo 2 ^ 255 - 19,
-- a round leaves a² b² in `x2` and b⁴ in `x3`, both tight, whatever `x1`, `x3` and `z3` are.
pub climb-value :
    (x1 : Fe) (s : Rungs) (a b : ℕ)
    → AreWithin 32 tight s.x2
    → AreWithin 32 tight s.z2
    → (value s.x2 + value s.z2) % prime ≡ a % prime
    → value s.x2 % prime ≡ (b + value s.z2) % prime
    → let t = climb x1 s in
      ((value t.x2 % prime ≡ a * a * (b * b) % prime) × AreWithin 32 tight t.x2)
      × ((value t.x3 % prime ≡ b * b * (b * b) % prime) × AreWithin 32 tight t.x3)
unfolding climb
climb-value x1 s a b p q e e' =
    let (sum, sum_wide) = fe_add-value s.x2 s.z2 p q in
    let (difference, difference_wide) = fe_sub-value s.x2 s.z2 p q in
    let (aa, aa_tight) = square (fe_add s.x2 s.z2) a sum_wide (sum ∙ e) in
    let sub = fe_sub s.x2 s.z2 in
    let (bb, bb_tight) =
      square sub b difference_wide (cancelled (value sub) (value s.z2) b (difference ∙ e')) in
    let tmp0 = fe_sq (fe_add s.x2 s.z2) in
    let tmp1 = fe_sq sub in
    let (both, both_tight, _) =
      fe_mul-value tmp0 tmp1 (loosen tmp0 aa_tight) (loosen tmp1 bb_tight) in
    (
      (both ∙ mul_congruent (value tmp0) (value tmp1) (a * a) (b * b) aa bb, both_tight),
      square tmp1 (b * b) (loosen tmp1 bb_tight) bb,
    )
