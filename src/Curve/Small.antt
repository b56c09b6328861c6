-- ===== src/Curve/Small.antt =====
-- Where `fe_tobytes` of src/curve25519_ref10.c is right: on limbs that no carry changes.
use zephyr_secure_supervisor.Base.{ℕ, ◌^◌, ◌<◌, ◌≡◌, refl, arith}
use zephyr_secure_supervisor.Curve.Ints.{add, mul, shl, sar}
use zephyr_secure_supervisor.Curve.Field.{
  Fe, carry, less, carry_limb0, carry_limb1, carry_limb2, carry_limb3, carry_limb4, carry_limb5,
  carry_limb6, carry_limb7, carry_limb8, carry_limb9,
}
use zephyr_secure_supervisor.Curve.Encoding.{quotient, reduce}

-- No limb is negative, or as large as half its range.
pub record AreSmall (f : Fe) : Type 0 where
  pub l0 : f.h0 < 33554432
  pub l1 : f.h1 < 16777216
  pub l2 : f.h2 < 33554432
  pub l3 : f.h3 < 16777216
  pub l4 : f.h4 < 33554432
  pub l5 : f.h5 < 16777216
  pub l6 : f.h6 < 33554432
  pub l7 : f.h7 < 16777216
  pub l8 : f.h8 < 33554432
  pub l9 : f.h9 < 16777216

still26 :
    (h next : ℕ)
    → h < 2 ^ 25
    → next < 2 ^ 25
    → (add 32 next (carry 32 26 h) ≡ next) × (less 32 26 h (carry 32 26 h) ≡ h)
still26 h next p q = ground arith

still25 :
    (h next : ℕ)
    → h < 2 ^ 24
    → next < 2 ^ 25
    → (add 32 next (carry 32 25 h) ≡ next) × (less 32 25 h (carry 32 25 h) ≡ h)
still25 h next p q = ground arith

still_last :
    (h next : ℕ)
    → h < 2 ^ 24
    → next < 2 ^ 25
    → (add 32 next (mul 32 (carry 32 25 h) 19) ≡ next) × (less 32 25 h (carry 32 25 h) ≡ h)
still_last h next p q = ground arith

-- From the last limb, and from a quotient of 0 on.
first_quotient :
    (t h : ℕ)
    → t < 2 ^ 25
    → h < 2 ^ 24
    → quotient 26 t (sar 32 (add 32 (mul 32 19 h) (2 ^ 24)) 25) ≡ 0
first_quotient t h p q = ground arith

quotient26 : (t q : ℕ) → t < 2 ^ 25 → q ≡ 0 → quotient 26 t q ≡ 0
quotient26 t q p e = ground arith

quotient25 : (t q : ℕ) → t < 2 ^ 24 → q ≡ 0 → quotient 25 t q ≡ 0
quotient25 t q p e = ground arith

no_quotient : (t q : ℕ) → t < 2 ^ 24 → q ≡ 0 → add 32 t (shl 32 q 25) ≡ t
no_quotient t q p e = ground arith

module _ (f : Fe) (p : AreSmall f) where
  still_limb0 : carry_limb0 32 f ≡ f
  unfolding carry_limb0
  still_limb0 =
      let (up, low) = still26 f.h0 f.h1 p.l0 (omega (arith, p.l1)) in
      λ i. record f { h1 = up i; h0 = low i }

  still_limb1 : carry_limb1 32 f ≡ f
  unfolding carry_limb1
  still_limb1 =
      let (up, low) = still25 f.h1 f.h2 p.l1 (omega (arith, p.l2)) in
      λ i. record f { h2 = up i; h1 = low i }

  still_limb2 : carry_limb2 32 f ≡ f
  unfolding carry_limb2
  still_limb2 =
      let (up, low) = still26 f.h2 f.h3 p.l2 (omega (arith, p.l3)) in
      λ i. record f { h3 = up i; h2 = low i }

  still_limb3 : carry_limb3 32 f ≡ f
  unfolding carry_limb3
  still_limb3 =
      let (up, low) = still25 f.h3 f.h4 p.l3 (omega (arith, p.l4)) in
      λ i. record f { h4 = up i; h3 = low i }

  still_limb4 : carry_limb4 32 f ≡ f
  unfolding carry_limb4
  still_limb4 =
      let (up, low) = still26 f.h4 f.h5 p.l4 (omega (arith, p.l5)) in
      λ i. record f { h5 = up i; h4 = low i }

  still_limb5 : carry_limb5 32 f ≡ f
  unfolding carry_limb5
  still_limb5 =
      let (up, low) = still25 f.h5 f.h6 p.l5 (omega (arith, p.l6)) in
      λ i. record f { h6 = up i; h5 = low i }

  still_limb6 : carry_limb6 32 f ≡ f
  unfolding carry_limb6
  still_limb6 =
      let (up, low) = still26 f.h6 f.h7 p.l6 (omega (arith, p.l7)) in
      λ i. record f { h7 = up i; h6 = low i }

  still_limb7 : carry_limb7 32 f ≡ f
  unfolding carry_limb7
  still_limb7 =
      let (up, low) = still25 f.h7 f.h8 p.l7 (omega (arith, p.l8)) in
      λ i. record f { h8 = up i; h7 = low i }

  still_limb8 : carry_limb8 32 f ≡ f
  unfolding carry_limb8
  still_limb8 =
      let (up, low) = still26 f.h8 f.h9 p.l8 (omega (arith, p.l9)) in
      λ i. record f { h9 = up i; h8 = low i }

  still_limb9 : carry_limb9 32 f ≡ f
  unfolding carry_limb9
  still_limb9 =
      let (up, low) = still_last f.h9 f.h0 p.l9 (omega (arith, p.l0)) in
      λ i. record f { h0 = up i; h9 = low i }

  pub reduce_still : reduce f ≡ f
  unfolding reduce
  reduce_still =
      let q0 = first_quotient f.h0 f.h9 p.l0 p.l9 in
      let q1 = quotient25 f.h1 _ p.l1 q0 in
      let q2 = quotient26 f.h2 _ p.l2 q1 in
      let q3 = quotient25 f.h3 _ p.l3 q2 in
      let q4 = quotient26 f.h4 _ p.l4 q3 in
      let q5 = quotient25 f.h5 _ p.l5 q4 in
      let q6 = quotient26 f.h6 _ p.l6 q5 in
      let q7 = quotient25 f.h7 _ p.l7 q6 in
      let q8 = quotient26 f.h8 _ p.l8 q7 in
      let top : Path Fe _ f = λ i. record f { h9 = no_quotient f.h9 _ p.l9 q8 i } in
      rw top (
        rw still_limb0 (
          rw still_limb1 (
            rw still_limb2 (
              rw still_limb3 (
                rw still_limb4 (
                  rw still_limb5 (
                    rw still_limb6 (
                      rw still_limb7 (
                        rw still_limb8
                          (rw still_limb9 (rw still_limb0 (rw still_limb1 refl))))))))))))
