-- ===== src/Curve/Written.antt =====
-- The bytes that `fe_tobytes` of src/curve25519_ref10.c writes of limbs that no carry changes.
use zephyr_secure_supervisor.Base.{
  ℕ, ◌+◌, ◌-◌, ◌*◌, ◌/◌, ◌^◌, ◌<◌, ◌≡◌, ap, ap₂, ◌∙◌, bit_or, bit_or_fields, u8, List, [], ◌∷◌,
  drop, arith,
}
use zephyr_secure_supervisor.Curve.Ints.{shl, sar}
use zephyr_secure_supervisor.Curve.Field.{Fe}
use zephyr_secure_supervisor.Curve.Encoding.{byte_of_limb, byte_across, bytes_of, fe_tobytes}
use zephyr_secure_supervisor.Curve.Carry.{whole}
use zephyr_secure_supervisor.Curve.Small.{AreSmall, reduce_still}

-- The number that bytes stand for, the lowest first.
unfoldable pub number : List ℕ → ℕ
number [] = 0
number (x ∷ xs) = x + 256 * number xs

across :
    (t k next j : ℕ)
    → sar 32 t k ≡ t / 2 ^ k
    → shl 32 next j ≡ next * 2 ^ j
    → t / 2 ^ k < 2 ^ j
    → byte_across t k next j ≡ u8 (t / 2 ^ k + next * 2 ^ j)
across t k next j e e' h =
    ap₂ (λ (a b : ℕ). u8 (bit_or a b)) e e' ∙ ap u8 (bit_or_fields j (t / 2 ^ k) next h)

-- Three bytes of a limb, the first of them shared with the limb before.
abbrev Joins : ℕ → ℕ → ℕ → ℕ → Type 0
Joins k j t next =
    byte_across t k next j
      + 256 * byte_of_limb next (8 - j)
      + 65536 * byte_of_limb next (16 - j)
      + 16777216 * (next / 2 ^ (24 - j))
    ≡ t / 2 ^ k + next * 2 ^ j

first :
    (t : ℕ)
    → t < 2 ^ 25
    → byte_of_limb t 0
        + 256 * byte_of_limb t 8
        + 65536 * byte_of_limb t 16
        + 16777216 * (t / 2 ^ 24)
      ≡ t
first t h = ground arith

last : (t : ℕ) → t < 2 ^ 25 → byte_of_limb t 18 ≡ t / 2 ^ 18
last t h = ground arith

shared_byte_24_2 : (t next : ℕ) → t < 2 ^ 25 → next < 2 ^ 25 → Joins 24 2 t next
shared_byte_24_2 t next p q =
    let shared = across t 24 next 2 (ground arith) (omega arith) (omega arith) in
    ground (arith, shared)

shared_byte_22_3 : (t next : ℕ) → t < 2 ^ 25 → next < 2 ^ 25 → Joins 22 3 t next
shared_byte_22_3 t next p q =
    let shared = across t 22 next 3 (ground arith) (omega arith) (omega arith) in
    ground (arith, shared)

shared_byte_21_5 : (t next : ℕ) → t < 2 ^ 25 → next < 2 ^ 25 → Joins 21 5 t next
shared_byte_21_5 t next p q =
    let shared = across t 21 next 5 (ground arith) (omega arith) (omega arith) in
    ground (arith, shared)

shared_byte_19_6 : (t next : ℕ) → t < 2 ^ 25 → next < 2 ^ 25 → Joins 19 6 t next
shared_byte_19_6 t next p q =
    let shared = across t 19 next 6 (ground arith) (omega arith) (omega arith) in
    ground (arith, shared)

shared_byte_24_1 : (t next : ℕ) → t < 2 ^ 25 → next < 2 ^ 25 → Joins 24 1 t next
shared_byte_24_1 t next p q =
    let shared = across t 24 next 1 (ground arith) (omega arith) (omega arith) in
    ground (arith, shared)

shared_byte_23_3 : (t next : ℕ) → t < 2 ^ 25 → next < 2 ^ 25 → Joins 23 3 t next
shared_byte_23_3 t next p q =
    let shared = across t 23 next 3 (ground arith) (omega arith) (omega arith) in
    ground (arith, shared)

shared_byte_21_4 : (t next : ℕ) → t < 2 ^ 25 → next < 2 ^ 25 → Joins 21 4 t next
shared_byte_21_4 t next p q =
    let shared = across t 21 next 4 (ground arith) (omega arith) (omega arith) in
    ground (arith, shared)

shared_byte_20_6 : (t next : ℕ) → t < 2 ^ 25 → next < 2 ^ 25 → Joins 20 6 t next
shared_byte_20_6 t next p q =
    let shared = across t 20 next 6 (ground arith) (omega arith) (omega arith) in
    ground (arith, shared)

topped :
    (t next a b c q : ℕ)
    → a + 256 * b + 65536 * c + 16777216 * (next / 2 ^ 18) ≡ q + next * 2 ^ 6
    → next < 2 ^ 25
    → a + 256 * b + 65536 * c + 16777216 * byte_of_limb next 18 ≡ q + next * 64
topped t next a b c q e h = omega (arith, e, last next h)

-- The sixteen bytes of five limbs.
lower_half :
    (b0 b1 b2 b3 b4 b5 b6 b7 b8 b9 b10 b11 b12 b13 b14 b15 t0 t1 t2 t3 t4 q0 q1 q2 q3 later : ℕ)
    → b0 + 256 * b1 + 65536 * b2 + 16777216 * q0 ≡ t0
    → b3 + 256 * b4 + 65536 * b5 + 16777216 * q1 ≡ q0 + t1 * 4
    → b6 + 256 * b7 + 65536 * b8 + 16777216 * q2 ≡ q1 + t2 * 8
    → b9 + 256 * b10 + 65536 * b11 + 16777216 * q3 ≡ q2 + t3 * 32
    → b12 + 256 * b13 + 65536 * b14 + 16777216 * b15 ≡ q3 + t4 * 64
    → b0
        + 256
          * (b1
              + 256
                * (b2
                    + 256
                      * (b3
                          + 256
                            * (b4
                                + 256
                                  * (b5
                                      + 256
                                        * (b6
                                            + 256
                                              * (b7
                                                  + 256
                                                    * (b8
                                                        + 256
                                                          * (b9
                                                            + 256
                                                            * (b10
                                                            + 256
                                                            * (b11
                                                            + 256
                                                            * (b12
                                                            + 256
                                                            * (b13
                                                            + 256
                                                            * (b14
                                                            + 256
                                                            * (b15 + 256 * (later))))))))))))))))
      ≡ t0 + 2 ^ 26 * t1 + 2 ^ 51 * t2 + 2 ^ 77 * t3 + 2 ^ 102 * t4 + 2 ^ 128 * later
lower_half b0 b1 b2 b3 b4 b5 b6 b7 b8 b9 b10 b11 b12 b13 b14 b15 t0 t1 t2 t3 t4 q0 q1 q2 q3 later e0
      e1 e2 e3 e4 =
    omega arith

upper_half :
    (b0 b1 b2 b3 b4 b5 b6 b7 b8 b9 b10 b11 b12 b13 b14 b15 t0 t1 t2 t3 t4 q0 q1 q2 q3 later : ℕ)
    → b0 + 256 * b1 + 65536 * b2 + 16777216 * q0 ≡ t0
    → b3 + 256 * b4 + 65536 * b5 + 16777216 * q1 ≡ q0 + t1 * 2
    → b6 + 256 * b7 + 65536 * b8 + 16777216 * q2 ≡ q1 + t2 * 8
    → b9 + 256 * b10 + 65536 * b11 + 16777216 * q3 ≡ q2 + t3 * 16
    → b12 + 256 * b13 + 65536 * b14 + 16777216 * b15 ≡ q3 + t4 * 64
    → b0
        + 256
          * (b1
              + 256
                * (b2
                    + 256
                      * (b3
                          + 256
                            * (b4
                                + 256
                                  * (b5
                                      + 256
                                        * (b6
                                            + 256
                                              * (b7
                                                  + 256
                                                    * (b8
                                                        + 256
                                                          * (b9
                                                            + 256
                                                            * (b10
                                                            + 256
                                                            * (b11
                                                            + 256
                                                            * (b12
                                                            + 256
                                                            * (b13
                                                            + 256
                                                            * (b14
                                                            + 256
                                                            * (b15 + 256 * (later))))))))))))))))
      ≡ t0 + 2 ^ 25 * t1 + 2 ^ 51 * t2 + 2 ^ 76 * t3 + 2 ^ 102 * t4 + 2 ^ 128 * later
upper_half b0 b1 b2 b3 b4 b5 b6 b7 b8 b9 b10 b11 b12 b13 b14 b15 t0 t1 t2 t3 t4 q0 q1 q2 q3 later e0
      e1 e2 e3 e4 =
    omega arith

module _ (f : Fe) (p : AreSmall f) where
  upper_number :
      number (drop 16 (bytes_of f))
      ≡ f.h5 + 2 ^ 25 * f.h6 + 2 ^ 51 * f.h7 + 2 ^ 76 * f.h8 + 2 ^ 102 * f.h9 + 2 ^ 128 * 0
  unfolding number bytes_of
  upper_number =
      upper_half (byte_of_limb f.h5 0) (byte_of_limb f.h5 8) (byte_of_limb f.h5 16)
        (byte_across f.h5 24 f.h6 1) (byte_of_limb f.h6 7) (byte_of_limb f.h6 15)
        (byte_across f.h6 23 f.h7 3) (byte_of_limb f.h7 5) (byte_of_limb f.h7 13)
        (byte_across f.h7 21 f.h8 4) (byte_of_limb f.h8 4) (byte_of_limb f.h8 12)
        (byte_across f.h8 20 f.h9 6) (byte_of_limb f.h9 2) (byte_of_limb f.h9 10)
        (byte_of_limb f.h9 18) f.h5 f.h6 f.h7 f.h8 f.h9 (f.h5 / 2 ^ 24) (f.h6 / 2 ^ 23)
        (f.h7 / 2 ^ 21) (f.h8 / 2 ^ 20) 0 (first f.h5 (omega (arith, p.l5)))
        (shared_byte_24_1 f.h5 f.h6 (omega (arith, p.l5)) (omega (arith, p.l6)))
        (shared_byte_23_3 f.h6 f.h7 (omega (arith, p.l6)) (omega (arith, p.l7)))
        (shared_byte_21_4 f.h7 f.h8 (omega (arith, p.l7)) (omega (arith, p.l8)))
        (topped f.h8 f.h9 (byte_across f.h8 20 f.h9 6) (byte_of_limb f.h9 2) (byte_of_limb f.h9 10)
          (f.h8 / 2 ^ 20) (shared_byte_20_6 f.h8 f.h9 (omega (arith, p.l8)) (omega (arith, p.l9)))
          (omega (arith, p.l9)))

  lower_number :
      number (bytes_of f)
      ≡ f.h0
        + 2 ^ 26 * f.h1
        + 2 ^ 51 * f.h2
        + 2 ^ 77 * f.h3
        + 2 ^ 102 * f.h4
        + 2 ^ 128 * number (drop 16 (bytes_of f))
  unfolding number bytes_of
  lower_number =
      let later = number (drop 16 (bytes_of f)) in
      lower_half (byte_of_limb f.h0 0) (byte_of_limb f.h0 8) (byte_of_limb f.h0 16)
        (byte_across f.h0 24 f.h1 2) (byte_of_limb f.h1 6) (byte_of_limb f.h1 14)
        (byte_across f.h1 22 f.h2 3) (byte_of_limb f.h2 5) (byte_of_limb f.h2 13)
        (byte_across f.h2 21 f.h3 5) (byte_of_limb f.h3 3) (byte_of_limb f.h3 11)
        (byte_across f.h3 19 f.h4 6) (byte_of_limb f.h4 2) (byte_of_limb f.h4 10)
        (byte_of_limb f.h4 18) f.h0 f.h1 f.h2 f.h3 f.h4 (f.h0 / 2 ^ 24) (f.h1 / 2 ^ 22)
        (f.h2 / 2 ^ 21) (f.h3 / 2 ^ 19) later (first f.h0 (omega (arith, p.l0)))
        (shared_byte_24_2 f.h0 f.h1 (omega (arith, p.l0)) (omega (arith, p.l1)))
        (shared_byte_22_3 f.h1 f.h2 (omega (arith, p.l1)) (omega (arith, p.l2)))
        (shared_byte_21_5 f.h2 f.h3 (omega (arith, p.l2)) (omega (arith, p.l3)))
        (topped f.h3 f.h4 (byte_across f.h3 19 f.h4 6) (byte_of_limb f.h4 2) (byte_of_limb f.h4 10)
          (f.h3 / 2 ^ 19) (shared_byte_19_6 f.h3 f.h4 (omega (arith, p.l3)) (omega (arith, p.l4)))
          (omega (arith, p.l4)))

  both_halves :
      (u : ℕ)
      → u ≡ f.h5 + 2 ^ 25 * f.h6 + 2 ^ 51 * f.h7 + 2 ^ 76 * f.h8 + 2 ^ 102 * f.h9 + 2 ^ 128 * 0
      → f.h0 + 2 ^ 26 * f.h1 + 2 ^ 51 * f.h2 + 2 ^ 77 * f.h3 + 2 ^ 102 * f.h4 + 2 ^ 128 * u
        ≡ whole f
  unfolding whole
  both_halves u e = omega (arith, e)

  -- On limbs that are not negative and below half their range, the bytes stand for the number that the
  -- limbs stand for.
  pub fe_tobytes-number : number (fe_tobytes f) ≡ whole f
  unfolding fe_tobytes
  fe_tobytes-number =
      ap (λ (g : Fe). number (bytes_of g)) (reduce_still f p)
      ∙ lower_number
      ∙ both_halves (number (drop 16 (bytes_of f))) upper_number
