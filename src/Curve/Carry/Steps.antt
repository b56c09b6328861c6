-- ===== src/Curve/Carry/Steps.antt =====
-- Each carry of `fe_mul` in src/curve25519_ref10.c, from one limb into the next.
use zephyr_secure_supervisor.Base.{◌+◌, ◌*◌, ◌/◌, ◌^◌, ◌≤◌, arith}
use zephyr_secure_supervisor.Curve.Field.{
  Fe, carry, carry_limb0, carry_limb1, carry_limb2, carry_limb3, carry_limb4, carry_limb5,
  carry_limb6, carry_limb7, carry_limb8, carry_limb9,
}
use zephyr_secure_supervisor.Curve.Signed.{up, down}
use zephyr_secure_supervisor.Curve.Carry.{
  whole, AreWithin, AreSame, AreSame-trans, limit, carry25-IsMoved, carry26-IsMoved, carry_around,
}

-- From `g` the carries have come to `h`, with its limbs within their bounds.
pub record Carried (g b h : Fe) : Type 0 where
  pub within : AreWithin 64 b h
  pub same : AreSame g h

pub carry_limb0_lem :
    (g b h : Fe)
    → Carried g b h
    → b.h0 ≤ limit
    → b.h1 ≤ limit
    → Carried g (record b { h0 = 2 ^ 25; h1 = b.h1 + (b.h0 / 2 ^ 26 + 1) }) (carry_limb0 64 h)
unfolding carry_limb0 whole
carry_limb0_lem g b h s p q =
    let w = s.within in
    let (e, low, next) = carry26-IsMoved b.h0 b.h1 h.h0 h.h1 w.l0 w.l1 p q in
    record {
      within = record {
        l0 = low;
        l1 = next;
        l2 = w.l2;
        l3 = w.l3;
        l4 = w.l4;
        l5 = w.l5;
        l6 = w.l6;
        l7 = w.l7;
        l8 = w.l8;
        l9 = w.l9;
      };
      same =
          AreSame-trans g h (carry_limb0 64 h) s.same
            (record { more = 0; fewer = 0; same = omega (arith, e) });
    }

pub carry_limb1_lem :
    (g b h : Fe)
    → Carried g b h
    → b.h1 ≤ limit
    → b.h2 ≤ limit
    → Carried g (record b { h1 = 2 ^ 24; h2 = b.h2 + (b.h1 / 2 ^ 25 + 1) }) (carry_limb1 64 h)
unfolding carry_limb1 whole
carry_limb1_lem g b h s p q =
    let w = s.within in
    let (e, low, next) = carry25-IsMoved b.h1 b.h2 h.h1 h.h2 w.l1 w.l2 p q in
    record {
      within = record {
        l0 = w.l0;
        l1 = low;
        l2 = next;
        l3 = w.l3;
        l4 = w.l4;
        l5 = w.l5;
        l6 = w.l6;
        l7 = w.l7;
        l8 = w.l8;
        l9 = w.l9;
      };
      same =
          AreSame-trans g h (carry_limb1 64 h) s.same
            (record { more = 0; fewer = 0; same = omega (arith, e) });
    }

pub carry_limb2_lem :
    (g b h : Fe)
    → Carried g b h
    → b.h2 ≤ limit
    → b.h3 ≤ limit
    → Carried g (record b { h2 = 2 ^ 25; h3 = b.h3 + (b.h2 / 2 ^ 26 + 1) }) (carry_limb2 64 h)
unfolding carry_limb2 whole
carry_limb2_lem g b h s p q =
    let w = s.within in
    let (e, low, next) = carry26-IsMoved b.h2 b.h3 h.h2 h.h3 w.l2 w.l3 p q in
    record {
      within = record {
        l0 = w.l0;
        l1 = w.l1;
        l2 = low;
        l3 = next;
        l4 = w.l4;
        l5 = w.l5;
        l6 = w.l6;
        l7 = w.l7;
        l8 = w.l8;
        l9 = w.l9;
      };
      same =
          AreSame-trans g h (carry_limb2 64 h) s.same
            (record { more = 0; fewer = 0; same = omega (arith, e) });
    }

pub carry_limb3_lem :
    (g b h : Fe)
    → Carried g b h
    → b.h3 ≤ limit
    → b.h4 ≤ limit
    → Carried g (record b { h3 = 2 ^ 24; h4 = b.h4 + (b.h3 / 2 ^ 25 + 1) }) (carry_limb3 64 h)
unfolding carry_limb3 whole
carry_limb3_lem g b h s p q =
    let w = s.within in
    let (e, low, next) = carry25-IsMoved b.h3 b.h4 h.h3 h.h4 w.l3 w.l4 p q in
    record {
      within = record {
        l0 = w.l0;
        l1 = w.l1;
        l2 = w.l2;
        l3 = low;
        l4 = next;
        l5 = w.l5;
        l6 = w.l6;
        l7 = w.l7;
        l8 = w.l8;
        l9 = w.l9;
      };
      same =
          AreSame-trans g h (carry_limb3 64 h) s.same
            (record { more = 0; fewer = 0; same = omega (arith, e) });
    }

pub carry_limb4_lem :
    (g b h : Fe)
    → Carried g b h
    → b.h4 ≤ limit
    → b.h5 ≤ limit
    → Carried g (record b { h4 = 2 ^ 25; h5 = b.h5 + (b.h4 / 2 ^ 26 + 1) }) (carry_limb4 64 h)
unfolding carry_limb4 whole
carry_limb4_lem g b h s p q =
    let w = s.within in
    let (e, low, next) = carry26-IsMoved b.h4 b.h5 h.h4 h.h5 w.l4 w.l5 p q in
    record {
      within = record {
        l0 = w.l0;
        l1 = w.l1;
        l2 = w.l2;
        l3 = w.l3;
        l4 = low;
        l5 = next;
        l6 = w.l6;
        l7 = w.l7;
        l8 = w.l8;
        l9 = w.l9;
      };
      same =
          AreSame-trans g h (carry_limb4 64 h) s.same
            (record { more = 0; fewer = 0; same = omega (arith, e) });
    }

pub carry_limb5_lem :
    (g b h : Fe)
    → Carried g b h
    → b.h5 ≤ limit
    → b.h6 ≤ limit
    → Carried g (record b { h5 = 2 ^ 24; h6 = b.h6 + (b.h5 / 2 ^ 25 + 1) }) (carry_limb5 64 h)
unfolding carry_limb5 whole
carry_limb5_lem g b h s p q =
    let w = s.within in
    let (e, low, next) = carry25-IsMoved b.h5 b.h6 h.h5 h.h6 w.l5 w.l6 p q in
    record {
      within = record {
        l0 = w.l0;
        l1 = w.l1;
        l2 = w.l2;
        l3 = w.l3;
        l4 = w.l4;
        l5 = low;
        l6 = next;
        l7 = w.l7;
        l8 = w.l8;
        l9 = w.l9;
      };
      same =
          AreSame-trans g h (carry_limb5 64 h) s.same
            (record { more = 0; fewer = 0; same = omega (arith, e) });
    }

pub carry_limb6_lem :
    (g b h : Fe)
    → Carried g b h
    → b.h6 ≤ limit
    → b.h7 ≤ limit
    → Carried g (record b { h6 = 2 ^ 25; h7 = b.h7 + (b.h6 / 2 ^ 26 + 1) }) (carry_limb6 64 h)
unfolding carry_limb6 whole
carry_limb6_lem g b h s p q =
    let w = s.within in
    let (e, low, next) = carry26-IsMoved b.h6 b.h7 h.h6 h.h7 w.l6 w.l7 p q in
    record {
      within = record {
        l0 = w.l0;
        l1 = w.l1;
        l2 = w.l2;
        l3 = w.l3;
        l4 = w.l4;
        l5 = w.l5;
        l6 = low;
        l7 = next;
        l8 = w.l8;
        l9 = w.l9;
      };
      same =
          AreSame-trans g h (carry_limb6 64 h) s.same
            (record { more = 0; fewer = 0; same = omega (arith, e) });
    }

pub carry_limb7_lem :
    (g b h : Fe)
    → Carried g b h
    → b.h7 ≤ limit
    → b.h8 ≤ limit
    → Carried g (record b { h7 = 2 ^ 24; h8 = b.h8 + (b.h7 / 2 ^ 25 + 1) }) (carry_limb7 64 h)
unfolding carry_limb7 whole
carry_limb7_lem g b h s p q =
    let w = s.within in
    let (e, low, next) = carry25-IsMoved b.h7 b.h8 h.h7 h.h8 w.l7 w.l8 p q in
    record {
      within = record {
        l0 = w.l0;
        l1 = w.l1;
        l2 = w.l2;
        l3 = w.l3;
        l4 = w.l4;
        l5 = w.l5;
        l6 = w.l6;
        l7 = low;
        l8 = next;
        l9 = w.l9;
      };
      same =
          AreSame-trans g h (carry_limb7 64 h) s.same
            (record { more = 0; fewer = 0; same = omega (arith, e) });
    }

pub carry_limb8_lem :
    (g b h : Fe)
    → Carried g b h
    → b.h8 ≤ limit
    → b.h9 ≤ limit
    → Carried g (record b { h8 = 2 ^ 25; h9 = b.h9 + (b.h8 / 2 ^ 26 + 1) }) (carry_limb8 64 h)
unfolding carry_limb8 whole
carry_limb8_lem g b h s p q =
    let w = s.within in
    let (e, low, next) = carry26-IsMoved b.h8 b.h9 h.h8 h.h9 w.l8 w.l9 p q in
    record {
      within = record {
        l0 = w.l0;
        l1 = w.l1;
        l2 = w.l2;
        l3 = w.l3;
        l4 = w.l4;
        l5 = w.l5;
        l6 = w.l6;
        l7 = w.l7;
        l8 = low;
        l9 = next;
      };
      same =
          AreSame-trans g h (carry_limb8 64 h) s.same
            (record { more = 0; fewer = 0; same = omega (arith, e) });
    }

pub carry_limb9_lem :
    (g b h : Fe)
    → Carried g b h
    → b.h9 ≤ limit
    → b.h0 ≤ limit
    → Carried g (record b { h9 = 2 ^ 24; h0 = b.h0 + 19 * (b.h9 / 2 ^ 25 + 1) }) (carry_limb9 64 h)
unfolding carry_limb9 whole
carry_limb9_lem g b h s p q =
    let w = s.within in
    let c = carry 64 25 h.h9 in
    let (e, e', low, next) = carry_around b.h9 b.h0 h.h9 h.h0 w.l9 w.l0 p q in
    record {
      within = record {
        l0 = next;
        l1 = w.l1;
        l2 = w.l2;
        l3 = w.l3;
        l4 = w.l4;
        l5 = w.l5;
        l6 = w.l6;
        l7 = w.l7;
        l8 = w.l8;
        l9 = low;
      };
      same =
          AreSame-trans g h (carry_limb9 64 h) s.same
            (record { more = up 64 c; fewer = down 64 c; same = omega (arith, e, e') });
    }
