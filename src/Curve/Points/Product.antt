-- ===== src/Curve/Points/Product.antt =====
-- The products of alike points in src/curve25519_ref10.c.
use zephyr_secure_supervisor.Base.{
  ℕ, ◌≤◌, ◌≡◌, sym, ap, ◌∙◌, List, length, take, take_all, bit_and, bit_or, AllBytes, u32, ◌<<◌,
  ◌>>◌, Rc, done,
}
use zephyr_secure_supervisor.Curve.{clamp_scalar}
use zephyr_secure_supervisor.Curve.Field.{Fe, fe_mul}
use zephyr_secure_supervisor.Curve.Encoding.{fe_frombytes, fe_tobytes}
use zephyr_secure_supervisor.Curve.Invert.{fe_invert}
use zephyr_secure_supervisor.Curve.Ladder.{
  exchange, ladder_loop, start, montgomery_ladder, curve25519_ref10_scalarmult,
}
use zephyr_secure_supervisor.Curve.Points.{IsAlike}
use zephyr_secure_supervisor.Curve.Points.Words.{
  t0, t1_low, t1_high, t2, t3, t4_low, t4_high, t5_low, t5_high, t6_low, t6_high, t7_low, t6_above,
}

module _ (s t : List ℕ) (p : AllBytes s) (q : AllBytes t) (like : IsAlike s t) where
  same_element : fe_frombytes s ≡ fe_frombytes t
  unfolding fe_frombytes
  same_element = λ i. record {
    h0 = u32 (bit_and (t0 s t p q like i) 0x3ffffff);
    h1 = u32 (bit_or (t0 s t p q like i >> 26) (t1_low s t p q like i << 6));
    h2 = u32 (bit_or (t1_high s t p q like i) (bit_and (t2 s t p q like i) 0x3ff << 13));
    h3 = u32 (bit_or (t2 s t p q like i >> 10) (bit_and (t3 s t p q like i) 0x7f << 22));
    h4 = u32 (bit_and (t3 s t p q like i >> 7) 0x3ffffff);
    h5 = u32 (bit_or (t3 s t p q like i >> 33) (t4_low s t p q like i << 6));
    h6 = u32 (bit_or (t4_high s t p q like i) (t5_low s t p q like i << 13));
    h7 = u32 (bit_or (t5_high s t p q like i) (t6_low s t p q like i << 22));
    h8 = u32 (bit_and (t6_high s t p q like i) 0x3ffffff);
    h9 = u32 (bit_or (t6_above s t p q like i) (t7_low s t p q like i << 6));
  }

  -- Two points of 32 bytes that differ in none but these 34 bits, of which the highest is the one
  -- that RFC 7748 ignores, have the same product with every scalar: bits 5 to 7 of bytes 5, 17 and
  -- 29, bits 0 to 2 of byte 6, 0 to 3 of byte 18, 2 of byte 21, 7 of byte 24 and bytes 30 and 31.
  pub scalarmult-alike :
      length s ≤ 32
      → length t ≤ 32
      → (scalar : List ℕ)
      → curve25519_ref10_scalarmult scalar s ≡ curve25519_ref10_scalarmult scalar t
  unfolding curve25519_ref10_scalarmult montgomery_ladder
  scalarmult-alike m n scalar =
      let product : Fe → Rc × List ℕ = λ (x1 : Fe).
        let end = exchange (ladder_loop x1 (clamp_scalar (take 32 scalar)) 255 (start x1)) in
        (done 0, fe_tobytes (fe_mul end.x2 (fe_invert end.z2))) in
      ap (λ (u : List ℕ). product (fe_frombytes u)) (take_all s 32 m)
      ∙ ap product same_element
      ∙ sym (ap (λ (u : List ℕ). product (fe_frombytes u)) (take_all t 32 n))
