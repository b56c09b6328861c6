-- ===== src/Curve/Power.antt =====
-- The chain of `fe_invert` in src/curve25519_ref10.c adds up to the exponent p - 2.
use zephyr_secure_supervisor.Base.{ℕ, zero, suc, ◌+◌, ◌-◌, ◌^◌}
use zephyr_secure_supervisor.Curve.Field.{Fe, fe_mul, fe_sq}
use zephyr_secure_supervisor.Curve.Invert.{squares, fe_invert}

module _ (IsPower : ℕ → Fe → Type 0)
    (adds : (m n : ℕ) (f g : Fe) → IsPower m f → IsPower n g → IsPower (m + n) (fe_mul f g)) where
  fe_sq-power : (m : ℕ) (f : Fe) → IsPower m f → IsPower (m + m) (fe_sq f)
  unfolding fe_sq
  fe_sq-power m f h = adds m m f f h h

  -- The exponent after `n` squares.
  abbrev doubled : ℕ → ℕ → ℕ
  doubled zero m = m
  doubled (suc n) m = doubled n (m + m)

  squares-power : (n m : ℕ) (f : Fe) → IsPower m f → IsPower (doubled n m) (squares n f)
  unfolding squares
  squares-power zero m f h = h
  squares-power (suc n) m f h = squares-power n (m + m) (fe_sq f) (fe_sq-power m f h)

  -- Where products add exponents, `fe_invert` is the power p - 2 of its argument.
  pub fe_invert-power : (z : Fe) → IsPower 1 z → IsPower (2 ^ 255 - 21) (fe_invert z)
  unfolding fe_invert
  fe_invert-power z one =
      let z2 = fe_sq-power 1 _ one in
      let z9 = adds 1 8 _ _ one (fe_sq-power 4 _ (fe_sq-power 2 _ z2)) in
      let z11 = adds 2 9 _ _ z2 z9 in
      let ones5 = adds 9 22 _ _ z9 (fe_sq-power 11 _ z11) in
      let chain = λ (n m k : ℕ) (f g : Fe) (h : IsPower m f) (h' : IsPower k g).
        adds (doubled n m) k (squares n f) g (squares-power n m f h) h' in
      let ones10 = chain 5 (2 ^ 5 - 1) (2 ^ 5 - 1) _ _ ones5 ones5 in
      let ones20 = chain 10 (2 ^ 10 - 1) (2 ^ 10 - 1) _ _ ones10 ones10 in
      let ones40 = chain 20 (2 ^ 20 - 1) (2 ^ 20 - 1) _ _ ones20 ones20 in
      let ones50 = chain 10 (2 ^ 40 - 1) (2 ^ 10 - 1) _ _ ones40 ones10 in
      let ones100 = chain 50 (2 ^ 50 - 1) (2 ^ 50 - 1) _ _ ones50 ones50 in
      let ones200 = chain 100 (2 ^ 100 - 1) (2 ^ 100 - 1) _ _ ones100 ones100 in
      let ones250 = chain 50 (2 ^ 200 - 1) (2 ^ 50 - 1) _ _ ones200 ones50 in
      chain 5 (2 ^ 250 - 1) 11 _ _ ones250 z11
