-- ===== src/Curve/Invert.antt =====
-- `fe_invert` of src/curve25519_ref10.c.
use zephyr_secure_supervisor.Base.{ℕ, zero, suc}
use zephyr_secure_supervisor.Curve.Field.{Fe, fe_mul, fe_sq}

-- A first square and the loop of further ones: `n` squares.
unfoldable pub squares : ℕ → Fe → Fe
squares zero f = f
squares (suc n) f = squares n (fe_sq f)

unfoldable pub fe_invert : Fe → Fe
fe_invert z =
    let z2 = fe_sq z in
    let z9 = fe_mul z (fe_sq (fe_sq z2)) in
    let z11 = fe_mul z2 z9 in
    let ones5 = fe_mul z9 (fe_sq z11) in
    let ones10 = fe_mul (squares 5 ones5) ones5 in
    let ones20 = fe_mul (squares 10 ones10) ones10 in
    let ones40 = fe_mul (squares 20 ones20) ones20 in
    let ones50 = fe_mul (squares 10 ones40) ones10 in
    let ones100 = fe_mul (squares 50 ones50) ones50 in
    let ones200 = fe_mul (squares 100 ones100) ones100 in
    let ones250 = fe_mul (squares 50 ones200) ones50 in fe_mul (squares 5 ones250) z11
