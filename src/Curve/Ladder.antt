-- ===== src/Curve/Ladder.antt =====
-- The ladder of src/curve25519_ref10.c and its interface.
use zephyr_secure_supervisor.Base.{
  ℕ, zero, suc, List, ◌∷◌, get_or, replicate, bit_and, bit_xor, ◌==◌, if◌then◌else◌, ◌>>◌, Rc, done,
  take,
}
use zephyr_secure_supervisor.Curve.{clamp_scalar}
use zephyr_secure_supervisor.Curve.Field.{
  Fe, fe_0, fe_1, fe_add, fe_sub, fe_mul, fe_sq, fe_mul121666,
}
use zephyr_secure_supervisor.Curve.Encoding.{fe_frombytes, fe_tobytes}
use zephyr_secure_supervisor.Curve.Invert.{fe_invert}

-- `x2`, `z2`, `x3`, `z3` and `swap`.
pub record Rungs : Type 0 where
  pub x2 : Fe
  pub z2 : Fe
  pub x3 : Fe
  pub z3 : Fe
  pub swap : ℕ

-- The loop that exchanges the two points.
unfoldable pub exchange : Rungs → Rungs
exchange s = record s { x2 = s.x3; z2 = s.z3; x3 = s.x2; z3 = s.z2 }

unfoldable pub exchange_on : ℕ → Rungs → Rungs
exchange_on swap s = if swap == 0 then s else exchange s

-- The arithmetic of the loop's body.
unfoldable pub climb : Fe → Rungs → Rungs
climb x1 s =
    let sum = fe_add s.x2 s.z2 in
    let difference = fe_sub s.x2 s.z2 in
    let z3 = fe_mul sum (fe_sub s.x3 s.z3) in
    let x3 = fe_mul difference (fe_add s.x3 s.z3) in
    let tmp0 = fe_sq sum in
    let tmp1 = fe_sq difference in
    let x2 = fe_mul tmp0 tmp1 in
    record s {
      x2 = x2;
      z2 = fe_mul (fe_add (fe_mul121666 (fe_sub tmp0 tmp1)) tmp0) x2;
      x3 = fe_sq tmp1;
      z3 = fe_mul (fe_sq (fe_sub z3 x3)) x1;
    }

unfoldable pub ladder_round : Fe → ℕ → Rungs → Rungs
ladder_round x1 bit s = climb x1 (record (exchange_on (bit_xor s.swap bit) s) { swap = bit })

-- `(e[pos >> 3] >> (pos & 7)) & 1`
unfoldable pub scalar_bit : List ℕ → ℕ → ℕ
scalar_bit e pos = bit_and (get_or e (pos >> 3) 0 >> bit_and pos 7) 1

-- The loop with `left` positions to go, from `left - 1` down to 0.
unfoldable pub ladder_loop : Fe → List ℕ → ℕ → Rungs → Rungs
ladder_loop x1 e zero s = s
ladder_loop x1 e (suc pos) s = ladder_loop x1 e pos (ladder_round x1 (scalar_bit e pos) s)

abbrev pub start : Fe → Rungs
start x1 = record { x2 = fe_1; z2 = fe_0; x3 = x1; z3 = fe_1; swap = 0 }

unfoldable pub montgomery_ladder : List ℕ → List ℕ → List ℕ
montgomery_ladder scalar point =
    let e = clamp_scalar (take 32 scalar) in
    let x1 = fe_frombytes point in
    let end = exchange (ladder_loop x1 e 255 (start x1)) in
    fe_tobytes (fe_mul end.x2 (fe_invert end.z2))

abbrev pub basepoint : List ℕ
basepoint = 9 ∷ replicate 31 0

unfoldable pub curve25519_ref10_scalarmult_base : List ℕ → List ℕ
curve25519_ref10_scalarmult_base scalar = montgomery_ladder scalar basepoint

unfoldable pub curve25519_ref10_scalarmult : List ℕ → List ℕ → Rc × List ℕ
curve25519_ref10_scalarmult scalar point = (done 0, montgomery_ladder scalar (take 32 point))
