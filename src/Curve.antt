-- ===== src/Curve.antt =====
-- src/curve25519_ref10.c: the clamping of a scalar here, the rest of the file in the children.
pub mod Ints
pub mod Field
pub mod Encoding
pub mod Invert
pub mod Ladder
pub mod Power
pub mod Signed
pub mod Carry
pub mod Rows
pub mod Convolution
pub mod Value
pub mod Inverse
pub mod Points
pub mod Small
pub mod Written
pub mod Round
pub mod Tests
use zephyr_secure_supervisor.Base.{ℕ, List, bit_and, bit_or, get_or, set}

abbrev pub key_size : ℕ
key_size = 32

unfoldable pub clamp_scalar : List ℕ → List ℕ
clamp_scalar scalar =
    let s0 = set scalar 0 (bit_and (get_or scalar 0 0) 248) in
    let s1 = set s0 31 (bit_and (get_or s0 31 0) 127) in set s1 31 (bit_or (get_or s1 31 0) 64)
