-- ===== src/Curve/Ints.antt =====
-- The signed integers of src/curve25519_ref10.c: an integer of `w` bits is its bit pattern, below
-- 2 ^ w, and what does not fit wraps.
use zephyr_secure_supervisor.Base.{ℕ, ◌+◌, ◌-◌, ◌*◌, ◌/◌, ◌%◌, ◌^◌, ltb, if◌then◌else◌}

abbrev pub wrap : ℕ → ℕ → ℕ
wrap w n = n % 2 ^ w

abbrev pub add : ℕ → ℕ → ℕ → ℕ
add w a b = wrap w (a + b)

abbrev pub sub : ℕ → ℕ → ℕ → ℕ
sub w a b = wrap w (a + 2 ^ w - b)

abbrev pub mul : ℕ → ℕ → ℕ → ℕ
mul w a b = wrap w (a * b)

-- `a << k` and `a >> k`, the sign kept.
abbrev pub shl : ℕ → ℕ → ℕ → ℕ
shl w a k = wrap w (a * 2 ^ k)

abbrev pub sar : ℕ → ℕ → ℕ → ℕ
sar w a k = if ltb a (2 ^ (w - 1)) then a / 2 ^ k else 2 ^ w - 1 - (2 ^ w - 1 - a) / 2 ^ k

-- `(int64_t)a` for an int32_t.
abbrev pub widen : ℕ → ℕ
widen a = if ltb a (2 ^ 31) then a else a + (2 ^ 64 - 2 ^ 32)
