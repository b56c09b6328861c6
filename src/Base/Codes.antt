-- ===== src/Base/Codes.antt =====
-- A C `int` result of the Zephyr convention. `done n` is a return value n of 0 or more,
-- `fail e` a negative one; `other n` is the value -n that the code compares with no name.
use Prim.Native.Nat.{ℕ, zero, suc}
use mathlib.Core.Path.{◌≡◌, refl}
use mathlib.Core.Bool.{Bool, true, false}

pub data Errno : Type 0 where
  enoent eio eagain eacces ebusy enodev einval enotty enospc enotsup eoverflow : Errno
  other : ℕ → Errno

pub data Rc : Type 0 where
  done : ℕ → Rc
  fail : Errno → Rc

-- `rc == 0`
abbrev pub is_zero : Rc → Bool
is_zero (done zero) = true
is_zero (done (suc n)) = false
is_zero (fail e) = false

-- `rc < 0`
abbrev pub is_neg : Rc → Bool
is_neg (done n) = false
is_neg (fail e) = true

pub is_zero→done : (rc : Rc) → is_zero rc ≡ true → rc ≡ done 0
is_zero→done (done zero) h = refl
is_zero→done (done (suc n)) h = cc
is_zero→done (fail e) h = cc
