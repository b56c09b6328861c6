-- ===== src/Base/Masks.antt =====
-- Masks and fields of words as remainders and sums.
use Prim.Native.Nat.{
  ℕ, zero, suc, ◌+◌, ◌-◌, ◌*◌, ◌/◌, ◌%◌, ◌^◌, ◌≤◌, ◌<◌, min, max, bit_and, bit_or, digits,
}
use Prim.Native.Nat.{bit_and-bitwise, bit_or-bitwise}
use mathlib.Core.Path.{◌≡◌, refl, sym, ap, ◌∙◌}
use native.Mathlib.Nat.{le_refl, pow-suc, mod-add-div, mod-lt, mod-eq_of_lt, add-mul-mod_self_left}
use native.Mathlib.Omega.{arith}

-- Any operation digit by digit: more fuel than the first word changes nothing, and a word that is not 0
-- gives its lowest digit and the rest.
module _ (rest : ℕ → ℕ) (digit : ℕ → ℕ → ℕ) where
  abbrev run : ℕ → ℕ → ℕ → ℕ
  run fuel a b = digits rest digit fuel a b

  run_once_more : (fuel a b : ℕ) → a ≤ fuel → run (suc fuel) a b ≡ run fuel a b
  run_once_more (suc fuel) (suc a) b le =
      let lower = run_once_more fuel (suc a / 2) (b / 2) (omega arith) in omega (arith, lower)
  run_once_more (suc fuel) zero b le = refl
  run_once_more zero (suc a) b le = absurd (omega arith)
  run_once_more zero zero b le = refl

  run_extra : (extra fuel all a b : ℕ) → fuel + extra ≡ all → a ≤ fuel → run all a b ≡ run fuel a b
  run_extra zero fuel all a b e le =
      let same : all ≡ fuel = omega (arith, e) in ap (λ (n : ℕ). run n a b) same
  run_extra (suc extra) fuel all a b e le =
      run_extra extra (suc fuel) all a b (omega (arith, e)) (omega (arith, le))
      ∙ run_once_more fuel a b le

  run_step :
      (a b : ℕ)
      → run (suc a) (suc a) b ≡ run (suc a / 2) (suc a / 2) (b / 2) * 2 + digit (suc a % 2) (b % 2)
  run_step a b =
      let half = suc a / 2 in
      let fewer = run_extra (a - half) half a half (b / 2) (omega arith) (omega arith) in
      omega (arith, fewer)

or_nothing : (b : ℕ) → bit_or 0 b ≡ b
or_nothing b = bit_or-bitwise 0 b

bit_or_step : (a b : ℕ) → bit_or a b ≡ bit_or (a / 2) (b / 2) * 2 + max (a % 2) (b % 2)
bit_or_step (suc a) b =
    omega (
      arith,
      run_step (λ n. n) max a b,
      bit_or-bitwise (suc a) b,
      bit_or-bitwise (suc a / 2) (b / 2),
    )
bit_or_step zero b = omega (arith, or_nothing b, or_nothing (b / 2))

-- For `bit_and` the lowest digit is all that is wanted of each step.
and_nothing : (b : ℕ) → bit_and 0 b ≡ 0
and_nothing b = bit_and-bitwise 0 b

and_digit : (a b : ℕ) → bit_and a b ≡ bit_and (a / 2) (b / 2) * 2 + min (a % 2) (b % 2)
and_digit (suc a) b = omega (
  arith,
  run_step (λ n. zero) min a b,
  bit_and-bitwise (suc a) b,
  bit_and-bitwise (suc a / 2) (b / 2),
)
and_digit zero b = omega (arith, and_nothing b, and_nothing (b / 2))

nothing_left : (bound a : ℕ) → a < bound → bit_and a 0 ≡ 0
nothing_left (suc bound) (suc a) lt =
    omega (arith, nothing_left bound (suc a / 2) (omega arith), and_digit (suc a) 0)
nothing_left (suc bound) zero lt = and_nothing 0
nothing_left zero a lt = absurd (omega arith)

-- The remainder by an even number, from the lowest digit.
low_digit : (a t : ℕ) → 0 < t → a / 2 % t * 2 + a % 2 ≡ a % (t * 2)
low_digit a t pos =
    let y = a / 2 % t in
    let x = a / 2 / t in
    let parts = ap (λ (n : ℕ). n * 2) (mod-add-div (a / 2) t) in
    let whole : a ≡ y * 2 + a % 2 + t * 2 * x = omega (arith, parts) in
    let small : y * 2 + a % 2 < t * 2 = omega (arith, mod-lt (a / 2) pos) in
    sym (mod-eq_of_lt small)
    ∙ sym (add-mul-mod_self_left (y * 2 + a % 2) (t * 2) x)
    ∙ ap (λ (n : ℕ). n % (t * 2)) (sym whole)

-- A mask of the low bits is a remainder.
pub bit_and_mask : (k a m : ℕ) → suc m ≡ 2 ^ k → bit_and a m ≡ a % 2 ^ k
bit_and_mask zero a zero p = omega (arith, nothing_left (suc a) a (le_refl (suc a)))
bit_and_mask zero a (suc m) p = absurd (omega arith)
bit_and_mask (suc k) a m p =
    let e = pow-suc 2 k in
    let ih = bit_and_mask k (a / 2) (m / 2) (omega (arith, p, e)) in
    let half : 2 * (m / 2) + 1 ≡ m = omega (arith, p, e) in
    rw e (omega (arith, and_digit a m, ih, half, low_digit a (2 ^ k) (omega (arith, p, e))))

-- Fields that do not overlap add up.
pub bit_or_fields : (k a b : ℕ) → a < 2 ^ k → bit_or a (b * 2 ^ k) ≡ a + b * 2 ^ k
bit_or_fields zero zero b p = omega (arith, or_nothing (b * 1))
bit_or_fields zero (suc a) b p = absurd (omega arith)
bit_or_fields (suc k) a b p =
    let e = pow-suc 2 k in
    let ih = bit_or_fields k (a / 2) b (omega (arith, p, e)) in
    let whole = ap (λ (x : ℕ). b * x) e in
    let half : b * 2 ^ suc k / 2 ≡ b * 2 ^ k = omega (arith, whole) in
    let step = rw half at (bit_or_step a (b * 2 ^ suc k)) in omega (arith, step, ih, whole)
