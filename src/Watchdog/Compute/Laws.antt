-- ===== src/Watchdog/Compute/Laws.antt =====
-- What prescaler and reload value the watchdog gets.
use zephyr_secure_supervisor.Base.{
  ℕ, ◌+◌, ◌*◌, ◌/◌, ◌%◌, ◌^◌, sym, ◌≤◌, ◌<◌, ◌≡◌, ◌⊎◌, inl, inr, ◌↔◌, ◌<<◌, done, fail, einval,
  arith,
}
use zephyr_secure_supervisor.Watchdog.Compute.{compute, scale_loop, ticks_of}

-- The ticks, where the product fits 64 bits.
ticks_of-exact :
    (lsi timeout_ms : ℕ)
    → timeout_ms * lsi < 2 ^ 54
    → ticks_of lsi timeout_ms ≡ timeout_ms * lsi / 1000 % 2 ^ 32
ticks_of-exact lsi timeout_ms h = omega arith

-- Where the clock counts fewer than 2 ^ 32 of them.
pub ticks_of-short :
    (lsi timeout_ms : ℕ)
    → timeout_ms * lsi < 1000 * 2 ^ 32
    → ticks_of lsi timeout_ms ≡ timeout_ms * lsi / 1000
ticks_of-short lsi timeout_ms h = omega arith

pub accepted_iff :
    (lsi timeout_ms : ℕ)
    → (((compute lsi timeout_ms).0 ≡ done 0)
        ↔ ((4 ≤ ticks_of lsi timeout_ms) × (ticks_of lsi timeout_ms < 256 * 4096)))
      × (((compute lsi timeout_ms).0 ≡ done 0) ⊎ (compute lsi timeout_ms ≡ (fail einval, 0, 0)))
unfolding compute scale_loop
accepted_iff lsi timeout_ms = (ground arith, ground arith)

-- Where the product of the timeout in milliseconds and the frequency of the clock is below 2 ^ 54:
-- the ticks of the clock in the timeout, rounded down, are truncated to 32 bits, and the timeout
-- is accepted exactly when what is left is at least 4 and less than 256 * 4096, the largest divider
-- with the reload counter's 4096 steps. So a timeout of 2 ^ 32 ticks or more, which does not fit, is
-- accepted when the truncation leaves a number that does. Every other timeout is refused with EINVAL
-- and both registers unset: the seven rounds of fuel are enough.
pub compute_iff :
    (lsi timeout_ms : ℕ)
    → timeout_ms * lsi < 2 ^ 54
    → let left = timeout_ms * lsi / 1000 % 2 ^ 32 in
      (((compute lsi timeout_ms).0 ≡ done 0) ↔ ((4 ≤ left) × (left < 256 * 4096)))
      × (((compute lsi timeout_ms).0 ≡ done 0) ⊎ (compute lsi timeout_ms ≡ (fail einval, 0, 0)))
compute_iff lsi timeout_ms h =
    rw (sym (ticks_of-exact lsi timeout_ms h)) (accepted_iff lsi timeout_ms)

-- For each shift, the ticks that its divider reaches and half of it does not.
abbrev InReach : ℕ → ℕ → Type 0
InReach ticks p =
    ((p ≡ 0) × (ticks < 16384))
    ⊎ ((p ≡ 1) × (16384 ≤ ticks) × (ticks < 32768))
    ⊎ ((p ≡ 2) × (32768 ≤ ticks) × (ticks < 65536))
    ⊎ ((p ≡ 3) × (65536 ≤ ticks) × (ticks < 131072))
    ⊎ ((p ≡ 4) × (131072 ≤ ticks) × (ticks < 262144))
    ⊎ ((p ≡ 5) × (262144 ≤ ticks) × (ticks < 524288))
    ⊎ ((p ≡ 6) × (524288 ≤ ticks) × (ticks < 1048576))

-- Where the loop ends.
scale_loop-cases : (ticks p : ℕ) → scale_loop ticks 7 0 ≡ (done 0, p) → InReach ticks p
unfolding scale_loop
scale_loop-cases ticks p h = ground arith

-- The registers against the loop's end.
compute-registers :
    (lsi timeout_ms p r : ℕ)
    → compute lsi timeout_ms ≡ (done 0, p, r)
    → (scale_loop (ticks_of lsi timeout_ms) 7 0 ≡ (done 0, p))
      × ((ticks_of lsi timeout_ms / (4 << p) ≤ 4096 → r + 1 ≡ ticks_of lsi timeout_ms / (4 << p)))
unfolding compute
compute-registers lsi timeout_ms p r h = ground arith

tight :
    (ticks p r : ℕ)
    → InReach ticks p
    → (ticks / (4 << p) ≤ 4096 → r + 1 ≡ ticks / (4 << p))
    → (p ≤ 6)
      × (r < 4096)
      × ((r + 1) * (4 << p) ≤ ticks)
      × (ticks < (r + 2) * (4 << p))
      × ((p ≡ 0) ⊎ (4096 * (4 << p) ≤ 2 * ticks))
tight ticks p r (inl c) = rw (c.0) (ground arith)
tight ticks p r (inr (inl c)) = rw (c.0) (ground arith)
tight ticks p r (inr (inr (inl c))) = rw (c.0) (ground arith)
tight ticks p r (inr (inr (inr (inl c)))) = rw (c.0) (ground arith)
tight ticks p r (inr (inr (inr (inr (inl c))))) = rw (c.0) (ground arith)
tight ticks p r (inr (inr (inr (inr (inr (inl c)))))) = rw (c.0) (ground arith)
tight ticks p r (inr (inr (inr (inr (inr (inr c)))))) = rw (c.0) (ground arith)

-- Bounds on the ticks as bounds on the time.
in_time :
    (timeout_ms lsi ticks p r least most largest : ℕ)
    → ticks ≡ timeout_ms * lsi / 1000
    → (p ≤ 6) × (r < 4096) × (least ≤ ticks) × (ticks < most) × ((p ≡ 0) ⊎ (largest ≤ 2 * ticks))
    → (p ≤ 6)
      × (r < 4096)
      × (least * 1000 ≤ timeout_ms * lsi)
      × (timeout_ms * lsi < most * 1000)
      × ((p ≡ 0) ⊎ (largest * 1000 ≤ 2 * (timeout_ms * lsi)))
in_time timeout_ms lsi ticks p r least most largest e h = ground arith

-- For an accepted timeout in which the clock counts fewer than 2 ^ 32 ticks, the period that the hardware
-- counts, `reload + 1` steps of `4 << prescaler` ticks of 1000 / `lsi` milliseconds, is never longer
-- than the timeout, and less than a step and a tick shorter. Both registers are in range, and the
-- prescaler is the smallest: with half the divider the reload value would not fit.
pub compute-tight :
    (lsi timeout_ms prescaler reload : ℕ)
    → timeout_ms * lsi < 1000 * 2 ^ 32
    → compute lsi timeout_ms ≡ (done 0, prescaler, reload)
    → (prescaler ≤ 6)
      × (reload < 4096)
      × ((reload + 1) * (4 << prescaler) * 1000 ≤ timeout_ms * lsi)
      × (timeout_ms * lsi < (reload + 2) * (4 << prescaler) * 1000)
      × ((prescaler ≡ 0) ⊎ (4096 * (4 << prescaler) * 1000 ≤ 2 * (timeout_ms * lsi)))
compute-tight lsi timeout_ms p r short h =
    let (loop, value) = compute-registers lsi timeout_ms p r h in
    let ticks = ticks_of lsi timeout_ms in
    let exact = ticks_of-short lsi timeout_ms short in
    in_time timeout_ms lsi ticks p r ((r + 1) * (4 << p)) ((r + 2) * (4 << p)) (4096 * (4 << p))
      exact (tight ticks p r (scale_loop-cases ticks p loop) value)
