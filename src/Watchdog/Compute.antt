-- ===== src/Watchdog/Compute.antt =====
-- `stm32_iwdg_compute` of src/watchdog_ctrl.c. `LSI_VALUE`, which the vendor's headers may define, is
-- the argument `lsi`. The loop runs on fuel: seven rounds are enough, since the eighth divider,
-- 512, is refused.
pub mod Laws
use zephyr_secure_supervisor.Base.{
  ℕ, zero, suc, ◌+◌, ◌-◌, ◌*◌, ◌/◌, ◌%◌, ◌^◌, Bool, true, false, not, leb, ltb, u32, ◌<<◌, Rc, done,
  fail, einval, eoverflow, ◌==◌, is_zero, if◌then◌else◌,
}

abbrev pub iwdg_reload_max : ℕ
iwdg_reload_max = 0xfff

abbrev pub iwdg_prescaler_min : ℕ
iwdg_prescaler_min = 4

abbrev pub iwdg_prescaler_max : ℕ
iwdg_prescaler_max = 256

-- The clock ticks of a timeout: a product on 64 bits, truncated to 32.
abbrev pub ticks_of : ℕ → ℕ → ℕ
ticks_of lsi timeout_ms = u32 (timeout_ms * 1000 * lsi % 18446744073709551616 / 1000000)

-- The shift at which the loop ends. `eoverflow` stands for the end of the fuel.
unfoldable pub scale_loop : ℕ → ℕ → ℕ → Rc × ℕ
scale_loop ticks zero shift = (fail eoverflow, shift)
scale_loop ticks (suc fuel) shift =
    let rest = scale_loop ticks fuel (shift + 1) in
    if leb (ticks / (iwdg_prescaler_min << shift)) iwdg_reload_max
    then (done 0, shift)
    else if ltb iwdg_prescaler_max (iwdg_prescaler_min << (shift + 1))
    then (fail einval, shift + 1)
    else rest

-- The return code, `*prescaler` and `*reload`; on an error both keep the 0 of the only caller.
unfoldable pub compute : ℕ → ℕ → Rc × ℕ × ℕ
compute lsi timeout_ms =
    let ticks = ticks_of lsi timeout_ms in
    let (rc, shift) = scale_loop ticks 7 0 in
    let value = ticks / (iwdg_prescaler_min << shift) in
    if not (is_zero rc)
    then (rc, 0, 0)
    else if value == 0
    then (fail einval, 0, 0)
    else (done 0, shift, if ltb iwdg_reload_max (value - 1) then iwdg_reload_max else value - 1)
