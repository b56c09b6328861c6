-- ===== src/Supervisor/Health.antt =====
-- `sample_health` of src/supervisor.c, with the ages of the last signs of life on 32 bits. The limits
-- `CONFIG_APP_HEALTH_SYS_STALE_MS` and `CONFIG_APP_HEALTH_LED_STALE_MS` are arguments.
pub mod Laws
use zephyr_secure_supervisor.Base.{
  ℕ, Bool, true, false, not, leb, ◌==◌, if◌then◌else◌, sub32, uint32_max,
}
use zephyr_secure_supervisor.Supervisor.State.{Supervisor, WatchdogCfg}

pub record Limits : Type 0 where
  pub sys_stale_ms : ℕ
  pub led_stale_ms : ℕ

-- `struct health_status`
pub record HealthStatus : Type 0 where
  pub led_ok : Bool
  pub hb_ok : Bool
  pub led_age : ℕ
  pub hb_age : ℕ

-- The verdict and the age for one sign of life, which was never seen where `last` is 0.
unfoldable pub sample : ℕ → ℕ → ℕ → Bool × ℕ
sample stale_ms now32 last =
    if last == 0 then (false, uint32_max) else (leb (sub32 now32 last) stale_ms, sub32 now32 last)

unfoldable pub sample_health : Limits → WatchdogCfg → ℕ → ℕ → ℕ → HealthStatus
sample_health limits cfg now32 hb_last led_last =
    let (hb_ok, hb_age) = sample limits.sys_stale_ms now32 hb_last in
    let (led_ok, led_age) = sample limits.led_stale_ms now32 led_last in
    let status : HealthStatus = record {
      led_ok = true;
      hb_ok = hb_ok;
      led_age = 0;
      hb_age = hb_age;
    } in
    if not cfg.monitor_led
    then status
    else record { led_ok = led_ok; hb_ok = hb_ok; led_age = led_age; hb_age = hb_age }
