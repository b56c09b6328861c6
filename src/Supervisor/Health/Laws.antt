-- ===== src/Supervisor/Health/Laws.antt =====
-- What a sample says of the time since the last sign of life.
use zephyr_secure_supervisor.Base.{
  ℕ, ◌+◌, ◌-◌, ◌≡◌, ◌≢◌, ◌≤◌, ◌<◌, ◌↔◌, ◌⊎◌, true, false, leb, u32, sub32, arith,
}
use zephyr_secure_supervisor.Supervisor.State.{WatchdogCfg}
use zephyr_secure_supervisor.Supervisor.Health.{Limits, sample, sample_health}
use zephyr_secure_supervisor.Supervisor.Loop.{is_healthy}

-- The wrap of the 32-bit clock does no harm for 2 ^ 32 milliseconds.
pub sub32-u32 : (now t : ℕ) → t ≤ now → now < t + 4294967296 → sub32 (u32 now) (u32 t) ≡ now - t
sub32-u32 now t past recent = omega arith

-- One sign of life, last seen at uptime `t`, which is not a multiple of 2 ^ 32.
pub sample-fresh :
    (stale_ms now t : ℕ)
    → t ≤ now
    → now < t + 4294967296
    → u32 t ≢ 0
    → sample stale_ms (u32 now) (u32 t) ≡ (leb (now - t) stale_ms, now - t)
unfolding sample
sample-fresh stale_ms now t past recent seen = ground (arith, sub32-u32 now t past recent)

-- With the system last alive at uptime `hb` and the LED at `led`, each less than 2 ^ 32
-- milliseconds ago and neither a multiple of 2 ^ 32, the sample is healthy exactly when the system
-- was alive within its limit and the LED, if it is monitored, within its own.
pub sample_health_iff :
    (limits : Limits) (cfg : WatchdogCfg) (now hb led : ℕ)
    → hb ≤ now
    → now < hb + 4294967296
    → u32 hb ≢ 0
    → led ≤ now
    → now < led + 4294967296
    → u32 led ≢ 0
    → (is_healthy (sample_health limits cfg (u32 now) (u32 hb) (u32 led)) ≡ true) ↔ (
        (now - hb ≤ limits.sys_stale_ms)
        × ((cfg.monitor_led ≡ false) ⊎ (now - led ≤ limits.led_stale_ms)))
unfolding sample_health
sample_health_iff limits cfg now hb led p q r p' q' r' =
    let e = sample-fresh limits.sys_stale_ms now hb p q r in
    let e' = sample-fresh limits.led_stale_ms now led p' q' r' in rw (e, e') (ground arith)

-- A sign of life that was never seen is a fault: of the system always, of the LED if it is monitored.
pub sample_health-unseen :
    (limits : Limits) (cfg : WatchdogCfg) (now32 hb led : ℕ)
    → (hb ≡ 0) ⊎ ((led ≡ 0) × (cfg.monitor_led ≡ true))
    → is_healthy (sample_health limits cfg now32 hb led) ≡ false
unfolding sample_health sample
sample_health-unseen limits cfg now32 hb led h = ground arith
