-- ===== src/Supervisor/Loop.antt =====
-- One round of `supervisor_thread` of src/supervisor.c, between two sleeps.
pub mod Laws
pub mod Clearing
pub mod Runs
use zephyr_secure_supervisor.Base.{
  ℕ, ◌+◌, Bool, true, false, not, ◌&&◌, ltb, leb, if◌then◌else◌, u32, Rc, done, fail, ebusy, eagain,
  is_zero,
}
use zephyr_secure_supervisor.Supervisor.State.{
  Services, Supervisor, WatchdogCfg, attempt_watchdog_retune, boot_grace_ms, max_failures,
}
use zephyr_secure_supervisor.Supervisor.Health.{Limits, HealthStatus, sample_health}

-- The failures after a feed with this return code.
abbrev pub count_failure : Rc → ℕ → ℕ
count_failure (fail ebusy) n = n
count_failure (fail eagain) n = n
count_failure rc n = if is_zero rc then n else u32 (n + 1)

abbrev pub is_healthy : HealthStatus → Bool
is_healthy health = health.led_ok && health.hb_ok

module _ (sv : Services) where
  open sv use {
    World, watchdog_feed, watchdog_is_enabled, clear_watchdog_counter, request_health_fault,
  }

  -- `feed_watchdog`, which counts a failure unless `fail_count` is NULL.
  unfoldable pub feed_watchdog : Bool → Supervisor World → Bool × Supervisor World
  feed_watchdog counts s =
      let (rc, world) = watchdog_feed s.world in
      (
        is_zero rc,
        record s {
          world = world;
          fail_count = if counts then count_failure rc s.fail_count else s.fail_count;
        },
      )

  -- After a sample past the grace that was healthy, and late enough for the counter of resets.
  unfoldable pub clear_counter_if_due :
      WatchdogCfg → HealthStatus → Bool → Supervisor World → Supervisor World
  clear_counter_if_due cfg health in_boot_grace s =
      if not s.counter_cleared && cfg.retune_done_once && not in_boot_grace && is_healthy health
      then record s { world = clear_watchdog_counter s.world; counter_cleared = true }
      else s

  -- Three failures in a row ask for a recovery.
  unfoldable pub recover_if_failing : Supervisor World → Supervisor World
  recover_if_failing s =
      if leb max_failures s.fail_count
      then record s { world = request_health_fault s.world; fail_count = 0 }
      else s

  unfoldable pub grace_branch : Supervisor World → Supervisor World
  grace_branch s =
      let (fed, s') = feed_watchdog false s in
      if watchdog_is_enabled s.world
      then record s' { fail_count = 0 }
      else record s { fail_count = 0 }

  unfoldable pub healthy_branch : Supervisor World → Supervisor World
  healthy_branch s =
      let (fed, s') = feed_watchdog true s in
      if watchdog_is_enabled s.world
      then (if fed then record s' { fail_count = 0 } else recover_if_failing s')
      else record s { fail_count = 0 }

  unfoldable pub degraded_branch : Supervisor World → Supervisor World
  degraded_branch s = recover_if_failing (record s { fail_count = u32 (s.fail_count + 1) })

  unfoldable pub act : WatchdogCfg → HealthStatus → Bool → Supervisor World → Supervisor World
  act cfg health in_boot_grace s =
      let s' = clear_counter_if_due cfg health in_boot_grace s in
      if in_boot_grace
      then grace_branch s'
      else if is_healthy health
      then healthy_branch s'
      else degraded_branch s'

  -- The round at the uptime `now`, with the snapshot of the configuration taken before the retune.
  unfoldable pub supervisor_round : Limits → ℕ → Supervisor World → Supervisor World
  supervisor_round limits now s =
      let s' = attempt_watchdog_retune sv s.wd_cfg now s in
      let health = sample_health limits s.wd_cfg (u32 now) s'.sys_last_seen s'.led_last_seen in
      act s.wd_cfg health (ltb now (s.boot_ts + boot_grace_ms)) s'
