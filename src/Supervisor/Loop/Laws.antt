-- ===== src/Supervisor/Loop/Laws.antt =====
-- What a round of the supervisor does.
use zephyr_secure_supervisor.Base.{ℕ, ◌+◌, ◌≡◌, ◌≤◌, ◌<◌, ◌⊎◌, false, u32, arith}
use zephyr_secure_supervisor.Supervisor.State.{
  Services, Supervisor, WatchdogCfg, attempt_watchdog_retune, settle_retune, boot_grace_ms,
  max_failures,
}
use zephyr_secure_supervisor.Supervisor.Health.{Limits, HealthStatus, sample_health}
use zephyr_secure_supervisor.Supervisor.Loop.{
  is_healthy, feed_watchdog, clear_counter_if_due, recover_if_failing, grace_branch, healthy_branch,
  degraded_branch, act, supervisor_round,
}

module _ (sv : Services) (limits : Limits) where
  open sv use {World, request_health_fault, watchdog_retune}

  -- The health that the round at `now` samples.
  abbrev pub health_at : ℕ → Supervisor World → HealthStatus
  health_at now s =
      let s' = attempt_watchdog_retune sv s.wd_cfg now s in
      sample_health limits s.wd_cfg (u32 now) s'.sys_last_seen s'.led_last_seen

  -- The retune does not touch the failures, the signs of life or the start of the supervisor.
  pub attempt_keeps :
      (cfg : WatchdogCfg) (now : ℕ) (s : Supervisor World)
      → let t = attempt_watchdog_retune sv cfg now s in
        (t.fail_count ≡ s.fail_count)
        × (t.sys_last_seen ≡ s.sys_last_seen)
        × (t.led_last_seen ≡ s.led_last_seen)
        × (t.boot_ts ≡ s.boot_ts)
  unfolding attempt_watchdog_retune settle_retune
  attempt_keeps cfg now s = ground arith

  -- A round leaves fewer than three failures on record, whatever the watchdog returns, if there were
  -- fewer than three before.
  pub supervisor_round-fail_count :
      (now : ℕ) (s : Supervisor World)
      → s.fail_count < max_failures
      → (supervisor_round sv limits now s).fail_count < max_failures
  unfolding supervisor_round act grace_branch healthy_branch degraded_branch recover_if_failing
      feed_watchdog clear_counter_if_due
  supervisor_round-fail_count now s h =
      let keeps = attempt_keeps s.wd_cfg now s in ground (arith, keeps)

  -- With fewer than three failures on record, a degraded round past the grace does nothing to the
  -- watchdog beyond the retune that may be due. It counts a failure, and asks for a recovery
  -- exactly when that is the third, which restarts the count.
  pub supervisor_round-degraded :
      (now : ℕ) (s : Supervisor World)
      → s.boot_ts + boot_grace_ms ≤ now
      → is_healthy (health_at now s) ≡ false
      → s.fail_count < max_failures
      → let before = attempt_watchdog_retune sv s.wd_cfg now s in
        let after = supervisor_round sv limits now s in
        ((s.fail_count + 1 < max_failures)
          × (after.world ≡ before.world)
          × (after.fail_count ≡ s.fail_count + 1))
        ⊎ ((s.fail_count + 1 ≡ max_failures)
            × (after.world ≡ request_health_fault before.world)
            × (after.fail_count ≡ 0))
  unfolding supervisor_round act degraded_branch recover_if_failing clear_counter_if_due
  supervisor_round-degraded now s late bad few =
      let keeps = attempt_keeps s.wd_cfg now s in ground (arith, keeps)
