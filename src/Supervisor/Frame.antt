-- ===== src/Supervisor/Frame.antt =====
-- What the services keep, the supervisor keeps: it reaches the other parts through them alone.
use zephyr_secure_supervisor.Base.{ℕ, Bool, not, ◌||◌, ltb, if-both, is_zero, Rc}
use zephyr_secure_supervisor.Supervisor.State.{
  Services, Supervisor, WatchdogCfg, is_unsupported, attempt_watchdog_retune, settle_retune,
  notify_led_alive, notify_system_alive, request_watchdog_target, request_manual_recovery,
}
use zephyr_secure_supervisor.Supervisor.Health.{Limits, HealthStatus}
use zephyr_secure_supervisor.Supervisor.Loop.{
  is_healthy, feed_watchdog, clear_counter_if_due, recover_if_failing, grace_branch, healthy_branch,
  degraded_branch, act, supervisor_round,
}
use zephyr_secure_supervisor.Supervisor.Traces.{
  Step, ran, led_alive, system_alive, retargeted, asked,
}

-- Every service keeps `P`.
pub record Keeps (sv : Services) (P : sv.World → Type 0) : Type 0 where
  pub feed : (w : sv.World) → P w → P (sv.watchdog_feed w).1
  pub retune : (timeout_ms : ℕ) (w : sv.World) → P w → P (sv.watchdog_retune timeout_ms w).1
  pub clear : (w : sv.World) → P w → P (sv.clear_watchdog_counter w)
  pub health_fault : (w : sv.World) → P w → P (sv.request_health_fault w)
  pub manual_trigger : (w : sv.World) → P w → P (sv.request_manual_trigger w)

module _ (sv : Services) (limits : Limits) (P : sv.World → Type 0) (keeps : Keeps sv P) where
  open sv use {World}

  abbrev Holds : Supervisor World → Type 0
  Holds s = P s.world

  settle_retune-Holds :
      (now : ℕ) (s : Supervisor World) → (rc : Rc) → Holds s → Holds (settle_retune sv now rc s)
  unfolding settle_retune
  settle_retune-Holds now s rc h =
      if-both Holds (is_zero rc) _ _ (keeps.clear s.world h)
        (if-both Holds (is_unsupported rc) _ _ h h)

  attempt-Holds :
      (cfg : WatchdogCfg) (now : ℕ) (s : Supervisor World)
      → Holds s
      → Holds (attempt_watchdog_retune sv cfg now s)
  unfolding attempt_watchdog_retune
  attempt-Holds cfg now s h =
      let (rc, w) = sv.watchdog_retune cfg.desired_timeout_ms s.world in
      if-both Holds (not cfg.retune_pending || ltb now cfg.retune_ready_ts) _ _ h (
        settle_retune-Holds now (record s { world = w }) rc
          (keeps.retune cfg.desired_timeout_ms s.world h))

  recover-Holds : (s : Supervisor World) → Holds s → Holds (recover_if_failing sv s)
  unfolding recover_if_failing
  recover-Holds s h = if-both Holds _ _ _ (keeps.health_fault s.world h) h

  act-Holds :
      (cfg : WatchdogCfg) (health : HealthStatus) (grace : Bool) (s : Supervisor World)
      → Holds s
      → Holds (act sv cfg health grace s)
  unfolding act grace_branch healthy_branch degraded_branch feed_watchdog clear_counter_if_due
  act-Holds cfg health grace s h =
      let t = clear_counter_if_due sv cfg health grace s in
      let cleared : Holds t = if-both Holds _ _ _ (keeps.clear s.world h) h in
      let fed = keeps.feed t.world cleared in
      if-both Holds grace _ _ (if-both Holds (sv.watchdog_is_enabled t.world) _ _ fed cleared) (
        if-both Holds (is_healthy health) _ _
          (if-both Holds (sv.watchdog_is_enabled t.world) _ _
            (if-both Holds _ _ _ fed (recover-Holds _ fed)) cleared)
          (recover-Holds _ cleared))

  -- One step of the threads.
  pub Step-Holds : {s t : Supervisor World} → Step sv limits s t → P s.world → P t.world
  unfolding supervisor_round notify_led_alive notify_system_alive request_watchdog_target
      request_manual_recovery
  Step-Holds (ran s now) h = act-Holds s.wd_cfg _ _ _ (attempt-Holds s.wd_cfg now s h)
  Step-Holds (led_alive s now) h = h
  Step-Holds (system_alive s now) h = h
  Step-Holds (retargeted s now timeout_ms immediately) h = h
  Step-Holds (asked s) h = keeps.manual_trigger s.world h
