-- ===== src/Supervisor/State.antt =====
-- The state of src/supervisor.c, what it calls, and the retune of the watchdog. Uptimes are
-- milliseconds since the start of the kernel, in ℕ.
use zephyr_secure_supervisor.Base.{
  ℕ, ◌+◌, Bool, true, false, not, ◌||◌, ltb, ◌==◌, if◌then◌else◌, u32, Rc, done, fail, enotsup,
  enotty, is_zero,
}

-- What the supervisor calls of the other parts: the operations of src/watchdog_ctrl.c, of
-- src/persist_state.c and of src/recovery.c, over the state `World` of these.
pub record Services : Type 1 where
  pub World : Type 0
  pub watchdog_feed : World → Rc × World
  pub watchdog_is_enabled : World → Bool
  pub watchdog_retune : ℕ → World → Rc × World
  pub watchdog_timeout : World → ℕ
  pub clear_watchdog_counter : World → World
  -- `recovery_request` of a health fault and of a manual trigger.
  pub request_health_fault : World → World
  pub request_manual_trigger : World → World

-- `SUPERVISOR_PERIOD_MS`, `SUPERVISOR_BOOT_GRACE_MS` and `SUPERVISOR_MAX_FAILURES`, for the firmware.
abbrev pub period_ms : ℕ
period_ms = 1000

abbrev pub boot_grace_ms : ℕ
boot_grace_ms = 3000

abbrev pub max_failures : ℕ
max_failures = 3

-- `struct watchdog_cfg`
pub record WatchdogCfg : Type 0 where
  pub desired_timeout_ms : ℕ
  pub retune_delay_ms : ℕ
  pub retune_ready_ts : ℕ
  pub monitor_led : Bool
  pub retune_pending : Bool
  pub retune_done_once : Bool
  pub retune_failed_logged : Bool

-- The file's variables, with the `fail_count` of its thread and the state of what it calls.
pub record Supervisor (World : Type 0) : Type 0 where
  pub led_last_seen : ℕ
  pub sys_last_seen : ℕ
  pub boot_ts : ℕ
  pub counter_cleared : Bool
  pub wd_cfg : WatchdogCfg
  pub fail_count : ℕ
  pub world : World

-- `update_retune_schedule_locked`, where `current` is the watchdog's timeout.
unfoldable pub update_retune_schedule : ℕ → ℕ → Bool → WatchdogCfg → WatchdogCfg
update_retune_schedule now current apply_immediately cfg =
    let pending = not (cfg.desired_timeout_ms == current) in
    record cfg {
      retune_ready_ts = now + (if apply_immediately then 0 else cfg.retune_delay_ms);
      retune_pending = pending;
      retune_done_once = if not pending then true else cfg.retune_done_once;
      retune_failed_logged = false;
    }

-- `rc == -ENOTSUP || rc == -ENOTTY`
abbrev pub is_unsupported : Rc → Bool
is_unsupported (done n) = false
is_unsupported (fail enotsup) = true
is_unsupported (fail enotty) = true
is_unsupported (fail e) = false

module _ (sv : Services) where
  open sv use {
    World, watchdog_retune, watchdog_timeout, clear_watchdog_counter, request_manual_trigger,
  }

  -- The end of `attempt_watchdog_retune`, on the return code of `watchdog_ctrl_retune`.
  unfoldable pub settle_retune : ℕ → Rc → Supervisor World → Supervisor World
  settle_retune now rc s =
      let c = s.wd_cfg in
      if is_zero rc
      then record s {
        wd_cfg = record c {
          retune_pending = false;
          retune_done_once = true;
          retune_failed_logged = false;
        };
        world = clear_watchdog_counter s.world;
        counter_cleared = true;
      }
      else if is_unsupported rc
      then record s {
        wd_cfg = record c {
          retune_pending = false;
          retune_done_once = true;
          retune_failed_logged = true;
        };
      }
      else record s { wd_cfg = record c { retune_ready_ts = now + period_ms } }

  -- `cfg` is the snapshot that the loop took.
  unfoldable pub attempt_watchdog_retune : WatchdogCfg → ℕ → Supervisor World → Supervisor World
  attempt_watchdog_retune cfg now s =
      let (rc, world) = watchdog_retune cfg.desired_timeout_ms s.world in
      if not cfg.retune_pending || ltb now cfg.retune_ready_ts
      then s
      else settle_retune now rc (record s { world = world })

  unfoldable pub notify_led_alive : ℕ → Supervisor World → Supervisor World
  notify_led_alive now s = record s { led_last_seen = u32 now }

  unfoldable pub notify_system_alive : ℕ → Supervisor World → Supervisor World
  notify_system_alive now s = record s { sys_last_seen = u32 now }

  -- `supervisor_start`, up to the start of the thread, whose `fail_count` is 0.
  unfoldable pub start : ℕ → ℕ → ℕ → Bool → Supervisor World → Supervisor World
  start now steady_timeout_ms retune_delay_ms monitor_led s =
      let c = record (s.wd_cfg) {
        desired_timeout_ms = steady_timeout_ms;
        retune_delay_ms = retune_delay_ms;
        monitor_led = monitor_led;
        retune_done_once = false;
        retune_pending = true;
        retune_failed_logged = false;
      } in
      record s {
        boot_ts = now;
        counter_cleared = false;
        sys_last_seen = u32 now;
        led_last_seen = if not monitor_led then u32 now else s.led_last_seen;
        wd_cfg = update_retune_schedule now (watchdog_timeout s.world) false c;
        fail_count = 0;
      }

  unfoldable pub request_watchdog_target : ℕ → ℕ → Bool → Supervisor World → Rc × Supervisor World
  request_watchdog_target now timeout_ms apply_immediately s =
      let c = record (s.wd_cfg) { desired_timeout_ms = timeout_ms; retune_done_once = false } in
      (
        done 0,
        record s {
          counter_cleared = false;
          wd_cfg = update_retune_schedule now (watchdog_timeout s.world) apply_immediately c;
        },
      )

  unfoldable pub get_watchdog_target : Supervisor World → ℕ
  get_watchdog_target s = s.wd_cfg.desired_timeout_ms

  unfoldable pub request_manual_recovery : Supervisor World → Supervisor World
  request_manual_recovery s = record s { world = request_manual_trigger s.world }
