-- ===== src/Main.antt =====
-- src/main.c, in the firmware's build, up to the start of the supervisor: the order in which the boot
-- calls the other parts, and what it passes on.
pub mod Laws
pub mod Lost
pub mod Curve
pub mod Autoload
pub mod Workers
mod Tests
use zephyr_secure_supervisor.Base.{
  ℕ, Bool, true, false, ltb, ◌==◌, if◌then◌else◌, Option, none, some, List, Rc, is_zero,
}
use zephyr_secure_supervisor.Crypto.Init.{Config, app_crypto_init}
use zephyr_secure_supervisor.Persist.Nvs.{Nvs}
use zephyr_secure_supervisor.Persist.Store.{State}
use zephyr_secure_supervisor.Persist.Api.{
  init, record_boot, clear_watchdog_counter, is_fallback_active, get_watchdog_override,
}
use zephyr_secure_supervisor.Watchdog.Ctrl.{Wdt, Ctrl, ctrl_init}
use zephyr_secure_supervisor.Recovery.Thread.{
  Recovery, recovery_start, recovery_request, schedule_safe_mode_reboot, reason_number,
  watchdog_init_fail,
}

-- The values of Kconfig that the boot passes on.
pub record BootConfig : Type 0 where
  pub crypto_config : Config
  pub threshold : ℕ
  pub boot_timeout_ms : ℕ
  pub steady_timeout_ms : ℕ
  pub safe_mode_delay_ms : ℕ
  pub retune_delay_ms : ℕ

-- The parts after the boot; `supervision` holds the two numbers that `supervisor_start` was called
-- with, if it was.
pub record Board (Flash Device : Type 0) : Type 0 where
  pub persist : State Flash
  pub recovery : Recovery
  pub ctrl : Ctrl Device
  pub supervision : Option (ℕ × ℕ)

-- `MAX`
abbrev pub max_of : ℕ → ℕ → ℕ
max_of a b = if ltb b a then a else b

-- `steady_timeout_ms`, from the override.
unfoldable pub choose_steady : BootConfig → Bool → ℕ → ℕ
choose_steady config safe_mode override =
    let steady = if override == 0 then config.steady_timeout_ms else override in
    if safe_mode then max_of steady config.boot_timeout_ms else steady

module _ (nvs : Nvs) (scalarmult : List ℕ → List ℕ → Rc × List ℕ) (wdt : Wdt)
    (config : BootConfig) where
  open nvs use {Flash}
  open wdt use {Device}

  -- Up to the decision on the safe mode.
  unfoldable pub prepare : Bool → State Flash → Bool × State Flash
  prepare watchdog_reset s =
      let s1 = (app_crypto_init nvs scalarmult config.crypto_config s).1 in
      let s2 = (init nvs s1).1 in
      let s3 = record_boot nvs watchdog_reset s2 in
      let safe_mode = is_fallback_active config.threshold s3 in
      (safe_mode, if safe_mode then clear_watchdog_counter nvs s3 else s3)

  -- From the watchdog on.
  unfoldable pub start_watchdog : Bool → Board Flash Device → Board Flash Device
  start_watchdog safe_mode board =
      let (rc, ctrl) = ctrl_init wdt config.boot_timeout_ms board.ctrl in
      let steady = choose_steady config safe_mode (get_watchdog_override board.persist) in
      let delay = if safe_mode then 0 else config.retune_delay_ms in
      if is_zero rc
      then record board { ctrl = ctrl; supervision = some (steady, delay) }
      else record board {
        ctrl = ctrl;
        recovery = recovery_request (reason_number watchdog_init_fail) board.recovery;
      }

  unfoldable pub main : ℕ → Bool → State Flash → Recovery → Ctrl Device → Board Flash Device
  main now watchdog_reset s recovery ctrl =
      let (safe_mode, persist) = prepare watchdog_reset s in
      let delay = if safe_mode then config.safe_mode_delay_ms else 0 in
      start_watchdog safe_mode (record {
        persist = persist;
        recovery = schedule_safe_mode_reboot now delay (recovery_start recovery);
        ctrl = ctrl;
        supervision = none;
      })
