-- ===== src/Firmware.antt =====
-- The parts together: the services that src/supervisor.c calls, by src/watchdog_ctrl.c,
-- src/persist_state.c and src/recovery.c.
pub mod Steps
pub mod Laws
pub mod Lines
pub mod Boot
pub mod Runs
pub mod Clearing
pub mod Reboots
pub mod Tests
use zephyr_secure_supervisor.Base.{ℕ, Bool, Rc}
use zephyr_secure_supervisor.Persist.Nvs.{Nvs}
use zephyr_secure_supervisor.Persist.Store.{State}
use zephyr_secure_supervisor.Persist.Api.{clear_watchdog_counter}
use zephyr_secure_supervisor.Watchdog.Ctrl.{Wdt, Ctrl, feed, retune, is_feed_enabled, get_timeout}
use zephyr_secure_supervisor.Recovery.Thread.{
  Recovery, recovery_request, reason_number, health_fault, manual_trigger,
}
use zephyr_secure_supervisor.Supervisor.State.{Services, Supervisor}

-- The states of the three parts.
pub record Parts (Flash Device : Type 0) : Type 0 where
  pub persist : State Flash
  pub ctrl : Ctrl Device
  pub recovery : Recovery

abbrev pub System : Nvs → Wdt → Type 0
System nvs wdt = Supervisor (Parts nvs.Flash wdt.Device)

-- `polls` is the fuel of the wait for the watchdog's registers.
abbrev pub services : Nvs → Wdt → ℕ → Services
services nvs wdt polls = record {
  World = Parts nvs.Flash wdt.Device;
  watchdog_feed = λ w. let (rc, ctrl) = feed wdt w.ctrl in (rc, record w { ctrl = ctrl });
  watchdog_is_enabled = λ w. is_feed_enabled wdt w.ctrl;
  watchdog_retune = λ timeout_ms w.
      let (rc, ctrl) = retune wdt polls timeout_ms w.ctrl in (rc, record w { ctrl = ctrl });
  watchdog_timeout = λ w. get_timeout wdt w.ctrl;
  clear_watchdog_counter = λ w. record w { persist = clear_watchdog_counter nvs w.persist };
  request_health_fault =
      λ w. record w { recovery = recovery_request (reason_number health_fault) w.recovery };
  request_manual_trigger =
      λ w. record w { recovery = recovery_request (reason_number manual_trigger) w.recovery };
}
