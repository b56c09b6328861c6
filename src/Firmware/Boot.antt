-- ===== src/Firmware/Boot.antt =====
-- `main` against the boot of the persistent state alone.
use zephyr_secure_supervisor.Base.{ℕ, ◌≡◌, ◌<◌, refl, ◌∙◌, Bool, List, Rc, arith}
use zephyr_secure_supervisor.Crypto.State.{Crypto}
use zephyr_secure_supervisor.Crypto.Init.{app_crypto_init}
use zephyr_secure_supervisor.Persist.Nvs.{Nvs}
use zephyr_secure_supervisor.Persist.Store.{State}
use zephyr_secure_supervisor.Persist.Boot.{power_up}
use zephyr_secure_supervisor.Persist.Working.{boot}
use zephyr_secure_supervisor.Persist.Api.{init}
use zephyr_secure_supervisor.Recovery.Thread.{
  Recovery, recovery_start, schedule_safe_mode_reboot, reason_number, watchdog_init_fail,
  health_fault,
}
use zephyr_secure_supervisor.Recovery.Laws.{recovery_request-bits}
use zephyr_secure_supervisor.Watchdog.Ctrl.{Wdt, Ctrl}
use zephyr_secure_supervisor.Main.{BootConfig, Board, prepare, start_watchdog, main}
use zephyr_secure_supervisor.Firmware.Steps.{after_boot}

module _ (nvs : Nvs) (scalarmult : List ℕ → List ℕ → Rc × List ℕ) (wdt : Wdt)
    (build : BootConfig) where
  prepare-after_boot :
      (c : Crypto) (f : nvs.Flash) (reset : Bool) (s : State nvs.Flash)
      → (app_crypto_init nvs scalarmult build.crypto_config s).1 ≡ power_up c f
      → (prepare nvs scalarmult wdt build reset s).1 ≡ after_boot nvs build.threshold c reset f
  unfolding prepare after_boot boot init
  prepare-after_boot c f reset s e = rw e refl

  start_watchdog_persist :
      (safe_mode : Bool) (board : Board nvs.Flash wdt.Device)
      → (start_watchdog nvs scalarmult wdt build safe_mode board).persist ≡ board.persist
  unfolding start_watchdog
  start_watchdog_persist safe_mode board = ground arith

  start_watchdog_posted :
      (safe_mode : Bool) (board : Board nvs.Flash wdt.Device)
      → board.recovery.events < 16
      → (start_watchdog nvs scalarmult wdt build safe_mode board).recovery.events < 16
  unfolding start_watchdog
  start_watchdog_posted safe_mode board h =
      let fits =
        (recovery_request-bits (reason_number watchdog_init_fail) health_fault board.recovery
          h).0 in
      ground (arith, fits)

  -- Crypto apart, the persistent state after `main` is that of the boot, and only bits of reasons are
  -- posted.
  pub main-after_boot :
      (c : Crypto) (f : nvs.Flash) (now : ℕ) (reset : Bool) (s : State nvs.Flash) (r : Recovery)
      (k : Ctrl wdt.Device)
      → (app_crypto_init nvs scalarmult build.crypto_config s).1 ≡ power_up c f
      → let board = main nvs scalarmult wdt build now reset s r k in
        (board.persist ≡ after_boot nvs build.threshold c reset f) × (board.recovery.events < 16)
  unfolding main recovery_start schedule_safe_mode_reboot
  main-after_boot c f now reset s r k e = (
    start_watchdog_persist _ _ ∙ prepare-after_boot c f reset s e,
    start_watchdog_posted _ _ (ground arith),
  )
