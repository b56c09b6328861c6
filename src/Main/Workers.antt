-- ===== src/Main/Workers.antt =====
-- The end of `main` in src/main.c: the sensor worker and the command line, which are started after the
-- watchdog. Where the watchdog fails, `main` has returned. `Autoload` has the provisioning build's start.
pub mod Laws
use zephyr_secure_supervisor.Base.{
  ℕ, Bool, true, false, if◌then◌else◌, Option, none, some, List, Rc,
}
use zephyr_secure_supervisor.Persist.Nvs.{Nvs}
use zephyr_secure_supervisor.Persist.Store.{State}
use zephyr_secure_supervisor.Watchdog.Ctrl.{Wdt, Ctrl}
use zephyr_secure_supervisor.Recovery.Thread.{Recovery}
use zephyr_secure_supervisor.Sensor.{Hts, Sensor, SensorConfig, start}
use zephyr_secure_supervisor.Uart.Thread.{commands_start}
use zephyr_secure_supervisor.Main.{BootConfig, Board, prepare, main}
use zephyr_secure_supervisor.Main.Autoload.{prepare_provision}

-- CONFIG_APP_ENABLE_UART_COMMANDS and the sensor's values of Kconfig.
pub record WorkerConfig : Type 0 where
  pub sensor_config : SensorConfig
  pub uart_enabled : Bool

-- The sensor's variables and the delay of its first poll, if that is scheduled; `cmd_safe_mode_active`,
-- and whether the thread of the command line was created. `console_ready` is the console's state.
pub record Workers (Device : Type 0) : Type 0 where
  pub sensor : Sensor Device
  pub first_poll : Option ℕ
  pub console_ready : Bool
  pub commands : Bool × Bool

module _ (hts : Hts) (config : WorkerConfig) where
  unfoldable pub start_uart : Bool → Workers hts.Device → Workers hts.Device
  start_uart safe_mode w =
      if config.uart_enabled
      then record w { commands = commands_start w.console_ready safe_mode }
      else w

  unfoldable pub start_workers : Option (ℕ × ℕ) → Bool → Workers hts.Device → Workers hts.Device
  start_workers none safe_mode w = w
  start_workers (some supervision) safe_mode w =
      let (rc, first_poll, sensor) = start hts config.sensor_config safe_mode w.sensor in
      start_uart safe_mode (record w { sensor = sensor; first_poll = first_poll })

  module _ (nvs : Nvs) (scalarmult : List ℕ → List ℕ → Rc × List ℕ) (wdt : Wdt)
      (build : BootConfig) where
    -- The whole of `main` in the firmware's build.
    unfoldable pub main_firmware :
        ℕ
        → Bool
        → State nvs.Flash
        → Recovery
        → Ctrl wdt.Device
        → Workers hts.Device
        → Board nvs.Flash wdt.Device × Workers hts.Device
    main_firmware now watchdog_reset s recovery ctrl w =
        let board = main nvs scalarmult wdt build now watchdog_reset s recovery ctrl in
        let (safe_mode, persist) = prepare nvs scalarmult wdt build watchdog_reset s in
        (board, start_workers board.supervision safe_mode w)

    -- The whole of `main` in a provisioning build that stores the keys of Kconfig.
    unfoldable pub main_provision :
        List ℕ
        → List ℕ
        → Bool
        → State nvs.Flash
        → Workers hts.Device
        → State nvs.Flash × Workers hts.Device
    main_provision secret_hex peer_hex watchdog_reset s w =
        let (safe_mode, persist) =
          prepare_provision nvs scalarmult build secret_hex peer_hex watchdog_reset s in
        (persist, start_uart safe_mode w)
