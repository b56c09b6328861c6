-- ===== src/Firmware/Steps.antt =====
-- The threads of the firmware after the boot: the supervisor, the console's thread, the sensor worker
-- and the recovery thread, in any order. A step is one call.
use zephyr_secure_supervisor.Base.{ℕ, List, Rc, if◌then◌else◌, Bool, ◌≡◌}
use zephyr_secure_supervisor.Crypto.State.{Crypto}
use zephyr_secure_supervisor.Persist.Nvs.{Nvs}
use zephyr_secure_supervisor.Persist.Store.{State}
use zephyr_secure_supervisor.Persist.Api.{is_fallback_active, clear_watchdog_counter}
use zephyr_secure_supervisor.Persist.Working.{boot}
use zephyr_secure_supervisor.Watchdog.Ctrl.{Wdt, Ctrl}
use zephyr_secure_supervisor.Supervisor.Health.{Limits}
use zephyr_secure_supervisor.Supervisor.Traces.{Step}
use zephyr_secure_supervisor.Recovery.Thread.{Recovery, recovery_request, schedule_safe_mode_reboot}
use zephyr_secure_supervisor.Crypto.Init.{app_crypto_init}
use zephyr_secure_supervisor.Persist.Boot.{power_up}
use zephyr_secure_supervisor.Main.{BootConfig, Board, main}
use zephyr_secure_supervisor.Firmware.{System, Parts, services}
use zephyr_secure_supervisor.Uart.Command.{CommandConfig}
use zephyr_secure_supervisor.Uart.Thread.{Console, receive}
use zephyr_secure_supervisor.Sensor.{Hts, Sensor}
use zephyr_secure_supervisor.Sensor.Worker.{sensor_work_handler}

-- The parts as `main` leaves them.
abbrev pub parts_of : {Flash Device : Type 0} → Board Flash Device → Parts Flash Device
parts_of board = record { persist = board.persist; ctrl = board.ctrl; recovery = board.recovery }

-- The persistent state among them: the safe mode clears the count of resets.
unfoldable pub after_boot : (nvs : Nvs) → ℕ → Crypto → Bool → nvs.Flash → State nvs.Flash
after_boot nvs threshold c watchdog_reset f =
    let s = boot nvs c watchdog_reset f in
    if is_fallback_active threshold s then clear_watchdog_counter nvs s else s

module _ (nvs : Nvs) (wdt : Wdt) (polls : ℕ) (hts : Hts) (config : CommandConfig)
    (limits : Limits) where
  -- The console holds the state of the parts.
  pub record Firmware : Type 0 where
    pub console : Console nvs wdt polls config
    pub sensor : Sensor hts.Device

  -- Another state of the parts.
  abbrev pub on_system : Firmware → System nvs wdt → Firmware
  on_system w y = let c = w.console in record w { console = record c { system = y } }

  abbrev pub on_recovery : Firmware → Recovery → Firmware
  on_recovery w r =
      let y = w.console.system in
      let parts = y.world in on_system w (record y { world = record parts { recovery = r } })

  abbrev pub after_sample : ℕ → ℕ → Firmware → Firmware
  after_sample led_at sys_at w =
      let run = sensor_work_handler nvs wdt polls hts led_at sys_at w.sensor w.console.system in
      on_system (record w { sensor = run.sensor }) run.system

  -- `k_event_wait` of `recovery_thread`, which clears the events first.
  abbrev pub after_wait : Firmware → Firmware
  after_wait w = let r = w.console.system.world.recovery in on_recovery w (record r { events = 0 })

  pub data FirmwareStep : Firmware → Firmware → Type 0 where
    supervised :
        (w : Firmware) (y : System nvs wdt)
        → Step (services nvs wdt polls) limits w.console.system y
        → FirmwareStep w (on_system w y)
    typed :
        (w : Firmware) (now ch : ℕ)
        → FirmwareStep w (record w { console = receive nvs wdt polls config (now, ch) w.console })
    sampled : (w : Firmware) (led_at sys_at : ℕ) → FirmwareStep w (after_sample led_at sys_at w)
    requested :
        (w : Firmware) (reason : ℕ)
        → FirmwareStep w (on_recovery w (recovery_request reason w.console.system.world.recovery))
    scheduled :
        (w : Firmware) (now delay_ms : ℕ)
        → FirmwareStep w
            (on_recovery w (schedule_safe_mode_reboot now delay_ms w.console.system.world.recovery))
    waited : (w : Firmware) → FirmwareStep w (after_wait w)

  -- What the threads reach after `main`, in a build, on the flash `f` and with crypto initialised to
  -- the state `c`.
  pub data Running (scalarmult : List ℕ → List ℕ → Rc × List ℕ) (build : BootConfig) (c : Crypto)
      (f : nvs.Flash) : Firmware → Type 0 where
    booted :
        (w : Firmware) (now : ℕ) (watchdog_reset : Bool) (s : State nvs.Flash) (r : Recovery)
        (k : Ctrl wdt.Device)
        → (app_crypto_init nvs scalarmult build.crypto_config s).1 ≡ power_up c f
        → w.console.system.world ≡ parts_of (main nvs scalarmult wdt build now watchdog_reset s r k)
        → Running scalarmult build c f w
    next :
        (v w : Firmware)
        → Running scalarmult build c f v
        → FirmwareStep v w
        → Running scalarmult build c f w
