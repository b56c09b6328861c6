-- ===== src/Main/Workers/Laws.antt =====
-- When the workers are started.
use zephyr_secure_supervisor.Base.{
  ℕ, ◌≡◌, ◌≢◌, ◌⊎◌, inl, inr, refl, ap, ◌∙◌, Bool, true, Option, none, some, List, Rc, done, arith,
  Bool-cases,
}
use zephyr_secure_supervisor.Persist.Nvs.{Nvs}
use zephyr_secure_supervisor.Persist.Store.{State}
use zephyr_secure_supervisor.Watchdog.Ctrl.{Wdt, Ctrl, ctrl_init}
use zephyr_secure_supervisor.Recovery.Thread.{Recovery, has_reason, watchdog_init_fail}
use zephyr_secure_supervisor.Sensor.{Hts, start, poll_interval}
use zephyr_secure_supervisor.Main.{BootConfig, prepare}
use zephyr_secure_supervisor.Main.Laws.{main-supervision}
use zephyr_secure_supervisor.Main.Workers.{
  WorkerConfig, Workers, start_uart, start_workers, main_firmware,
}

module _ (hts : Hts) (config : WorkerConfig) where
  poll_interval-pos : (safe_mode : Bool) → poll_interval config.sensor_config safe_mode ≢ 0
  unfolding poll_interval
  poll_interval-pos safe_mode = ground arith

  -- What a start of the workers sets up, where the sensor is ready.
  abbrev pub IsPolling : Bool → Workers hts.Device → Type 0
  IsPolling safe_mode t =
      (t.first_poll ≡ some (poll_interval config.sensor_config safe_mode))
      × (poll_interval config.sensor_config safe_mode ≢ 0)
      × (t.sensor.poll_interval_ms ≡ poll_interval config.sensor_config safe_mode)
      × (t.sensor.sample_counter ≡ 0)

  start_workers-IsPolling :
      (supervision : Option (ℕ × ℕ)) (safe_mode : Bool) (w : Workers hts.Device)
      → supervision ≢ none
      → hts.device_is_ready w.sensor.device ≡ true
      → IsPolling safe_mode (start_workers hts config supervision safe_mode w)
  unfolding start_workers start start_uart
  start_workers-IsPolling none safe_mode w h is_ready = absurd (h refl)
  start_workers-IsPolling (some s) safe_mode w h is_ready =
      let pos = poll_interval-pos safe_mode in
      elim (Bool-cases config.uart_enabled) [
        | inl e ↦ rw (is_ready, e) (refl, pos, refl, refl)
        | inr e ↦ rw (is_ready, e) (refl, pos, refl, refl)
      ]

  stays :
      (safe_mode : Bool) (w : Workers hts.Device) → start_workers hts config none safe_mode w ≡ w
  unfolding start_workers
  stays safe_mode w = refl

  module _ (nvs : Nvs) (scalarmult : List ℕ → List ℕ → Rc × List ℕ) (wdt : Wdt)
      (build : BootConfig) where
    -- Where the watchdog can be set up with the timeout of the boot, `main` starts the supervisor, posts
    -- no event, and schedules the first poll of a sensor that is ready, after a time other than 0
    -- and with no sample counted. Where it cannot, `main` posts the request for a reboot and starts
    -- neither the supervisor, the sensor worker nor the command line.
    pub main_firmware-cases :
        (now : ℕ) (reset : Bool) (s : State nvs.Flash) (r : Recovery) (k : Ctrl wdt.Device)
        (w : Workers hts.Device)
        → hts.device_is_ready w.sensor.device ≡ true
        → let (board, t) = main_firmware hts config nvs scalarmult wdt build now reset s r k w in
          (((ctrl_init wdt build.boot_timeout_ms k).0 ≡ done 0)
            × (board.supervision ≢ none)
            × (board.recovery.events ≡ 0)
            × IsPolling (prepare nvs scalarmult wdt build reset s).0 t)
          ⊎ (((ctrl_init wdt build.boot_timeout_ms k).0 ≢ done 0)
              × (board.supervision ≡ none)
              × (has_reason watchdog_init_fail board.recovery.events ≡ true)
              × (t ≡ w))
    unfolding main_firmware
    main_firmware-cases now reset s r k w is_ready =
        let safe_mode = (prepare nvs scalarmult wdt build reset s).0 in
        elim (main-supervision nvs scalarmult wdt build now reset s r k) [
          | inl (rc, on, none_posted) ↦
              inl (rc, on, none_posted, start_workers-IsPolling _ safe_mode w on is_ready)
          | inr (rc, off, posted) ↦ inr (
            rc,
            off,
            posted,
            ap (λ (o : Option (ℕ × ℕ)). start_workers hts config o safe_mode w) off
                ∙ stays safe_mode w,
          )
        ]
