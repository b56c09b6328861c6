-- ===== src/Main/Laws.antt =====
-- What the boot of src/main.c sets up.
use zephyr_secure_supervisor.Base.{
  ℕ, ◌+◌, ◌≡◌, ◌≢◌, ◌≤◌, ◌↔◌, ◌⊎◌, Bool, true, false, none, List, Rc, done, is_zero→done, arith,
}
use zephyr_secure_supervisor.Persist.Nvs.{Nvs}
use zephyr_secure_supervisor.Persist.Store.{State}
use zephyr_secure_supervisor.Watchdog.Ctrl.{Wdt, Ctrl, ctrl_init}
use zephyr_secure_supervisor.Recovery.Thread.{
  Recovery, reboots, waits, begin_round, until_deadline, recovery_start, recovery_request,
  schedule_safe_mode_reboot, has_reason, watchdog_init_fail,
}
use zephyr_secure_supervisor.Main.{BootConfig, prepare, start_watchdog, main}

module _ (nvs : Nvs) (scalarmult : List ℕ → List ℕ → Rc × List ℕ) (wdt : Wdt)
    (config : BootConfig) where
  open nvs use {Flash}
  open wdt use {Device}

  -- The supervisor is started exactly when the watchdog could be set up with the timeout of the
  -- boot, and then no event is posted. Where it could not, the request for a reboot is posted.
  pub main-supervision :
      (now : ℕ) (w : Bool) (s : State Flash) (r : Recovery) (c : Ctrl Device)
      → let board = main nvs scalarmult wdt config now w s r c in
        (((ctrl_init wdt config.boot_timeout_ms c).0 ≡ done 0)
          × (board.supervision ≢ none)
          × (board.recovery.events ≡ 0))
        ⊎ (((ctrl_init wdt config.boot_timeout_ms c).0 ≢ done 0)
            × (board.supervision ≡ none)
            × (has_reason watchdog_init_fail board.recovery.events ≡ true))
  unfolding main start_watchdog recovery_start recovery_request schedule_safe_mode_reboot
  main-supervision now w s r c =
      let rc = (ctrl_init wdt config.boot_timeout_ms c).0 in ground (arith, is_zero→done rc)

  -- With a configured delay other than 0, in the safe mode the thread of src/recovery.c reboots
  -- exactly from that delay on; otherwise it waits without a deadline.
  main-deadline :
      (now later : ℕ) (w : Bool) (s : State Flash) (r : Recovery) (c : Ctrl Device)
      → config.safe_mode_delay_ms ≢ 0
      → let board = main nvs scalarmult wdt config now w s r c in
        (((prepare nvs scalarmult wdt config w s).0 ≡ false)
          × (begin_round later board.recovery ≡ waits none))
        ⊎ (((prepare nvs scalarmult wdt config w s).0 ≡ true)
            × ((begin_round later board.recovery ≡ reboots)
                ↔ (now + config.safe_mode_delay_ms ≤ later)))
  unfolding main start_watchdog recovery_start recovery_request schedule_safe_mode_reboot
      begin_round until_deadline
  main-deadline now later w s r c pos = ground arith
