-- ===== src/Main/Lost.antt =====
-- What becomes of the request that src/main.c posts when the watchdog cannot be set up.
use zephyr_secure_supervisor.Base.{
  ℕ, ◌≡◌, ◌≢◌, Bool, true, false, none, List, Rc, done, is_zero→done, arith,
}
use zephyr_secure_supervisor.Persist.Nvs.{Nvs}
use zephyr_secure_supervisor.Persist.Store.{State}
use zephyr_secure_supervisor.Watchdog.Ctrl.{Wdt, Ctrl, ctrl_init}
use zephyr_secure_supervisor.Recovery.Thread.{
  Recovery, recovery_start, recovery_request, schedule_safe_mode_reboot, has_reason,
  watchdog_init_fail,
}
use zephyr_secure_supervisor.Recovery.Round.{
  EventWait, IsResetting, recovery_thread, silent, silent_rounds,
}
use zephyr_secure_supervisor.Main.{BootConfig, prepare, start_watchdog, main}

module _ (nvs : Nvs) (scalarmult : List ℕ → List ℕ → Rc × List ℕ) (wdt : Wdt)
    (config : BootConfig) where
  -- When the boot finds no safe mode and cannot set up the watchdog, it starts no supervisor and
  -- posts the request for a reboot. But where the recovery thread comes to its first round only after
  -- that, and the wait clears what was posted before it, then no number of rounds in which nothing
  -- else is posted ends in a reboot.
  pub main-request_lost :
      (wait : EventWait)
      → IsResetting wait
      → (now : ℕ) (w : Bool) (s : State nvs.Flash) (r : Recovery) (c : Ctrl wdt.Device)
        (times : List ℕ)
      → (prepare nvs scalarmult wdt config w s).0 ≡ false
      → (ctrl_init wdt config.boot_timeout_ms c).0 ≢ done 0
      → let board = main nvs scalarmult wdt config now w s r c in
        (board.supervision ≡ none)
        × (has_reason watchdog_init_fail board.recovery.events ≡ true)
        × (recovery_thread wait (silent times) board.recovery ≡ none)
  unfolding main start_watchdog recovery_start recovery_request schedule_safe_mode_reboot
  main-request_lost wait resets now w s r c times normal failed =
      let rc = (ctrl_init wdt config.boot_timeout_ms c).0 in
      let board = main nvs scalarmult wdt config now w s r c in
      let quiet =
        silent_rounds wait resets times board.recovery (ground (arith, is_zero→done rc)) in
      (ground (arith, is_zero→done rc), ground (arith, is_zero→done rc), quiet)
