-- ===== src/Supervisor/Tests.antt =====
-- The theorems on src/supervisor.c at concrete states.
use zephyr_secure_supervisor.Base.{
  ℕ, ◌+◌, ◌-◌, ◌≡◌, ◌≤◌, ◌<◌, ◌⊎◌, ◌↔◌, refl, Bool, true, false, done, arith, u32,
}
use zephyr_secure_supervisor.Supervisor.State.{
  Services, Supervisor, WatchdogCfg, attempt_watchdog_retune, start, max_failures,
}
use zephyr_secure_supervisor.Supervisor.Health.{Limits, sample_health, sample}
use zephyr_secure_supervisor.Supervisor.Health.Laws.{sample_health_iff}
use zephyr_secure_supervisor.Supervisor.Loop.{is_healthy, supervisor_round}
use zephyr_secure_supervisor.Supervisor.Loop.Laws.{health_at, supervisor_round-degraded}
use zephyr_secure_supervisor.Supervisor.Traces.{started, next, ran, IsSettled, Reachable-IsSettled}

-- What was called: the feeds, the retunes, the clearings and the requests, counted in digits.
abbrev counting : Services
counting = record {
  World = ℕ;
  watchdog_feed = λ w. (done 0, w + 1);
  watchdog_is_enabled = λ w. true;
  watchdog_retune = λ timeout_ms w. (done 0, w + 10);
  watchdog_timeout = λ w. 8000;
  clear_watchdog_counter = λ w. w + 100;
  request_health_fault = λ w. w + 1000;
  request_manual_trigger = λ w. w + 10000;
}

abbrev pub limits : Limits
limits = record { sys_stale_ms = 5000; led_stale_ms = 3000 }

abbrev pub steady : WatchdogCfg
steady = record {
  desired_timeout_ms = 8000;
  retune_delay_ms = 0;
  retune_ready_ts = 0;
  monitor_led = true;
  retune_pending = false;
  retune_done_once = true;
  retune_failed_logged = false;
}

-- The heartbeat stopped at an uptime of 4 seconds, after which two rounds failed.
abbrev failing : Supervisor ℕ
failing = record {
  led_last_seen = 20000;
  sys_last_seen = 4000;
  boot_ts = 100;
  counter_cleared = false;
  wd_cfg = steady;
  fail_count = 2;
  world = 7;
}

sample_health_iff_example :
    (is_healthy (sample_health limits steady (u32 4294970000) (u32 4294966000) (u32 4294968000))
      ≡ true)
    ↔ ((4294970000 - 4294966000 ≤ 5000)
        × ((◌≡◌ {A = Bool} true false) ⊎ (4294970000 - 4294968000 ≤ 3000)))
sample_health_iff_example =
    sample_health_iff limits steady 4294970000 4294966000 4294968000 (omega arith) (omega arith)
      (omega arith) (omega arith) (omega arith) (omega arith)

stale_heartbeat : is_healthy (health_at counting limits 21000 failing) ≡ false
unfolding attempt_watchdog_retune sample_health sample
stale_heartbeat = refl

supervisor_round-degraded_example :
    let before = attempt_watchdog_retune counting steady 21000 failing in
    let after = supervisor_round counting limits 21000 failing in
    ((2 + 1 < max_failures) × (after.world ≡ before.world) × (after.fail_count ≡ 2 + 1))
    ⊎ ((2 + 1 ≡ max_failures) × (after.world ≡ before.world + 1000) × (after.fail_count ≡ 0))
supervisor_round-degraded_example =
    supervisor_round-degraded counting limits 21000 failing (omega arith) stale_heartbeat
      (omega arith)

abbrev first_round : Supervisor ℕ
first_round = supervisor_round counting limits 1000 (start counting 500 8000 5000 true failing)

Reachable-IsSettled_example : IsSettled first_round
Reachable-IsSettled_example = Reachable-IsSettled counting limits first_round (
    next (started failing 500 8000 5000 true)
      (ran (start counting 500 8000 5000 true failing) 1000))

-- The same heartbeat before any failure was counted.
abbrev quiet : Supervisor ℕ
quiet = record failing { fail_count = 0 }
