-- ===== src/Watchdog/Tests.antt =====
-- The theorems on src/watchdog_ctrl.c at concrete inputs.
use zephyr_secure_supervisor.Base.{
  ℕ, ◌+◌, ◌*◌, ◌^◌, ◌≡◌, ◌≢◌, ◌≤◌, ◌<◌, ◌⊎◌, ◌↔◌, refl, true, Option, none, some, done, fail,
  einval, eoverflow, ◌<<◌, arith,
}
use zephyr_secure_supervisor.Watchdog.Compute.{compute, scale_loop}
use zephyr_secure_supervisor.Watchdog.Compute.Laws.{compute_iff, compute-tight}
use zephyr_secure_supervisor.Watchdog.Ctrl.{Wdt, Ctrl, retune, get_timeout, wait_ready}
use zephyr_secure_supervisor.Watchdog.Ctrl.Laws.{retune-outcome}

compute_eight_seconds : compute 32000 8000 ≡ (done 0, 4, 3999)
unfolding compute scale_loop
compute_eight_seconds = refl

-- The truncation to 32 bits gives a timeout of 37 hours the registers of 8 seconds.
compute_thirty_seven_hours : compute 32000 134225728 ≡ (done 0, 4, 3999)
unfolding compute scale_loop
compute_thirty_seven_hours = refl

compute_iff_example :
    (((compute 32000 40000).0 ≡ done 0) ↔ ((4 ≤ 1280000) × (1280000 < 256 * 4096)))
    × (((compute 32000 40000).0 ≡ done 0) ⊎ (compute 32000 40000 ≡ (fail einval, 0, 0)))
compute_iff_example = compute_iff 32000 40000 (omega arith)

compute-tight_example :
    (4 ≤ 6)
    × (3999 < 4096)
    × ((3999 + 1) * (4 << 4) * 1000 ≤ 256000000)
    × (256000000 < (3999 + 2) * (4 << 4) * 1000)
    × ((◌≡◌ {A = ℕ} 4 0) ⊎ (4096 * (4 << 4) * 1000 ≤ 2 * 256000000))
compute-tight_example = compute-tight 32000 8000 4 3999 (omega arith) compute_eight_seconds

-- A device that counts its feeds, with the registers ready at the first poll.
abbrev pub device : Wdt
device = record {
  Device = ℕ;
  lsi_value = 32000;
  device_is_ready = λ d. true;
  install_timeout = λ timeout_ms d. (done 0, d);
  setup = λ d. (done 0, d);
  feed_channel = λ id d. (done 0, d + 1);
  enable_write_access = λ d. d;
  set_prescaler = λ prescaler d. d;
  set_reload_counter = λ reload d. d;
  registers_ready = λ d. (true, d);
  reload_counter = λ d. d;
  uptime_32 = λ d. (0, d);
}

abbrev pub running : Ctrl ℕ
running = record { device = 0; feed_enabled = true; channel_id = some 0; current_timeout_ms = 8000 }

retune-outcome_example :
    let (rc, t) = retune device 9 2000 running in
    (t.channel_id ≡ some 0)
    × (t.feed_enabled ≡ true)
    × (((rc ≡ done 0)
          × (get_timeout device t ≡ 2000)
          × (◌≢◌ {A = ℕ} 2000 0)
          × (◌≢◌ {A = Option ℕ} (some 0) none)
          × ((2000 ≡ get_timeout device running)
              ⊎ ((4 * 1000 ≤ 64000000) × (64000000 < 256 * 4096 * 1000))
              ⊎ (1000 * 2 ^ 32 ≤ 64000000)))
        ⊎ ((rc ≢ done 0) × (get_timeout device t ≡ get_timeout device running)))
retune-outcome_example = retune-outcome device 9 2000 running

no_fuel_used : (wait_ready device 2 5 0).0 ≢ fail eoverflow
unfolding wait_ready
no_fuel_used = ground arith
