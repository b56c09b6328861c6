-- ===== src/Firmware/Tests.antt =====
-- The firmware's parts at concrete states, and a run of its threads.
use zephyr_secure_supervisor.Base.{
  replicate, ◌≡◌, ◌<◌, ◌≤◌, ◌+◌, ◌⊎◌, Bool, done, false, inr, refl, true, [], ◌∷◌, none, arith,
}
use zephyr_secure_supervisor.Persist.Memory.{Items, memory, memory-IsNvs, memory-IsWorking}
use zephyr_secure_supervisor.Persist.Mount.{init_fs_if_needed}
use zephyr_secure_supervisor.Persist.Boot.{power_up}
use zephyr_secure_supervisor.Persist.Api.{
  get_watchdog_override, get_consecutive_watchdog, clear_watchdog_counter,
}
use zephyr_secure_supervisor.Persist.Tests.{
  two_resets, two_resets-IsBlob, synced, synced-InSync, ready,
}
use zephyr_secure_supervisor.Persist.Sync.{InSync}
use zephyr_secure_supervisor.Aes.Key.{setkey_enc, expand_loop}
use zephyr_secure_supervisor.Crypto.State.{Crypto, aes, is_enabled}
use zephyr_secure_supervisor.Crypto.Hex.{parse_hex_string, hex_loop, hex_value, safe_strlen}
use zephyr_secure_supervisor.Crypto.Buffers.Laws.{IsReady}
use zephyr_secure_supervisor.Crypto.Init.{app_crypto_init, init_backend, init_aes, install_key}
use zephyr_secure_supervisor.Crypto.Tests.{scalarmult, unready}
use zephyr_secure_supervisor.Persist.Store.{persist_commit_locked}
use zephyr_secure_supervisor.Persist.Store.Laws.{HoldsSealed, commit-HoldsSealed}
use zephyr_secure_supervisor.Persist.Working.{commit_works}
use zephyr_secure_supervisor.Main.{BootConfig, main}
use zephyr_secure_supervisor.Watchdog.Tests.{device, running}
use zephyr_secure_supervisor.Supervisor.Tests.{limits, steady}
use zephyr_secure_supervisor.Supervisor.Traces.{ran}
use zephyr_secure_supervisor.Firmware.{System, services}
use zephyr_secure_supervisor.Firmware.Laws.{InRange}
use zephyr_secure_supervisor.Firmware.Steps.{
  parts_of, Firmware, Running, booted, next, supervised, typed, sampled, after_sample, on_system,
}
use zephyr_secure_supervisor.Firmware.Runs.{Running-sound}
use zephyr_secure_supervisor.Supervisor.Loop.{supervisor_round, is_healthy}
use zephyr_secure_supervisor.Supervisor.Loop.Laws.{health_at}
use zephyr_secure_supervisor.Watchdog.Ctrl.{retune}
use zephyr_secure_supervisor.Firmware.Clearing.{supervisor_round-clear_watchdog_counter}
use zephyr_secure_supervisor.Uart.Command.{CommandConfig}
use zephyr_secure_supervisor.Uart.Thread.{receive}
use zephyr_secure_supervisor.Sensor.Bench.{bench, fresh}

-- A healthy system on the flash and the blob in memory of `synced`.
abbrev pub at_rest : System memory device
at_rest = record {
  led_last_seen = 7000;
  sys_last_seen = 7000;
  boot_ts = 0;
  counter_cleared = true;
  wd_cfg = steady;
  fail_count = 0;
  world = record {
    persist = synced;
    ctrl = running;
    recovery = record { events = 0; deadline = none; delay_ms = 0 };
  };
}

-- The firmware's build for Curve25519 on 32 bits.
abbrev pub config : CommandConfig
config = record {
  curve = true;
  buffer_len = 144;
  boot_timeout_ms = 8000;
  steady_timeout_ms = 2000;
  ulong_max = 4294967295;
}

-- A build for AES with a static key, the crypto that it initialises, and the flash on which that
-- crypto has sealed `two_resets`.
abbrev build : BootConfig
build = record {
  crypto_config = record {
    backend = aes;
    static_iv_hex = replicate 24 b'0';
    static_key_hex = replicate 32 b'7';
    static_secret_hex = [];
    static_peer_hex = [];
    dev_id = [];
    cycles = 1;
  };
  threshold = 3;
  boot_timeout_ms = 8000;
  steady_timeout_ms = 2000;
  safe_mode_delay_ms = 60000;
  retune_delay_ms = 500;
}

abbrev empty : Items
empty id = none

abbrev keyed : Crypto
keyed = (app_crypto_init memory scalarmult build.crypto_config (power_up unready empty)).1.crypto

keyed-IsReady : IsReady keyed
unfolding app_crypto_init init_backend init_aes install_key parse_hex_string hex_loop hex_value
    safe_strlen setkey_enc expand_loop is_enabled
keyed-IsReady = record { enabled = refl; keyed = omega arith; seeded = refl }

abbrev sealed_flash : Items
sealed_flash =
    (persist_commit_locked memory (record (power_up keyed empty) { blob = two_resets })).1.flash

sealed_flash-HoldsSealed : HoldsSealed memory keyed.aes_ctx two_resets sealed_flash
sealed_flash-HoldsSealed =
    let s = record (power_up keyed empty) { blob = two_resets } in
    commit-HoldsSealed memory memory-IsNvs s keyed-IsReady
      (commit_works memory memory-IsNvs memory-IsWorking s keyed-IsReady)

-- Initialising crypto leaves the flash alone.
crypto_first :
    (app_crypto_init memory scalarmult build.crypto_config (power_up unready sealed_flash)).1
    ≡ power_up keyed sealed_flash
unfolding app_crypto_init init_backend init_aes install_key parse_hex_string hex_loop hex_value
    safe_strlen setkey_enc expand_loop
crypto_first = refl

-- After `main`, on a reset by the watchdog.
abbrev started : Firmware memory device 9 bench config limits
started =
    let s = at_rest in
    record {
      console = record {
        buffer = b'w' ∷ b'd' ∷ b'g' ∷ b'5' ∷ b'0' ∷ b'0' ∷ [];
        accum = [];
        system = record s {
          world = parts_of (
              main memory scalarmult device build 40 true (power_up unready sealed_flash)
                s.world.recovery running);
        };
      };
      sensor = fresh;
    }

-- The line ends, the sensor is read, the supervisor runs and a recovery is requested.
abbrev line_read : Firmware memory device 9 bench config limits
line_read = record started {
  console = receive memory device 9 config (7100, b'\n') started.console;
}

abbrev sensor_read : Firmware memory device 9 bench config limits
sensor_read = after_sample memory device 9 bench config limits 7200 7201 line_read

abbrev supervised_once : Firmware memory device 9 bench config limits
supervised_once =
    on_system memory device 9 bench config limits sensor_read
      (supervisor_round (services memory device 9) limits 7300 sensor_read.console.system)

run_of_day :
    Running memory device 9 bench config limits scalarmult build keyed sealed_flash supervised_once
run_of_day =
    next sensor_read supervised_once
      (next line_read sensor_read
        (next started line_read
          (booted started 40 true (power_up unready sealed_flash) at_rest.world.recovery running
            crypto_first refl)
          (typed started 7100 b'\n'))
        (sampled line_read 7200 7201))
      (supervised sensor_read _ (ran sensor_read.console.system 7300))

Running-sound_example :
    let p = supervised_once.console.system.world in
    (p.recovery.events < 16)
    × InRange (get_watchdog_override p.persist)
    × ((init_fs_if_needed memory (power_up keyed p.persist.flash)).1.blob ≡ p.persist.blob)
Running-sound_example =
    Running-sound memory memory-IsNvs memory-IsWorking keyed.aes_ctx device 9 bench config limits
      scalarmult build keyed keyed sealed_flash two_resets supervised_once keyed-IsReady refl
      two_resets-IsBlob refl (inr (omega arith)) sealed_flash-HoldsSealed keyed-IsReady.enabled refl
      run_of_day

-- A healthy system that has not cleared the count yet.
abbrev unmarked : System memory device
unmarked = record at_rest { counter_cleared = false }

supervisor_round-clear_watchdog_counter_example :
    let sv = services memory device 9 in
    let t = supervisor_round sv limits 8000 unmarked in
    let due =
      ((◌≡◌ {A = Bool} false true) × (0 ≤ 8000) × ((retune device 9 8000 running).0 ≡ done 0))
      ⊎ ((◌≡◌ {A = Bool} true true)
          × (0 + 3000 ≤ 8000)
          × (is_healthy (health_at sv limits 8000 unmarked) ≡ true)) in
    (due
      × (t.counter_cleared ≡ true)
      × (t.world.persist ≡ clear_watchdog_counter memory synced)
      × InSync memory ready.aes_ctx t.world.persist
      × (get_consecutive_watchdog t.world.persist ≡ 0))
    ⊎ ((¬ due) × (t.counter_cleared ≡ false) × (t.world.persist ≡ synced))
supervisor_round-clear_watchdog_counter_example =
    supervisor_round-clear_watchdog_counter memory memory-IsNvs memory-IsWorking ready.aes_ctx
      device 9 limits 8000 unmarked synced-InSync refl
