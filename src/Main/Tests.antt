-- ===== src/Main/Tests.antt =====
-- The theorems on src/main.c at a boot without crypto, over empty storage.
use zephyr_secure_supervisor.Base.{
  ℕ, ◌≡◌, ◌≢◌, ◌⊎◌, refl, true, false, none, some, [], replicate, done, arith, List, ◌∷◌, bit_or,
  if◌then◌else◌,
}
use zephyr_secure_supervisor.Crypto.State.{Backend}
use zephyr_secure_supervisor.Crypto.Init.{app_crypto_init, init_backend}
use zephyr_secure_supervisor.Crypto.Hex.{parse_hex_string, hex_loop, hex_value, safe_strlen}
use zephyr_secure_supervisor.Crypto.State.{is_enabled}
use zephyr_secure_supervisor.Persist.Boot.{power_up}
use zephyr_secure_supervisor.Persist.Store.{
  State, persist_load_blob, persist_load_plain, persist_read_encrypted, persist_commit_locked,
  persist_store_blob, store_record,
}
use zephyr_secure_supervisor.Persist.Blob.{blob_bytes}
use zephyr_secure_supervisor.Persist.Mount.{
  init_fs_if_needed, configure_fs, mount_fs, load_or_reset, adopt_blob, retry,
}
use zephyr_secure_supervisor.Persist.Api.{
  init, record_boot, commit_blob, count_boot, is_fallback_active, get_consecutive_watchdog,
  get_watchdog_override,
}
use zephyr_secure_supervisor.Persist.Memory.{memory, Items}
use zephyr_secure_supervisor.Persist.Tests.{ready}
use zephyr_secure_supervisor.Watchdog.Ctrl.{ctrl_init, ensure_channel, set_up, feed, feed_installed}
use zephyr_secure_supervisor.Watchdog.Tests.{device, running}
use zephyr_secure_supervisor.Recovery.Thread.{
  Recovery, waits, begin_round, recovery_start, schedule_safe_mode_reboot, has_reason,
  watchdog_init_fail,
}
use zephyr_secure_supervisor.Main.{BootConfig, Board, prepare, start_watchdog, choose_steady, main}
use zephyr_secure_supervisor.Crypto.Tests.{curve_config, unready, curve_boot_done}
use zephyr_secure_supervisor.Crypto.Tests.{scalarmult}
use zephyr_secure_supervisor.Persist.Tests.{two_resets, synced, committed, committed-HoldsSealed}
use zephyr_secure_supervisor.Persist.Memory.{memory-IsNvs, memory-IsWorking}
use zephyr_secure_supervisor.Crypto.Hex.{hex_digits}
use zephyr_secure_supervisor.Curve.{clamp_scalar}
use zephyr_secure_supervisor.Persist.Keys.{get_secret, get_peer}
use zephyr_secure_supervisor.Sensor.Bench.{bench, fresh}
use zephyr_secure_supervisor.Main.Workers.{WorkerConfig, Workers, main_firmware}
use zephyr_secure_supervisor.Main.Workers.Laws.{IsPolling, main_firmware-cases}
use zephyr_secure_supervisor.Main.Autoload.{autoload_curve_keys}
use zephyr_secure_supervisor.Main.Autoload.Laws.{autoload_curve_keys-keys}
use zephyr_secure_supervisor.Main.Curve.{main-curve_deadline}
use zephyr_secure_supervisor.Main.Lost.{main-request_lost}
use zephyr_secure_supervisor.Recovery.Round.{EventWait, recovery_thread, silent}
use zephyr_secure_supervisor.Watchdog.Ctrl.{Wdt}

abbrev config : BootConfig
config = record {
  crypto_config = record {
    backend = Backend.none;
    static_iv_hex = replicate 24 b'0';
    static_key_hex = [];
    static_secret_hex = [];
    static_peer_hex = [];
    dev_id = [];
    cycles = 1;
  };
  threshold = 3;
  boot_timeout_ms = 8000;
  steady_timeout_ms = 2000;
  safe_mode_delay_ms = 60000;
  retune_delay_ms = 500;
}

abbrev off : State Items
off = power_up (record ready { crypto_ready = false; active_backend = Backend.none }) (λ id. none)

abbrev idle : Recovery
idle = record { events = 0; deadline = none; delay_ms = 0 }

abbrev board : Board Items ℕ
board = main memory scalarmult device config 40 true off idle running

-- The firmware with its command line, and the sensor of `Sensor.Bench`.
abbrev worker_config : WorkerConfig
worker_config = record {
  sensor_config = record { sample_interval_ms = 2000; safe_mode_interval_ms = 0 };
  uart_enabled = true;
}

abbrev workers : Workers ℕ
workers = record {
  sensor = fresh;
  first_poll = none;
  console_ready = true;
  commands = (false, false);
}

main_firmware-cases_example :
    let (board', t) =
      main_firmware bench worker_config memory scalarmult device config 40 true off idle running
        workers in
    (((ctrl_init device 8000 running).0 ≡ done 0)
      × (board'.supervision ≢ none)
      × (board'.recovery.events ≡ 0)
      × IsPolling bench worker_config (prepare memory scalarmult device config true off).0 t)
    ⊎ (((ctrl_init device 8000 running).0 ≢ done 0)
        × (board'.supervision ≡ none)
        × (has_reason watchdog_init_fail board'.recovery.events ≡ true)
        × (t ≡ workers))
main_firmware-cases_example =
    main_firmware-cases bench worker_config memory scalarmult device config 40 true off idle running
      workers refl

-- A watchdog that is never ready.
abbrev absent : Wdt
absent = record device { device_is_ready = λ d. false }

-- The wait on one word of events.
abbrev word_wait : EventWait
word_wait reset before during = if reset then during else bit_or before during

no_safe_mode : (prepare memory scalarmult absent config true off).0 ≡ false
unfolding main start_watchdog prepare choose_steady app_crypto_init init_backend parse_hex_string
    hex_loop hex_value safe_strlen init init_fs_if_needed configure_fs mount_fs load_or_reset
    adopt_blob retry persist_load_blob persist_load_plain persist_read_encrypted
    persist_commit_locked persist_store_blob store_record is_enabled blob_bytes record_boot
    commit_blob count_boot is_fallback_active get_consecutive_watchdog get_watchdog_override
    ctrl_init ensure_channel set_up feed feed_installed recovery_start schedule_safe_mode_reboot
no_safe_mode = refl

not_ready : (ctrl_init absent 8000 running).0 ≢ done 0
unfolding ctrl_init ensure_channel
not_ready e = ground arith

main-request_lost_example :
    let lost = main memory scalarmult absent config 40 true off idle running in
    (lost.supervision ≡ none)
    × (has_reason watchdog_init_fail lost.recovery.events ≡ true)
    × (recovery_thread word_wait (silent (50 ∷ 60 ∷ [])) lost.recovery ≡ none)
main-request_lost_example =
    main-request_lost memory scalarmult absent config word_wait ((λ before during. refl), refl) 40
      true off idle running (50 ∷ 60 ∷ []) no_safe_mode not_ready

-- The third reset in a row, in the build for Curve25519.
abbrev curve_build : BootConfig
curve_build = record config { crypto_config = curve_config }

main-curve_deadline_example :
    begin_round 70000
      (main memory scalarmult device curve_build 40 true
        (power_up unready committed.flash)
        idle
        running).recovery
    ≡ waits none
main-curve_deadline_example =
    main-curve_deadline memory scalarmult device curve_build committed.flash ready.aes_ctx
      two_resets unready 40 70000 true idle running memory-IsNvs refl refl committed-HoldsSealed
      curve_boot_done (omega arith)

abbrev scalar : List ℕ
scalar = replicate 32 0x5A

abbrev peer : List ℕ
peer = replicate 32 0x0F

-- The automatic provisioning on the flash of `synced`.
autoload_curve_keys-keys_example :
    let t = autoload_curve_keys memory (hex_digits scalar) (hex_digits peer) synced in
    ((get_secret memory [] [] t).1 ≡ some (clamp_scalar scalar))
    × ((get_peer memory t).1 ≡ some peer)
autoload_curve_keys-keys_example =
    autoload_curve_keys-keys memory scalar peer [] [] synced memory-IsNvs memory-IsWorking refl
      (omega arith) (omega arith) refl refl
