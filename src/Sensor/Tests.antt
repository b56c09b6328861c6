-- ===== src/Sensor/Tests.antt =====
-- The sensor worker at concrete readings.
use zephyr_secure_supervisor.Base.{ℕ, ◌≡◌, ◌≤◌, ◌<◌, ◌⊎◌, refl, true, fail, eio, arith, u32}
use zephyr_secure_supervisor.Persist.Memory.{memory}
use zephyr_secure_supervisor.Persist.Tests.{ready, ready-IsReady}
use zephyr_secure_supervisor.Watchdog.Tests.{device}
use zephyr_secure_supervisor.Supervisor.Health.{sample_health}
use zephyr_secure_supervisor.Supervisor.Loop.{is_healthy}
use zephyr_secure_supervisor.Supervisor.Tests.{limits, steady}
use zephyr_secure_supervisor.Firmware.Tests.{at_rest}
use zephyr_secure_supervisor.Sensor.{Hts, Sensor, plain, milli, read_sample, fetch_failed}
use zephyr_secure_supervisor.Sensor.Bench.{bench, fresh}
use zephyr_secure_supervisor.Sensor.Worker.{handle_reading, sensor_work_handler}
use zephyr_secure_supervisor.Sensor.Laws.{
  IsSealed, sensor_work_handler-entry, sensor_work_handler-healthy,
}

-- The eleventh sample.
abbrev warm : Sensor ℕ
warm = record fresh { sample_counter = 10 }

warm_reads : (read_sample bench warm.device).0 ≡ milli 21500 40000
unfolding read_sample
warm_reads = refl

sensor_work_handler-entry_example :
    let run = sensor_work_handler memory device 9 bench 7200 7201 warm at_rest in
    (((◌<◌ 10 10)) × (run.entry ≡ plain 21500 40000))
    ⊎ ((10 ≤ 10) × IsSealed bench ready ready run.entry 21500 40000)
sensor_work_handler-entry_example =
    sensor_work_handler-entry memory device 9 bench 7200 7201 21500 40000 warm at_rest ready
      warm_reads ready-IsReady ready-IsReady.enabled refl (omega arith) (omega arith)

-- A sensor that no longer answers.
abbrev broken : Hts
broken = record bench { sample_fetch = λ d. (fail eio, d) }

sensor_work_handler-healthy_example :
    let run = sensor_work_handler memory device 9 broken 7200 7201 warm at_rest in
    (is_healthy
        (sample_health limits steady (u32 9000) run.system.sys_last_seen run.system.led_last_seen)
      ≡ true)
    × (run.next_poll_ms ≡ 1000)
sensor_work_handler-healthy_example =
    sensor_work_handler-healthy memory device 9 broken limits steady 7200 7201 9000 warm at_rest
      (omega arith) (omega arith) (omega arith) (omega arith) (omega arith) (omega arith)
      (omega arith) (omega arith)

broken_round :
    (sensor_work_handler memory device 9 broken 7200 7201 warm at_rest).entry
    ≡ fetch_failed (fail eio)
unfolding sensor_work_handler handle_reading read_sample
broken_round = refl
