-- ===== src/Sensor/Worker.antt =====
-- `sensor_work_handler` of src/sensor_hts221.c, on the firmware's parts.
use zephyr_secure_supervisor.Base.{ℕ, ◌+◌, u32}
use zephyr_secure_supervisor.Persist.Nvs.{Nvs}
use zephyr_secure_supervisor.Watchdog.Ctrl.{Wdt}
use zephyr_secure_supervisor.Supervisor.State.{notify_led_alive, notify_system_alive}
use zephyr_secure_supervisor.Firmware.{System, services}
use zephyr_secure_supervisor.Sensor.{
  Hts, Sensor, Entry, Reading, failed, milli, read_sample, log_sample, blink_sensor_led,
}

-- A run of the handler: what it logs, the states it leaves, and the delay of the poll that it
-- schedules.
pub record Run (nvs : Nvs) (wdt : Wdt) (hts : Hts) : Type 0 where
  pub entry : Entry
  pub sensor : Sensor (hts.Device)
  pub system : System nvs wdt
  pub next_poll_ms : ℕ

module _ (nvs : Nvs) (wdt : Wdt) (polls : ℕ) (hts : Hts) where
  -- The branches on the reading.
  unfoldable pub handle_reading : Reading → Sensor hts.Device → System nvs wdt → Run nvs wdt hts
  handle_reading (failed entry) s y = record {
    entry = entry;
    sensor = s;
    system = y;
    next_poll_ms = s.poll_interval_ms;
  }
  handle_reading (milli temp_mc humidity_mpct) s y =
      let w = y.world in
      let p = w.persist in
      let (entry, crypto) = log_sample hts s.sample_counter temp_mc humidity_mpct p.crypto in
      record {
        entry = entry;
        sensor = blink_sensor_led hts (record s { sample_counter = u32 (s.sample_counter + 1) });
        system = record y { world = record w { persist = record p { crypto = crypto } } };
        next_poll_ms = s.poll_interval_ms;
      }

  -- The heartbeats are at the uptimes `led_at` and `sys_at`.
  unfoldable pub sensor_work_handler : ℕ → ℕ → Sensor hts.Device → System nvs wdt → Run nvs wdt hts
  sensor_work_handler led_at sys_at s y =
      let (reading, d) = read_sample hts s.device in
      let run = handle_reading reading (record s { device = d }) y in
      let sv = services nvs wdt polls in
      record run { system = notify_system_alive sv sys_at (notify_led_alive sv led_at run.system) }
