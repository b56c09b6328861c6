-- ===== src/Sensor/Bench.antt =====
-- A sensor with fixed readings.
use zephyr_secure_supervisor.Base.{ℕ, ◌+◌, true, done}
use zephyr_secure_supervisor.Sensor.{Hts, Sensor, Channel, ambient_temp, humidity}

abbrev pub value_of : Channel → ℕ
value_of ambient_temp = 21500
value_of humidity = 40000

-- A sensor of 21.5 degrees and 40 percent, and an LED.
abbrev pub bench : Hts
bench = record {
  Device = ℕ;
  Value = ℕ;
  device_is_ready = λ d. true;
  sample_fetch = λ d. (done 0, d + 1);
  channel_get = λ channel d. (done 0, value_of channel, d);
  value_to_milli = λ v. v;
  led_configure = λ d. (done 0, d);
  led_set = λ on d. (done 0, d);
  crc32_ieee = λ bytes. 0;
  crc32_ieee_update = λ crc bytes. crc;
}

abbrev pub fresh : Sensor ℕ
fresh = record { device = 0; led_ready = true; poll_interval_ms = 1000; sample_counter = 0 }
