-- ===== src/Sensor.antt =====
-- src/sensor_hts221.c: the samples of the sensor worker, plain or sealed, its LED and its heartbeats.
-- The LED's sleeps and the text of the log are left out.
pub mod Worker
pub mod Laws
pub mod Bench
mod Tests
use zephyr_secure_supervisor.Base.{
  ℕ, zero, suc, ◌+◌, ◌*◌, Bool, true, false, not, ◌&&◌, leb, ◌==◌, if◌then◌else◌, Option, none,
  some, List, ◌++◌, ◌>>◌, u32, Rc, done, fail, enodev, is_zero,
}
use zephyr_secure_supervisor.Crypto.State.{Crypto, is_enabled, get_backend, is_curve25519, iv_len}
use zephyr_secure_supervisor.Crypto.Iv.{le32}
use zephyr_secure_supervisor.Crypto.Hex.{bytes_to_hex}
use zephyr_secure_supervisor.Crypto.Buffers.{Sealed, encrypt_buffer}
use zephyr_secure_supervisor.Crypto.Session.{compute_sample_mac}

pub data Channel : Type 0 where
  ambient_temp humidity : Channel

-- What the file calls of Zephyr's sensor and GPIO drivers, whose state is `Device`, and of its CRC.
-- An int64_t is its 64-bit word.
pub record Hts : Type 1 where
  pub Device : Type 0
  pub Value : Type 0
  pub device_is_ready : Device → Bool
  pub sample_fetch : Device → Rc × Device
  pub channel_get : Channel → Device → Rc × Value × Device
  pub value_to_milli : Value → ℕ
  pub led_configure : Device → Rc × Device
  pub led_set : Bool → Device → Rc × Device
  pub crc32_ieee : List ℕ → ℕ
  pub crc32_ieee_update : ℕ → List ℕ → ℕ

-- The two intervals of Kconfig.
pub record SensorConfig : Type 0 where
  pub sample_interval_ms : ℕ
  pub safe_mode_interval_ms : ℕ

-- The file's variables, with the drivers' state.
pub record Sensor (Device : Type 0) : Type 0 where
  pub device : Device
  pub led_ready : Bool
  pub poll_interval_ms : ℕ
  pub sample_counter : ℕ

-- The entry that a round logs. A sealed one holds the hexadecimal IV and data, and the tag, if any.
pub data Entry : Type 0 where
  fetch_failed channel_failed : Rc → Entry
  plain : ℕ → ℕ → Entry
  sealed : List ℕ → List ℕ → Option ℕ → Entry

-- `struct sensor_sample_payload`, its sixteen bytes in memory.
abbrev pub le64 : ℕ → List ℕ
le64 w = le32 w ++ le32 (w >> 32)

abbrev pub payload_size : ℕ
payload_size = 16

unfoldable pub payload : ℕ → ℕ → List ℕ
payload temp_mc humidity_mpct = le64 temp_mc ++ le64 humidity_mpct

-- The two readings, or the entry of a failure.
pub data Reading : Type 0 where
  failed : Entry → Reading
  milli : ℕ → ℕ → Reading

-- `sensor_poll_interval_ms`, as it is chosen at the start.
unfoldable pub poll_interval : SensorConfig → Bool → ℕ
poll_interval config safe_mode_active =
    let chosen =
      if safe_mode_active then config.safe_mode_interval_ms else config.sample_interval_ms in
    if chosen == 0 then 1000 else chosen

module _ (hts : Hts) where
  open hts use {
    Device, Value, device_is_ready, sample_fetch, channel_get, value_to_milli, led_configure,
    led_set, crc32_ieee, crc32_ieee_update,
  }

  -- The rounds of `blink_sensor_led` that are left.
  unfoldable pub blink_rounds : ℕ → Sensor Device → Sensor Device
  blink_rounds zero s = s
  blink_rounds (suc left) s =
      let (on_rc, lit) = led_set true s.device in
      let (off_rc, dark) = led_set false lit in
      let rest = blink_rounds left (record s { device = dark }) in
      if not (is_zero on_rc)
      then record s { device = lit; led_ready = false }
      else if not (is_zero off_rc)
      then record s { device = dark; led_ready = false }
      else rest

  unfoldable pub blink_sensor_led : Sensor Device → Sensor Device
  blink_sensor_led s = if not s.led_ready then s else blink_rounds 2 s

  -- The text of a sealed sample, where both strings fit.
  unfoldable pub sealed_entry : Crypto → Sealed → Option Entry
  sealed_entry c s =
      let (iv_rc, iv_hex) = bytes_to_hex s.iv (iv_len * 2 + 1) in
      let (data_rc, data_hex) = bytes_to_hex s.cipher (payload_size * 2 + 1) in
      let mac = compute_sample_mac crc32_ieee crc32_ieee_update c s.iv s.cipher in
      if is_zero iv_rc && is_zero data_rc
      then some (sealed iv_hex data_hex (if is_curve25519 (get_backend c) then some mac else none))
      else none

  -- The sealed entry, if everything succeeds.
  unfoldable pub encrypt_entry : Crypto → ℕ → ℕ → Option Entry × Crypto
  encrypt_entry c temp_mc humidity_mpct =
      let (rc, out, c') = encrypt_buffer c (payload temp_mc humidity_mpct) payload_size in
      (if is_zero rc then elim out [ none ↦ none | some s ↦ sealed_entry c' s ] else none, c')

  abbrev pub logged_or_plain : Option Entry → ℕ → ℕ → Entry
  logged_or_plain none temp_mc humidity_mpct = plain temp_mc humidity_mpct
  logged_or_plain (some entry) temp_mc humidity_mpct = entry

  unfoldable pub log_sample : ℕ → ℕ → ℕ → Crypto → Entry × Crypto
  log_sample counter temp_mc humidity_mpct c =
      let (entry, c') = encrypt_entry c temp_mc humidity_mpct in
      if is_enabled c && leb 10 counter
      then (logged_or_plain entry temp_mc humidity_mpct, c')
      else (plain temp_mc humidity_mpct, c)

  unfoldable pub read_sample : Device → Reading × Device
  read_sample d =
      let (fetch_rc, d1) = sample_fetch d in
      let (temp_rc, temp, d2) = channel_get ambient_temp d1 in
      let (humid_rc, humid, d3) = channel_get humidity d2 in
      if not (is_zero fetch_rc)
      then (failed (fetch_failed fetch_rc), d1)
      else if not (is_zero temp_rc)
      then (failed (channel_failed temp_rc), d2)
      else if not (is_zero humid_rc)
      then (failed (channel_failed humid_rc), d3)
      else (milli (value_to_milli temp) (value_to_milli humid), d3)

  -- The return code of `sensor_hts221_start` and the delay of the first poll, if one is scheduled.
  unfoldable pub start : SensorConfig → Bool → Sensor Device → Rc × Option ℕ × Sensor Device
  start config safe_mode_active s =
      let interval = poll_interval config safe_mode_active in
      let (led_rc, d) = led_configure s.device in
      if not (device_is_ready s.device) then (fail enodev, none, s) else (
        done 0,
        some interval,
        record {
          device = d;
          led_ready = is_zero led_rc;
          poll_interval_ms = interval;
          sample_counter = 0;
        },
      )
