-- ===== src/Sensor/Laws.antt =====
-- What a round of the sensor worker logs, and its heartbeats.
use zephyr_secure_supervisor.Base.{
  ℕ, ◌+◌, ◌*◌, ◌≡◌, ◌≢◌, ◌≤◌, ◌<◌, ◌⊎◌, inl, inr, refl, ap, ◌∙◌, true, leb, if◌then◌else◌, Option,
  none, some, List, length, u32, done, arith, dec_lt,
}
use mathlib.Core.Path.{subst}
use zephyr_secure_supervisor.Crypto.State.{Crypto, is_enabled, get_backend, is_curve25519}
use zephyr_secure_supervisor.Crypto.Iv.{generate_iv, random_words, next_pseudo_entropy}
use zephyr_secure_supervisor.Crypto.Hex.{bytes_to_hex, hex_digits}
use zephyr_secure_supervisor.Crypto.Buffers.{Sealed, encrypt_buffer, decrypt_buffer}
use zephyr_secure_supervisor.Crypto.Buffers.Laws.{IsReady, decrypt_buffer-encrypt_buffer}
use zephyr_secure_supervisor.Crypto.Session.{compute_sample_mac}
use zephyr_secure_supervisor.Persist.Blob.{word_of}
use zephyr_secure_supervisor.Persist.Nvs.{Nvs}
use zephyr_secure_supervisor.Watchdog.Ctrl.{Wdt}
use zephyr_secure_supervisor.Supervisor.State.{WatchdogCfg, notify_led_alive, notify_system_alive}
use zephyr_secure_supervisor.Supervisor.Health.{Limits, sample_health}
use zephyr_secure_supervisor.Supervisor.Loop.{is_healthy}
use zephyr_secure_supervisor.Supervisor.Health.Laws.{sample_health_iff}
use zephyr_secure_supervisor.Firmware.{System}
use zephyr_secure_supervisor.Sensor.{
  Hts, Sensor, Entry, plain, sealed, payload, payload_size, sealed_entry, encrypt_entry, log_sample,
  Reading, read_sample, milli, failed,
}
use zephyr_secure_supervisor.Sensor.Worker.{handle_reading, sensor_work_handler}

length-payload : (t h : ℕ) → length (payload t h) ≡ 16
unfolding payload
length-payload t h = refl

-- The int64_t at byte `i`.
abbrev pub word64_of : List ℕ → ℕ → ℕ
word64_of bytes i = word_of bytes i + 4294967296 * word_of bytes (i + 4)

payload_words :
    (t h : ℕ)
    → t < 18446744073709551616
    → h < 18446744073709551616
    → (word64_of (payload t h) 0 ≡ t) × (word64_of (payload t h) 8 ≡ h)
unfolding payload word_of
payload_words t h p q = (omega arith, omega arith)

module _ (hts : Hts) where
  -- The tag of a sealed sample: under the Curve25519 backend, that of `app_crypto_compute_sample_mac`.
  abbrev tag_of : Crypto → Sealed → Option ℕ
  tag_of c s =
      if is_curve25519 (get_backend c)
      then some (compute_sample_mac hts.crc32_ieee hts.crc32_ieee_update c s.iv s.cipher)
      else none

  -- The entry is a sealed sample with the tag of `c`; the state `t` opens it and finds both values.
  pub record IsSealed (c t : Crypto) (entry : Entry) (temp_mc humidity_mpct : ℕ) : Type 0 where
    pub text : Sealed
    pub entry_lem : entry ≡ sealed (hex_digits text.iv) (hex_digits text.cipher) (tag_of c text)
    pub bytes : List ℕ
    pub opens : decrypt_buffer t text.cipher text.iv payload_size ≡ (done 0, some bytes)
    pub temp_back : word64_of bytes 0 ≡ temp_mc
    pub humidity_back : word64_of bytes 8 ≡ humidity_mpct

  -- Encrypting leaves the tag's inputs alone.
  tag_keeps :
      (c : Crypto) (input : List ℕ) (capacity : ℕ) (s : Sealed)
      → tag_of (encrypt_buffer c input capacity).2 s ≡ tag_of c s
  unfolding encrypt_buffer generate_iv random_words next_pseudo_entropy compute_sample_mac
      get_backend
  tag_keeps c input capacity s = ground arith

  sealed_entry_lem :
      (c : Crypto) (s : Sealed)
      → length s.iv ≡ 12
      → length s.cipher ≡ 16
      → sealed_entry hts c s ≡ some (sealed (hex_digits s.iv) (hex_digits s.cipher) (tag_of c s))
  unfolding sealed_entry bytes_to_hex
  sealed_entry_lem c s iv_full data_full = rw (iv_full, data_full) refl

  log_sample-plain :
      (counter temp_mc humidity_mpct : ℕ) (c : Crypto)
      → counter < 10
      → log_sample hts counter temp_mc humidity_mpct c ≡ (plain temp_mc humidity_mpct, c)
  unfolding log_sample
  log_sample-plain counter temp_mc humidity_mpct c h = ground arith

  -- What was sealed opens in every state with the key.
  opens_lem :
      (c t : Crypto) (temp_mc humidity_mpct : ℕ) (s : Sealed)
      → IsReady c
      → (encrypt_buffer c (payload temp_mc humidity_mpct) payload_size).1 ≡ some s
      → is_enabled t ≡ true
      → t.aes_ctx ≡ c.aes_ctx
      → decrypt_buffer t s.cipher s.iv payload_size ≡ (done 0, some (payload temp_mc humidity_mpct))
  opens_lem c t temp_mc humidity_mpct s r out on key =
      let bytes = payload temp_mc humidity_mpct in
      let size = length-payload temp_mc humidity_mpct in
      let (s', rc, out', iv_full, full, back) =
        decrypt_buffer-encrypt_buffer c t bytes payload_size payload_size r on key
          (omega (arith, size)) (omega (arith, size)) (omega (arith, size)) in
      let same : s' ≡ s = cc in
      subst (λ (x : Sealed). decrypt_buffer t x.cipher x.iv payload_size ≡ (done 0, some bytes))
        same back

  log_sample-IsSealed :
      (counter temp_mc humidity_mpct : ℕ) (c t : Crypto)
      → IsReady c
      → is_enabled t ≡ true
      → t.aes_ctx ≡ c.aes_ctx
      → 10 ≤ counter
      → temp_mc < 18446744073709551616
      → humidity_mpct < 18446744073709551616
      → IsSealed c t (log_sample hts counter temp_mc humidity_mpct c).0 temp_mc humidity_mpct
  unfolding log_sample encrypt_entry
  log_sample-IsSealed counter temp_mc humidity_mpct c t r on key h p q =
      let bytes = payload temp_mc humidity_mpct in
      let size = length-payload temp_mc humidity_mpct in
      let (s, rc, out, iv_full, full, back) =
        decrypt_buffer-encrypt_buffer c c bytes payload_size payload_size r r.enabled refl
          (omega (arith, size)) (omega (arith, size)) (omega (arith, size)) in
      let c' = (encrypt_buffer c bytes payload_size).2 in
      let late : leb 10 counter ≡ true = ground arith in
      let (temp_back, humidity_back) = payload_words temp_mc humidity_mpct p q in
      record {
        text = s;
        entry_lem =
            rw
              (
                r.enabled,
                late,
                rc,
                out,
                sealed_entry_lem c' s iv_full (full ∙ size),
                tag_keeps c bytes payload_size s,
              )
              refl;
        bytes = bytes;
        opens = opens_lem c t temp_mc humidity_mpct s r out on key;
        temp_back = temp_back;
        humidity_back = humidity_back;
      }

module _ (nvs : Nvs) (wdt : Wdt) (polls : ℕ) (hts : Hts) where
  -- A round that reads both values, with crypto ready, logs them plain where fewer than ten samples are
  -- counted. From then on it logs them sealed, with the tag of the present session where the backend
  -- is Curve25519, and any state with crypto enabled under the key opens the entry and finds both.
  pub sensor_work_handler-entry :
      (led_at sys_at temp_mc humidity_mpct : ℕ) (s : Sensor hts.Device) (y : System nvs wdt)
      (t : Crypto)
      → (read_sample hts s.device).0 ≡ milli temp_mc humidity_mpct
      → IsReady y.world.persist.crypto
      → is_enabled t ≡ true
      → t.aes_ctx ≡ y.world.persist.crypto.aes_ctx
      → temp_mc < 18446744073709551616
      → humidity_mpct < 18446744073709551616
      → let run = sensor_work_handler nvs wdt polls hts led_at sys_at s y in
        ((s.sample_counter < 10) × (run.entry ≡ plain temp_mc humidity_mpct))
        ⊎ ((10 ≤ s.sample_counter)
            × IsSealed hts y.world.persist.crypto t run.entry temp_mc humidity_mpct)
  unfolding sensor_work_handler handle_reading
  sensor_work_handler-entry led_at sys_at temp_mc humidity_mpct s y t reads r on key p q =
      let n = s.sample_counter in
      let c = y.world.persist.crypto in
      elim (dec_lt n 10) [
        | yes lt ↦ inl (
          lt,
          rw reads (
              ap (λ (e : Entry × Crypto). e.0) (log_sample-plain hts n temp_mc humidity_mpct c lt)),
        )
        | no ge ↦ inr (
          omega arith,
          rw reads (log_sample-IsSealed hts n temp_mc humidity_mpct c t r on key (omega arith) p q),
        )
      ]

  reading_interval :
      (r : Reading) (s : Sensor hts.Device) (y : System nvs wdt)
      → (handle_reading nvs wdt polls hts r s y).next_poll_ms ≡ s.poll_interval_ms
  unfolding handle_reading
  reading_interval (failed entry) s y = refl
  reading_interval (milli temp_mc humidity_mpct) s y = refl

  -- After a round whose heartbeats fall on uptimes that are no multiple of 2 ^ 32, a supervisor that
  -- looks no later than the two limits after them, which are below 2 ^ 32, finds the system healthy,
  -- whatever the sensor and the LED answered, their failures included; and the next poll is due after
  -- the interval.
  pub sensor_work_handler-healthy :
      (limits : Limits) (cfg : WatchdogCfg) (led_at sys_at now : ℕ) (s : Sensor hts.Device)
      (y : System nvs wdt)
      → u32 led_at ≢ 0
      → u32 sys_at ≢ 0
      → led_at ≤ now
      → sys_at ≤ now
      → now ≤ led_at + limits.led_stale_ms
      → now ≤ sys_at + limits.sys_stale_ms
      → limits.led_stale_ms < 4294967296
      → limits.sys_stale_ms < 4294967296
      → let run = sensor_work_handler nvs wdt polls hts led_at sys_at s y in
        (is_healthy
            (sample_health limits cfg (u32 now) run.system.sys_last_seen run.system.led_last_seen)
          ≡ true)
        × (run.next_poll_ms ≡ s.poll_interval_ms)
  unfolding sensor_work_handler notify_led_alive notify_system_alive
  sensor_work_handler-healthy limits cfg led_at sys_at now s y led sys p q led_fresh sys_fresh
        led_max sys_max =
      let healthy =
        sample_health_iff limits cfg now sys_at led_at q (omega arith) sys p (omega arith) led in
      let (reading, d) = read_sample hts s.device in
      (
        healthy.1 (omega arith, inr (omega arith)),
        reading_interval reading (record s { device = d }) y,
      )
