-- ===== src/Firmware/Runs.antt =====
-- What holds in every state that the threads reach after a boot.
use zephyr_secure_supervisor.Base.{
  List, Rc, ℕ, ◌≡◌, ◌<◌, refl, sym, ap, ◌∙◌, Bool, true, ◌&&◌, leb, ltb, ◌-◌, if-both, [], length,
  arith,
}
use mathlib.Core.Path.{subst, subst₂}
use zephyr_secure_supervisor.Aes.Block.{AesCtx}
use zephyr_secure_supervisor.Crypto.State.{Crypto, is_enabled}
use zephyr_secure_supervisor.Crypto.Buffers.Laws.{
  IsReady, encrypt_buffer-IsReady, encrypt_buffer_keeps,
}
use zephyr_secure_supervisor.Persist.Nvs.{Nvs, IsNvs}
use zephyr_secure_supervisor.Persist.Blob.{PersistBlob, IsBlob, persist_magic}
use zephyr_secure_supervisor.Persist.Store.{State}
use zephyr_secure_supervisor.Persist.Store.Laws.{HoldsSealed}
use zephyr_secure_supervisor.Persist.Mount.{init_fs_if_needed}
use zephyr_secure_supervisor.Persist.Boot.{power_up}
use zephyr_secure_supervisor.Persist.Working.{IsWorking, boot}
use zephyr_secure_supervisor.Persist.Api.{
  count_boot, get_watchdog_override, is_fallback_active, clear_watchdog_counter,
}
use zephyr_secure_supervisor.Persist.Sync.{
  InSync, perform-InSync, perform, effect, cleared, perform_all-effects, perform_all, effects,
}
use zephyr_secure_supervisor.Persist.Sync.Start.{boot-InSync}
use zephyr_secure_supervisor.Recovery.Thread.{schedule_safe_mode_reboot}
use zephyr_secure_supervisor.Watchdog.Ctrl.{Wdt}
use zephyr_secure_supervisor.Supervisor.State.{notify_led_alive, notify_system_alive}
use zephyr_secure_supervisor.Supervisor.Health.{Limits}
use zephyr_secure_supervisor.Supervisor.Frame.{Step-Holds}
use zephyr_secure_supervisor.Firmware.{System, Parts, services}
use zephyr_secure_supervisor.Firmware.Laws.{
  InRange, IsSound, with_events, request_fits, services-Keeps,
}
use zephyr_secure_supervisor.Main.{BootConfig}
use zephyr_secure_supervisor.Firmware.Boot.{main-after_boot}
use zephyr_secure_supervisor.Firmware.Lines.{handle_line-Good}
use zephyr_secure_supervisor.Firmware.Steps.{
  after_boot, Firmware, FirmwareStep, supervised, typed, sampled, requested, scheduled, waited,
  Running, booted, next,
}
use zephyr_secure_supervisor.Uart.Text.{c_string}
use zephyr_secure_supervisor.Uart.Command.{CommandConfig}
use zephyr_secure_supervisor.Uart.Thread.{Console, ends_line, end_line, receive}
use zephyr_secure_supervisor.Sensor.{
  Hts, Sensor, Entry, Reading, failed, milli, log_sample, encrypt_entry, payload, payload_size,
  read_sample,
}
use zephyr_secure_supervisor.Sensor.Worker.{handle_reading, sensor_work_handler}

log_sample-IsReady :
    (hts : Hts) (counter temp_mc humidity_mpct : ℕ) (c : Crypto)
    → IsReady c
    → let c' = (log_sample hts counter temp_mc humidity_mpct c).1 in
      IsReady c' × (c'.aes_ctx ≡ c.aes_ctx)
unfolding log_sample encrypt_entry
log_sample-IsReady hts counter t h c r =
    if-both (λ (x : Entry × Crypto). IsReady x.1 × (x.1.aes_ctx ≡ c.aes_ctx))
      (is_enabled c && leb 10 counter) _ _
      (
        encrypt_buffer-IsReady c (payload t h) payload_size r,
        encrypt_buffer_keeps c (payload t h) payload_size,
      )
      (r, refl)

module _ (nvs : Nvs) (ok : IsNvs nvs) (works : IsWorking nvs) (ctx : AesCtx) (wdt : Wdt) (polls : ℕ)
    (hts : Hts) (config : CommandConfig) (limits : Limits) where
  abbrev Good : Firmware nvs wdt polls hts config limits → Type 0
  Good w = IsSound nvs ctx w.console.system.world

  abbrev GoodConsole : Console nvs wdt polls config → Type 0
  GoodConsole c = IsSound nvs ctx c.system.world

  receive-Good :
      (now ch : ℕ) (c : Console nvs wdt polls config)
      → GoodConsole c
      → GoodConsole (receive nvs wdt polls config (now, ch) c)
  unfolding receive end_line
  receive-Good now ch c h =
      let line =
        handle_line-Good nvs ok works ctx wdt polls config now (c_string c.buffer) c.accum c.system
          h in
      if-both GoodConsole (ends_line ch) _ _
        (if-both GoodConsole (ltb 0 (length c.buffer)) _ _ line h)
        (if-both GoodConsole (ltb (length c.buffer) (config.buffer_len - 1)) _ _ h h)

  reading-Good :
      (r : Reading) (s : Sensor hts.Device) (y : System nvs wdt)
      → IsSound nvs ctx y.world
      → IsSound nvs ctx (handle_reading nvs wdt polls hts r s y).system.world
  unfolding handle_reading get_watchdog_override
  reading-Good (failed entry) s y h = h
  reading-Good (milli temp_mc humidity_mpct) s y h =
      let synced = h.synced in
      let (ready, key) =
        log_sample-IsReady hts s.sample_counter temp_mc humidity_mpct y.world.persist.crypto
          synced.is_ready in
      record {
        synced = record {
          is_loaded = synced.is_loaded;
          is_ready = ready;
          key = key ∙ synced.key;
          is_blob = synced.is_blob;
          valid = synced.valid;
          sealed = synced.sealed;
        };
        ranged = h.ranged;
        posted = h.posted;
      }

  Step-Good :
      {v w : Firmware nvs wdt polls hts config limits}
      → FirmwareStep nvs wdt polls hts config limits v w
      → Good v
      → Good w
  unfolding sensor_work_handler notify_led_alive notify_system_alive schedule_safe_mode_reboot
  Step-Good (supervised w y step) h =
      Step-Holds (services nvs wdt polls) limits (λ p. IsSound nvs ctx p)
        (services-Keeps nvs ok works ctx wdt polls) step h
  Step-Good (typed w now ch) h = receive-Good now ch w.console h
  Step-Good (sampled w led_at sys_at) h =
      let s = w.sensor in
      let (reading, d) = read_sample hts s.device in
      reading-Good reading (record s { device = d }) w.console.system h
  Step-Good (requested w reason) h =
      let p = w.console.system.world in
      with_events nvs ok works ctx wdt polls p _ h
        (request_fits nvs ok works ctx wdt polls reason p.recovery h.posted)
  Step-Good (scheduled w now delay_ms) h =
      let p = w.console.system.world in
      let same : (schedule_safe_mode_reboot now delay_ms p.recovery).events ≡ p.recovery.events =
        ground arith in
      with_events nvs ok works ctx wdt polls p _ h (rw same h.posted)
  Step-Good (waited w) h =
      with_events nvs ok works ctx wdt polls w.console.system.world _ h (omega arith)

  count_boot_override :
      (w : Bool) (b : PersistBlob) → (count_boot w b).watchdog_override_ms ≡ b.watchdog_override_ms
  unfolding count_boot
  count_boot_override w b = ground arith

  InSync-after_boot :
      (threshold : ℕ) (c : Crypto) (reset : Bool) (f : nvs.Flash) (b : PersistBlob)
      → IsReady c
      → IsBlob b
      → b.magic ≡ persist_magic
      → HoldsSealed nvs c.aes_ctx b f
      → let p = after_boot nvs threshold c reset f in
        InSync nvs c.aes_ctx p × (p.blob.watchdog_override_ms ≡ b.watchdog_override_ms)
  unfolding after_boot perform effect
  InSync-after_boot threshold c reset f b r fits magic held =
      let p = boot nvs c reset f in
      let (synced, blob) = boot-InSync nvs ok works c reset f b r fits magic held in
      let override =
        ap (λ (x : PersistBlob). x.watchdog_override_ms) blob ∙ count_boot_override reset b in
      let (synced', blob') = perform-InSync nvs ok works c.aes_ctx cleared p synced in
      if-both
        (λ (q : State nvs.Flash).
          InSync nvs c.aes_ctx q × (q.blob.watchdog_override_ms ≡ b.watchdog_override_ms))
        (is_fallback_active threshold p) (clear_watchdog_counter nvs p) p
        (synced', ap (λ (x : PersistBlob). x.watchdog_override_ms) blob' ∙ override)
        (synced, override)

  Running-Good :
      (scalarmult : List ℕ → List ℕ → Rc × List ℕ) (build : BootConfig) (c : Crypto) (f : nvs.Flash)
      (b : PersistBlob) (w : Firmware nvs wdt polls hts config limits)
      → IsReady c
      → c.aes_ctx ≡ ctx
      → IsBlob b
      → b.magic ≡ persist_magic
      → InRange b.watchdog_override_ms
      → HoldsSealed nvs ctx b f
      → Running nvs wdt polls hts config limits scalarmult build c f w
      → Good w
  unfolding get_watchdog_override
  Running-Good scalarmult build c f b _ r key fits magic range held
        (booted w now reset s r0 k e at) =
      let here : HoldsSealed nvs c.aes_ctx b f = rw key held in
      let (synced, override) = InSync-after_boot build.threshold c reset f b r fits magic here in
      let (persist, posted) = main-after_boot nvs scalarmult wdt build c f now reset s r0 k e in
      let same = ap (λ (x : Parts nvs.Flash wdt.Device). x.persist) at ∙ persist in
      record {
        synced =
            subst₂ (λ (k : AesCtx) (p : State nvs.Flash). InSync nvs k p) key (sym same) synced;
        ranged =
            subst InRange
              (sym (ap (λ (p : State nvs.Flash). p.blob.watchdog_override_ms) same ∙ override))
              range;
        posted = subst (λ (x : Parts nvs.Flash wdt.Device). x.recovery.events < 16) (sym at) posted;
      }
  Running-Good scalarmult build c f b _ r key fits magic range held (next v w before step) =
      Step-Good step (Running-Good scalarmult build c f b v r key fits magic range held before)

  -- Where `main` runs on working flash that holds a valid blob, sealed under the key and with an override
  -- of 0 or between 100 and 60000, and the initialisation of crypto leaves this flash as it is and
  -- crypto ready under the key: after it the supervisor, the console, the sensor worker and the
  -- requests to the recovery thread may take any steps in any order, and still only bits of reasons
  -- are posted, the override is 0 or between 100 and 60000, and a reset at that point loses nothing
  -- of the blob, if crypto is again enabled under the key.
  pub Running-sound :
      (scalarmult : List ℕ → List ℕ → Rc × List ℕ) (build : BootConfig) (c c' : Crypto)
      (f : nvs.Flash) (b : PersistBlob) (w : Firmware nvs wdt polls hts config limits)
      → IsReady c
      → c.aes_ctx ≡ ctx
      → IsBlob b
      → b.magic ≡ persist_magic
      → InRange b.watchdog_override_ms
      → HoldsSealed nvs ctx b f
      → is_enabled c' ≡ true
      → c'.aes_ctx ≡ ctx
      → Running nvs wdt polls hts config limits scalarmult build c f w
      → let p = w.console.system.world in
        (p.recovery.events < 16)
        × InRange (get_watchdog_override p.persist)
        × ((init_fs_if_needed nvs (power_up c' p.persist.flash)).1.blob ≡ p.persist.blob)
  unfolding perform_all effects
  Running-sound scalarmult build c c' f b w r key fits magic range held on key' run =
      let h = Running-Good scalarmult build c f b w r key fits magic range held run in
      let (_, again) =
        perform_all-effects nvs ok works ctx [] w.console.system.world.persist c' h.synced on
          key' in
      (h.posted, h.ranged, again)
