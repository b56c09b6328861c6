-- ===== src/Main/Curve.antt =====
-- The boot of src/main.c for Curve25519, over the flash that the last boot left.
use zephyr_secure_supervisor.Base.{ℕ, ◌≡◌, ◌≤◌, Bool, true, false, none, List, Rc, done, arith}
use zephyr_secure_supervisor.Aes.Block.{AesCtx}
use zephyr_secure_supervisor.Crypto.State.{Crypto, curve25519}
use zephyr_secure_supervisor.Crypto.Init.{app_crypto_init}
use zephyr_secure_supervisor.Crypto.Init.Curve.{app_crypto_init_forgets, curve_boot_no_fallback}
use zephyr_secure_supervisor.Persist.Nvs.{Nvs, IsNvs}
use zephyr_secure_supervisor.Persist.Blob.{PersistBlob}
use zephyr_secure_supervisor.Persist.Store.{State}
use zephyr_secure_supervisor.Persist.Store.Laws.{HoldsSealed}
use zephyr_secure_supervisor.Persist.Boot.{power_up}
use zephyr_secure_supervisor.Persist.Mount.{init_fs_if_needed}
use zephyr_secure_supervisor.Persist.Api.{init}
use zephyr_secure_supervisor.Watchdog.Ctrl.{Wdt, Ctrl}
use zephyr_secure_supervisor.Recovery.Thread.{
  Recovery, begin_round, until_deadline, waits, recovery_start, recovery_request,
  schedule_safe_mode_reboot,
}
use zephyr_secure_supervisor.Main.{BootConfig, prepare, start_watchdog, main}

module _ (nvs : Nvs) (scalarmult : List ℕ → List ℕ → Rc × List ℕ) (wdt : Wdt)
    (config : BootConfig) where
  open nvs use {Flash}
  open wdt use {Device}

  init_loaded : (s : State Flash) → s.loaded ≡ true → (init nvs s).1 ≡ s
  unfolding init init_fs_if_needed
  init_loaded s h = ground arith

  no_deadline :
      (now later : ℕ) (w : Bool) (s : State Flash) (r : Recovery) (c : Ctrl Device)
      → (prepare nvs scalarmult wdt config w s).0 ≡ false
      → begin_round later (main nvs scalarmult wdt config now w s r c).recovery ≡ waits none
  unfolding main start_watchdog recovery_start recovery_request schedule_safe_mode_reboot
      begin_round until_deadline
  no_deadline now later w s r c h = ground arith

  -- On storage that reads back what was written: where the last boot of a build for Curve25519
  -- left its blob sealed, with whatever counts, crypto starts out as not ready and its
  -- initialisation succeeds, a boot with a threshold of two or more does not enter the safe mode:
  -- no reboot is scheduled.
  pub main-curve_deadline :
      (f : Flash) (ctx : AesCtx) (b : PersistBlob) (crypto : Crypto) (now later : ℕ) (w : Bool)
      (r : Recovery) (c : Ctrl Device)
      → IsNvs nvs
      → config.crypto_config.backend ≡ curve25519
      → crypto.crypto_ready ≡ false
      → HoldsSealed nvs ctx b f
      → (app_crypto_init nvs scalarmult config.crypto_config (power_up crypto f)).0 ≡ done 0
      → 2 ≤ config.threshold
      → begin_round later (main nvs scalarmult wdt config now w (power_up crypto f) r c).recovery
        ≡ waits none
  unfolding prepare
  main-curve_deadline f ctx b crypto now later w r c ok backend off h rc big =
      let s = (app_crypto_init nvs scalarmult config.crypto_config (power_up crypto f)).1 in
      let (blob, loaded) =
        app_crypto_init_forgets nvs scalarmult config.crypto_config ok backend crypto f ctx b off h
          rc in
      let none =
        curve_boot_no_fallback nvs scalarmult config.crypto_config ok backend crypto f ctx b w
          config.threshold off h rc big in
      no_deadline now later w (power_up crypto f) r c (rw (init_loaded s loaded) none)
