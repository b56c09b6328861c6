-- ===== src/Uart/Command/Override.antt =====
-- What a new override changes: the blob, in memory and in flash, and the supervisor's target.
use zephyr_secure_supervisor.Base.{
  ℕ, ◌≡◌, ◌<◌, refl, ap, ◌∙◌, true, not, ◌==◌, [], ◌∷◌, u32, done, arith, Bool-cases, inl, inr,
}
use zephyr_secure_supervisor.Aes.Block.{AesCtx}
use zephyr_secure_supervisor.Crypto.State.{Crypto, is_enabled}
use zephyr_secure_supervisor.Persist.Boot.{power_up}
use zephyr_secure_supervisor.Persist.Mount.{init_fs_if_needed}
use zephyr_secure_supervisor.Persist.Nvs.{Nvs, IsNvs}
use zephyr_secure_supervisor.Persist.Blob.{PersistBlob}
use zephyr_secure_supervisor.Persist.Store.{State}
use zephyr_secure_supervisor.Persist.Api.{set_watchdog_override, get_watchdog_override, commit_blob}
use zephyr_secure_supervisor.Persist.Working.{IsWorking, commit_works}
use zephyr_secure_supervisor.Persist.Sync.{
  InSync, overridden, effect, perform, perform-InSync, perform_all, effects, perform_all-effects,
  init_again,
}
use zephyr_secure_supervisor.Watchdog.Ctrl.{Wdt, get_timeout}
use zephyr_secure_supervisor.Supervisor.State.{request_watchdog_target, update_retune_schedule}
use zephyr_secure_supervisor.Firmware.{System, services}
use zephyr_secure_supervisor.Uart.Command.{CommandConfig, override_and_target}

-- The override is `v` in memory and after a reboot that finds crypto in the state `c`, and the watchdog's target is
-- `target`, due at once and pending unless the watchdog runs on it. The other parts are as they were.
pub record IsOverridden (nvs : Nvs) (wdt : Wdt) (polls : ℕ) (config : CommandConfig) (ctx : AesCtx)
    (c : Crypto) (now v target : ℕ) (s t : System nvs wdt) : Type 0 where
  pub synced : InSync nvs ctx t.world.persist
  pub blob :
      let b = s.world.persist.blob in t.world.persist.blob ≡ record b { watchdog_override_ms = v }
  pub reboot :
      get_watchdog_override (init_fs_if_needed nvs (power_up c t.world.persist.flash)).1 ≡ v
  pub desired : t.wd_cfg.desired_timeout_ms ≡ target
  pub due : t.wd_cfg.retune_ready_ts ≡ now
  pub pending : t.wd_cfg.retune_pending ≡ not (target == get_timeout wdt s.world.ctrl)
  pub ctrl : t.world.ctrl ≡ s.world.ctrl
  pub recovery : t.world.recovery ≡ s.world.recovery

module _ (nvs : Nvs) (wdt : Wdt) (polls : ℕ) (config : CommandConfig) where
  abbrev Sys : Type 0
  Sys = System nvs wdt

  -- Setting the override succeeds where memory and flash agree and the flash works.
  module _ (ok : IsNvs nvs) (works : IsWorking nvs) where
    set_override-done :
        (ctx : AesCtx) (v : ℕ) (p : State nvs.Flash)
        → InSync nvs ctx p
        → (set_watchdog_override nvs v p).0 ≡ done 0
    unfolding set_watchdog_override commit_blob
    set_override-done ctx v p h = elim (Bool-cases (p.blob.watchdog_override_ms == v)) [
      | inl e ↦ rw (init_again nvs ok works p h.is_loaded, e) refl
      | inr e ↦
          let b = p.blob in
          rw (init_again nvs ok works p h.is_loaded, e)
            (commit_works nvs ok works (record p { blob = record b { watchdog_override_ms = v } })
              h.is_ready)
    ]

    override_and_target_lem :
        (ctx : AesCtx) (now v target : ℕ) (s : Sys)
        → v < 4294967296
        → InSync nvs ctx s.world.persist
        → let w = s.world in
          let p = perform nvs (overridden v) w.persist in
          override_and_target nvs wdt polls config now v target s
          ≡ (request_watchdog_target
              (services nvs wdt polls)
              now
              target
              true
              (record s { world = record w { persist = p } })).1
    unfolding override_and_target perform
    override_and_target_lem ctx now v target s word h =
        let same : u32 v ≡ v = omega arith in
        let stored : perform nvs (overridden v) s.world.persist
            ≡ (set_watchdog_override nvs v s.world.persist).1 =
          ap (λ (x : ℕ). (set_watchdog_override nvs x s.world.persist).1) same in
        rw (stored, set_override-done ctx v s.world.persist h) refl

    pub override_and_target-IsOverridden :
        (ctx : AesCtx) (c : Crypto) (now v target : ℕ) (s : Sys)
        → v < 4294967296
        → InSync nvs ctx s.world.persist
        → is_enabled c ≡ true
        → c.aes_ctx ≡ ctx
        → IsOverridden nvs wdt polls config ctx c now v target s
            (override_and_target nvs wdt polls config now v target s)
    unfolding request_watchdog_target update_retune_schedule effect get_watchdog_override effects
        perform_all
    override_and_target-IsOverridden ctx c now v target s word h on key =
        let same : u32 v ≡ v = omega arith in
        let (synced, blob) = perform-InSync nvs ok works ctx (overridden v) s.world.persist h in
        rw (override_and_target_lem ctx now v target s word h) (record {
          synced = synced;
          blob = rw (blob, same) refl;
          reboot =
              let (_, again) =
                perform_all-effects nvs ok works ctx (overridden v ∷ []) s.world.persist c h on
                  key in
              ap (λ (b : PersistBlob). b.watchdog_override_ms) again ∙ same;
          desired = refl;
          due = omega arith;
          pending = refl;
          ctrl = refl;
          recovery = refl;
        })
