-- ===== src/Firmware/Clearing.antt =====
-- The count of watchdog resets in src/persist_state.c, as src/supervisor.c clears it.
use zephyr_secure_supervisor.Base.{
  ℕ, ◌+◌, ◌≡◌, ◌≤◌, ◌⊎◌, inl, inr, refl, ap, ◌∙◌, true, false, done,
}
use zephyr_secure_supervisor.Aes.Block.{AesCtx}
use zephyr_secure_supervisor.Persist.Nvs.{Nvs, IsNvs}
use zephyr_secure_supervisor.Persist.Store.{State}
use zephyr_secure_supervisor.Persist.Blob.{PersistBlob}
use zephyr_secure_supervisor.Persist.Working.{IsWorking}
use zephyr_secure_supervisor.Persist.Api.{clear_watchdog_counter, get_consecutive_watchdog}
use zephyr_secure_supervisor.Persist.Sync.{InSync, perform, perform-InSync, cleared, effect}
use zephyr_secure_supervisor.Watchdog.Ctrl.{Wdt, retune}
use zephyr_secure_supervisor.Supervisor.State.{boot_grace_ms}
use zephyr_secure_supervisor.Supervisor.Health.{Limits}
use zephyr_secure_supervisor.Supervisor.Loop.{is_healthy, supervisor_round}
use zephyr_secure_supervisor.Supervisor.Loop.Laws.{health_at}
use zephyr_secure_supervisor.Supervisor.Loop.Clearing.{IsClearedAlone, round_clears}
use zephyr_secure_supervisor.Firmware.{Parts, System, services}

module _ (nvs : Nvs) (ok : IsNvs nvs) (works : IsWorking nvs) (ctx : AesCtx) (wdt : Wdt) (polls : ℕ)
    (limits : Limits) where
  persist_alone :
      IsClearedAlone
        (services nvs wdt polls)
        (λ (w : Parts nvs.Flash wdt.Device). w.persist)
        (clear_watchdog_counter nvs)
  persist_alone = record {
    clears = λ w. refl;
    feeds = λ w. refl;
    retunes = λ timeout_ms w. refl;
    faults = λ w. refl;
  }

  count_cleared :
      (p : State nvs.Flash)
      → InSync nvs ctx p
      → InSync nvs ctx (clear_watchdog_counter nvs p)
        × (get_consecutive_watchdog (clear_watchdog_counter nvs p) ≡ 0)
  unfolding perform effect get_consecutive_watchdog
  count_cleared p h =
      let (synced, blob) = perform-InSync nvs ok works ctx cleared p h in
      (synced, ap (λ (b : PersistBlob). b.consecutive_watchdog) blob)

  -- On working flash, with memory and flash in agreement under the key and the counter not yet marked as
  -- cleared: when a due retune succeeds, or a healthy sample comes after the grace and after the
  -- retune was done, the round runs persist_state_clear_watchdog_counter once and marks the counter, and the
  -- count of consecutive watchdog resets is 0, in memory and, since they agree again, in flash. Otherwise
  -- the round leaves the persistent state and the mark as they were.
  pub supervisor_round-clear_watchdog_counter :
      (now : ℕ) (s : System nvs wdt)
      → InSync nvs ctx s.world.persist
      → s.counter_cleared ≡ false
      → let sv = services nvs wdt polls in
        let t = supervisor_round sv limits now s in
        let due =
          ((s.wd_cfg.retune_pending ≡ true)
            × (s.wd_cfg.retune_ready_ts ≤ now)
            × ((retune wdt polls s.wd_cfg.desired_timeout_ms s.world.ctrl).0 ≡ done 0))
          ⊎ ((s.wd_cfg.retune_done_once ≡ true)
              × (s.boot_ts + boot_grace_ms ≤ now)
              × (is_healthy (health_at sv limits now s) ≡ true)) in
        (due
          × (t.counter_cleared ≡ true)
          × (t.world.persist ≡ clear_watchdog_counter nvs s.world.persist)
          × InSync nvs ctx t.world.persist
          × (get_consecutive_watchdog t.world.persist ≡ 0))
        ⊎ ((¬ due) × (t.counter_cleared ≡ false) × (t.world.persist ≡ s.world.persist))
  supervisor_round-clear_watchdog_counter now s h unmarked =
      let sv = services nvs wdt polls in
      elim (round_clears sv limits (λ (w : Parts nvs.Flash wdt.Device). w.persist)
        (clear_watchdog_counter nvs) persist_alone now s unmarked) [
          | inl (due, (marked, at)) ↦
              let (synced, none) = count_cleared s.world.persist h in
              inl (due, marked, at, rw at synced, rw at none)
          | inr (not_due, (mark, same)) ↦ inr (not_due, mark ∙ unmarked, same)
        ]
