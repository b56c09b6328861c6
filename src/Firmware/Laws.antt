-- ===== src/Firmware/Laws.antt =====
-- What every part of the firmware keeps.
use zephyr_secure_supervisor.Base.{ℕ, ◌≡◌, ◌≤◌, ◌<◌, ◌⊎◌}
use zephyr_secure_supervisor.Aes.Block.{AesCtx}
use zephyr_secure_supervisor.Persist.Nvs.{Nvs, IsNvs}
use zephyr_secure_supervisor.Persist.Working.{IsWorking}
use zephyr_secure_supervisor.Persist.Sync.{InSync, perform-InSync, cleared, effect, perform}
use zephyr_secure_supervisor.Persist.Store.{State}
use zephyr_secure_supervisor.Persist.Api.{clear_watchdog_counter, get_watchdog_override}
use zephyr_secure_supervisor.Recovery.Thread.{
  Recovery, recovery_request, reason_number, health_fault, manual_trigger,
}
use zephyr_secure_supervisor.Recovery.Laws.{recovery_request-bits}
use zephyr_secure_supervisor.Watchdog.Ctrl.{Wdt}
use zephyr_secure_supervisor.Supervisor.Frame.{Keeps}
use zephyr_secure_supervisor.Firmware.{Parts, services}

-- No override, or one within the range of the command.
abbrev pub InRange : ℕ → Type 0
InRange v = (v ≡ 0) ⊎ ((100 ≤ v) × (v ≤ 60000))

-- Memory and flash agree under the key, the override is in range, and only bits of reasons are posted.
pub record IsSound (nvs : Nvs) (ctx : AesCtx) {Device : Type 0} (w : Parts nvs.Flash Device)
    : Type 0 where
  pub synced : InSync nvs ctx w.persist
  pub ranged : InRange (get_watchdog_override w.persist)
  pub posted : w.recovery.events < 16

module _ (nvs : Nvs) (ok : IsNvs nvs) (works : IsWorking nvs) (ctx : AesCtx) (wdt : Wdt)
    (polls : ℕ) where
  abbrev Sound : Parts nvs.Flash wdt.Device → Type 0
  Sound w = IsSound nvs ctx w

  pub with_persist :
      (w : Parts nvs.Flash wdt.Device) (p : State nvs.Flash)
      → Sound w
      → InSync nvs ctx p
      → InRange (get_watchdog_override p)
      → Sound (record w { persist = p })
  with_persist w p h synced ranged = record { synced = synced; ranged = ranged; posted = h.posted }

  pub with_events :
      (w : Parts nvs.Flash wdt.Device) (r : Recovery)
      → Sound w
      → r.events < 16
      → Sound (record w { recovery = r })
  with_events w r h lt = record { synced = h.synced; ranged = h.ranged; posted = lt }

  pub request_fits :
      (reason : ℕ) (r : Recovery) → r.events < 16 → (recovery_request reason r).events < 16
  request_fits reason r h = (recovery_request-bits reason health_fault r h).0

  cleared-Sound :
      (w : Parts nvs.Flash wdt.Device)
      → Sound w
      → Sound (record w { persist = clear_watchdog_counter nvs w.persist })
  unfolding perform effect get_watchdog_override
  cleared-Sound w h =
      let (synced, blob) = perform-InSync nvs ok works ctx cleared w.persist h.synced in
      with_persist w _ h synced (rw blob h.ranged)

  -- The services of the supervisor.
  pub services-Keeps : Keeps (services nvs wdt polls) Sound
  services-Keeps = record {
    feed = λ w h. record { synced = h.synced; ranged = h.ranged; posted = h.posted };
    retune = λ timeout_ms w h. record { synced = h.synced; ranged = h.ranged; posted = h.posted };
    clear = cleared-Sound;
    health_fault =
        λ w h. with_events w _ h (request_fits (reason_number health_fault) w.recovery h.posted);
    manual_trigger =
        λ w h. with_events w _ h (request_fits (reason_number manual_trigger) w.recovery h.posted);
  }
