-- ===== src/Persist/Api/Laws.antt =====
-- What the interface does once the file system is up.
use zephyr_secure_supervisor.Base.{◌≡◌, ap, ◌∙◌, Bool, true}
use zephyr_secure_supervisor.Persist.Nvs.{Nvs}
use zephyr_secure_supervisor.Persist.Store.{State, persist_commit_locked}
use zephyr_secure_supervisor.Persist.Store.Keeps.{commit_keeps}
use zephyr_secure_supervisor.Persist.Mount.{init_fs_if_needed}
use zephyr_secure_supervisor.Persist.Api.{count_boot, commit_blob, record_boot}

module _ (nvs : Nvs) where
  open nvs use {Flash}

  pub record_boot_loaded :
      (w : Bool) (s : State Flash)
      → s.loaded ≡ true
      → record_boot nvs w s
        ≡ (persist_commit_locked nvs (record s { blob = count_boot w s.blob })).1
  unfolding record_boot commit_blob init_fs_if_needed
  record_boot_loaded w s h = rw h

  pub record_boot_blob :
      (w : Bool) (s : State Flash)
      → s.loaded ≡ true
      → (record_boot nvs w s).blob ≡ count_boot w s.blob
  record_boot_blob w s h =
      ap (λ (t : State Flash). t.blob) (record_boot_loaded w s h)
      ∙ (commit_keeps nvs (record s { blob = count_boot w s.blob })).0
