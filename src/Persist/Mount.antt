-- ===== src/Persist/Mount.antt =====
-- `init_fs_if_needed` of src/persist_state.c.
use zephyr_secure_supervisor.Base.{
  ℕ, zero, suc, ◌/◌, true, not, Option, none, some, ◌==◌, if◌then◌else◌, Rc, done, fail, ebusy,
  is_zero,
}
use zephyr_secure_supervisor.Persist.Nvs.{Nvs}
use zephyr_secure_supervisor.Persist.Blob.{PersistBlob, persist_magic}
use zephyr_secure_supervisor.Persist.Store.{State, persist_load_blob, persist_commit_locked}

abbrev pub retry_limit : ℕ
retry_limit = 3

-- A loop of attempts, `left` more after this one: until one returns 0, or with the last code.
unfoldable pub retry : {F : Type 0} → ℕ → (F → Rc × F) → F → Rc × F
retry zero attempt f = attempt f
retry (suc left) attempt f =
    let first = attempt f in
    let rest = retry left attempt first.1 in if is_zero first.0 then first else rest

abbrev pub fresh_blob : PersistBlob
fresh_blob = record {
  magic = persist_magic;
  consecutive_watchdog = 0;
  total_watchdog = 0;
  watchdog_override_ms = 0;
  session_counter = 0;
}

-- `rc == 0 && tmp.magic == PERSIST_MAGIC`
abbrev pub valid_blob : Rc × Option PersistBlob → Option PersistBlob
valid_blob (done zero, some tmp) = if tmp.magic == persist_magic then some tmp else none
valid_blob (done zero, none) = none
valid_blob (done (suc n), out) = none
valid_blob (fail e, out) = none

module _ (nvs : Nvs) where
  open nvs use {Flash, fa_off, fa_size, flash_area_open, device_is_ready, page_info, mount}

  -- Keeps the record that was loaded, or resets the blob and writes it.
  unfoldable pub adopt_blob : Option PersistBlob → State Flash → State Flash
  adopt_blob (some tmp) s = record s { blob = tmp; loaded = true }
  adopt_blob none s =
      let s' = (persist_commit_locked nvs (record s { blob = fresh_blob })).1 in
      record s' { loaded = true }

  unfoldable pub load_or_reset : State Flash → State Flash
  load_or_reset s = adopt_blob (valid_blob (persist_load_blob nvs s)) s

  -- From the mount on.
  unfoldable pub mount_fs : State Flash → Rc × State Flash
  mount_fs s =
      let (rc, flash) = retry 2 (mount s.fs) s.flash in
      let s' = record s { flash = flash } in
      if is_zero rc then (done 0, load_or_reset s') else (rc, s')

  -- From `device_is_ready` on.
  unfoldable pub configure_fs : State Flash → Rc × State Flash
  configure_fs s =
      let at_offset = record s {
        fs = record {
          offset = fa_off;
          sector_size = s.fs.sector_size;
          sector_count = s.fs.sector_count;
        };
      } in
      let (rc, size) = page_info fa_off s.flash in
      if not (device_is_ready s.flash)
      then (fail ebusy, s)
      else (if is_zero rc
          then (mount_fs (record at_offset {
            fs = record { offset = fa_off; sector_size = size; sector_count = fa_size / size };
          }))
          else (rc, at_offset))

  unfoldable pub init_fs_if_needed : State Flash → Rc × State Flash
  init_fs_if_needed s =
      if s.loaded
      then (done 0, s)
      else (let (rc, flash) = retry 2 flash_area_open s.flash in
          let s' = record s { flash = flash } in if is_zero rc then configure_fs s' else (rc, s'))
