-- ===== src/Persist/Api.antt =====
-- The interface of src/persist_state.c. The lock is held in each call, so a call is one step.
pub mod Laws
use zephyr_secure_supervisor.Base.{
  ℕ, ◌+◌, Bool, true, false, ◌&&◌, not, u32, leb, ◌==◌, if◌then◌else◌, Rc, done, fail, eio, is_zero,
}
use zephyr_secure_supervisor.Persist.Nvs.{Nvs}
use zephyr_secure_supervisor.Persist.Blob.{PersistBlob}
use zephyr_secure_supervisor.Persist.Store.{State, persist_commit_locked}
use zephyr_secure_supervisor.Persist.Mount.{init_fs_if_needed}

-- The counters after a boot.
unfoldable pub count_boot : Bool → PersistBlob → PersistBlob
count_boot true b = record b {
  consecutive_watchdog = u32 (b.consecutive_watchdog + 1);
  total_watchdog = u32 (b.total_watchdog + 1);
}
count_boot false b =
    if not (b.consecutive_watchdog == 0) then record b { consecutive_watchdog = 0 } else b

unfoldable pub get_consecutive_watchdog : {F : Type 0} → State F → ℕ
get_consecutive_watchdog s = s.blob.consecutive_watchdog

unfoldable pub get_total_watchdog : {F : Type 0} → State F → ℕ
get_total_watchdog s = s.blob.total_watchdog

-- `threshold` is CONFIG_APP_RESET_WATCHDOG_THRESHOLD.
unfoldable pub is_fallback_active : {F : Type 0} → ℕ → State F → Bool
is_fallback_active threshold s = leb threshold (get_consecutive_watchdog s)

unfoldable pub get_watchdog_override : {F : Type 0} → State F → ℕ
get_watchdog_override s = s.blob.watchdog_override_ms

module _ (nvs : Nvs) where
  open nvs use {Flash}

  unfoldable pub init : State Flash → Rc × State Flash
  init s = init_fs_if_needed nvs s

  -- A new blob in memory, then in its record.
  unfoldable pub commit_blob : PersistBlob → State Flash → Rc × State Flash
  commit_blob blob s = persist_commit_locked nvs (record s { blob = blob })

  unfoldable pub record_boot : Bool → State Flash → State Flash
  record_boot watchdog_reset s =
      let (rc, s') = init_fs_if_needed nvs s in
      if is_zero rc then (commit_blob (count_boot watchdog_reset s'.blob) s').1 else s'

  unfoldable pub clear_watchdog_counter : State Flash → State Flash
  clear_watchdog_counter s =
      let (rc, s') = init_fs_if_needed nvs s in
      if is_zero rc && not (s'.blob.consecutive_watchdog == 0)
      then (commit_blob (record (s'.blob) { consecutive_watchdog = 0 }) s').1
      else s'

  unfoldable pub set_watchdog_override : ℕ → State Flash → Rc × State Flash
  set_watchdog_override timeout_ms s =
      let (rc, s') = init_fs_if_needed nvs s in
      if is_zero rc
      then (if s'.blob.watchdog_override_ms == timeout_ms
          then (done 0, s')
          else commit_blob (record (s'.blob) { watchdog_override_ms = timeout_ms }) s')
      else (fail eio, s')

  unfoldable pub next_session_counter : State Flash → ℕ × State Flash
  next_session_counter s =
      let (rc, s') = init_fs_if_needed nvs s in
      let value = u32 (s'.blob.session_counter + 1) in
      if is_zero rc
      then (value, (commit_blob (record (s'.blob) { session_counter = value }) s').1)
      else (0, s')
