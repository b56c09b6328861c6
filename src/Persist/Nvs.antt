-- ===== src/Persist/Nvs.antt =====
-- What src/persist_state.c calls of Zephyr's flash map and non-volatile storage, and the documented
-- behaviour that its theorems rely on.
use zephyr_secure_supervisor.Base.{ℕ, Bool, List, ◌≡◌, ◌≢◌, Rc, done, length, take}

-- `g_state.fs`, without the device pointer.
pub record NvsFs : Type 0 where
  pub offset : ℕ
  pub sector_size : ℕ
  pub sector_count : ℕ

pub record Nvs : Type 1 where
  -- The state of the flash device and of the file system on it.
  pub Flash : Type 0
  -- `fa_off` and `fa_size` of the storage partition.
  pub fa_off : ℕ
  pub fa_size : ℕ
  pub flash_area_open : Flash → Rc × Flash
  pub device_is_ready : Flash → Bool
  -- The return code and the page size of `flash_get_page_info_by_offs`.
  pub page_info : ℕ → Flash → Rc × ℕ
  pub mount : NvsFs → Flash → Rc × Flash
  -- The return code and the bytes that were stored into the buffer, from its start.
  pub read : ℕ → ℕ → Flash → Rc × List ℕ
  pub write : ℕ → List ℕ → Flash → Rc × Flash

-- Opening and mounting keep the items. An item that was written reads back: `nvs_read` returns the
-- item's length, also if the buffer is shorter, and other items keep their contents.
pub record IsNvs (nvs : Nvs) : Type 0 where
  pub open_keeps :
      (f : nvs.Flash) (id len : ℕ) → nvs.read id len (nvs.flash_area_open f).1 ≡ nvs.read id len f
  pub mount_keeps :
      (g : NvsFs) (f : nvs.Flash) (id len : ℕ)
      → nvs.read id len (nvs.mount g f).1 ≡ nvs.read id len f
  pub read-write_self :
      (f : nvs.Flash) (id : ℕ) (bytes : List ℕ) (len n : ℕ)
      → (nvs.write id bytes f).0 ≡ done n
      → nvs.read id len (nvs.write id bytes f).1 ≡ (done (length bytes), take len bytes)
  pub read-write_ne :
      (f : nvs.Flash) (id id' : ℕ) (bytes : List ℕ) (len : ℕ)
      → id ≢ id'
      → nvs.read id' len (nvs.write id bytes f).1 ≡ nvs.read id' len f
