-- ===== src/Persist/Working.antt =====
-- A boot on flash that works, with crypto ready before the blob is read.
use zephyr_secure_supervisor.Base.{ℕ, ◌≡◌, ap, ◌∙◌, Bool, true, List, length, ◌/◌, Rc, done, arith}
use mathlib.Core.Path.{subst₂}
use zephyr_secure_supervisor.Aes.Block.{AesCtx}
use zephyr_secure_supervisor.Crypto.State.{Crypto}
use zephyr_secure_supervisor.Crypto.Buffers.Laws.{IsReady}
use zephyr_secure_supervisor.Persist.Nvs.{Nvs, NvsFs, IsNvs}
use zephyr_secure_supervisor.Persist.Blob.{PersistBlob, IsBlob, persist_magic}
use zephyr_secure_supervisor.Persist.Store.{State, persist_commit_locked, store_record}
use zephyr_secure_supervisor.Persist.Store.Laws.{
  HoldsSealed, commit-HoldsSealed, persist_store_blob-record,
}
use zephyr_secure_supervisor.Persist.Store.Keeps.{commit_keeps}
use zephyr_secure_supervisor.Persist.Mount.{retry, mount_fs, configure_fs, init_fs_if_needed}
use zephyr_secure_supervisor.Persist.Boot.{power_up, init-sealed}
use zephyr_secure_supervisor.Persist.Api.Laws.{record_boot_loaded}
use zephyr_secure_supervisor.Persist.Api.{count_boot, record_boot}

-- Flash and file system that do not fail.
pub record IsWorking (nvs : Nvs) : Type 0 where
  pub opens : (f : nvs.Flash) → (nvs.flash_area_open f).0 ≡ done 0
  pub ready : (f : nvs.Flash) → nvs.device_is_ready f ≡ true
  pub pages : (at : ℕ) (f : nvs.Flash) → (nvs.page_info at f).0 ≡ done 0
  pub mounts : (g : NvsFs) (f : nvs.Flash) → (nvs.mount g f).0 ≡ done 0
  pub writes :
      (id : ℕ) (bytes : List ℕ) (f : nvs.Flash) → (nvs.write id bytes f).0 ≡ done (length bytes)

module _ (nvs : Nvs) where
  open nvs use {Flash}

  -- `persist_state_init`, then `persist_state_record_boot`, as `main` calls them.
  unfoldable pub boot : Crypto → Bool → Flash → State Flash
  boot c watchdog_reset f = record_boot nvs watchdog_reset (init_fs_if_needed nvs (power_up c f)).1

module _ (nvs : Nvs) (ok : IsNvs nvs) (works : IsWorking nvs) where
  open nvs use {Flash}

  retry_works :
      {F : Type 0} (attempt : F → Rc × F)
      → ((f : F) → (attempt f).0 ≡ done 0)
      → (f : F) → (retry 2 attempt f).0 ≡ done 0
  unfolding retry
  retry_works attempt h f = rw (h f)

  pub init_works : (s : State Flash) → (init_fs_if_needed nvs s).0 ≡ done 0
  unfolding init_fs_if_needed configure_fs mount_fs
  init_works s =
      let opened = (retry 2 nvs.flash_area_open s.flash).1 in
      let size = (nvs.page_info nvs.fa_off opened).1 in
      let geometry : NvsFs = record {
        offset = nvs.fa_off;
        sector_size = size;
        sector_count = nvs.fa_size / size;
      } in
      ground (
        arith,
        retry_works nvs.flash_area_open works.opens s.flash,
        works.ready opened,
        works.pages nvs.fa_off opened,
        retry_works (nvs.mount geometry) (works.mounts geometry) opened,
      )

  pub commit_works : (s : State Flash) → IsReady s.crypto → (persist_commit_locked nvs s).0 ≡ done 0
  unfolding persist_commit_locked store_record
  commit_works s r =
      let (bytes, t, e) = persist_store_blob-record nvs s r in rw (e, works.writes 1 bytes t.flash)

  -- A boot carries the blob on, sealed again under the same key.
  pub boot-HoldsSealed :
      (c : Crypto) (w : Bool) (f : Flash) (b : PersistBlob)
      → IsReady c
      → IsBlob b
      → b.magic ≡ persist_magic
      → HoldsSealed nvs c.aes_ctx b f
      → ((boot nvs c w f).blob ≡ count_boot w b)
        × HoldsSealed nvs c.aes_ctx (count_boot w b) (boot nvs c w f).flash
  unfolding boot
  boot-HoldsSealed c w f b r fits magic h =
      let s = (init_fs_if_needed nvs (power_up c f)).1 in
      let (blob, loaded, same) =
        init-sealed nvs ok c f b fits magic r.enabled h (init_works (power_up c f)) in
      let t = record s { blob = count_boot w s.blob } in
      let ready : IsReady t.crypto = rw same r in
      let sealed = commit-HoldsSealed nvs ok t ready (commit_works t ready) in
      let (kept, still) = commit_keeps nvs t in
      rw (record_boot_loaded nvs w s loaded) (
        kept ∙ ap (count_boot w) blob,
        subst₂
            (λ (k : AesCtx) (m : PersistBlob).
              HoldsSealed nvs k m (persist_commit_locked nvs t).1.flash)
            (ap (λ (x : Crypto). x.aes_ctx) same) (ap (count_boot w) blob) sealed,
      )

  pub count_boot-IsBlob : (w : Bool) (b : PersistBlob) → IsBlob b → IsBlob (count_boot w b)
  unfolding count_boot
  count_boot-IsBlob w b h = ground arith

  pub count_boot_magic : (w : Bool) (b : PersistBlob) → (count_boot w b).magic ≡ b.magic
  unfolding count_boot
  count_boot_magic w b = ground arith
