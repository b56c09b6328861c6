-- ===== src/Persist/Boot.antt =====
-- The blob over reboots: what a boot finds of the state that the boot before it left.
use zephyr_secure_supervisor.Base.{
  ℕ, zero, suc, ◌≡◌, refl, ◌∙◌, true, false, Bool-cases, inl, inr, ◌/◌, ◌≢◌, Rc, done, fail,
  is_zero, arith,
}
use zephyr_secure_supervisor.Aes.Block.{AesCtx}
use zephyr_secure_supervisor.Crypto.State.{Crypto, is_enabled}
use zephyr_secure_supervisor.Persist.Nvs.{Nvs, NvsFs, IsNvs}
use zephyr_secure_supervisor.Persist.Blob.{PersistBlob, IsBlob, persist_magic}
use zephyr_secure_supervisor.Persist.Store.{State}
use zephyr_secure_supervisor.Persist.Store.Laws.{
  HoldsSealed, HoldsSealed-read, load_sealed, load_sealed_off,
}
use zephyr_secure_supervisor.Persist.Store.Keeps.{commit_keeps, commit_off_keeps}
use zephyr_secure_supervisor.Persist.Mount.{
  retry, fresh_blob, adopt_blob, load_or_reset, mount_fs, configure_fs, init_fs_if_needed,
}

-- The static storage of a new boot, over the flash of the last one; `c` is the state of crypto.
abbrev pub power_up : {F : Type 0} → Crypto → F → State F
power_up c f = record {
  crypto = c;
  flash = f;
  fs = record { offset = 0; sector_size = 0; sector_count = 0 };
  blob = record {
    magic = 0;
    consecutive_watchdog = 0;
    total_watchdog = 0;
    watchdog_override_ms = 0;
    session_counter = 0;
  };
  loaded = false;
}

-- An attempt that keeps what a read sees is retried with the same effect.
retry_keeps :
    {F B : Type 0} (see : F → B) (attempt : F → Rc × F)
    → ((f : F) → see (attempt f).1 ≡ see f)
    → (left : ℕ) (f : F) → see (retry left attempt f).1 ≡ see f
unfolding retry
retry_keeps see attempt keep zero f = keep f
retry_keeps see attempt keep (suc left) f =
    let step = keep f in
    let rest = retry_keeps see attempt keep left (attempt f).1 in
    elim (Bool-cases (is_zero (attempt f).0)) [
      | inl yes_done ↦ rw yes_done step
      | inr not_yet ↦ rw not_yet (rest ∙ step)
    ]

module _ (nvs : Nvs) (ok : IsNvs nvs) where
  open nvs use {Flash, fa_off, fa_size, flash_area_open, page_info, mount}

  -- The state from which a successful initialisation loads the blob.
  abbrev mounted : State Flash → State Flash
  mounted s =
      let opened = (retry 2 flash_area_open s.flash).1 in
      let size = (page_info fa_off opened).1 in
      let geometry : NvsFs = record {
        offset = fa_off;
        sector_size = size;
        sector_count = fa_size / size;
      } in
      record s { fs = geometry; flash = (retry 2 (mount geometry) opened).1 }

  mounted-read :
      (s : State Flash) (len : ℕ) → nvs.read 1 len (mounted s).flash ≡ nvs.read 1 len s.flash
  mounted-read s len =
      let see = λ (f : Flash). nvs.read 1 len f in
      retry_keeps see (mount (mounted s).fs) (λ f. ok.mount_keeps _ f 1 len) 2
        (retry 2 flash_area_open s.flash).1
      ∙ retry_keeps see flash_area_open (λ f. ok.open_keeps f 1 len) 2 s.flash

  is_zero-eq : (rc : Rc) → is_zero rc ≡ false → rc ≢ done 0
  is_zero-eq (done zero) h e = cc
  is_zero-eq (done (suc n)) h e = cc
  is_zero-eq (fail x) h e = cc

  init_fs_if_needed-mounted :
      (s : State Flash)
      → s.loaded ≡ false
      → (init_fs_if_needed nvs s).0 ≡ done 0
      → (init_fs_if_needed nvs s).1 ≡ load_or_reset nvs (mounted s)
  unfolding init_fs_if_needed configure_fs mount_fs
  init_fs_if_needed-mounted s new h = ground arith

  -- A boot that finds its blob sealed under the present key goes on with that blob.
  pub init-sealed :
      (c : Crypto) (f : Flash) (b : PersistBlob)
      → IsBlob b
      → b.magic ≡ persist_magic
      → is_enabled c ≡ true
      → HoldsSealed nvs c.aes_ctx b f
      → (init_fs_if_needed nvs (power_up c f)).0 ≡ done 0
      → let s = (init_fs_if_needed nvs (power_up c f)).1 in
        (s.blob ≡ b) × (s.loaded ≡ true) × (s.crypto ≡ c)
  unfolding load_or_reset adopt_blob
  init-sealed c f b fits magic on h rc =
      let t = mounted (power_up c f) in
      let here = HoldsSealed-read nvs c.aes_ctx b f t.flash (mounted-read (power_up c f)) h in
      let loads = load_sealed nvs ok t c.aes_ctx b fits on refl here in
      rw (init_fs_if_needed-mounted (power_up c f) refl rc, loads, magic) (refl, refl, refl)

  -- A boot with crypto off does not see a sealed blob: it starts from zero.
  pub init-sealed_off :
      (c : Crypto) (f : Flash) (ctx : AesCtx) (b : PersistBlob)
      → is_enabled c ≡ false
      → HoldsSealed nvs ctx b f
      → (init_fs_if_needed nvs (power_up c f)).0 ≡ done 0
      → let s = (init_fs_if_needed nvs (power_up c f)).1 in
        (s.blob ≡ fresh_blob) × (s.loaded ≡ true) × (s.crypto ≡ c)
  unfolding load_or_reset adopt_blob
  init-sealed_off c f ctx b off h rc =
      let t = mounted (power_up c f) in
      let here = HoldsSealed-read nvs ctx b f t.flash (mounted-read (power_up c f)) h in
      let loads = load_sealed_off nvs ok t ctx b off here in
      let kept = commit_keeps nvs (record t { blob = fresh_blob }) in
      rw (init_fs_if_needed-mounted (power_up c f) refl rc, loads)
        (kept.0, refl, commit_off_keeps nvs (record t { blob = fresh_blob }) off)
