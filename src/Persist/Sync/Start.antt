-- ===== src/Persist/Sync/Start.antt =====
-- A boot on a sealed blob under its key leaves memory and flash in agreement.
use zephyr_secure_supervisor.Base.{◌≡◌, sym, ap, ◌∙◌, Bool}
use mathlib.Core.Path.{subst}
use zephyr_secure_supervisor.Crypto.State.{Crypto}
use zephyr_secure_supervisor.Crypto.Buffers.Laws.{IsReady}
use zephyr_secure_supervisor.Persist.Nvs.{Nvs, IsNvs}
use zephyr_secure_supervisor.Persist.Blob.{PersistBlob, IsBlob, persist_magic}
use zephyr_secure_supervisor.Persist.Store.{State, persist_commit_locked}
use zephyr_secure_supervisor.Persist.Store.Laws.{HoldsSealed}
use zephyr_secure_supervisor.Persist.Store.Keeps.{commit_keeps, commit-IsReady}
use zephyr_secure_supervisor.Persist.Mount.{init_fs_if_needed}
use zephyr_secure_supervisor.Persist.Boot.{power_up, init-sealed}
use zephyr_secure_supervisor.Persist.Working.{
  IsWorking, boot, init_works, boot-HoldsSealed, count_boot-IsBlob, count_boot_magic,
}
use zephyr_secure_supervisor.Persist.Api.{count_boot, commit_blob}
use zephyr_secure_supervisor.Persist.Api.Laws.{record_boot_loaded}
use zephyr_secure_supervisor.Persist.Sync.{InSync}

pub boot-InSync :
    (nvs : Nvs) (ok : IsNvs nvs) (works : IsWorking nvs) (c : Crypto) (w : Bool) (f : nvs.Flash)
    (b : PersistBlob)
    → IsReady c
    → IsBlob b
    → b.magic ≡ persist_magic
    → HoldsSealed nvs c.aes_ctx b f
    → InSync nvs c.aes_ctx (boot nvs c w f) × ((boot nvs c w f).blob ≡ count_boot w b)
unfolding boot commit_blob
boot-InSync nvs ok works c w f b r fits magic h =
    let (blob, sealed) = boot-HoldsSealed nvs ok works c w f b r fits magic h in
    let s = (init_fs_if_needed nvs (power_up c f)).1 in
    let (_, loaded, same) =
      init-sealed nvs ok c f b fits magic r.enabled h (init_works nvs ok works (power_up c f)) in
    let t = record s { blob = count_boot w s.blob } in
    let at : boot nvs c w f ≡ (persist_commit_locked nvs t).1 = record_boot_loaded nvs w s loaded in
    let (kept, still) = commit_keeps nvs t in
    let ready : IsReady t.crypto = rw same r in
    let (ready', key) = commit-IsReady nvs t ready in
    (
      record {
        is_loaded = ap (λ (x : State nvs.Flash). x.loaded) at ∙ still ∙ loaded;
        is_ready = subst (λ (x : State nvs.Flash). IsReady x.crypto) (sym at) ready';
        key =
            ap (λ (x : State nvs.Flash). x.crypto.aes_ctx) at
            ∙ key
            ∙ ap (λ (x : Crypto). x.aes_ctx) same;
        is_blob = subst IsBlob (sym blob) (count_boot-IsBlob nvs ok works w b fits);
        valid = ap (λ (x : PersistBlob). x.magic) blob ∙ count_boot_magic nvs ok works w b ∙ magic;
        sealed =
            subst (λ (m : PersistBlob). HoldsSealed nvs c.aes_ctx m (boot nvs c w f).flash)
              (sym blob) sealed;
      },
      blob,
    )
