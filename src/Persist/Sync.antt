-- ===== src/Persist/Sync.antt =====
-- What the interface of src/persist_state.c promises: the operations act on the blob as on a record in
-- memory, and a boot under the same key goes on with it.
pub mod Start
use zephyr_secure_supervisor.Base.{
  ℕ, ◌+◌, ◌≡◌, ◌⊎◌, inl, inr, refl, sym, ap, ◌∙◌, Bool, true, false, ◌==◌, List, [], ◌∷◌, done, u32,
  arith, Bool-cases, ==_iff,
}
use mathlib.Core.Path.{subst, subst₂}
use zephyr_secure_supervisor.Aes.Block.{AesCtx}
use zephyr_secure_supervisor.Crypto.State.{Crypto, is_enabled}
use zephyr_secure_supervisor.Crypto.Buffers.Laws.{IsReady}
use zephyr_secure_supervisor.Persist.Nvs.{Nvs, IsNvs}
use zephyr_secure_supervisor.Persist.Blob.{PersistBlob, IsBlob, persist_magic}
use zephyr_secure_supervisor.Persist.Store.{State, persist_commit_locked}
use zephyr_secure_supervisor.Persist.Store.Laws.{HoldsSealed, commit-HoldsSealed}
use zephyr_secure_supervisor.Persist.Store.Keeps.{commit_keeps, commit-IsReady}
use zephyr_secure_supervisor.Persist.Mount.{init_fs_if_needed}
use zephyr_secure_supervisor.Persist.Boot.{power_up, init-sealed}
use zephyr_secure_supervisor.Persist.Working.{IsWorking, commit_works, init_works}
use zephyr_secure_supervisor.Persist.Api.{
  count_boot, commit_blob, record_boot, clear_watchdog_counter, set_watchdog_override,
  next_session_counter,
}

-- The operations that change the blob. The override is a uint32_t.
pub data Op : Type 0 where
  booted : Bool → Op
  cleared counted : Op
  overridden : ℕ → Op

-- Their effect on a record in memory.
unfoldable pub effect : Op → PersistBlob → PersistBlob
effect (booted true) b = record b {
  consecutive_watchdog = u32 (b.consecutive_watchdog + 1);
  total_watchdog = u32 (b.total_watchdog + 1);
}
effect (booted false) b = record b { consecutive_watchdog = 0 }
effect cleared b = record b { consecutive_watchdog = 0 }
effect counted b = record b { session_counter = u32 (b.session_counter + 1) }
effect (overridden timeout_ms) b = record b { watchdog_override_ms = u32 timeout_ms }

unfoldable pub effects : List Op → PersistBlob → PersistBlob
effects [] b = b
effects (op ∷ ops) b = effects ops (effect op b)

effect-IsBlob : (op : Op) (b : PersistBlob) → IsBlob b → IsBlob (effect op b)
unfolding effect
effect-IsBlob (booted true) b h = ground arith
effect-IsBlob (booted false) b h = ground arith
effect-IsBlob cleared b h = ground arith
effect-IsBlob counted b h = ground arith
effect-IsBlob (overridden t) b h = ground arith

effect_magic : (op : Op) (b : PersistBlob) → (effect op b).magic ≡ b.magic
unfolding effect
effect_magic (booted true) b = refl
effect_magic (booted false) b = refl
effect_magic cleared b = refl
effect_magic counted b = refl
effect_magic (overridden t) b = refl

consecutive_zero :
    (b : PersistBlob) → b.consecutive_watchdog ≡ 0 → record b { consecutive_watchdog = 0 } ≡ b
consecutive_zero b h = λ i. record b { consecutive_watchdog = sym h i }

override_same :
    (b : PersistBlob) (t : ℕ)
    → b.watchdog_override_ms ≡ t
    → record b { watchdog_override_ms = t } ≡ b
override_same b t h = λ i. record b { watchdog_override_ms = sym h i }

module _ (nvs : Nvs) where
  open nvs use {Flash}

  unfoldable pub perform : Op → State Flash → State Flash
  perform (booted watchdog_reset) s = record_boot nvs watchdog_reset s
  perform cleared s = clear_watchdog_counter nvs s
  perform counted s = (next_session_counter nvs s).1
  perform (overridden timeout_ms) s = (set_watchdog_override nvs (u32 timeout_ms) s).1

  unfoldable pub perform_all : List Op → State Flash → State Flash
  perform_all [] s = s
  perform_all (op ∷ ops) s = perform_all ops (perform op s)

-- The blob in memory is loaded and valid, and the flash holds the same, sealed under the present key.
pub record InSync (nvs : Nvs) (ctx : AesCtx) (s : State (nvs.Flash)) : Type 0 where
  pub is_loaded : s.loaded ≡ true
  pub is_ready : IsReady s.crypto
  pub key : s.crypto.aes_ctx ≡ ctx
  pub is_blob : IsBlob s.blob
  pub valid : s.blob.magic ≡ persist_magic
  pub sealed : HoldsSealed nvs ctx s.blob s.flash

module _ (nvs : Nvs) (ok : IsNvs nvs) (works : IsWorking nvs) where
  open nvs use {Flash}

  commit_blob-InSync :
      (ctx : AesCtx) (b : PersistBlob) (s : State Flash)
      → InSync nvs ctx s
      → IsBlob b
      → b.magic ≡ persist_magic
      → InSync nvs ctx (commit_blob nvs b s).1 × ((commit_blob nvs b s).1.blob ≡ b)
  unfolding commit_blob
  commit_blob-InSync ctx b s h fits magic =
      let t = record s { blob = b } in
      let sealed =
        commit-HoldsSealed nvs ok t h.is_ready (commit_works nvs ok works t h.is_ready) in
      let (same, loaded) = commit_keeps nvs t in
      let (ready, key) = commit-IsReady nvs t h.is_ready in
      (
        record {
          is_loaded = loaded ∙ h.is_loaded;
          is_ready = ready;
          key = key ∙ h.key;
          is_blob = subst IsBlob (sym same) fits;
          valid = ap (λ (x : PersistBlob). x.magic) same ∙ magic;
          sealed =
              subst₂
                (λ (k : AesCtx) (m : PersistBlob).
                  HoldsSealed nvs k m (persist_commit_locked nvs t).1.flash)
                h.key (sym same) sealed;
        },
        same,
      )

  pub init_again : (s : State Flash) → s.loaded ≡ true → init_fs_if_needed nvs s ≡ (done 0, s)
  unfolding init_fs_if_needed
  init_again s h = ground arith

  -- An operation either has no effect or commits its effect.
  perform-cases :
      (op : Op) (s : State Flash)
      → s.loaded ≡ true
      → ((perform nvs op s ≡ s) × (effect op s.blob ≡ s.blob))
        ⊎ (perform nvs op s ≡ (commit_blob nvs (effect op s.blob) s).1)
  unfolding perform effect record_boot clear_watchdog_counter next_session_counter
      set_watchdog_override count_boot
  perform-cases (booted true) s h = inr (rw (init_again s h) refl)
  perform-cases (booted false) s h = elim (Bool-cases (s.blob.consecutive_watchdog == 0)) [
    | inl e ↦ inr (
        rw (init_again s h, e)
          (ap (λ (b : PersistBlob). (commit_blob nvs b s).1)
            (sym (consecutive_zero s.blob ((==_iff s.blob.consecutive_watchdog 0).0 e)))))
    | inr e ↦ inr (rw (init_again s h, e) refl)
  ]
  perform-cases cleared s h = elim (Bool-cases (s.blob.consecutive_watchdog == 0)) [
    | inl e ↦ inl (
      rw (init_again s h, e) refl,
      consecutive_zero s.blob ((==_iff s.blob.consecutive_watchdog 0).0 e),
    )
    | inr e ↦ inr (rw (init_again s h, e) refl)
  ]
  perform-cases counted s h = inr (rw (perform, next_session_counter, init_again s h) refl)
  perform-cases (overridden t) s h = elim (Bool-cases (s.blob.watchdog_override_ms == u32 t)) [
    | inl e ↦ inl (
      rw (perform, set_watchdog_override, init_again s h, e) refl,
      override_same s.blob (u32 t) ((==_iff s.blob.watchdog_override_ms (u32 t)).0 e),
    )
    | inr e ↦ inr (rw (perform, set_watchdog_override, init_again s h, e) refl)
  ]

  pub perform-InSync :
      (ctx : AesCtx) (op : Op) (s : State Flash)
      → InSync nvs ctx s
      → InSync nvs ctx (perform nvs op s) × ((perform nvs op s).blob ≡ effect op s.blob)
  perform-InSync ctx op s h = elim (perform-cases op s h.is_loaded) [
    | inl (same, none) ↦ rw (same, none) (h, refl)
    | inr committed ↦ rw committed (
        commit_blob-InSync ctx (effect op s.blob) s h (effect-IsBlob op s.blob h.is_blob)
          (effect_magic op s.blob ∙ h.valid))
  ]

  perform_all-InSync :
      (ctx : AesCtx) (ops : List Op) (s : State Flash)
      → InSync nvs ctx s
      → InSync nvs ctx (perform_all nvs ops s) × ((perform_all nvs ops s).blob ≡ effects ops s.blob)
  unfolding perform_all effects
  perform_all-InSync ctx [] s h = (h, refl)
  perform_all-InSync ctx (op ∷ ops) s h =
      let (next, blob) = perform-InSync ctx op s h in
      let (last, blobs) = perform_all-InSync ctx ops (perform nvs op s) next in
      (last, blobs ∙ ap (effects ops) blob)

  pub perform_all-effects :
      (ctx : AesCtx) (ops : List Op) (s : State Flash) (c : Crypto)
      → InSync nvs ctx s
      → is_enabled c ≡ true
      → c.aes_ctx ≡ ctx
      → ((perform_all nvs ops s).blob ≡ effects ops s.blob)
        × ((init_fs_if_needed nvs (power_up c (perform_all nvs ops s).flash)).1.blob
            ≡ effects ops s.blob)
  perform_all-effects ctx ops s c h on key =
      let (last, blob) = perform_all-InSync ctx ops s h in
      let t = perform_all nvs ops s in
      let here : HoldsSealed nvs c.aes_ctx t.blob t.flash = rw key last.sealed in
      let (loads, loaded, same) =
        init-sealed nvs ok c t.flash t.blob last.is_blob last.valid on here
          (init_works nvs ok works (power_up c t.flash)) in
      (blob, loads ∙ blob)
