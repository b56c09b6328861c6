-- ===== src/Persist/Storm.antt =====
-- A storm of watchdog resets, boot after boot, with crypto ready before the blob is read.
use zephyr_secure_supervisor.Base.{
  ℕ, suc, ◌+◌, ◌*◌, ◌<◌, ◌≡◌, refl, sym, ap, ◌^◌, leb, Bool, true, false, if◌then◌else◌, List, [],
  ◌∷◌, length, All, ◌⊎◌, inl, inr, Bool-cases, arith,
}
use zephyr_secure_supervisor.Aes.Block.{AesCtx}
use zephyr_secure_supervisor.Crypto.State.{Crypto}
use zephyr_secure_supervisor.Crypto.Buffers.Laws.{IsReady}
use zephyr_secure_supervisor.Persist.Nvs.{Nvs, IsNvs}
use zephyr_secure_supervisor.Persist.Blob.{PersistBlob}
use zephyr_secure_supervisor.Persist.Store.{State}
use zephyr_secure_supervisor.Persist.Working.{IsWorking, boot}
use zephyr_secure_supervisor.Persist.Sync.{InSync, perform, perform-InSync, cleared, effect}
use zephyr_secure_supervisor.Persist.Sync.Start.{boot-InSync}
use zephyr_secure_supervisor.Persist.Api.{
  count_boot, get_consecutive_watchdog, is_fallback_active, clear_watchdog_counter,
}

module _ (nvs : Nvs) (threshold : ℕ) where
  open nvs use {Flash}

  -- What `main` does to the blob in a boot without the calls of other parts: it clears the counter
  -- where the fallback is active, which is the Boolean.
  boot_to_mode : Crypto → Bool → Flash → Bool × State Flash
  boot_to_mode c watchdog_reset f =
      let s = boot nvs c watchdog_reset f in
      let safe_mode = is_fallback_active threshold s in
      (safe_mode, if safe_mode then clear_watchdog_counter nvs s else s)

  -- One boot after a watchdog reset for each state of crypto that `app_crypto_init` left, with the
  -- number of those that enter the safe mode.
  pub storm : List Crypto → State Flash → ℕ × State Flash
  storm [] s = (0, s)
  storm (c ∷ cs) s =
      let (safe_mode, s') = boot_to_mode c true s.flash in
      let (entered, end) = storm cs s' in (if safe_mode then suc entered else entered, end)

-- States of crypto that all hold the key `ctx`.
abbrev AllKeyed : AesCtx → List Crypto → Type 0
AllKeyed ctx cs = All (λ c. IsReady c × (c.aes_ctx ≡ ctx)) cs

module _ (nvs : Nvs) (ok : IsNvs nvs) (works : IsWorking nvs) (ctx : AesCtx) (threshold : ℕ) where
  open nvs use {Flash}

  boot_up :
      (c : Crypto) (s : State Flash)
      → IsReady c
      → c.aes_ctx ≡ ctx
      → InSync nvs ctx s
      → InSync nvs ctx (boot nvs c true s.flash)
        × ((boot nvs c true s.flash).blob ≡ count_boot true s.blob)
  boot_up c s r key h =
      rw (sym key)
        (boot-InSync nvs ok works c true s.flash s.blob r h.is_blob h.valid (rw key h.sealed))

  -- One boot counts up, or enters the safe mode and starts again.
  boot_to_mode-cases :
      (c : Crypto) (s : State Flash)
      → IsReady c
      → c.aes_ctx ≡ ctx
      → InSync nvs ctx s
      → get_consecutive_watchdog s < threshold
      → threshold < 2 ^ 32
      → let (safe_mode, t) = boot_to_mode nvs threshold c true s.flash in
        InSync nvs ctx t
        × (((safe_mode ≡ true)
              × (get_consecutive_watchdog s + 1 ≡ threshold)
              × (get_consecutive_watchdog t ≡ 0))
            ⊎ ((safe_mode ≡ false)
                × (get_consecutive_watchdog s + 1 < threshold)
                × (get_consecutive_watchdog t ≡ get_consecutive_watchdog s + 1)))
  unfolding boot_to_mode is_fallback_active get_consecutive_watchdog perform effect count_boot
  boot_to_mode-cases c s r key h low lim =
      let (up, blob) = boot_up c s r key h in
      let b = boot nvs c true s.flash in
      let counted = ap (λ (x : PersistBlob). x.consecutive_watchdog) blob in
      elim (Bool-cases (leb threshold b.blob.consecutive_watchdog)) [
        | inl e ↦
            let (synced, empty) = perform-InSync nvs ok works ctx cleared b up in
            let none = ap (λ (x : PersistBlob). x.consecutive_watchdog) empty in
            rw e (synced, inl (refl, ground (arith, counted), none))
        | inr e ↦ rw e (up, inr (refl, ground (arith, counted), ground (arith, counted)))
      ]

  -- On flash that works, with memory and flash in agreement under the key and a count of consecutive
  -- watchdog resets below the threshold: in a storm of watchdog resets, each booted with crypto ready
  -- under that key, every threshold-th reset enters the safe mode, which clears the count. The resets and the
  -- count before are the entries times the threshold and the count after, which is below the
  -- threshold; and memory and flash agree again.
  pub storm-consecutive_watchdog :
      (cs : List Crypto) (s : State Flash)
      → AllKeyed ctx cs
      → InSync nvs ctx s
      → get_consecutive_watchdog s < threshold
      → threshold < 2 ^ 32
      → let (entered, t) = storm nvs threshold cs s in
        (get_consecutive_watchdog s + length cs ≡ entered * threshold + get_consecutive_watchdog t)
        × (get_consecutive_watchdog t < threshold)
        × InSync nvs ctx t
  unfolding storm
  storm-consecutive_watchdog [] s keyed h low lim = (omega arith, low, h)
  storm-consecutive_watchdog (c ∷ cs) s keyed h low lim =
      let (ready, key) = keyed.0 in
      let (synced, mode) = boot_to_mode-cases c s ready key h low lim in
      let t = (boot_to_mode nvs threshold c true s.flash).1 in
      elim mode [
        | inl (safe, full, none) ↦
            let (sum, less, end) =
              storm-consecutive_watchdog cs t keyed.1 synced (omega (arith, none)) lim in
            rw safe (omega (arith, sum, full, none), less, end)
        | inr (plain, room, more) ↦
            let (sum, less, end) =
              storm-consecutive_watchdog cs t keyed.1 synced (omega (arith, room, more)) lim in
            rw plain (omega (arith, sum, more), less, end)
      ]
