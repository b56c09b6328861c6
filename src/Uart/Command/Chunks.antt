-- ===== src/Uart/Command/Chunks.antt =====
-- `prov`: the chunks that the file collects for a command.
use zephyr_secure_supervisor.Base.{
  ℕ, ◌≡◌, ◌≢◌, refl, true, false, ◌==◌, [], ◌∷◌, length, arith, Bool-cases, inl, inr,
}
use zephyr_secure_supervisor.Persist.Nvs.{Nvs}
use zephyr_secure_supervisor.Watchdog.Ctrl.{Wdt}
use zephyr_secure_supervisor.Firmware.{System}
use zephyr_secure_supervisor.Uart.Text.{String, skip_spaces, has_prefix}
use zephyr_secure_supervisor.Uart.Command.{CommandConfig, dispatch, handle_line}

abbrev prov : String
prov = b'p' ∷ b'r' ∷ b'o' ∷ b'v' ∷ []

no_watchdog :
    (s : String) → has_prefix prov s ≡ true → has_prefix (b'w' ∷ b'd' ∷ b'g' ∷ []) s ≡ false
unfolding has_prefix
no_watchdog [] h = cc
no_watchdog (c ∷ s) h = ground arith

module _ (nvs : Nvs) (wdt : Wdt) (polls : ℕ) (config : CommandConfig) where
  abbrev Sys : Type 0
  Sys = System nvs wdt

  nonempty : (s : String) → s ≢ [] → (length s == 0) ≡ false
  nonempty [] h = absurd (h refl)
  nonempty (c ∷ s) h = ground arith

  -- In a build for Curve25519 a line that is not blank does the same, and leaves the same chunks,
  -- whatever chunks were collected before it.
  pub handle_line-unchunked :
      (now : ℕ) (line accum : String) (s : Sys)
      → config.curve ≡ true
      → skip_spaces line ≢ []
      → handle_line nvs wdt polls config now line accum s
        ≡ handle_line nvs wdt polls config now line [] s
  unfolding handle_line dispatch
  handle_line-unchunked now line [] s curve text = refl
  handle_line-unchunked now line (a ∷ accum) s curve text =
      let word = skip_spaces line in
      let filled : (length (a ∷ accum) == 0) ≡ false = ground arith in
      elim (Bool-cases (has_prefix prov word)) [
        | inl e ↦ rw (nonempty word text, curve, no_watchdog word e, e) refl
        | inr e ↦ rw (nonempty word text, curve, filled, e) refl
      ]
