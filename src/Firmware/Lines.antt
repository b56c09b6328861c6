-- ===== src/Firmware/Lines.antt =====
-- Lines on the console keep the parts sound.
use zephyr_secure_supervisor.Base.{
  ℕ, ◌<◌, ◌*◌, inl, inr, refl, not, ◌&&◌, ◌||◌, ltb, ◌==◌, if◌then◌else◌, if-both, Bool-cases, [],
  ◌∷◌, length, drop, u32, some, is_zero, arith,
}
use zephyr_secure_supervisor.Aes.Block.{AesCtx}
use zephyr_secure_supervisor.Curve.{key_size}
use zephyr_secure_supervisor.Persist.Nvs.{Nvs, IsNvs}
use zephyr_secure_supervisor.Persist.Working.{IsWorking}
use zephyr_secure_supervisor.Persist.Api.{get_watchdog_override}
use zephyr_secure_supervisor.Persist.Keys.{set_secret}
use zephyr_secure_supervisor.Persist.Keys.Laws.{set_secret-InSync, set_peer-InSync}
use zephyr_secure_supervisor.Watchdog.Ctrl.{Wdt}
use zephyr_secure_supervisor.Firmware.{System}
use zephyr_secure_supervisor.Firmware.Laws.{InRange, IsSound, with_persist}
use zephyr_secure_supervisor.Uart.Text.{
  String, has_prefix, strtoul, skip_spaces, token, after_token,
}
use zephyr_secure_supervisor.Uart.Command.{
  CommandConfig, starts_with, ends_token, accum_append, override_and_target, apply_timeout,
  clear_override, decode_hex_token, provision_peer, provision_keys, handle_provision_command,
  handle_watchdog, provision_chunk, dispatch, handle_line,
}
use zephyr_secure_supervisor.Uart.Command.Override.{override_and_target-IsOverridden}

module _ (nvs : Nvs) (ok : IsNvs nvs) (works : IsWorking nvs) (ctx : AesCtx) (wdt : Wdt) (polls : ℕ)
    (config : CommandConfig) where
  abbrev Good : System nvs wdt → Type 0
  Good s = IsSound nvs ctx s.world

  override-Good :
      (now v target : ℕ) (s : System nvs wdt)
      → Good s
      → InRange v
      → Good (override_and_target nvs wdt polls config now v target s)
  unfolding get_watchdog_override
  override-Good now v target s h range =
      let fits : v < 4294967296 = ground arith in
      let p = s.world.persist in
      let t =
        override_and_target-IsOverridden nvs wdt polls config ok works ctx p.crypto now v target s
          fits h.synced h.synced.is_ready.enabled h.synced.key in
      record {
        synced = t.synced;
        ranged = rw (get_watchdog_override, t.blob) range;
        posted = rw t.recovery h.posted;
      }

  apply_timeout-Good :
      (now n : ℕ) (s : System nvs wdt) → Good s → Good (apply_timeout nvs wdt polls config now n s)
  unfolding apply_timeout
  apply_timeout-Good now n s h = elim (Bool-cases (ltb n 100 || ltb 60000 n)) [
    | inl e ↦ rw e h
    | inr e ↦ rw e (override-Good now n n s h (inr (ground arith)))
  ]

  clear-Good :
      (now : ℕ) (s : System nvs wdt) → Good s → Good (clear_override nvs wdt polls config now s)
  unfolding clear_override
  clear-Good now s h = override-Good now 0 config.steady_timeout_ms s h (inl refl)

  watchdog-Good :
      (now : ℕ) (arg : String) (s : System nvs wdt)
      → Good s
      → Good (handle_watchdog nvs wdt polls config now arg s)
  unfolding handle_watchdog
  watchdog-Good now arg s h =
      let r = strtoul config.ulong_max arg in
      let set = apply_timeout-Good now (u32 r.value) s h in
      if-both Good (starts_with b'?' arg) _ _ h (
        if-both Good (has_prefix (b'c' ∷ b'l' ∷ b'e' ∷ b'a' ∷ b'r' ∷ []) arg) _ _
          (clear-Good now s h)
          (if-both Good (r.overflow || not r.found) _ _ h
            (if-both Good (not (ends_token r.end)) _ _ h set)))

  peer-Good :
      (args : String) (s : System nvs wdt)
      → Good s
      → Good (provision_peer nvs wdt polls config args s)
  unfolding provision_peer get_watchdog_override
  peer-Good [] s h = h
  peer-Good (c ∷ args) s h =
      let tok = token (c ∷ args) in
      let (synced, blob) =
        set_peer-InSync nvs ok works ctx (decode_hex_token tok key_size).1 s.world.persist
          h.synced in
      if-both Good (not (length tok == key_size * 2)) _ _ h (
        if-both Good (not (is_zero (decode_hex_token tok key_size).0)) _ _ h (
          with_persist nvs ok works ctx wdt polls s.world _ h synced
            (rw (get_watchdog_override, blob) h.ranged)))

  keys-Good :
      (args : String) (s : System nvs wdt)
      → Good s
      → Good (provision_keys nvs wdt polls config args s)
  unfolding provision_keys get_watchdog_override
  keys-Good args s h =
      let secret = (decode_hex_token (token args) key_size).1 in
      let (synced, blob) = set_secret-InSync nvs ok works ctx secret s.world.persist h.synced in
      let set =
        with_persist nvs ok works ctx wdt polls s.world _ h synced
          (rw (get_watchdog_override, blob) h.ranged) in
      let args' = skip_spaces (after_token args) in
      let w = s.world in
      let (rc, persist) = set_secret nvs (some secret) w.persist in
      if-both Good (not (is_zero (decode_hex_token (token args) key_size).0)) _ _ h (
        if-both Good (not (is_zero rc)) _ _ set
          (peer-Good args' (record s { world = record w { persist = persist } }) set))

  provision-Good :
      (body : String) (s : System nvs wdt)
      → Good s
      → Good (handle_provision_command nvs wdt polls config body s)
  unfolding handle_provision_command
  provision-Good body s h =
      let args = skip_spaces body in
      let keys = skip_spaces (drop 5 args) in
      let curve = has_prefix (b'c' ∷ b'u' ∷ b'r' ∷ b'v' ∷ b'e' ∷ []) args in
      if-both Good (not curve) _ _ h (if-both Good (length keys == 0) _ _ h (keys-Good keys s h))

  abbrev GoodPair : String × System nvs wdt → Type 0
  GoodPair (accum, s) = Good s

  chunk-Good :
      (accum line : String) (s : System nvs wdt)
      → Good s
      → GoodPair (provision_chunk nvs wdt polls config accum line s)
  unfolding provision_chunk
  chunk-Good accum line s h =
      let whole = accum_append config.buffer_len accum line in
      if-both GoodPair _ _ _ (provision-Good (drop 4 whole) s h) h

  -- A whole line.
  pub handle_line-Good :
      (now : ℕ) (line accum : String) (s : System nvs wdt)
      → Good s
      → GoodPair (handle_line nvs wdt polls config now line accum s)
  unfolding handle_line dispatch
  handle_line-Good now line accum s h =
      let word = skip_spaces line in
      let is_prov = has_prefix (b'p' ∷ b'r' ∷ b'o' ∷ b'v' ∷ []) word in
      let kept = if config.curve && (not (length accum == 0) && not is_prov) then [] else accum in
      if-both GoodPair (length word == 0) _ _ h (
        if-both GoodPair (has_prefix (b'w' ∷ b'd' ∷ b'g' ∷ []) word) _ _
          (watchdog-Good now (skip_spaces (drop 3 word)) s h)
          (if-both GoodPair (config.curve && is_prov) _ _ (chunk-Good [] word s h) (
            if-both GoodPair (config.curve && not (length kept == 0)) _ _ (chunk-Good kept word s h)
              h)))
