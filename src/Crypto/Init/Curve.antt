-- ===== src/Crypto/Init/Curve.antt =====
-- What the Curve25519 initialisation makes of the blob: it reads the record while crypto is still
-- off, so it does not see a record that the last boot sealed.
use zephyr_secure_supervisor.Base.{
  ℕ, ◌+◌, ◌≤◌, ◌≡◌, ◌≢◌, ap, ◌∙◌, Bool, true, false, Bool-cases, inl, inr, List, Option, none, some,
  Rc, done, fail, is_zero, is_zero→done, u32, arith,
}
use zephyr_secure_supervisor.Aes.Block.{AesCtx}
use zephyr_secure_supervisor.Crypto.State.{Crypto, curve25519, iv_len, is_enabled}
use zephyr_secure_supervisor.Curve.{key_size, clamp_scalar}
use zephyr_secure_supervisor.Crypto.Hex.{parse_hex_string}
use zephyr_secure_supervisor.Persist.Nvs.{Nvs, IsNvs}
use zephyr_secure_supervisor.Persist.Blob.{PersistBlob}
use zephyr_secure_supervisor.Persist.Store.{State, read_into, persist_commit_locked}
use zephyr_secure_supervisor.Persist.Store.Laws.{HoldsSealed}
use zephyr_secure_supervisor.Persist.Store.Keeps.{commit_keeps}
use zephyr_secure_supervisor.Persist.Mount.{init_fs_if_needed, fresh_blob}
use zephyr_secure_supervisor.Persist.Boot.{power_up, init-sealed_off}
use zephyr_secure_supervisor.Persist.Api.{
  count_boot, commit_blob, record_boot, next_session_counter, is_fallback_active,
  get_consecutive_watchdog,
}
use zephyr_secure_supervisor.Persist.Api.Laws.{record_boot_blob}
use zephyr_secure_supervisor.Persist.Keys.{get_secret, get_peer, keep_secret}
use zephyr_secure_supervisor.Crypto.Init.{
  Config, counts, error_of, install_key, start_session, agree, with_peer, with_secret, init_curve,
  init_backend, app_crypto_init,
}

-- The blob after the session counter was taken.
abbrev next_session : PersistBlob → PersistBlob
next_session b = record b { session_counter = u32 (b.session_counter + 1) }

-- `t` goes on from `s` with one session more.
abbrev Follows : {F : Type 0} → State F → State F → Type 0
Follows s t = (t.blob ≡ next_session s.blob) × (t.loaded ≡ true)

error_of-ne-done : (rc : Rc) → error_of rc ≢ done 0
error_of-ne-done (done n) e = cc e
error_of-ne-done (fail x) e = cc e

module _ (nvs : Nvs) (scalarmult : List ℕ → List ℕ → Rc × List ℕ) (config : Config) where
  open nvs use {Flash}

  install_key_blob :
      (s : State Flash)
      → let t = (install_key nvs scalarmult config s).1 in (t.blob ≡ s.blob) × (t.loaded ≡ s.loaded)
  unfolding install_key
  install_key_blob s = ground arith

  get_peer_loaded : (s : State Flash) → s.loaded ≡ true → (get_peer nvs s).2 ≡ s
  unfolding get_peer init_fs_if_needed
  get_peer_loaded s h = ground arith

  next_session_counter_loaded :
      (s : State Flash)
      → s.loaded ≡ true
      → next_session_counter nvs s ≡ (
        u32 (s.blob.session_counter + 1),
        (persist_commit_locked nvs (record s { blob = next_session s.blob })).1,
      )
  unfolding next_session_counter commit_blob init_fs_if_needed
  next_session_counter_loaded s h = rw h

  start_session_blob :
      (shared : List ℕ) (s : State Flash)
      → s.loaded ≡ true
      → Follows s (start_session nvs scalarmult config shared s).1
  unfolding start_session
  start_session_blob shared s h =
      let sized = record s { crypto = record (s.crypto) { key_len = key_size } } in
      let (blob, loaded) = commit_keeps nvs (record sized { blob = next_session s.blob }) in
      rw (next_session_counter_loaded sized h)
        ((install_key_blob _).0 ∙ blob, (install_key_blob _).1 ∙ loaded ∙ h)

  agree_blob :
      (secret peer : List ℕ) (s : State Flash)
      → s.loaded ≡ true
      → (agree nvs scalarmult config secret peer s).0 ≡ done 0
      → Follows s (agree nvs scalarmult config secret peer s).1
  unfolding agree
  agree_blob secret peer s h rc =
      let (code, shared) = scalarmult (clamp_scalar secret) peer in
      ground (arith, start_session_blob shared s h)

  with_peer_blob :
      (secret : List ℕ) (peer : Option (List ℕ)) (s : State Flash)
      → s.loaded ≡ true
      → (with_peer nvs scalarmult config secret peer s).0 ≡ done 0
      → Follows s (with_peer nvs scalarmult config secret peer s).1
  unfolding with_peer
  with_peer_blob secret (some peer) s h rc = agree_blob secret peer s h rc
  with_peer_blob secret none s h rc =
      let parsed = parse_hex_string config.static_peer_hex key_size in
      ground (arith, agree_blob secret parsed.1 s h, error_of-ne-done parsed.0)

  with_secret_blob :
      (src : Rc) (secret : Option (List ℕ)) (s : State Flash)
      → s.loaded ≡ true
      → (with_secret nvs scalarmult config src secret s).0 ≡ done 0
      → Follows s (with_secret nvs scalarmult config src secret s).1
  with_secret_blob (fail e) secret s h rc = cc rc
  with_secret_blob (done n) none s h rc = cc rc
  with_secret_blob (done n) (some secret) s h rc =
      let same = get_peer_loaded s h in
      let (blob, loaded) =
        with_peer_blob secret (get_peer nvs s).1 (get_peer nvs s).2 (rw same h) rc in
      (blob ∙ ap (λ (t : State Flash). next_session t.blob) same, loaded)

  get_secret_state :
      (s : State Flash)
      → let t = (init_fs_if_needed nvs s).1 in
        let u = (get_secret nvs config.static_secret_hex config.dev_id s).2 in
        (u.blob ≡ t.blob) × (u.loaded ≡ t.loaded)
  unfolding get_secret keep_secret
  get_secret_state s = ground arith

  init_curve_blob :
      (s : State Flash)
      → (init_curve nvs scalarmult config s).0 ≡ done 0
      → (init_fs_if_needed nvs s).1.loaded ≡ true
      → Follows (init_fs_if_needed nvs s).1 (init_curve nvs scalarmult config s).1
  unfolding init_curve
  init_curve_blob s rc h =
      let (rc', secret, u) = get_secret nvs config.static_secret_hex config.dev_id s in
      let (blob, loaded) = get_secret_state s in
      let (next, still) = with_secret_blob rc' secret u (loaded ∙ h) rc in
      (next ∙ ap next_session blob, still)

  with_secret_none :
      (src : Rc) (s : State Flash) → (with_secret nvs scalarmult config src none s).0 ≢ done 0
  with_secret_none (fail e) s h = cc h
  with_secret_none (done n) s h = cc h

  -- No key is agreed on without the file system.
  init_curve_mounts :
      (s : State Flash)
      → (init_curve nvs scalarmult config s).0 ≡ done 0
      → (init_fs_if_needed nvs s).0 ≡ done 0
  unfolding init_curve get_secret
  init_curve_mounts s rc = elim (Bool-cases (is_zero (init_fs_if_needed nvs s).0)) [
    | inl good ↦ is_zero→done _ good
    | inr bad ↦ absurd (with_secret_none _ _ (rw bad at rc))
  ]

  module _ (ok : IsNvs nvs) (curve : config.backend ≡ curve25519) where
    -- The state of crypto when the backend is initialised.
    abbrev prepared : Crypto → Crypto
    prepared c = record c {
      iv_seed = read_into c.iv_seed (parse_hex_string config.static_iv_hex iv_len).1;
      active_backend = curve25519;
    }

    app_crypto_init-prepared :
        (c : Crypto) (f : Flash)
        → (app_crypto_init nvs scalarmult config (power_up c f)).0 ≡ done 0
        → app_crypto_init nvs scalarmult config (power_up c f)
          ≡ init_curve nvs scalarmult config (power_up (prepared c) f)
    unfolding app_crypto_init init_backend
    app_crypto_init-prepared c f rc =
        let parsed = parse_hex_string config.static_iv_hex iv_len in
        elim (Bool-cases (counts iv_len parsed.0)) [
          | inl good ↦ rw (good, curve)
          | inr bad ↦ absurd (error_of-ne-done parsed.0 (rw bad at rc))
        ]

    -- On storage that reads back what was written: where the last boot left its blob sealed, under
    -- whatever key and with whatever counts, and crypto starts out as not ready, the
    -- initialisation for Curve25519, if it succeeds, has reset the blob: the override and both
    -- reset counters are 0, and the session counter is 1.
    pub app_crypto_init_forgets :
        (c : Crypto) (f : Flash) (ctx : AesCtx) (b : PersistBlob)
        → c.crypto_ready ≡ false
        → HoldsSealed nvs ctx b f
        → (app_crypto_init nvs scalarmult config (power_up c f)).0 ≡ done 0
        → let s = (app_crypto_init nvs scalarmult config (power_up c f)).1 in
          (s.blob ≡ record fresh_blob { session_counter = 1 }) × (s.loaded ≡ true)
    unfolding is_enabled
    app_crypto_init_forgets c f ctx b off h rc =
        let s = power_up (prepared c) f in
        let same = app_crypto_init-prepared c f rc in
        let rc' : (init_curve nvs scalarmult config s).0 ≡ done 0 = rw same at rc in
        let (blob, loaded, crypto) =
          init-sealed_off nvs ok (prepared c) f ctx b (rw off) h (init_curve_mounts s rc') in
        let (next, still) = init_curve_blob s rc' loaded in
        rw same (next ∙ ap next_session blob, still)

    -- Under the same conditions at most one watchdog reset in a row is on record after the boot is
    -- counted, and a threshold of two or more is not reached.
    pub curve_boot_no_fallback :
        (c : Crypto) (f : Flash) (ctx : AesCtx) (b : PersistBlob) (w : Bool) (threshold : ℕ)
        → c.crypto_ready ≡ false
        → HoldsSealed nvs ctx b f
        → (app_crypto_init nvs scalarmult config (power_up c f)).0 ≡ done 0
        → 2 ≤ threshold
        → is_fallback_active threshold
            (record_boot nvs w (app_crypto_init nvs scalarmult config (power_up c f)).1)
          ≡ false
    unfolding is_fallback_active get_consecutive_watchdog count_boot
    curve_boot_no_fallback c f ctx b w threshold off h rc big =
        let s = (app_crypto_init nvs scalarmult config (power_up c f)).1 in
        let (blob, loaded) = app_crypto_init_forgets c f ctx b off h rc in
        let counted = record_boot_blob nvs w s loaded in ground (arith, counted, blob)
