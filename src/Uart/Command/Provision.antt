-- ===== src/Uart/Command/Provision.antt =====
-- `prov curve`: keys from the console.
use zephyr_secure_supervisor.Base.{
  ℕ, ◌*◌, ◌-◌, ◌≡◌, ◌≤◌, refl, sym, ap, ◌∙◌, true, false, leb, ◌==◌, List, [], ◌∷◌, ◌++◌, length,
  drop, take_all, length-append, append-nil, Option, some, Rc, done, arith, All, AllBytes,
}
use zephyr_secure_supervisor.Crypto.Hex.{hex_digits}
use zephyr_secure_supervisor.Crypto.Hex.Laws.{length-hex_digits}
use zephyr_secure_supervisor.Curve.{key_size, clamp_scalar}
use zephyr_secure_supervisor.Persist.Nvs.{Nvs, IsNvs}
use zephyr_secure_supervisor.Persist.Store.{State}
use zephyr_secure_supervisor.Persist.Working.{IsWorking}
use zephyr_secure_supervisor.Persist.Keys.{get_secret, set_secret, get_peer, set_peer}
use zephyr_secure_supervisor.Persist.Keys.Laws.{set_secret_lem, get_keys}
use zephyr_secure_supervisor.Watchdog.Ctrl.{Wdt}
use zephyr_secure_supervisor.Firmware.{System}
use zephyr_secure_supervisor.Uart.Text.{String, skip_spaces, has_prefix, token}
use zephyr_secure_supervisor.Uart.Command.{
  CommandConfig, accum_append, keys_complete, command_complete, handle_provision_command,
  decode_hex_token, provision_peer, provision_keys, provision_chunk, dispatch, handle_line,
}
use zephyr_secure_supervisor.Uart.Command.Tokens.{
  IsGlyph, hex_digits-glyphs, token-append, after_token-append, token_self, skip_word,
  decode_hex_token-hex_digits,
}

abbrev curve_keys : String → String → String
curve_keys secret peer = b'c' ∷ b'u' ∷ b'r' ∷ b'v' ∷ b'e' ∷ b' ' ∷ (secret ++ b' ' ∷ peer)

-- `prov curve` with two keys.
abbrev pub prov_keys : List ℕ → List ℕ → String
prov_keys secret peer =
    b'p' ∷ b'r' ∷ b'o' ∷ b'v' ∷ b' ' ∷ curve_keys (hex_digits secret) (hex_digits peer)

module _ (secret peer : List ℕ) (s_bytes : AllBytes secret) (p_bytes : AllBytes peer)
    (s_full : length secret ≡ 32) (p_full : length peer ≡ 32) where
  s_hex : All IsGlyph (hex_digits secret)
  s_hex = hex_digits-glyphs secret s_bytes

  p_hex : All IsGlyph (hex_digits peer)
  p_hex = hex_digits-glyphs peer p_bytes

  s_size : length (hex_digits secret) ≡ 64
  s_size = length-hex_digits secret ∙ ap (λ (n : ℕ). 2 * n) s_full

  p_size : length (hex_digits peer) ≡ 64
  p_size = length-hex_digits peer ∙ ap (λ (n : ℕ). 2 * n) p_full

  skip_secret :
      skip_spaces (hex_digits secret ++ b' ' ∷ hex_digits peer)
      ≡ hex_digits secret ++ b' ' ∷ hex_digits peer
  skip_secret = skip_word (hex_digits secret) (b' ' ∷ hex_digits peer) s_hex (omega (arith, s_size))

  skip_peer : skip_spaces (b' ' ∷ hex_digits peer) ≡ hex_digits peer
  unfolding skip_spaces
  skip_peer =
      let same = append-nil (hex_digits peer) in
      sym (ap skip_spaces same)
      ∙ skip_word (hex_digits peer) [] p_hex (omega (arith, p_size))
      ∙ same

  complete : command_complete (prov_keys secret peer) ≡ true
  unfolding command_complete keys_complete has_prefix skip_spaces
  complete =
      rw
        (
          skip_secret,
          after_token-append (hex_digits secret) (hex_digits peer) s_hex,
          token-append (hex_digits secret) (hex_digits peer) s_hex,
          s_size,
          skip_peer,
          p_size,
          token_self (hex_digits peer) p_hex,
          p_size,
        )
        refl

  module _ (nvs : Nvs) (wdt : Wdt) (polls : ℕ) (config : CommandConfig) where
    accumulated :
        141 ≤ config.buffer_len
        → accum_append config.buffer_len [] (prov_keys secret peer) ≡ prov_keys secret peer
    unfolding accum_append
    accumulated room =
        let fits : length (prov_keys secret peer) ≤ config.buffer_len - 1 =
          omega
            (arith, length-append (hex_digits secret) (b' ' ∷ hex_digits peer), s_size, p_size) in
        let open_lem : leb (config.buffer_len - 1) 0 ≡ false = ground arith in
        rw open_lem (take_all (prov_keys secret peer) (config.buffer_len - 1) fits)

    carried_out :
        (s : System nvs wdt)
        → handle_provision_command nvs wdt polls config (drop 4 (prov_keys secret peer)) s
          ≡ provision_keys nvs wdt polls config (hex_digits secret ++ b' ' ∷ hex_digits peer) s
    unfolding handle_provision_command has_prefix skip_spaces
    carried_out s =
        let some_key : (length (hex_digits secret ++ b' ' ∷ hex_digits peer) == 0) ≡ false =
          ground (arith, length-append (hex_digits secret) (b' ' ∷ hex_digits peer)) in
        rw (skip_secret, some_key) refl

    to_chunk :
        (now : ℕ) (accum : String) (s : System nvs wdt)
        → config.curve ≡ true
        → handle_line nvs wdt polls config now (prov_keys secret peer) accum s
          ≡ provision_chunk nvs wdt polls config [] (prov_keys secret peer) s
    unfolding handle_line dispatch skip_spaces has_prefix
    to_chunk now accum s curve = ground (arith, curve)

    chunk_lem :
        (s : System nvs wdt)
        → 141 ≤ config.buffer_len
        → provision_chunk nvs wdt polls config [] (prov_keys secret peer) s ≡ (
          [],
          provision_keys nvs wdt polls config (hex_digits secret ++ b' ' ∷ hex_digits peer) s,
        )
    unfolding provision_chunk
    chunk_lem s room = rw (accumulated room, complete, carried_out s) refl

    peer_lem :
        (word : String) (s : System nvs wdt)
        → token word ≡ word
        → length word ≡ 64
        → decode_hex_token word key_size ≡ (done 0, peer)
        → let t = provision_peer nvs wdt polls config word s in
          t.world.persist ≡ (set_peer nvs (some peer) s.world.persist).1
    unfolding provision_peer
    peer_lem [] s same size reads = absurd (omega arith)
    peer_lem (c ∷ word) s same size reads = rw (same, size, reads) refl

    both_set :
        (s : System nvs wdt)
        → (set_secret nvs (some secret) s.world.persist).0 ≡ done 0
        → let t =
            provision_keys nvs wdt polls config (hex_digits secret ++ b' ' ∷ hex_digits peer) s in
          t.world.persist
          ≡ (set_peer nvs (some peer) (set_secret nvs (some secret) s.world.persist).1).1
    unfolding provision_keys
    both_set s set =
        rw
          (
            token-append (hex_digits secret) (hex_digits peer) s_hex,
            decode_hex_token-hex_digits secret 32 s_bytes s_full,
            set,
            after_token-append (hex_digits secret) (hex_digits peer) s_hex,
            skip_peer,
          )
          (peer_lem (hex_digits peer) _ (token_self (hex_digits peer) p_hex) p_size
            (decode_hex_token-hex_digits peer 32 p_bytes p_full))

    -- In a build for Curve25519 with a buffer of at least 141 characters, on working flash and a loaded
    -- blob, the line `prov curve` with the digits that print a scalar and a peer key of 32 bytes stores
    -- both, whatever chunks came before: the key that is read back is the scalar clamped, whatever
    -- secret the build has, the peer key is the one given, and no chunk is kept.
    pub handle_line-keys :
        (now : ℕ) (accum : String) (static_secret dev_id : List ℕ) (s : System nvs wdt)
        → IsNvs nvs
        → IsWorking nvs
        → config.curve ≡ true
        → 141 ≤ config.buffer_len
        → s.world.persist.loaded ≡ true
        → let (kept, t) = handle_line nvs wdt polls config now (prov_keys secret peer) accum s in
          (kept ≡ [])
          × ((get_secret nvs static_secret dev_id t.world.persist).1 ≡ some (clamp_scalar secret))
          × ((get_peer nvs t.world.persist).1 ≡ some peer)
    handle_line-keys now accum static_secret dev_id s ok works curve room loaded =
        let (secret_back, peer_back) =
          get_keys nvs ok works secret peer static_secret dev_id s.world.persist loaded s_full
            p_full in
        let set =
          ap (λ (r : Rc × State nvs.Flash). r.0)
            (set_secret_lem nvs ok works secret s.world.persist loaded) in
        let persist : (provision_keys nvs wdt polls config
              (hex_digits secret ++ b' ' ∷ hex_digits peer) s).world.persist
            ≡ (set_peer nvs (some peer) (set_secret nvs (some secret) s.world.persist).1).1 =
          both_set s set in
        rw (to_chunk now accum s curve, chunk_lem s room, persist)
          (
            refl,
            ap (λ (r : Rc × Option (List ℕ) × State nvs.Flash). r.1) secret_back,
            ap (λ (r : Rc × Option (List ℕ) × State nvs.Flash). r.1) peer_back,
          )
