-- ===== src/Main/Autoload.antt =====
-- The keys that a build with CONFIG_APP_PROVISION_AUTO_PERSIST stores at boot, in src/main.c, and the
-- first half of `main` in that build. The strings of Kconfig are their characters.
pub mod Laws
use zephyr_secure_supervisor.Base.{
  ℕ, zero, suc, ◌+◌, ◌*◌, ◌-◌, ◌≡◌, refl, sym, ap, ◌∙◌, Bool, true, false, not, ◌&&◌, leb, ◌==◌,
  if◌then◌else◌, Option, none, some, List, [], ◌∷◌, length, AllBytes, Rc, done, fail, einval,
  is_zero, arith,
}
use zephyr_secure_supervisor.Crypto.Hex.{hex_value, hex_round, hex_loop, hex_digits}
use zephyr_secure_supervisor.Crypto.Init.{app_crypto_init}
use zephyr_secure_supervisor.Curve.{key_size, clamp_scalar}
use zephyr_secure_supervisor.Persist.Nvs.{Nvs, IsNvs}
use zephyr_secure_supervisor.Persist.Store.{State}
use zephyr_secure_supervisor.Persist.Api.{
  init, record_boot, clear_watchdog_counter, is_fallback_active,
}
use zephyr_secure_supervisor.Persist.Keys.{get_secret, set_secret, get_peer, set_peer}
use zephyr_secure_supervisor.Main.{BootConfig}

unfoldable pub hex_digit_value : ℕ → Option ℕ
hex_digit_value c =
    if leb b'0' c && leb c b'9'
    then some (c - b'0')
    else (if leb b'a' c && leb c b'f'
        then some (10 + (c - b'a'))
        else (if leb b'A' c && leb c b'F' then some (10 + (c - b'A')) else none))

-- The loop over the bytes that are left.
unfoldable pub key_loop : ℕ → List ℕ → Rc × List ℕ
key_loop zero hex = (done 0, [])
key_loop (suc left) (h ∷ l ∷ hex) =
    let rest = key_loop left hex in hex_round (hex_digit_value h) (hex_digit_value l) rest
key_loop (suc left) hex = (fail einval, [])

unfoldable pub decode_hex_key : List ℕ → Rc × List ℕ
decode_hex_key hex =
    if not (length hex == key_size * 2) then (fail einval, []) else key_loop key_size hex

module _ (nvs : Nvs) where
  open nvs use {Flash}

  -- One of the two halves: a string that is not empty and decodes is stored by `set_key`.
  abbrev pub store_key :
      (Option (List ℕ) → State Flash → Rc × State Flash) → List ℕ → State Flash → State Flash
  store_key set_key hex s =
      let (rc, buf) = decode_hex_key hex in
      if not (length hex == 0) && is_zero rc then (set_key (some buf) s).1 else s

  unfoldable pub autoload_curve_keys : List ℕ → List ℕ → State Flash → State Flash
  autoload_curve_keys secret_hex peer_hex s =
      store_key (set_peer nvs) peer_hex (store_key (set_secret nvs) secret_hex s)

  -- `main` up to the decision on the safe mode.
  unfoldable pub prepare_provision :
      (List ℕ → List ℕ → Rc × List ℕ)
      → BootConfig
      → List ℕ
      → List ℕ
      → Bool
      → State Flash
      → Bool × State Flash
  prepare_provision scalarmult config secret_hex peer_hex watchdog_reset s =
      let s1 = (app_crypto_init nvs scalarmult config.crypto_config s).1 in
      let s2 = autoload_curve_keys secret_hex peer_hex (init nvs s1).1 in
      let s3 = record_boot nvs watchdog_reset s2 in
      let safe_mode = is_fallback_active config.threshold s3 in
      (safe_mode, if safe_mode then clear_watchdog_counter nvs s3 else s3)
