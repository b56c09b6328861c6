-- ===== src/Crypto/Init.antt =====
-- `app_crypto_init` of src/app_crypto.c. It works on the state of src/persist_state.c too, whose
-- key functions and session counter it calls.
pub mod Curve
use zephyr_secure_supervisor.Base.{
  ℕ, suc, Bool, true, false, ◌&&◌, ◌||◌, not, List, Option, none, some, replicate, ◌==◌,
  if◌then◌else◌, Rc, done, fail, einval, is_zero, is_neg,
}
use zephyr_secure_supervisor.Aes.Key.{setkey_enc}
use zephyr_secure_supervisor.Curve.{key_size, clamp_scalar}
use zephyr_secure_supervisor.Crypto.State.{Crypto, Backend, aes, curve25519, iv_len}
use zephyr_secure_supervisor.Crypto.Hex.{parse_hex_string, max_key_bytes}
use zephyr_secure_supervisor.Crypto.Session.{derive_session_material}
use zephyr_secure_supervisor.Persist.Nvs.{Nvs}
use zephyr_secure_supervisor.Persist.Store.{State, read_into}
use zephyr_secure_supervisor.Persist.Api.{next_session_counter}
use zephyr_secure_supervisor.Persist.Keys.{get_secret, get_peer}

-- The build configuration, and the values of the hardware that the initialisation reads.
pub record Config : Type 0 where
  pub backend : Backend
  pub static_iv_hex : List ℕ
  pub static_key_hex : List ℕ
  pub static_secret_hex : List ℕ
  pub static_peer_hex : List ℕ
  pub dev_id : List ℕ
  pub cycles : ℕ

-- `rc == n` for a return code that counts bytes.
abbrev pub counts : ℕ → Rc → Bool
counts n (done m) = m == n
counts n (fail e) = false

-- `return rc < 0 ? rc : -EINVAL`
abbrev pub error_of : Rc → Rc
error_of (done n) = fail einval
error_of (fail e) = fail e

-- The result of `parse_hex_string` as a key length.
abbrev pub byte_count : Rc → ℕ
byte_count (done n) = n
byte_count (fail e) = 0

module _ (nvs : Nvs) (scalarmult : List ℕ → List ℕ → Rc × List ℕ) (config : Config) where
  open nvs use {Flash}

  -- From the key schedule on, with `key_buf` and `key_len` set.
  unfoldable pub install_key : State Flash → Rc × State Flash
  install_key s =
      let c = s.crypto in
      let (rc, ctx) = setkey_enc c.aes_ctx c.key_buf c.key_len in
      let s' = record s { crypto = record c { aes_ctx = ctx } } in
      if is_zero rc
      then (done 0, record s { crypto = record c { aes_ctx = ctx; crypto_ready = true } })
      else (fail einval, s')

  -- From the shared secret on.
  unfoldable pub start_session : List ℕ → State Flash → Rc × State Flash
  start_session shared s =
      let sized = record s { crypto = record (s.crypto) { key_len = key_size } } in
      let (counter, s') = next_session_counter nvs sized in
      install_key
        (record s' { crypto = derive_session_material counter config.cycles shared s'.crypto })

  unfoldable pub agree : List ℕ → List ℕ → State Flash → Rc × State Flash
  agree secret peer s =
      let (rc, shared) = scalarmult (clamp_scalar secret) peer in
      if is_zero rc then start_session shared s else (rc, s)

  -- The peer key: from its record, or from the configuration.
  unfoldable pub with_peer : List ℕ → Option (List ℕ) → State Flash → Rc × State Flash
  with_peer secret (some peer) s = agree secret peer s
  with_peer secret none s =
      let (rc, peer) = parse_hex_string config.static_peer_hex key_size in
      if counts key_size rc then agree secret peer s else (error_of rc, s)

  abbrev pub with_secret : Rc → Option (List ℕ) → State Flash → Rc × State Flash
  with_secret (fail e) secret s = (fail e, s)
  with_secret (done n) none s = (fail einval, s)
  with_secret (done n) (some secret) s =
      let (rc, peer, s') = get_peer nvs s in with_peer secret peer s'

  unfoldable pub init_curve : State Flash → Rc × State Flash
  init_curve s =
      let (rc, secret, s') = get_secret nvs config.static_secret_hex config.dev_id s in
      with_secret rc secret s'

  unfoldable pub init_aes : State Flash → Rc × State Flash
  init_aes s =
      let c = s.crypto in
      let (rc, key) = parse_hex_string config.static_key_hex max_key_bytes in
      let len = byte_count rc in
      let buffered = record c { key_buf = read_into c.key_buf key } in
      let sized = record buffered { key_len = len } in
      if is_neg rc
      then (rc, record s { crypto = buffered })
      else (if len == 16 || (len == 24 || len == 32)
          then (install_key (record s {
            crypto = record sized {
              session_counter = 0;
              session_salt = 0;
              session_mac_key = replicate 16 0;
            };
          }))
          else (fail einval, record s { crypto = sized }))

  -- The `#if` over the backends.
  unfoldable pub init_backend : Backend → State Flash → Rc × State Flash
  init_backend curve25519 s =
      init_curve (record s { crypto = record (s.crypto) { active_backend = curve25519 } })
  init_backend aes s = init_aes (record s { crypto = record (s.crypto) { active_backend = aes } })
  init_backend Backend.none s = (
    done 0,
    record s { crypto = record (s.crypto) { active_backend = Backend.none; crypto_ready = false } },
  )

  unfoldable pub app_crypto_init : State Flash → Rc × State Flash
  app_crypto_init s =
      let c = s.crypto in
      let (rc, seed) = parse_hex_string config.static_iv_hex iv_len in
      let s' = record s { crypto = record c { iv_seed = read_into c.iv_seed seed } } in
      if counts iv_len rc then init_backend config.backend s' else (error_of rc, s')
