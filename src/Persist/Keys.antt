-- ===== src/Persist/Keys.antt =====
-- The Curve25519 keys of src/persist_state.c, built with CONFIG_APP_CRYPTO_BACKEND_CURVE25519 and
-- CONFIG_HWINFO. A null pointer is `none`.
pub mod Laws
use zephyr_secure_supervisor.Base.{
  ℕ, zero, suc, ◌+◌, ◌*◌, ◌-◌, ◌%◌, ◌&&◌, List, [], ◌∷◌, ◌++◌, Option, none, some, bit_xor, u32,
  ◌<<◌, length, take, drop, replicate, leb, ◌==◌, if◌then◌else◌, Rc, done, fail, enoent, einval,
  is_zero, is_neg,
}
use zephyr_secure_supervisor.Crypto.Iv.{le32}
use zephyr_secure_supervisor.Crypto.Hex.{hex_round}
use zephyr_secure_supervisor.Curve.{key_size, clamp_scalar}
use zephyr_secure_supervisor.Persist.Nvs.{Nvs}
use zephyr_secure_supervisor.Persist.Blob.{word_of}
use zephyr_secure_supervisor.Persist.Store.{State, read_into}
use zephyr_secure_supervisor.Persist.Mount.{init_fs_if_needed}

abbrev pub secret_id : ℕ
secret_id = 2

-- 'CURV'
abbrev pub secret_magic : ℕ
secret_magic = 0x43555256

abbrev pub peer_id : ℕ
peer_id = 3

-- 'CURP'
abbrev pub peer_magic : ℕ
peer_magic = 0x43555250

-- `sizeof(struct persist_curve_secret)` and `sizeof(struct persist_curve_peer)`
abbrev pub key_record_size : ℕ
key_record_size = 36

unfoldable pub hex_nibble : ℕ → Option ℕ
hex_nibble c =
    if leb b'0' c && leb c b'9'
    then some (c - b'0')
    else (if leb b'a' c && leb c b'f'
        then some (10 + (c - b'a'))
        else (if leb b'A' c && leb c b'F' then some (10 + (c - b'A')) else none))

-- The loop over `left` bytes; the list holds those written from the start of `out`.
unfoldable pub secret_loop : ℕ → List ℕ → Rc × List ℕ
secret_loop zero s = (done 0, [])
secret_loop (suc left) (h ∷ l ∷ s) =
    let rest = secret_loop left s in hex_round (hex_nibble h) (hex_nibble l) rest
secret_loop (suc left) s = (fail einval, [])

unfoldable pub parse_hex_secret : List ℕ → ℕ → Rc × List ℕ
parse_hex_secret [] len = (fail enoent, [])
parse_hex_secret (c ∷ hex) len =
    if length (c ∷ hex) == len * 2 then secret_loop len (c ∷ hex) else (fail einval, [])

abbrev pub lcg : ℕ → ℕ
lcg seed = u32 (seed * 1664525 + 1013904223)

-- The loop over the device ID from byte `i` on.
unfoldable pub fold_device_id : ℕ → List ℕ → ℕ → ℕ
fold_device_id i [] seed = seed
fold_device_id i (b ∷ dev_id) seed =
    fold_device_id (suc i) dev_id (lcg (bit_xor seed (b << ((i % 4) * 8))))

-- `left` words of the scalar.
unfoldable pub scalar_words : ℕ → ℕ → List ℕ
scalar_words zero seed = []
scalar_words (suc left) seed = le32 (lcg seed) ++ scalar_words left (lcg seed)

-- `dev_id` are the bytes that `hwinfo_get_device_id` returned, none on its failure.
unfoldable pub derive_scalar_from_device_id : List ℕ → List ℕ
derive_scalar_from_device_id [] = scalar_words 8 (bit_xor 0x6d5a56a1 0xC3A5C85C)
derive_scalar_from_device_id (b ∷ dev_id) =
    scalar_words 8 (fold_device_id 0 (b ∷ dev_id) 0x6d5a56a1)

-- `static_secret` is CONFIG_APP_CURVE25519_STATIC_SECRET_HEX.
unfoldable pub curve_secret_generate : List ℕ → List ℕ → List ℕ
curve_secret_generate static_secret dev_id =
    let (rc, secret) = parse_hex_secret static_secret key_size in
    clamp_scalar (if is_zero rc then secret else derive_scalar_from_device_id dev_id)

-- A key in its record, and the key of a record that was read whole and has its magic.
abbrev pub key_record : ℕ → List ℕ → List ℕ
key_record magic key = le32 magic ++ key

abbrev pub stored_key : ℕ → Rc × List ℕ → Option (List ℕ)
stored_key magic (done n, bytes) =
    let buffer = read_into (replicate key_record_size 0) bytes in
    if n == key_record_size && word_of buffer 0 == magic then some (drop 4 buffer) else none
stored_key magic (fail e, bytes) = none

module _ (nvs : Nvs) where
  open nvs use {Flash, read, write}

  -- The write of a generated secret, and what follows it.
  unfoldable pub keep_secret : List ℕ → State Flash → Rc × Option (List ℕ) × State Flash
  keep_secret secret s =
      let (rc, flash) = write secret_id (key_record secret_magic secret) s.flash in
      let s' = record s { flash = flash } in
      if is_neg rc then (rc, none, s') else (done 0, some secret, s')

  abbrev pub secret_or_new :
      Option (List ℕ) → List ℕ → State Flash → Rc × Option (List ℕ) × State Flash
  secret_or_new (some secret) new s = (done 0, some secret, s)
  secret_or_new none new s = keep_secret new s

  -- The option is what is stored through `out`, if anything.
  unfoldable pub get_secret : List ℕ → List ℕ → State Flash → Rc × Option (List ℕ) × State Flash
  get_secret static_secret dev_id s =
      let (rc, s') = init_fs_if_needed nvs s in
      if is_zero rc
      then (secret_or_new (stored_key secret_magic (read secret_id key_record_size s'.flash))
          (curve_secret_generate static_secret dev_id) s')
      else (rc, none, s')

  -- The write of a key record at the end of both setters.
  unfoldable pub put_key : ℕ → List ℕ → State Flash → Rc × State Flash
  put_key id bytes s =
      let (rc, s') = init_fs_if_needed nvs s in
      if is_zero rc
      then (let (wrc, flash) = write id bytes s'.flash in
          (if is_neg wrc then wrc else done 0, record s' { flash = flash }))
      else (rc, s')

  unfoldable pub set_secret : Option (List ℕ) → State Flash → Rc × State Flash
  set_secret none s = (fail einval, s)
  set_secret (some secret) s =
      put_key secret_id (key_record secret_magic (clamp_scalar (take key_size secret))) s

  unfoldable pub get_peer : State Flash → Rc × Option (List ℕ) × State Flash
  get_peer s =
      let (rc, s') = init_fs_if_needed nvs s in
      if is_zero rc
      then (elim (stored_key peer_magic (read peer_id key_record_size s'.flash)) [
        | some peer ↦ (done 0, some peer, s')
        | none ↦ (fail enoent, none, s')
      ])
      else (rc, none, s')

  unfoldable pub set_peer : Option (List ℕ) → State Flash → Rc × State Flash
  set_peer none s = (fail einval, s)
  set_peer (some peer) s = put_key peer_id (key_record peer_magic (take key_size peer)) s
