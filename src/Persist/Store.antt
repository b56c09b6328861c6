-- ===== src/Persist/Store.antt =====
-- The static state of src/persist_state.c, and how the blob is read from and written to its record.
pub mod Laws
pub mod Keeps
use zephyr_secure_supervisor.Base.{
  ℕ, zero, suc, Bool, true, false, ◌&&◌, ◌||◌, not, List, ◌++◌, Option, none, some, length, take,
  drop, replicate, ◌==◌, if◌then◌else◌, Rc, done, fail, Errno, enoent, eio, is_zero, is_neg,
}
use zephyr_secure_supervisor.Crypto.State.{Crypto, is_enabled}
use zephyr_secure_supervisor.Crypto.Buffers.{Sealed, encrypt_buffer, decrypt_buffer}
use zephyr_secure_supervisor.Persist.Nvs.{Nvs, NvsFs}
use zephyr_secure_supervisor.Persist.Blob.{
  PersistBlob, blob_size, encrypted_size, blob_bytes, blob_of_bytes,
}

-- `g_state`, with the flash behind `fs` and the state of src/app_crypto.c, which the functions call.
pub record State (Flash : Type 0) : Type 0 where
  pub crypto : Crypto
  pub flash : Flash
  pub fs : NvsFs
  pub blob : PersistBlob
  pub loaded : Bool

abbrev pub record_id : ℕ
record_id = 1

-- A buffer after a read that stored `bytes` at its start.
abbrev pub read_into : List ℕ → List ℕ → List ℕ
read_into buffer bytes = bytes ++ drop (length bytes) buffer

-- `rc == -ENOENT`
abbrev pub is_enoent : Rc → Bool
is_enoent (fail enoent) = true
is_enoent rc = false

-- The return code of `app_crypto_decrypt_buffer`, with the length test behind it.
abbrev pub opened : Rc × Option (List ℕ) → Rc × Option PersistBlob
opened (done n, some plain) =
    if length plain == blob_size then (done 0, some (blob_of_bytes plain)) else (fail eio, none)
opened (done n, none) = (fail eio, none)
opened (fail e, plain) = (fail e, none)

-- A read of `storage` that returned `rc`.
abbrev pub read_record : Crypto → Rc → List ℕ → Rc × Option PersistBlob
read_record crypto (done n) storage =
    if n == encrypted_size
    then opened (decrypt_buffer crypto (drop 12 storage) (take 12 storage) blob_size)
    else (if n == blob_size
        then (done 0, some (blob_of_bytes (take blob_size storage)))
        else (done n, none))
read_record crypto (fail e) storage = (fail e, none)

-- `return (rc == sizeof(*out_blob)) ? 0 : -ENOENT`, behind the test for an error.
abbrev pub plain_record : Rc → List ℕ → Rc × Option PersistBlob
plain_record (fail e) bytes = (fail e, none)
plain_record (done n) bytes =
    if n == blob_size then (done 0, some (blob_of_bytes bytes)) else (fail enoent, none)

module _ (nvs : Nvs) where
  open nvs use {Flash, read, write}

  -- The blob is what the function stores through `out_blob`, if anything.
  unfoldable pub persist_read_encrypted : State Flash → Rc × Option PersistBlob
  persist_read_encrypted s =
      let (rc, bytes) = read record_id encrypted_size s.flash in
      read_record s.crypto rc (read_into (replicate encrypted_size 0) bytes)

  unfoldable pub persist_load_plain : State Flash → Rc × Option PersistBlob
  persist_load_plain s = let (rc, bytes) = read record_id blob_size s.flash in plain_record rc bytes

  unfoldable pub persist_load_blob : State Flash → Rc × Option PersistBlob
  persist_load_blob s =
      let (rc, out) = persist_read_encrypted s in
      if is_enabled s.crypto && (is_zero rc || (is_neg rc && not (is_enoent rc)))
      then (rc, out)
      else persist_load_plain s

  -- The write of a record, into the state.
  unfoldable pub store_record : List ℕ → State Flash → Rc × State Flash
  store_record bytes s =
      let (rc, flash) = write record_id bytes s.flash in (rc, record s { flash = flash })

  -- What follows the call of `app_crypto_encrypt_buffer`.
  unfoldable pub store_sealed : Rc → Option Sealed → State Flash → Rc × State Flash
  store_sealed (fail e) out s = (fail e, s)
  store_sealed (done zero) none s = (fail eio, s)
  store_sealed (done zero) (some sealed) s =
      if length sealed.cipher == blob_size
      then store_record (sealed.iv ++ sealed.cipher) s
      else (fail eio, s)
  store_sealed (done (suc n)) out s = (done (suc n), s)

  unfoldable pub persist_store_blob : PersistBlob → State Flash → Rc × State Flash
  persist_store_blob blob s =
      if is_enabled s.crypto
      then (let (rc, out, crypto) = encrypt_buffer s.crypto (blob_bytes blob) blob_size in
          store_sealed rc out (record s { crypto = crypto }))
      else store_record (blob_bytes blob) s

  unfoldable pub persist_commit_locked : State Flash → Rc × State Flash
  persist_commit_locked s =
      let (rc, s') = persist_store_blob s.blob s in if is_neg rc then (rc, s') else (done 0, s')
