-- ===== src/Persist/Store/Laws.antt =====
-- What the record of the blob holds after a store, and what a load makes of it.
use zephyr_secure_supervisor.Base.{
  ℕ, ◌≡◌, refl, sym, ap, ◌∙◌, true, false, List, ◌++◌, none, some, length, take, drop, replicate,
  take_all, take-append, drop-append, length-append, append-nil, if◌then◌else◌, is_neg, Rc, done,
  fail, enoent, arith,
}
use zephyr_secure_supervisor.Aes.Block.{AesCtx}
use zephyr_secure_supervisor.Crypto.State.{Crypto, is_enabled}
use zephyr_secure_supervisor.Crypto.Buffers.{Sealed, encrypt_buffer, decrypt_buffer}
use zephyr_secure_supervisor.Crypto.Buffers.Laws.{IsReady, decrypt_buffer-encrypt_buffer}
use zephyr_secure_supervisor.Persist.Nvs.{Nvs, IsNvs}
use zephyr_secure_supervisor.Persist.Blob.{
  PersistBlob, IsBlob, blob_size, encrypted_size, blob_bytes, blob_of_bytes-blob_bytes,
}
use zephyr_secure_supervisor.Persist.Store.{
  State, opened, record_id, read_into, persist_read_encrypted, persist_load_plain,
  persist_load_blob, store_record, store_sealed, persist_store_blob, persist_commit_locked,
}

-- The record holds the blob in the clear.
pub record HoldsPlain (nvs : Nvs) (b : PersistBlob) (f : nvs.Flash) : Type 0 where
  pub plain_read : (len : ℕ) → nvs.read record_id len f ≡ (done 20, take len (blob_bytes b))

-- The record holds the blob under an IV; `ctx` opens it.
pub record HoldsSealed (nvs : Nvs) (ctx : AesCtx) (b : PersistBlob) (f : nvs.Flash) : Type 0 where
  pub sealed : Sealed
  pub iv_full : length sealed.iv ≡ 12
  pub cipher_full : length sealed.cipher ≡ 20
  pub opens :
      (c : Crypto)
      → is_enabled c ≡ true
      → c.aes_ctx ≡ ctx
      → decrypt_buffer c sealed.cipher sealed.iv blob_size ≡ (done 0, some (blob_bytes b))
  pub sealed_read :
      (len : ℕ) → nvs.read record_id len f ≡ (done 32, take len (sealed.iv ++ sealed.cipher))

length-blob_bytes : (b : PersistBlob) → length (blob_bytes b) ≡ 20
unfolding blob_bytes
length-blob_bytes b = refl

-- The buffer after a read of a whole sealed record, and its two parts.
storage_lem :
    (iv cipher : List ℕ)
    → length iv ≡ 12
    → length cipher ≡ 20
    → read_into (replicate encrypted_size 0) (take encrypted_size (iv ++ cipher)) ≡ iv ++ cipher
storage_lem iv cipher p q =
    let size : length (iv ++ cipher) ≡ 32 = omega (arith, length-append {0} iv cipher) in
    rw (take_all (iv ++ cipher) encrypted_size (omega arith), size) (append-nil (iv ++ cipher))

take_iv : (iv cipher : List ℕ) → length iv ≡ 12 → take 12 (iv ++ cipher) ≡ iv
take_iv iv cipher p = ap (λ n. take n (iv ++ cipher)) (sym p) ∙ take-append iv cipher

drop_iv : (iv cipher : List ℕ) → length iv ≡ 12 → drop 12 (iv ++ cipher) ≡ cipher
drop_iv iv cipher p = ap (λ n. drop n (iv ++ cipher)) (sym p) ∙ drop-append iv cipher

opened_blob : (b : PersistBlob) → IsBlob b → opened (done 0, some (blob_bytes b)) ≡ (done 0, some b)
opened_blob b fits = rw (length-blob_bytes b, blob_of_bytes-blob_bytes b fits)

-- A sealed blob opens in any state with its key.
opens_any :
    (s c : Crypto) (bytes : List ℕ) (sealed : Sealed)
    → IsReady s
    → is_enabled c ≡ true
    → c.aes_ctx ≡ s.aes_ctx
    → (encrypt_buffer s bytes blob_size).1 ≡ some sealed
    → length bytes ≡ 20
    → decrypt_buffer c sealed.cipher sealed.iv blob_size ≡ (done 0, some bytes)
opens_any s c bytes sealed r on key out size =
    let (other, rc, out', iv_full, cipher_full, back) =
      decrypt_buffer-encrypt_buffer s c bytes blob_size blob_size r on key (omega arith)
        (omega arith) (omega arith) in
    let same : sealed ≡ other = cc in rw same back

module _ (nvs : Nvs) where
  open nvs use {Flash}

  commit_state :
      (s : State Flash) → (persist_commit_locked nvs s).1 ≡ (persist_store_blob nvs s.blob s).1
  unfolding persist_commit_locked
  commit_state s = ground arith

  commit_done :
      (s : State Flash)
      → (persist_commit_locked nvs s).0 ≡ done 0
      → (n : ℕ) × ((persist_store_blob nvs s.blob s).0 ≡ done n)
  commit_done s h = by_code (persist_store_blob nvs s.blob s) (unfold persist_commit_locked in h)
    where
      by_code :
          (p : Rc × State Flash)
          → (if is_neg p.0 then p else (done 0, p.1)).0 ≡ done 0
          → (n : ℕ) × (p.0 ≡ done n)
      by_code (done n, t) e = (n, refl)
      by_code (fail x, t) e = cc e

  -- With crypto ready the store comes down to the write of one record.
  pub persist_store_blob-record :
      (s : State Flash)
      → IsReady s.crypto
      → (bytes : List ℕ) × (t : State Flash) × (persist_store_blob nvs s.blob s
          ≡ store_record nvs bytes t)
  unfolding persist_store_blob store_sealed
  persist_store_blob-record s r =
      let bytes = blob_bytes s.blob in
      let size = length-blob_bytes s.blob in
      let (sealed, rc, out, iv_full, cipher_full, back) =
        decrypt_buffer-encrypt_buffer s.crypto s.crypto bytes blob_size blob_size r r.enabled refl
          (omega arith) (omega arith) (omega arith) in
      let full : length sealed.cipher ≡ 20 = omega arith in
      let s' = record s { crypto = (encrypt_buffer s.crypto bytes blob_size).2 } in
      (sealed.iv ++ sealed.cipher, s', rw (r.enabled, rc, out, full))

module _ (nvs : Nvs) (ok : IsNvs nvs) where
  open nvs use {Flash}

  -- A record that was written reads back.
  store_record-read :
      (bytes : List ℕ) (s : State Flash) (n len : ℕ)
      → (store_record nvs bytes s).0 ≡ done n
      → nvs.read record_id len (store_record nvs bytes s).1.flash
        ≡ (done (length bytes), take len bytes)
  unfolding store_record
  store_record-read bytes s n len h = ok.read-write_self s.flash record_id bytes len n h

  -- With crypto off a commit leaves the blob in the clear.
  pub commit-HoldsPlain :
      (s : State Flash)
      → is_enabled s.crypto ≡ false
      → (persist_commit_locked nvs s).0 ≡ done 0
      → HoldsPlain nvs s.blob (persist_commit_locked nvs s).1.flash
  commit-HoldsPlain s off h =
      let stored : persist_store_blob nvs s.blob s ≡ store_record nvs (blob_bytes s.blob) s =
        unfold persist_store_blob in rw off in
      let (n, e) = commit_done nvs s h in
      rw (commit_state nvs s, stored)
        (record {
          plain_read = λ len.
              store_record-read (blob_bytes s.blob) s n len (rw stored at e)
              ∙ ap (λ m. (done m, take len (blob_bytes s.blob))) (length-blob_bytes s.blob);
        })

  -- With crypto on and ready it leaves the blob sealed under the present key.
  pub commit-HoldsSealed :
      (s : State Flash)
      → IsReady s.crypto
      → (persist_commit_locked nvs s).0 ≡ done 0
      → HoldsSealed nvs s.crypto.aes_ctx s.blob (persist_commit_locked nvs s).1.flash
  commit-HoldsSealed s r h =
      let bytes = blob_bytes s.blob in
      let size = length-blob_bytes s.blob in
      let (sealed, rc, out, iv_full, cipher_full, back) =
        decrypt_buffer-encrypt_buffer s.crypto s.crypto bytes blob_size blob_size r r.enabled refl
          (omega arith) (omega arith) (omega arith) in
      let full : length sealed.cipher ≡ 20 = omega arith in
      let s' = record s { crypto = (encrypt_buffer s.crypto bytes blob_size).2 } in
      let stored : persist_store_blob nvs s.blob s
          ≡ store_record nvs (sealed.iv ++ sealed.cipher) s' =
        unfold persist_store_blob store_sealed in rw (r.enabled, rc, out, full) in
      let (n, e) = commit_done nvs s h in
      let both : length (sealed.iv ++ sealed.cipher) ≡ 32 =
        omega (arith, length-append {0} sealed.iv sealed.cipher) in
      rw (commit_state nvs s, stored)
        (record {
          sealed = sealed;
          iv_full = iv_full;
          cipher_full = full;
          opens = λ c on key. opens_any s.crypto c bytes sealed r on key out size;
          sealed_read = λ len.
              store_record-read (sealed.iv ++ sealed.cipher) s' n len (rw stored at e)
              ∙ ap (λ m. (done m, take len (sealed.iv ++ sealed.cipher))) both;
        })

  pub load_plain :
      (s : State Flash) (b : PersistBlob)
      → IsBlob b
      → is_enabled s.crypto ≡ false
      → HoldsPlain nvs b s.flash
      → persist_load_blob nvs s ≡ (done 0, some b)
  unfolding persist_load_blob persist_load_plain
  load_plain s b fits off h =
      let whole = take_all (blob_bytes b) blob_size (omega (arith, length-blob_bytes b)) in
      let e = h.plain_read blob_size ∙ ap (λ r. (done 20, r)) whole in
      rw (off, e, blob_of_bytes-blob_bytes b fits)

  pub load_sealed :
      (s : State Flash) (ctx : AesCtx) (b : PersistBlob)
      → IsBlob b
      → is_enabled s.crypto ≡ true
      → s.crypto.aes_ctx ≡ ctx
      → HoldsSealed nvs ctx b s.flash
      → persist_load_blob nvs s ≡ (done 0, some b)
  unfolding persist_load_blob persist_read_encrypted
  load_sealed s ctx b fits on key h =
      let iv = h.sealed.iv in
      let cipher = h.sealed.cipher in
      let e = h.sealed_read encrypted_size in
      let storage = storage_lem iv cipher h.iv_full h.cipher_full in
      let plain = h.opens s.crypto on key in
      rw (
        e,
        storage,
        take_iv iv cipher h.iv_full,
        drop_iv iv cipher h.iv_full,
        plain,
        opened_blob b fits,
        on,
      )

  pub load_sealed_off :
      (s : State Flash) (ctx : AesCtx) (b : PersistBlob)
      → is_enabled s.crypto ≡ false
      → HoldsSealed nvs ctx b s.flash
      → persist_load_blob nvs s ≡ (fail enoent, none)
  unfolding persist_load_blob persist_load_plain
  load_sealed_off s ctx b off h = ground (arith, h.sealed_read 20)

-- A record is held by what reads of it return.
pub HoldsSealed-read :
    (nvs : Nvs) (ctx : AesCtx) (b : PersistBlob) (f g : nvs.Flash)
    → ((len : ℕ) → nvs.read record_id len g ≡ nvs.read record_id len f)
    → HoldsSealed nvs ctx b f
    → HoldsSealed nvs ctx b g
HoldsSealed-read nvs ctx b f g same h = record {
  sealed = h.sealed;
  iv_full = h.iv_full;
  cipher_full = h.cipher_full;
  opens = h.opens;
  sealed_read = λ len. same len ∙ h.sealed_read len;
}
