-- ===== src/Persist/Store/Keeps.antt =====
-- What a commit of the blob leaves as it was.
use zephyr_secure_supervisor.Base.{◌≡◌, false, arith}
use zephyr_secure_supervisor.Crypto.State.{is_enabled}
use zephyr_secure_supervisor.Crypto.Buffers.{encrypt_buffer}
use zephyr_secure_supervisor.Crypto.Buffers.Laws.{
  IsReady, encrypt_buffer-IsReady, encrypt_buffer_keeps,
}
use zephyr_secure_supervisor.Persist.Nvs.{Nvs}
use zephyr_secure_supervisor.Persist.Blob.{blob_size, blob_bytes}
use zephyr_secure_supervisor.Persist.Store.{
  State, store_record, store_sealed, persist_store_blob, persist_commit_locked,
}

module _ (nvs : Nvs) where
  open nvs use {Flash}

  -- A commit writes only the flash and the state of crypto.
  pub commit_keeps :
      (s : State Flash)
      → let t = (persist_commit_locked nvs s).1 in (t.blob ≡ s.blob) × (t.loaded ≡ s.loaded)
  unfolding persist_commit_locked persist_store_blob store_sealed store_record
  commit_keeps s = ground arith

  pub commit_off_keeps :
      (s : State Flash)
      → is_enabled s.crypto ≡ false
      → (persist_commit_locked nvs s).1.crypto ≡ s.crypto
  unfolding persist_commit_locked persist_store_blob store_record
  commit_off_keeps s off = ground arith

  pub commit-IsReady :
      (s : State Flash)
      → IsReady s.crypto
      → let t = (persist_commit_locked nvs s).1 in
        IsReady t.crypto × (t.crypto.aes_ctx ≡ s.crypto.aes_ctx)
  commit-IsReady s r =
      let after : (persist_commit_locked nvs s).1.crypto
          ≡ (encrypt_buffer s.crypto (blob_bytes s.blob) blob_size).2 =
        unfold persist_commit_locked persist_store_blob store_sealed store_record in
        ground (arith, r.enabled) in
      rw after (
        encrypt_buffer-IsReady s.crypto (blob_bytes s.blob) blob_size r,
        encrypt_buffer_keeps s.crypto (blob_bytes s.blob) blob_size,
      )
