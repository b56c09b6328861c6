-- ===== src/Persist/Keys/Laws.antt =====
-- A key that is stored reads back, and storing it leaves the other records alone.
use zephyr_secure_supervisor.Base.{
  ℕ, ◌≡◌, ◌≢◌, refl, sym, ap, ◌∙◌, true, List, some, length, take, Rc, done, arith, append-nil,
  take_all, length-set, bit_and, bit_or, set, get_or,
}
use zephyr_secure_supervisor.Aes.Block.{AesCtx}
use zephyr_secure_supervisor.Curve.{key_size, clamp_scalar}
use zephyr_secure_supervisor.Persist.Nvs.{Nvs, IsNvs}
use zephyr_secure_supervisor.Persist.Blob.{word_of}
use zephyr_secure_supervisor.Persist.Store.{State, record_id}
use zephyr_secure_supervisor.Persist.Working.{IsWorking}
use zephyr_secure_supervisor.Persist.Sync.{InSync, init_again}
use zephyr_secure_supervisor.Persist.Keys.{
  secret_id, secret_magic, peer_id, peer_magic, key_record_size, key_record, stored_key, put_key,
  get_secret, set_secret, get_peer, set_peer,
}

length-clamp_scalar : (k : List ℕ) → length (clamp_scalar k) ≡ length k
unfolding clamp_scalar
length-clamp_scalar k =
    let s0 = set k 0 (bit_and (get_or k 0 0) 248) in
    let s1 = set s0 31 (bit_and (get_or s0 31 0) 127) in
    length-set s1 31 (bit_or (get_or s1 31 0) 64)
    ∙ length-set s0 31 (bit_and (get_or s0 31 0) 127)
    ∙ length-set k 0 (bit_and (get_or k 0 0) 248)

stored_secret :
    (k : List ℕ)
    → length k ≡ 32
    → stored_key secret_magic (done 36, key_record secret_magic k) ≡ some k
unfolding word_of
stored_secret k h = rw h (ap some (append-nil k))

stored_peer :
    (k : List ℕ) → length k ≡ 32 → stored_key peer_magic (done 36, key_record peer_magic k) ≡ some k
unfolding word_of
stored_peer k h = rw h (ap some (append-nil k))

module _ (nvs : Nvs) (ok : IsNvs nvs) (works : IsWorking nvs) where
  open nvs use {Flash}

  abbrev stored : ℕ → List ℕ → State Flash → State Flash
  stored id bytes s = record s { flash = (nvs.write id bytes s.flash).1 }

  put_key_lem :
      (id : ℕ) (bytes : List ℕ) (s : State Flash)
      → s.loaded ≡ true
      → put_key nvs id bytes s ≡ (done 0, stored id bytes s)
  unfolding put_key
  put_key_lem id bytes s h = rw (init_again nvs ok works s h, works.writes id bytes s.flash) refl

  -- A record of 36 bytes reads back whole.
  read_stored :
      (id : ℕ) (bytes : List ℕ) (s : State Flash)
      → length bytes ≡ 36
      → nvs.read id key_record_size (stored id bytes s).flash ≡ (done 36, bytes)
  read_stored id bytes s h =
      ok.read-write_self s.flash id bytes 36 (length bytes) (works.writes id bytes s.flash)
      ∙ rw (h, take_all bytes 36 (omega arith)) refl

  pub set_secret_lem :
      (k : List ℕ) (s : State Flash)
      → s.loaded ≡ true
      → set_secret nvs (some k) s
        ≡ (done 0, stored secret_id (key_record secret_magic (clamp_scalar (take key_size k))) s)
  unfolding set_secret
  set_secret_lem k s h = put_key_lem secret_id _ s h

  pub set_peer_lem :
      (k : List ℕ) (s : State Flash)
      → s.loaded ≡ true
      → set_peer nvs (some k) s
        ≡ (done 0, stored peer_id (key_record peer_magic (take key_size k)) s)
  unfolding set_peer
  set_peer_lem k s h = put_key_lem peer_id _ s h

  get_secret_lem :
      (k static_secret dev_id : List ℕ) (t : State Flash)
      → t.loaded ≡ true
      → stored_key secret_magic (nvs.read secret_id key_record_size t.flash) ≡ some k
      → get_secret nvs static_secret dev_id t ≡ (done 0, some k, t)
  unfolding get_secret
  get_secret_lem k static_secret dev_id t h e = rw (init_again nvs ok works t h, e) refl

  get_peer_lem :
      (k : List ℕ) (t : State Flash)
      → t.loaded ≡ true
      → stored_key peer_magic (nvs.read peer_id key_record_size t.flash) ≡ some k
      → get_peer nvs t ≡ (done 0, some k, t)
  unfolding get_peer
  get_peer_lem k t h e = let again = init_again nvs ok works t h in rw (again, e) (rw again refl)

  -- Both keys read back, the scalar clamped, whatever the build's secret and the device ID.
  pub get_keys :
      (secret peer static_secret dev_id : List ℕ) (s : State Flash)
      → s.loaded ≡ true
      → length secret ≡ 32
      → length peer ≡ 32
      → let t = (set_peer nvs (some peer) (set_secret nvs (some secret) s).1).1 in
        (get_secret nvs static_secret dev_id t ≡ (done 0, some (clamp_scalar secret), t))
        × (get_peer nvs t ≡ (done 0, some peer, t))
  get_keys secret peer static_secret dev_id s h n m =
      let cut : take key_size secret ≡ secret = take_all secret 32 (omega arith) in
      let cut' : take key_size peer ≡ peer = take_all peer 32 (omega arith) in
      let clamped = length-clamp_scalar secret ∙ n in
      let secret_bytes = key_record secret_magic (clamp_scalar secret) in
      let peer_bytes = key_record peer_magic peer in
      let s1 = stored secret_id secret_bytes s in
      let t = stored peer_id peer_bytes s1 in
      let peer_read = read_stored peer_id peer_bytes s1 (omega (arith, m)) in
      let secret_read : nvs.read secret_id key_record_size t.flash ≡ (done 36, secret_bytes) =
        ok.read-write_ne s1.flash peer_id secret_id peer_bytes 36 (omega arith)
        ∙ read_stored secret_id secret_bytes s (omega (arith, clamped)) in
      let there : (set_peer nvs (some peer) (set_secret nvs (some secret) s).1).1 ≡ t =
        ap (λ (p : State Flash). (set_peer nvs (some peer) p).1)
          (ap (λ (r : Rc × State Flash). r.1) (set_secret_lem secret s h)
            ∙ ap (λ (k : List ℕ). stored secret_id (key_record secret_magic (clamp_scalar k)) s)
                cut)
        ∙ ap (λ (r : Rc × State Flash). r.1) (set_peer_lem peer s1 h)
        ∙ ap (λ (k : List ℕ). stored peer_id (key_record peer_magic k) s1) cut' in
      rw there (
        get_secret_lem (clamp_scalar secret) static_secret dev_id t h
            (rw secret_read (stored_secret (clamp_scalar secret) clamped)),
        get_peer_lem peer t h (rw peer_read (stored_peer peer m)),
      )

  -- Other records leave the blob's as it was.
  stored-InSync :
      (ctx : AesCtx) (id : ℕ) (bytes : List ℕ) (s : State Flash)
      → record_id ≢ id
      → InSync nvs ctx s
      → InSync nvs ctx (stored id bytes s)
  stored-InSync ctx id bytes s other h =
      let sealed = h.sealed in
      record {
        is_loaded = h.is_loaded;
        is_ready = h.is_ready;
        key = h.key;
        is_blob = h.is_blob;
        valid = h.valid;
        sealed = record {
          sealed = sealed.sealed;
          iv_full = sealed.iv_full;
          cipher_full = sealed.cipher_full;
          opens = sealed.opens;
          sealed_read = λ len.
              ok.read-write_ne s.flash id record_id bytes len (λ e. other (sym e))
              ∙ sealed.sealed_read len;
        };
      }

  pub set_secret-InSync :
      (ctx : AesCtx) (k : List ℕ) (s : State Flash)
      → InSync nvs ctx s
      → let t = (set_secret nvs (some k) s).1 in InSync nvs ctx t × (t.blob ≡ s.blob)
  set_secret-InSync ctx k s h =
      rw (set_secret_lem k s h.is_loaded) (stored-InSync ctx secret_id _ s (omega arith) h, refl)

  pub set_peer-InSync :
      (ctx : AesCtx) (k : List ℕ) (s : State Flash)
      → InSync nvs ctx s
      → let t = (set_peer nvs (some k) s).1 in InSync nvs ctx t × (t.blob ≡ s.blob)
  set_peer-InSync ctx k s h =
      rw (set_peer_lem k s h.is_loaded) (stored-InSync ctx peer_id _ s (omega arith) h, refl)
