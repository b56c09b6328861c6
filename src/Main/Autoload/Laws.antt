-- ===== src/Main/Autoload/Laws.antt =====
-- The keys of Kconfig against the keys that are read back.
use zephyr_secure_supervisor.Base.{
  ℕ, zero, suc, ◌≡◌, refl, sym, ap, ◌∙◌, true, false, ◌==◌, Option, some, List, [], ◌∷◌, length,
  AllBytes, Rc, done, arith,
}
use zephyr_secure_supervisor.Crypto.Hex.{hex_value, hex_round, hex_loop, hex_digits}
use zephyr_secure_supervisor.Crypto.Hex.Laws.{hex_loop-hex_digits, length-hex_digits}
use zephyr_secure_supervisor.Curve.{clamp_scalar}
use zephyr_secure_supervisor.Persist.Nvs.{Nvs, IsNvs}
use zephyr_secure_supervisor.Persist.Store.{State}
use zephyr_secure_supervisor.Persist.Working.{IsWorking}
use zephyr_secure_supervisor.Persist.Keys.{get_secret, set_secret, get_peer, set_peer}
use zephyr_secure_supervisor.Persist.Keys.Laws.{get_keys}
use zephyr_secure_supervisor.Main.Autoload.{
  hex_digit_value, key_loop, decode_hex_key, store_key, autoload_curve_keys,
}

key_loop-hex_loop : (n : ℕ) (hex : List ℕ) → key_loop n hex ≡ hex_loop 0 n hex
unfolding key_loop hex_loop hex_digit_value hex_value
key_loop-hex_loop zero hex = refl
key_loop-hex_loop (suc n) (h ∷ l ∷ hex) =
    ap (λ (r : Rc × List ℕ). hex_round (hex_digit_value h) (hex_digit_value l) r)
      (key_loop-hex_loop n hex)
key_loop-hex_loop (suc n) (h ∷ []) = refl
key_loop-hex_loop (suc n) [] = refl

decode_hex_key-hex_digits :
    (key : List ℕ)
    → AllBytes key
    → length key ≡ 32
    → decode_hex_key (hex_digits key) ≡ (done 0, key)
unfolding decode_hex_key
decode_hex_key-hex_digits key bytes h =
    let size : (length (hex_digits key) == 64) ≡ true = ground (arith, length-hex_digits key) in
    let loop : hex_loop 0 32 (hex_digits key) ≡ (done 0, key) =
      ap (λ (n : ℕ). hex_loop 0 n (hex_digits key)) (sym h) ∙ hex_loop-hex_digits 0 key bytes in
    rw (size, key_loop-hex_loop 32 (hex_digits key), loop) refl

module _ (nvs : Nvs) where
  store_printed :
      (set_key : Option (List ℕ) → State nvs.Flash → Rc × State nvs.Flash) (key : List ℕ)
      (s : State nvs.Flash)
      → AllBytes key
      → length key ≡ 32
      → store_key nvs set_key (hex_digits key) s ≡ (set_key (some key) s).1
  store_printed set_key key s bytes h =
      let some_text : (length (hex_digits key) == 0) ≡ false =
        ground (arith, length-hex_digits key) in
      rw (decode_hex_key-hex_digits key bytes h, some_text) refl

  -- On working flash and a loaded blob, a scalar and a peer key of 32 bytes whose digits Kconfig holds
  -- are the keys that are read back after the automatic provisioning, the scalar clamped.
  pub autoload_curve_keys-keys :
      (secret peer static_secret dev_id : List ℕ) (s : State nvs.Flash)
      → IsNvs nvs
      → IsWorking nvs
      → s.loaded ≡ true
      → AllBytes secret
      → AllBytes peer
      → length secret ≡ 32
      → length peer ≡ 32
      → let t = autoload_curve_keys nvs (hex_digits secret) (hex_digits peer) s in
        ((get_secret nvs static_secret dev_id t).1 ≡ some (clamp_scalar secret))
        × ((get_peer nvs t).1 ≡ some peer)
  unfolding autoload_curve_keys
  autoload_curve_keys-keys secret peer static_secret dev_id s ok works loaded p q n m =
      let s1 = (set_secret nvs (some secret) s).1 in
      let (secret_back, peer_back) =
        get_keys nvs ok works secret peer static_secret dev_id s loaded n m in
      rw
        (
          store_printed (set_secret nvs) secret s p n,
          store_printed (set_peer nvs) peer s1 q m,
          secret_back,
          peer_back,
        )
        (refl, refl)
