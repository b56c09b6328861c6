-- ===== src/Aes/Range.antt =====
-- Bytes in, bytes out: the key schedule and the cipher of src/simple_aes.c keep to uint8_t.
use zephyr_secure_supervisor.Base.{
  ℕ, zero, suc, ◌+◌, ◌*◌, ◌-◌, ◌/◌, ◌<◌, ◌≡◌, refl, Bool, true, u8, List, [], ◌∷◌, ◌++◌, take, drop,
  map, get_or, ltb, ◌&&◌, All, All-append, All-get_or, All-set, AllBytes, IsByte, bit_xor-IsByte,
  arith,
}
use zephyr_secure_supervisor.Aes.Tables.{sbox, rcon, sub_byte}
use zephyr_secure_supervisor.Aes.Block.{AesCtx, sub_bytes, shift_rows, round_key}
use zephyr_secure_supervisor.Aes.Key.{
  Word, sub_word, rot_word, word_at, set_word, xor_word, mix_temp, expand_loop, setkey_enc,
}

All-take {ℓ κ} : {A : Type ℓ} (P : A → Type κ) (n : ℕ) (xs : List A) → All P xs → All P (take n xs)
All-take P zero xs h = tt
All-take P (suc n) [] h = tt
All-take P (suc n) (x ∷ xs) h = (h.0, All-take P n xs h.1)

All-drop {ℓ κ} : {A : Type ℓ} (P : A → Type κ) (n : ℕ) (xs : List A) → All P xs → All P (drop n xs)
All-drop P zero xs h = h
All-drop P (suc n) [] h = tt
All-drop P (suc n) (x ∷ xs) h = All-drop P n xs h.1

abbrev pub all_bytes : List ℕ → Bool
all_bytes [] = true
all_bytes (x ∷ xs) = ltb x 256 && all_bytes xs

-- The test decides it.
pub all_bytes_sound : (xs : List ℕ) → all_bytes xs ≡ true → AllBytes xs
all_bytes_sound [] h = tt
all_bytes_sound (x ∷ xs) h = (ground arith, all_bytes_sound xs (ground arith))

byte_at : (xs : List ℕ) (i : ℕ) → AllBytes xs → get_or xs i 0 < 256
byte_at xs i h = All-get_or IsByte xs i 0 h (omega arith)

sub_byte-IsByte : (x : ℕ) → sub_byte x < 256
unfolding sub_byte
sub_byte-IsByte x = byte_at sbox x (all_bytes_sound sbox refl)

pub sub_bytes-AllBytes : (state : List ℕ) → AllBytes (sub_bytes state)
unfolding sub_bytes
sub_bytes-AllBytes [] = tt
sub_bytes-AllBytes (x ∷ state) = (sub_byte-IsByte x, sub_bytes-AllBytes state)

-- Any selection of bytes.
bytes_at : (state is : List ℕ) → AllBytes state → AllBytes (map (λ i. get_or state i 0) is)
bytes_at state [] h = tt
bytes_at state (i ∷ is) h = (byte_at state i h, bytes_at state is h)

pub shift_rows-AllBytes : (state : List ℕ) → AllBytes state → AllBytes (shift_rows state)
unfolding shift_rows
shift_rows-AllBytes state =
    bytes_at state (0 ∷ 5 ∷ 10 ∷ 15 ∷ 4 ∷ 9 ∷ 14 ∷ 3 ∷ 8 ∷ 13 ∷ 2 ∷ 7 ∷ 12 ∷ 1 ∷ 6 ∷ 11 ∷ [])

pub round_key-AllBytes :
    (ctx : AesCtx) (round : ℕ) → AllBytes ctx.round_keys → AllBytes (round_key ctx round)
round_key-AllBytes ctx round keys =
    All-take IsByte 16 _ (All-drop IsByte (16 * round) ctx.round_keys keys)

abbrev IsWord : Word → Type 0
IsWord w = (w.w0 < 256) × (w.w1 < 256) × (w.w2 < 256) × (w.w3 < 256)

word_at-IsWord : (keys : List ℕ) (i : ℕ) → AllBytes keys → IsWord (word_at keys i)
word_at-IsWord keys i h = (
  byte_at keys (4 * i) h,
  byte_at keys (4 * i + 1) h,
  byte_at keys (4 * i + 2) h,
  byte_at keys (4 * i + 3) h,
)

xor_word-IsWord : (v w : Word) → IsWord v → IsWord w → IsWord (xor_word v w)
xor_word-IsWord v w (a, b, c, d) (a', b', c', d') = (
  bit_xor-IsByte v.w0 w.w0 a a',
  bit_xor-IsByte v.w1 w.w1 b b',
  bit_xor-IsByte v.w2 w.w2 c c',
  bit_xor-IsByte v.w3 w.w3 d d',
)

set_word-AllBytes :
    (keys : List ℕ) (i : ℕ) (w : Word) → AllBytes keys → IsWord w → AllBytes (set_word keys i w)
set_word-AllBytes keys i w h (a, b, c, d) =
    All-set IsByte _ (4 * i + 3) w.w3
      (All-set IsByte _ (4 * i + 2) w.w2
        (All-set IsByte _ (4 * i + 1) w.w1 (All-set IsByte keys (4 * i) w.w0 h a) b) c)
      d

sub_word-IsWord : (w : Word) → IsWord (sub_word w)
unfolding sub_word
sub_word-IsWord w =
    (sub_byte-IsByte w.w0, sub_byte-IsByte w.w1, sub_byte-IsByte w.w2, sub_byte-IsByte w.w3)

mix_temp-IsWord : (nk i : ℕ) (temp : Word) → IsWord temp → IsWord (mix_temp nk i temp)
unfolding mix_temp
mix_temp-IsWord nk i temp h =
    let s = sub_word-IsWord (rot_word temp) in
    let plain = sub_word-IsWord temp in
    let c =
      bit_xor-IsByte (sub_word (rot_word temp)).w0 (get_or rcon (i / nk) 0) s.0
        (byte_at rcon (i / nk) (all_bytes_sound rcon refl)) in
    ground (arith, s, plain, c)

expand_loop-AllBytes :
    (nk left i : ℕ) (keys : List ℕ) → AllBytes keys → AllBytes (expand_loop nk left i keys)
unfolding expand_loop
expand_loop-AllBytes nk zero i keys h = h
expand_loop-AllBytes nk (suc left) i keys h = expand_loop-AllBytes nk left (suc i) _ (
    set_word-AllBytes keys i _ h (
      xor_word-IsWord _ _ (word_at-IsWord keys (i - nk) h)
        (mix_temp-IsWord nk i _ (word_at-IsWord keys (i - 1) h))))

copied-AllBytes :
    (ctx : AesCtx) (key : List ℕ) (n : ℕ)
    → AllBytes ctx.round_keys
    → AllBytes key
    → AllBytes (take n key ++ drop n ctx.round_keys)
copied-AllBytes ctx key n old new =
    All-append IsByte (take n key) (drop n ctx.round_keys) (All-take IsByte n key new)
      (All-drop IsByte n ctx.round_keys old)

pub setkey_enc-AllBytes :
    (ctx : AesCtx) (key : List ℕ) (n : ℕ)
    → AllBytes ctx.round_keys
    → AllBytes key
    → AllBytes (setkey_enc ctx key n).1.round_keys
unfolding setkey_enc
setkey_enc-AllBytes ctx key n old new =
    let nk = n / 4 in
    let total = 4 * (u8 (nk + 6) + 1) in
    let grown = expand_loop-AllBytes nk (total - nk) nk _ (copied-AllBytes ctx key n old new) in
    ground (arith, old, grown)
