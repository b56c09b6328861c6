-- ===== src/Curve/Points.antt =====
-- What `fe_frombytes` of src/curve25519_ref10.c reads of a point.
pub mod Words
pub mod Product
use zephyr_secure_supervisor.Base.{
  ℕ, ◌+◌, ◌*◌, ◌/◌, ◌%◌, ◌^◌, ◌<◌, ◌≤◌, ◌≡◌, refl, sym, ap, ◌∙◌, true, List, [], ◌∷◌, length,
  get_or, take, take_all, bit_and, bit_or, bit_and_mask, bit_or_fields, AllBytes, IsByte,
  All-get_or, all_below, all_below_sound, ◌==◌, ==_iff, u32, ◌<<◌, ◌>>◌, Rc, done, arith,
}
use zephyr_secure_supervisor.Curve.{clamp_scalar}
use zephyr_secure_supervisor.Curve.Field.{Fe, fe_mul}
use zephyr_secure_supervisor.Curve.Encoding.{load32, fe_frombytes, fe_tobytes}
use zephyr_secure_supervisor.Curve.Invert.{fe_invert}
use zephyr_secure_supervisor.Curve.Ladder.{
  exchange, ladder_loop, start, montgomery_ladder, curve25519_ref10_scalarmult,
}

-- The bits that are read, byte by byte.
abbrev pub read_mask : List ℕ
read_mask =
    0xff ∷ 0xff ∷ 0xff ∷ 0xff ∷ 0xff ∷ 0x1f ∷ 0xf8 ∷ 0xff ∷ 0xff ∷ 0xff ∷ 0xff ∷ 0xff ∷ 0xff ∷ 0xff
    ∷ 0xff ∷ 0xff ∷ 0xff ∷ 0x1f ∷ 0xf0 ∷ 0xff ∷ 0xff ∷ 0xfb ∷ 0xff ∷ 0xff ∷ 0x7f ∷ 0xff ∷ 0xff
    ∷ 0xff ∷ 0xff ∷ 0x1f ∷ 0x00 ∷ 0x00 ∷ []

-- Two points that agree in those bits.
abbrev pub IsAlike : List ℕ → List ℕ → Type 0
IsAlike s t =
    (i : ℕ)
    → i < 32
    → bit_and (get_or s i 0) (get_or read_mask i 0) ≡ bit_and (get_or t i 0) (get_or read_mask i 0)

load_sum :
    (a b c d : ℕ)
    → a < 256
    → b < 256
    → c < 256
    → bit_or (bit_or (bit_or a (b << 8)) (c << 16)) (d << 24)
      ≡ a + b * 256 + c * 65536 + d * 16777216
load_sum a b c d p q r =
    let two = bit_or_fields 8 a b p in
    let three = bit_or_fields 16 (bit_or a (b << 8)) c (omega (arith, two)) in
    let four =
      bit_or_fields 24 (bit_or (bit_or a (b << 8)) (c << 16)) d (omega (arith, two, three)) in
    omega (arith, two, three, four)

pub load32-sum :
    (s : List ℕ) (i : ℕ)
    → AllBytes s
    → load32 s i
      ≡ get_or s i 0
        + get_or s (i + 1) 0 * 256
        + get_or s (i + 2) 0 * 65536
        + get_or s (i + 3) 0 * 16777216
unfolding load32
load32-sum s i h =
    let byte = λ (k : ℕ). All-get_or IsByte s k 0 h (omega arith) in
    load_sum (get_or s i 0) (get_or s (i + 1) 0) (get_or s (i + 2) 0) (get_or s (i + 3) 0) (byte i)
      (byte (i + 1)) (byte (i + 2))

-- The masks that are no run of low bits.
pub upper_table : all_below 256 (λ x. bit_and x 0xf8 == x / 8 * 8) ≡ true
unfolding all_below
upper_table = refl

pub high_table : all_below 256 (λ x. bit_and x 0xf0 == x / 16 * 16) ≡ true
unfolding all_below
high_table = refl

pub gap_table : all_below 256 (λ x. bit_and x 0xfb == x / 8 * 8 + x % 4) ≡ true
unfolding all_below
gap_table = refl

by_table : (f g : ℕ → ℕ) (x : ℕ) → all_below 256 (λ y. f y == g y) ≡ true → x < 256 → f x ≡ g x
by_table f g x table h = (==_iff (f x) (g x)).0 (all_below_sound 256 (λ y. f y == g y) x table h)

module _ (s t : List ℕ) (p : AllBytes s) (q : AllBytes t) (like : IsAlike s t) where
  pub byte_s : (k : ℕ) → get_or s k 0 < 256
  byte_s k = All-get_or IsByte s k 0 p (omega arith)

  pub byte_t : (k : ℕ) → get_or t k 0 < 256
  byte_t k = All-get_or IsByte t k 0 q (omega arith)

  -- A byte whose mask is the low `k` bits.
  pub low_bits :
      (k i m : ℕ)
      → i < 32
      → get_or read_mask i 0 ≡ m
      → m + 1 ≡ 2 ^ k
      → get_or s i 0 % 2 ^ k ≡ get_or t i 0 % 2 ^ k
  low_bits k i m below e h =
      sym (bit_and_mask k (get_or s i 0) m (omega (arith, h)))
      ∙ rw e at (like i below)
      ∙ bit_and_mask k (get_or t i 0) m (omega (arith, h))

  pub same_byte : (i : ℕ) → i < 32 → get_or read_mask i 0 ≡ 255 → get_or s i 0 ≡ get_or t i 0
  same_byte i below e = omega (arith, low_bits 8 i 255 below e refl, byte_s i, byte_t i)

  -- A byte whose mask `f` computes.
  pub masked :
      (f : ℕ → ℕ) (i m : ℕ)
      → i < 32
      → get_or read_mask i 0 ≡ m
      → all_below 256 (λ x. bit_and x m == f x) ≡ true
      → f (get_or s i 0) ≡ f (get_or t i 0)
  masked f i m below e table =
      sym (by_table (λ x. bit_and x m) f (get_or s i 0) table (byte_s i))
      ∙ rw e at (like i below)
      ∙ by_table (λ x. bit_and x m) f (get_or t i 0) table (byte_t i)

  pub same_word :
      (i : ℕ)
      → get_or s i 0 ≡ get_or t i 0
      → get_or s (i + 1) 0 ≡ get_or t (i + 1) 0
      → get_or s (i + 2) 0 ≡ get_or t (i + 2) 0
      → get_or s (i + 3) 0 ≡ get_or t (i + 3) 0
      → load32 s i ≡ load32 t i
  same_word i a b c d = omega (arith, load32-sum s i p, load32-sum t i q)

  pub low_word :
      (k i m : ℕ)
      → m + 1 ≡ 2 ^ k
      → load32 s i % 2 ^ k ≡ load32 t i % 2 ^ k
      → bit_and (load32 s i) m ≡ bit_and (load32 t i) m
  low_word k i m h e =
      bit_and_mask k (load32 s i) m (omega (arith, h))
      ∙ e
      ∙ sym (bit_and_mask k (load32 t i) m (omega (arith, h)))
