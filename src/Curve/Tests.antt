-- ===== src/Curve/Tests.antt =====
-- The theorems on src/curve25519_ref10.c at concrete inputs, and runs of its functions.
use zephyr_secure_supervisor.Base.{
  ℕ, ◌+◌, ◌*◌, ◌-◌, ◌%◌, ◌^◌, ◌≡◌, refl, true, List, [], ◌∷◌, replicate, set, get_or, bit_and,
  all_below, all_below_sound, ◌==◌, ==_iff, arith,
}
use zephyr_secure_supervisor.Aes.Range.{all_bytes_sound}
use zephyr_secure_supervisor.Curve.{clamp_scalar}
use zephyr_secure_supervisor.Curve.Field.{
  Fe, fe_0, fe_1, fe_add, fe_sub, fe_mul, fe_sq, fe_mul121666, carry_chain, products, carry_limb0,
  carry_limb1, carry_limb2, carry_limb3, carry_limb4, carry_limb5, carry_limb6, carry_limb7,
  carry_limb8, carry_limb9,
}
use zephyr_secure_supervisor.Curve.Encoding.{load32, fe_frombytes, reduce, bytes_of, fe_tobytes}
use zephyr_secure_supervisor.Curve.Invert.{squares, fe_invert}
use zephyr_secure_supervisor.Curve.Ladder.{
  Rungs, exchange, exchange_on, climb, ladder_round, scalar_bit, ladder_loop, montgomery_ladder,
  basepoint, curve25519_ref10_scalarmult,
}
use zephyr_secure_supervisor.Curve.Carry.{prime, whole, AreWithin}
use zephyr_secure_supervisor.Curve.Rows.{magnitudes, AllAtMost}
use zephyr_secure_supervisor.Curve.Value.{value, tight, fe_mul-value}
use zephyr_secure_supervisor.Curve.Inverse.{fe_invert-value}
use zephyr_secure_supervisor.Curve.Points.{IsAlike, read_mask}
use zephyr_secure_supervisor.Curve.Points.Product.{scalarmult-alike}
use zephyr_secure_supervisor.Curve.Written.{number, fe_tobytes-number}
use zephyr_secure_supervisor.Curve.Round.{climb-value}

-- 3 - 2 ^ 51.
abbrev some_element : Fe
some_element = record fe_0 { h0 = 3; h2 = 2 ^ 32 - 1 }

fe_mul-value_example :
    (value (fe_mul some_element some_element) % prime
      ≡ value some_element * value some_element % prime)
    × AreWithin 32 tight (fe_mul some_element some_element)
    × AllAtMost (2 ^ 62 + 2 ^ 60) (magnitudes some_element some_element)
fe_mul-value_example = fe_mul-value some_element some_element (omega arith) (omega arith)

fe_invert-value_example :
    AreWithin 32 tight (fe_invert some_element)
    × (value (fe_invert some_element) % prime ≡ value some_element ^ (2 ^ 255 - 21) % prime)
fe_invert-value_example = fe_invert-value some_element (omega arith)

abbrev rungs : Rungs
rungs = record { x2 = some_element; z2 = fe_1; x3 = fe_1; z3 = fe_0; swap = 0 }

climb-value_example :
    let t = climb fe_1 rungs in
    let a = value some_element + value fe_1 in
    let b = value some_element + (prime - 1) in
    ((value t.x2 % prime ≡ a * a * (b * b) % prime) × AreWithin 32 tight t.x2)
    × ((value t.x3 % prime ≡ b * b * (b * b) % prime) × AreWithin 32 tight t.x3)
unfolding whole
climb-value_example =
    climb-value fe_1 rungs (value some_element + value fe_1) (value some_element + (prime - 1))
      (omega arith) (omega arith) refl refl

-- The base point with bits in bytes 5 and 30.
abbrev other_point : List ℕ
other_point = set (set basepoint 5 0xe0) 30 0xff

alike_table :
    all_below 32 (λ i.
      bit_and (get_or basepoint i 0) (get_or read_mask i 0)
      == bit_and (get_or other_point i 0) (get_or read_mask i 0))
    ≡ true
unfolding all_below
alike_table = refl

points-IsAlike : IsAlike basepoint other_point
points-IsAlike i h = (==_iff _ _).0 (
    all_below_sound 32
      (λ j.
        bit_and (get_or basepoint j 0) (get_or read_mask j 0)
        == bit_and (get_or other_point j 0) (get_or read_mask j 0))
      i alike_table h)

scalarmult-alike_example :
    curve25519_ref10_scalarmult (replicate 32 7) basepoint
    ≡ curve25519_ref10_scalarmult (replicate 32 7) other_point
scalarmult-alike_example =
    scalarmult-alike basepoint other_point (all_bytes_sound basepoint refl)
      (all_bytes_sound other_point refl) points-IsAlike (omega arith) (omega arith) (replicate 32 7)

-- Runs of the whole ladder.
abbrev alice : List ℕ
alice = replicate 32 0x40

abbrev bob : List ℕ
bob = 8 ∷ replicate 31 0x41

multiple : List ℕ → List ℕ → List ℕ
unfolding fe_add fe_sub fe_mul fe_sq fe_mul121666 carry_chain products carry_limb0 carry_limb1
    carry_limb2 carry_limb3 carry_limb4 carry_limb5 carry_limb6 carry_limb7 carry_limb8 carry_limb9
    load32 fe_frombytes reduce bytes_of fe_tobytes squares fe_invert exchange exchange_on climb
    ladder_round scalar_bit ladder_loop montgomery_ladder clamp_scalar
multiple scalar point = montgomery_ladder scalar point

-- The two sides of an exchange of keys, by their first bytes.
side_of_alice : get_or (multiple alice (multiple bob basepoint)) 0 0 ≡ 106
unfolding multiple
side_of_alice = refl

side_of_bob : get_or (multiple bob (multiple alice basepoint)) 0 0 ≡ 145
unfolding multiple
side_of_bob = refl

-- The first vector of RFC 7748, section 5.2, whose answer begins with 0xc3.
abbrev vector_scalar : List ℕ
vector_scalar =
    0xa5 ∷ 0x46 ∷ 0xe3 ∷ 0x6b ∷ 0xf0 ∷ 0x52 ∷ 0x7c ∷ 0x9d ∷ 0x3b ∷ 0x16 ∷ 0x15 ∷ 0x4b ∷ 0x82 ∷ 0x46
    ∷ 0x5e ∷ 0xdd ∷ 0x62 ∷ 0x14 ∷ 0x4c ∷ 0x0a ∷ 0xc1 ∷ 0xfc ∷ 0x5a ∷ 0x18 ∷ 0x50 ∷ 0x6a ∷ 0x22
    ∷ 0x44 ∷ 0xba ∷ 0x44 ∷ 0x9a ∷ 0xc4 ∷ []

abbrev vector_point : List ℕ
vector_point =
    0xe6 ∷ 0xdb ∷ 0x68 ∷ 0x67 ∷ 0x58 ∷ 0x30 ∷ 0x30 ∷ 0xdb ∷ 0x35 ∷ 0x94 ∷ 0xc1 ∷ 0xa4 ∷ 0x24 ∷ 0xb1
    ∷ 0x5f ∷ 0x7c ∷ 0x72 ∷ 0x66 ∷ 0x24 ∷ 0xec ∷ 0x26 ∷ 0xb3 ∷ 0x35 ∷ 0x3b ∷ 0x10 ∷ 0xa9 ∷ 0x03
    ∷ 0xa6 ∷ 0xd0 ∷ 0xab ∷ 0x1c ∷ 0x4c ∷ []

vector_answer : get_or (multiple vector_scalar vector_point) 0 0 ≡ 171
unfolding multiple
vector_answer = refl

-- A limb of 2 ^ 25, whose encoding is a single bit in byte 3, comes out with others.
encoded :
    fe_tobytes (record fe_0 { h0 = 2 ^ 25 })
    ≡ 0x00 ∷ 0x00 ∷ 0x00 ∷ 0xfe ∷ 0x00 ∷ 0x00 ∷ 0x00 ∷ replicate 25 0
unfolding fe_tobytes bytes_of reduce carry_limb0 carry_limb1 carry_limb2 carry_limb3 carry_limb4
    carry_limb5 carry_limb6 carry_limb7 carry_limb8 carry_limb9
encoded = refl

-- A limb that a product leaves, times 121666, does not fit int32_t.
scaled : (fe_mul121666 (record fe_0 { h0 = 2 ^ 24 })).h0 ≡ 1107296256
unfolding fe_mul121666
scaled = refl

abbrev small_element : Fe
small_element = record fe_0 { h0 = 77; h3 = 4096; h9 = 2 ^ 24 - 1 }

fe_tobytes-number_example : number (fe_tobytes small_element) ≡ whole small_element
fe_tobytes-number_example = fe_tobytes-number small_element (omega arith)
