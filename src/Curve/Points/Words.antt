-- ===== src/Curve/Points/Words.antt =====
-- The words that `fe_frombytes` of src/curve25519_ref10.c reads of two alike points.
use zephyr_secure_supervisor.Base.{
  ℕ, ◌+◌, ◌*◌, ◌/◌, ◌%◌, ◌≡◌, refl, List, bit_and, AllBytes, ◌>>◌, arith,
}
use zephyr_secure_supervisor.Curve.Encoding.{load32}
use zephyr_secure_supervisor.Curve.Points.{
  IsAlike, load32-sum, upper_table, high_table, gap_table, byte_s, byte_t, low_bits, same_byte,
  masked, same_word, low_word,
}

module _ (s t : List ℕ) (p : AllBytes s) (q : AllBytes t) (like : IsAlike s t) where
  pub t0 : load32 s 0 ≡ load32 t 0
  t0 =
      same_word s t p q like 0 (same_byte s t p q like 0 (omega arith) refl)
        (same_byte s t p q like 1 (omega arith) refl) (same_byte s t p q like 2 (omega arith) refl)
        (same_byte s t p q like 3 (omega arith) refl)

  pub t1_low : bit_and (load32 s 4) 0x1fff ≡ bit_and (load32 t 4) 0x1fff
  t1_low = low_word s t p q like 13 4 0x1fff refl (
      omega (
        arith,
        load32-sum s 4 p,
        load32-sum t 4 q,
        same_byte s t p q like 4 (omega arith) refl,
        low_bits s t p q like 5 5 0x1f (omega arith) refl refl,
        byte_s s t p q like 4,
        byte_s s t p q like 5,
        byte_s s t p q like 6,
        byte_s s t p q like 7,
        byte_t s t p q like 4,
        byte_t s t p q like 5,
        byte_t s t p q like 6,
        byte_t s t p q like 7,
      ))

  pub t1_high : load32 s 4 >> 19 ≡ load32 t 4 >> 19
  t1_high = omega (
    arith,
    load32-sum s 4 p,
    load32-sum t 4 q,
    masked s t p q like (λ x. x / 8 * 8) 6 0xf8 (omega arith) refl upper_table,
    same_byte s t p q like 7 (omega arith) refl,
    byte_s s t p q like 4,
    byte_s s t p q like 5,
    byte_s s t p q like 6,
    byte_s s t p q like 7,
    byte_t s t p q like 4,
    byte_t s t p q like 5,
    byte_t s t p q like 6,
    byte_t s t p q like 7,
  )

  pub t2 : load32 s 8 ≡ load32 t 8
  t2 =
      same_word s t p q like 8 (same_byte s t p q like 8 (omega arith) refl)
        (same_byte s t p q like 9 (omega arith) refl) (same_byte s t p q like 10 (omega arith) refl)
        (same_byte s t p q like 11 (omega arith) refl)

  pub t3 : load32 s 12 ≡ load32 t 12
  t3 =
      same_word s t p q like 12 (same_byte s t p q like 12 (omega arith) refl)
        (same_byte s t p q like 13 (omega arith) refl)
        (same_byte s t p q like 14 (omega arith) refl)
        (same_byte s t p q like 15 (omega arith) refl)

  pub t4_low : bit_and (load32 s 16) 0x1fff ≡ bit_and (load32 t 16) 0x1fff
  t4_low = low_word s t p q like 13 16 0x1fff refl (
      omega (
        arith,
        load32-sum s 16 p,
        load32-sum t 16 q,
        same_byte s t p q like 16 (omega arith) refl,
        low_bits s t p q like 5 17 0x1f (omega arith) refl refl,
        byte_s s t p q like 16,
        byte_s s t p q like 17,
        byte_s s t p q like 18,
        byte_s s t p q like 19,
        byte_t s t p q like 16,
        byte_t s t p q like 17,
        byte_t s t p q like 18,
        byte_t s t p q like 19,
      ))

  pub t4_high : load32 s 16 >> 20 ≡ load32 t 16 >> 20
  t4_high = omega (
    arith,
    load32-sum s 16 p,
    load32-sum t 16 q,
    masked s t p q like (λ x. x / 16 * 16) 18 0xf0 (omega arith) refl high_table,
    same_byte s t p q like 19 (omega arith) refl,
    byte_s s t p q like 16,
    byte_s s t p q like 17,
    byte_s s t p q like 18,
    byte_s s t p q like 19,
    byte_t s t p q like 16,
    byte_t s t p q like 17,
    byte_t s t p q like 18,
    byte_t s t p q like 19,
  )

  pub t5_low : bit_and (load32 s 20) 0x3ff ≡ bit_and (load32 t 20) 0x3ff
  t5_low = low_word s t p q like 10 20 0x3ff refl (
      omega (
        arith,
        load32-sum s 20 p,
        load32-sum t 20 q,
        same_byte s t p q like 20 (omega arith) refl,
        masked s t p q like (λ x. x / 8 * 8 + x % 4) 21 0xfb (omega arith) refl gap_table,
        byte_s s t p q like 20,
        byte_s s t p q like 21,
        byte_s s t p q like 22,
        byte_s s t p q like 23,
        byte_t s t p q like 20,
        byte_t s t p q like 21,
        byte_t s t p q like 22,
        byte_t s t p q like 23,
      ))

  pub t5_high : load32 s 20 >> 11 ≡ load32 t 20 >> 11
  t5_high = omega (
    arith,
    load32-sum s 20 p,
    load32-sum t 20 q,
    masked s t p q like (λ x. x / 8 * 8 + x % 4) 21 0xfb (omega arith) refl gap_table,
    same_byte s t p q like 22 (omega arith) refl,
    same_byte s t p q like 23 (omega arith) refl,
    byte_s s t p q like 20,
    byte_s s t p q like 21,
    byte_s s t p q like 22,
    byte_s s t p q like 23,
    byte_t s t p q like 20,
    byte_t s t p q like 21,
    byte_t s t p q like 22,
    byte_t s t p q like 23,
  )

  pub t6_low : bit_and (load32 s 24) 0x7f ≡ bit_and (load32 t 24) 0x7f
  t6_low = low_word s t p q like 7 24 0x7f refl (
      omega (
        arith,
        load32-sum s 24 p,
        load32-sum t 24 q,
        low_bits s t p q like 7 24 0x7f (omega arith) refl refl,
        byte_s s t p q like 24,
        byte_s s t p q like 25,
        byte_s s t p q like 26,
        byte_s s t p q like 27,
        byte_t s t p q like 24,
        byte_t s t p q like 25,
        byte_t s t p q like 26,
        byte_t s t p q like 27,
      ))

  pub t6_high : load32 s 24 >> 8 ≡ load32 t 24 >> 8
  t6_high = omega (
    arith,
    load32-sum s 24 p,
    load32-sum t 24 q,
    same_byte s t p q like 25 (omega arith) refl,
    same_byte s t p q like 26 (omega arith) refl,
    same_byte s t p q like 27 (omega arith) refl,
    byte_s s t p q like 24,
    byte_s s t p q like 25,
    byte_s s t p q like 26,
    byte_s s t p q like 27,
    byte_t s t p q like 24,
    byte_t s t p q like 25,
    byte_t s t p q like 26,
    byte_t s t p q like 27,
  )

  pub t7_low : bit_and (load32 s 28) 0x1fff ≡ bit_and (load32 t 28) 0x1fff
  t7_low = low_word s t p q like 13 28 0x1fff refl (
      omega (
        arith,
        load32-sum s 28 p,
        load32-sum t 28 q,
        same_byte s t p q like 28 (omega arith) refl,
        low_bits s t p q like 5 29 0x1f (omega arith) refl refl,
        byte_s s t p q like 28,
        byte_s s t p q like 29,
        byte_s s t p q like 30,
        byte_s s t p q like 31,
        byte_t s t p q like 28,
        byte_t s t p q like 29,
        byte_t s t p q like 30,
        byte_t s t p q like 31,
      ))

  -- A shift past the word.
  pub t6_above : load32 s 24 >> 34 ≡ load32 t 24 >> 34
  t6_above = omega (
    arith,
    load32-sum s 24 p,
    load32-sum t 24 q,
    byte_s s t p q like 24,
    byte_s s t p q like 25,
    byte_s s t p q like 26,
    byte_s s t p q like 27,
    byte_t s t p q like 24,
    byte_t s t p q like 25,
    byte_t s t p q like 26,
    byte_t s t p q like 27,
  )
