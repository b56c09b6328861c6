-- ===== src/Curve/Encoding.antt =====
-- Field elements from bytes and to bytes, as src/curve25519_ref10.c reads and writes them.
use zephyr_secure_supervisor.Base.{
  ℕ, ◌+◌, ◌^◌, List, [], ◌∷◌, get_or, bit_and, bit_or, u8, u32, ◌<<◌, ◌>>◌,
}
use zephyr_secure_supervisor.Curve.Ints.{add, mul, shl, sar}
use zephyr_secure_supervisor.Curve.Field.{
  Fe, carry_limb0, carry_limb1, carry_limb2, carry_limb3, carry_limb4, carry_limb5, carry_limb6,
  carry_limb7, carry_limb8, carry_limb9,
}

-- `t0` to `t7`: four bytes from `i` on.
unfoldable pub load32 : List ℕ → ℕ → ℕ
load32 s i =
    let at = λ (k : ℕ). get_or s k 0 in
    bit_or (bit_or (bit_or (at i) (at (i + 1) << 8)) (at (i + 2) << 16)) (at (i + 3) << 24)

unfoldable pub fe_frombytes : List ℕ → Fe
fe_frombytes s =
    let t0 = load32 s 0 in
    let t1 = load32 s 4 in
    let t2 = load32 s 8 in
    let t3 = load32 s 12 in
    let t4 = load32 s 16 in
    let t5 = load32 s 20 in
    let t6 = load32 s 24 in
    let t7 = load32 s 28 in
    record {
      h0 = u32 (bit_and t0 0x3ffffff);
      h1 = u32 (bit_or (t0 >> 26) (bit_and t1 0x1fff << 6));
      h2 = u32 (bit_or (t1 >> 19) (bit_and t2 0x3ff << 13));
      h3 = u32 (bit_or (t2 >> 10) (bit_and t3 0x7f << 22));
      h4 = u32 (bit_and (t3 >> 7) 0x3ffffff);
      h5 = u32 (bit_or (t3 >> 33) (bit_and t4 0x1fff << 6));
      h6 = u32 (bit_or (t4 >> 20) (bit_and t5 0x3ff << 13));
      h7 = u32 (bit_or (t5 >> 11) (bit_and t6 0x7f << 22));
      h8 = u32 (bit_and (t6 >> 8) 0x3ffffff);
      h9 = u32 (bit_or (t6 >> 34) (bit_and t7 0x1fff << 6));
    }

-- `q` in `fe_tobytes`: `(t[i] + q) >> k`
abbrev pub quotient : ℕ → ℕ → ℕ → ℕ
quotient k t q = sar 32 (add 32 t q) k

-- `fe_tobytes` up to the bytes.
unfoldable pub reduce : Fe → Fe
reduce t =
    let q0 = sar 32 (add 32 (mul 32 19 t.h9) (2 ^ 24)) 25 in
    let q1 = quotient 25 t.h1 (quotient 26 t.h0 q0) in
    let q3 = quotient 25 t.h3 (quotient 26 t.h2 q1) in
    let q5 = quotient 25 t.h5 (quotient 26 t.h4 q3) in
    let q7 = quotient 25 t.h7 (quotient 26 t.h6 q5) in
    let q8 = quotient 26 t.h8 q7 in
    let a = record t { h9 = add 32 t.h9 (shl 32 q8 25) } in
    let b = carry_limb3 32 (carry_limb2 32 (carry_limb1 32 (carry_limb0 32 a))) in
    let c = carry_limb7 32 (carry_limb6 32 (carry_limb5 32 (carry_limb4 32 b))) in
    carry_limb1 32 (carry_limb0 32 (carry_limb9 32 (carry_limb8 32 c)))

-- One byte from a limb, and one from two limbs.
abbrev pub byte_of_limb : ℕ → ℕ → ℕ
byte_of_limb t k = u8 (sar 32 t k)

abbrev pub byte_across : ℕ → ℕ → ℕ → ℕ → ℕ
byte_across t k next j = u8 (bit_or (sar 32 t k) (shl 32 next j))

unfoldable pub bytes_of : Fe → List ℕ
bytes_of t =
    byte_of_limb t.h0 0
    ∷ byte_of_limb t.h0 8
    ∷ byte_of_limb t.h0 16
    ∷ byte_across t.h0 24 t.h1 2
    ∷ byte_of_limb t.h1 6
    ∷ byte_of_limb t.h1 14
    ∷ byte_across t.h1 22 t.h2 3
    ∷ byte_of_limb t.h2 5
    ∷ byte_of_limb t.h2 13
    ∷ byte_across t.h2 21 t.h3 5
    ∷ byte_of_limb t.h3 3
    ∷ byte_of_limb t.h3 11
    ∷ byte_across t.h3 19 t.h4 6
    ∷ byte_of_limb t.h4 2
    ∷ byte_of_limb t.h4 10
    ∷ byte_of_limb t.h4 18
    ∷ byte_of_limb t.h5 0
    ∷ byte_of_limb t.h5 8
    ∷ byte_of_limb t.h5 16
    ∷ byte_across t.h5 24 t.h6 1
    ∷ byte_of_limb t.h6 7
    ∷ byte_of_limb t.h6 15
    ∷ byte_across t.h6 23 t.h7 3
    ∷ byte_of_limb t.h7 5
    ∷ byte_of_limb t.h7 13
    ∷ byte_across t.h7 21 t.h8 4
    ∷ byte_of_limb t.h8 4
    ∷ byte_of_limb t.h8 12
    ∷ byte_across t.h8 20 t.h9 6
    ∷ byte_of_limb t.h9 2
    ∷ byte_of_limb t.h9 10
    ∷ byte_of_limb t.h9 18
    ∷ []

unfoldable pub fe_tobytes : Fe → List ℕ
fe_tobytes h = bytes_of (reduce h)
