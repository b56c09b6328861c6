-- ===== src/Aes/Mixing.antt =====
-- A byte of a column under MixColumns of src/simple_aes.c, applied once, twice and four times.
use zephyr_secure_supervisor.Base.{
  ℕ, ◌<◌, ◌≡◌, refl, ap, ap₂, ◌∙◌, true, List, [], ◌∷◌, bit_xor, bit_xor-IsByte, zero-bit_xor,
  all_below, all_below_sound, ◌==◌, ==_iff, dec_lt, ℕ_discrete, arith,
}
use zephyr_secure_supervisor.Aes.Field.{xtime, gf_mul, gf_mul_loop}
use zephyr_secure_supervisor.Aes.Xor.{term, both, same_total}

xtime_table :
    all_below 256 (λ a. all_below 256 (λ b. xtime (bit_xor a b) == bit_xor (xtime a) (xtime b)))
    ≡ true
unfolding all_below xtime
xtime_table = refl

xtime-xor : (a b : ℕ) → a < 256 → b < 256 → xtime (bit_xor a b) ≡ bit_xor (xtime a) (xtime b)
xtime-xor a b p q =
    let row =
      all_below_sound 256
        (λ a. all_below 256 (λ b. xtime (bit_xor a b) == bit_xor (xtime a) (xtime b))) a xtime_table
        p in
    (==_iff _ _).0
      (all_below_sound 256 (λ b. xtime (bit_xor a b) == bit_xor (xtime a) (xtime b)) b row q)

xtime-IsByte : (a : ℕ) → xtime a < 256
unfolding xtime
xtime-IsByte a = omega arith

-- The first byte of a mixed column; the others are that of the column rotated.
abbrev pub mixed : ℕ → ℕ → ℕ → ℕ → ℕ
mixed a b c d = bit_xor (bit_xor (bit_xor (xtime a) (bit_xor b (xtime b))) c) d

abbrev terms : ℕ → ℕ → ℕ → ℕ → List ℕ
terms a b c d =
    a
    ∷ b
    ∷ c
    ∷ d
    ∷ xtime a
    ∷ xtime b
    ∷ xtime c
    ∷ xtime d
    ∷ xtime (xtime a)
    ∷ xtime (xtime b)
    ∷ xtime (xtime c)
    ∷ xtime (xtime d)
    ∷ []

gf_mul-two : (a : ℕ) → gf_mul a 2 ≡ xtime a
unfolding gf_mul gf_mul_loop
gf_mul-two a = zero-bit_xor (xtime a)

gf_mul-three : (a : ℕ) → gf_mul a 3 ≡ bit_xor a (xtime a)
unfolding gf_mul gf_mul_loop
gf_mul-three a = ap (λ (x : ℕ). bit_xor x (xtime a)) (zero-bit_xor a)

module _ (a b c d : ℕ) where
  pub row0 : bit_xor (bit_xor (bit_xor (gf_mul a 2) (gf_mul b 3)) c) d ≡ mixed a b c d
  row0 = ap₂ (λ (x y : ℕ). bit_xor (bit_xor (bit_xor x y) c) d) (gf_mul-two a) (gf_mul-three b)

  pub row1 : bit_xor (bit_xor (bit_xor a (gf_mul b 2)) (gf_mul c 3)) d ≡ mixed b c d a
  unfolding dec_lt ℕ_discrete
  row1 =
      ap₂ (λ (x y : ℕ). bit_xor (bit_xor (bit_xor a x) y) d) (gf_mul-two b) (gf_mul-three c)
      ∙ same_total (terms a b c d)
          (both (both (both (term 0) (term 5)) (both (term 2) (term 6))) (term 3))
          (both (both (both (term 5) (both (term 2) (term 6))) (term 3)) (term 0)) refl

  pub row2 : bit_xor (bit_xor (bit_xor a b) (gf_mul c 2)) (gf_mul d 3) ≡ mixed c d a b
  unfolding dec_lt ℕ_discrete
  row2 =
      ap₂ (λ (x y : ℕ). bit_xor (bit_xor (bit_xor a b) x) y) (gf_mul-two c) (gf_mul-three d)
      ∙ same_total (terms a b c d)
          (both (both (both (term 0) (term 1)) (term 6)) (both (term 3) (term 7)))
          (both (both (both (term 6) (both (term 3) (term 7))) (term 0)) (term 1)) refl

  pub row3 : bit_xor (bit_xor (bit_xor (gf_mul a 3) b) c) (gf_mul d 2) ≡ mixed d a b c
  unfolding dec_lt ℕ_discrete
  row3 =
      ap₂ (λ (x y : ℕ). bit_xor (bit_xor (bit_xor x b) c) y) (gf_mul-three a) (gf_mul-two d)
      ∙ same_total (terms a b c d)
          (both (both (both (both (term 0) (term 4)) (term 1)) (term 2)) (term 7))
          (both (both (both (term 7) (both (term 0) (term 4))) (term 1)) (term 2)) refl

pub mixed-IsByte : (a b c d : ℕ) → b < 256 → c < 256 → d < 256 → mixed a b c d < 256
mixed-IsByte a b c d q r s =
    bit_xor-IsByte (bit_xor (bit_xor (xtime a) (bit_xor b (xtime b))) c) d
      (bit_xor-IsByte (bit_xor (xtime a) (bit_xor b (xtime b))) c
        (bit_xor-IsByte (xtime a) (bit_xor b (xtime b)) (xtime-IsByte a)
          (bit_xor-IsByte b (xtime b) q (xtime-IsByte b)))
        r)
      s

-- The double of a mixed byte.
xtime-mixed :
    (a b c d : ℕ)
    → b < 256
    → c < 256
    → d < 256
    → xtime (mixed a b c d)
      ≡ bit_xor
          (bit_xor (bit_xor (xtime (xtime a)) (bit_xor (xtime b) (xtime (xtime b)))) (xtime c))
          (xtime d)
xtime-mixed a b c d q r s =
    let inner = bit_xor-IsByte b (xtime b) q (xtime-IsByte b) in
    let two = bit_xor-IsByte (xtime a) (bit_xor b (xtime b)) (xtime-IsByte a) inner in
    let three = bit_xor-IsByte (bit_xor (xtime a) (bit_xor b (xtime b))) c two r in
    xtime-xor (bit_xor (bit_xor (xtime a) (bit_xor b (xtime b))) c) d three s
    ∙ ap (λ (x : ℕ). bit_xor x (xtime d))
        (xtime-xor (bit_xor (xtime a) (bit_xor b (xtime b))) c two r
          ∙ ap (λ (x : ℕ). bit_xor x (xtime c))
              (xtime-xor (xtime a) (bit_xor b (xtime b)) (xtime-IsByte a) inner
                ∙ ap (bit_xor (xtime (xtime a))) (xtime-xor b (xtime b) q (xtime-IsByte b))))

-- Twice leaves a byte and four times its sum with the one across from it.
abbrev pub across : ℕ → ℕ → ℕ
across a c = bit_xor a (bit_xor (xtime (xtime a)) (xtime (xtime c)))

pub mixed_twice :
    (a b c d : ℕ)
    → a < 256
    → b < 256
    → c < 256
    → d < 256
    → mixed (mixed a b c d) (mixed b c d a) (mixed c d a b) (mixed d a b c) ≡ across a c
unfolding dec_lt ℕ_discrete
mixed_twice a b c d p q r s =
    ap₂
      (λ (x y : ℕ).
        bit_xor (bit_xor (bit_xor x (bit_xor (mixed b c d a) y)) (mixed c d a b)) (mixed d a b c))
      (xtime-mixed a b c d q r s) (xtime-mixed b c d a r s p)
    ∙ same_total (terms a b c d)
        (both
          (both
            (both (both (both (both (term 8) (both (term 5) (term 9))) (term 6)) (term 7)) (
              both (both (both (both (term 5) (both (term 2) (term 6))) (term 3)) (term 0))
                (both (both (both (term 9) (both (term 6) (term 10))) (term 7)) (term 4))))
            (both (both (both (term 6) (both (term 3) (term 7))) (term 0)) (term 1)))
          (both (both (both (term 7) (both (term 0) (term 4))) (term 1)) (term 2)))
        (both (term 0) (both (term 8) (term 10))) refl

pub across-IsByte : (a c : ℕ) → a < 256 → across a c < 256
across-IsByte a c p = bit_xor-IsByte a (bit_xor (xtime (xtime a)) (xtime (xtime c))) p (
    bit_xor-IsByte (xtime (xtime a)) (xtime (xtime c)) (xtime-IsByte (xtime a))
      (xtime-IsByte (xtime c)))

four : ℕ → ℕ
four a = xtime (xtime a)

four-xor : (a b : ℕ) → a < 256 → b < 256 → four (bit_xor a b) ≡ bit_xor (four a) (four b)
unfolding four
four-xor a b p q =
    ap xtime (xtime-xor a b p q) ∙ xtime-xor (xtime a) (xtime b) (xtime-IsByte a) (xtime-IsByte b)

four-across :
    (a c : ℕ)
    → a < 256
    → four (across a c) ≡ bit_xor (four a) (bit_xor (four (four a)) (four (four c)))
unfolding four
four-across a c p =
    let x = xtime (xtime a) in
    let y = xtime (xtime c) in
    let small = bit_xor-IsByte x y (xtime-IsByte (xtime a)) (xtime-IsByte (xtime c)) in
    four-xor a (bit_xor x y) p small
    ∙ ap (bit_xor x) (four-xor x y (xtime-IsByte (xtime a)) (xtime-IsByte (xtime c)))

pub across_twice : (a c : ℕ) → a < 256 → c < 256 → across (across a c) (across c a) ≡ a
unfolding four dec_lt ℕ_discrete
across_twice a c p r =
    ap₂ (λ (x y : ℕ). bit_xor (across a c) (bit_xor x y)) (four-across a c p) (four-across c a r)
    ∙ same_total (a ∷ four a ∷ four c ∷ four (four a) ∷ four (four c) ∷ [])
        (both (both (term 0) (both (term 1) (term 2)))
          (both (both (term 1) (both (term 3) (term 4))) (both (term 2) (both (term 4) (term 3)))))
        (term 0) refl
