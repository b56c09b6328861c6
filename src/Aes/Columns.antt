-- ===== src/Aes/Columns.antt =====
-- MixColumns of src/simple_aes.c is the identity when it is done four times.
use mathlib.Core.Path.{subst}
use zephyr_secure_supervisor.Base.{ℕ, suc, ◌≡◌, refl, sym, ap, ◌∙◌, List, [], ◌∷◌, length, AllBytes}
use zephyr_secure_supervisor.Aes.Block.{mix_columns}
use zephyr_secure_supervisor.Aes.Mixing.{
  mixed, across, row0, row1, row2, row3, mixed-IsByte, mixed_twice, across-IsByte, across_twice,
}

-- Each column by that rule.
crossed : List ℕ → List ℕ
crossed (a ∷ b ∷ c ∷ d ∷ rest) = across a c ∷ across b d ∷ across c a ∷ across d b ∷ crossed rest
crossed rest = rest

list_of_four :
    {a b c d a' b' c' d' : ℕ} {xs ys : List ℕ}
    → a ≡ a'
    → b ≡ b'
    → c ≡ c'
    → d ≡ d'
    → xs ≡ ys
    → Path (List ℕ) (a ∷ b ∷ c ∷ d ∷ xs) (a' ∷ b' ∷ c' ∷ d' ∷ ys)
list_of_four p q r s t = λ i. p i ∷ q i ∷ r i ∷ s i ∷ t i

mix_column :
    (a b c d : ℕ) (rest : List ℕ)
    → mix_columns (a ∷ b ∷ c ∷ d ∷ rest)
      ≡ mixed a b c d ∷ mixed b c d a ∷ mixed c d a b ∷ mixed d a b c ∷ mix_columns rest
unfolding mix_columns
mix_column a b c d rest =
    list_of_four (row0 a b c d) (row1 a b c d) (row2 a b c d) (row3 a b c d) refl

mix_columns_twice : (s : List ℕ) → AllBytes s → mix_columns (mix_columns s) ≡ crossed s
unfolding mix_columns crossed
mix_columns_twice (a ∷ b ∷ c ∷ d ∷ rest) (p, (q, (r, (s, h)))) =
    ap mix_columns (mix_column a b c d rest)
    ∙ mix_column (mixed a b c d) (mixed b c d a) (mixed c d a b) (mixed d a b c) (mix_columns rest)
    ∙ list_of_four (mixed_twice a b c d p q r s) (mixed_twice b c d a q r s p)
        (mixed_twice c d a b r s p q) (mixed_twice d a b c s p q r) (mix_columns_twice rest h)
mix_columns_twice [] h = refl
mix_columns_twice (a ∷ []) h = refl
mix_columns_twice (a ∷ b ∷ []) h = refl
mix_columns_twice (a ∷ b ∷ c ∷ []) h = refl

crossed-AllBytes : (s : List ℕ) → AllBytes s → AllBytes (crossed s)
unfolding crossed
crossed-AllBytes (a ∷ b ∷ c ∷ d ∷ rest) (p, (q, (r, (s, h)))) = (
  across-IsByte a c p,
  (across-IsByte b d q, (across-IsByte c a r, (across-IsByte d b s, crossed-AllBytes rest h))),
)
crossed-AllBytes [] h = h
crossed-AllBytes (a ∷ []) h = h
crossed-AllBytes (a ∷ b ∷ []) h = h
crossed-AllBytes (a ∷ b ∷ c ∷ []) h = h

crossed_twice : (s : List ℕ) → AllBytes s → crossed (crossed s) ≡ s
unfolding crossed
crossed_twice (a ∷ b ∷ c ∷ d ∷ rest) (p, (q, (r, (s, h)))) =
    list_of_four (across_twice a c p r) (across_twice b d q s) (across_twice c a r p)
      (across_twice d b s q) (crossed_twice rest h)
crossed_twice [] h = refl
crossed_twice (a ∷ []) h = refl
crossed_twice (a ∷ b ∷ []) h = refl
crossed_twice (a ∷ b ∷ c ∷ []) h = refl

-- Four times is not at all.
pub mix_columns_four_times :
    (s : List ℕ) → AllBytes s → mix_columns (mix_columns (mix_columns (mix_columns s))) ≡ s
mix_columns_four_times s h =
    ap (λ (t : List ℕ). mix_columns (mix_columns t)) (mix_columns_twice s h)
    ∙ mix_columns_twice (crossed s) (crossed-AllBytes s h)
    ∙ crossed_twice s h

pub mix_columns-AllBytes : (s : List ℕ) → AllBytes s → AllBytes (mix_columns s)
unfolding mix_columns
mix_columns-AllBytes (a ∷ b ∷ c ∷ d ∷ rest) (p, (q, (r, (s, h)))) =
    subst AllBytes (sym (mix_column a b c d rest)) (
      mixed-IsByte a b c d q r s,
      (
        mixed-IsByte b c d a r s p,
        (mixed-IsByte c d a b s p q, (mixed-IsByte d a b c p q r, mix_columns-AllBytes rest h)),
      ),
    )
mix_columns-AllBytes [] h = h
mix_columns-AllBytes (a ∷ []) h = h
mix_columns-AllBytes (a ∷ b ∷ []) h = h
mix_columns-AllBytes (a ∷ b ∷ c ∷ []) h = h

pub length-mix_columns : (s : List ℕ) → length (mix_columns s) ≡ length s
unfolding mix_columns
length-mix_columns (a ∷ b ∷ c ∷ d ∷ rest) =
    ap (λ (n : ℕ). suc (suc (suc (suc n)))) (length-mix_columns rest)
length-mix_columns [] = refl
length-mix_columns (a ∷ []) = refl
length-mix_columns (a ∷ b ∷ []) = refl
length-mix_columns (a ∷ b ∷ c ∷ []) = refl
