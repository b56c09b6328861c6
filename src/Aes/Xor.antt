-- ===== src/Aes/Xor.antt =====
-- Sums by exclusive or, decided by what is left after equal terms cancel.
use zephyr_secure_supervisor.Base.{
  ℕ, ◌≡◌, refl, sym, ap, ◌∙◌, List, [], ◌∷◌, get_or, bit_xor, bit_xor_assoc, bit_xor_comm,
  bit_xor_self, zero-bit_xor, ◌<◌, ℕ_discrete, dec_lt,
}

pub data Sum : Type 0 where
  term : ℕ → Sum
  both : Sum → Sum → Sum

-- The terms are numbered by their places in a list.
abbrev total : List ℕ → Sum → ℕ
total terms (term i) = get_or terms i 0
total terms (both s t) = bit_xor (total terms s) (total terms t)

abbrev total_of : List ℕ → List ℕ → ℕ
total_of terms [] = 0
total_of terms (i ∷ is) = bit_xor (get_or terms i 0) (total_of terms is)

swapped : (a b c : ℕ) → bit_xor b (bit_xor a c) ≡ bit_xor a (bit_xor b c)
swapped a b c =
    sym (bit_xor_assoc b a c) ∙ ap (λ (x : ℕ). bit_xor x c) (bit_xor_comm b a) ∙ bit_xor_assoc a b c

twice : (a c : ℕ) → c ≡ bit_xor a (bit_xor a c)
twice a c =
    sym (zero-bit_xor c) ∙ ap (λ (x : ℕ). bit_xor x c) (sym (bit_xor_self a)) ∙ bit_xor_assoc a a c

module _ (terms : List ℕ) (i j : ℕ) (js rest : List ℕ) where
  abbrev at : ℕ → ℕ
  at k = get_or terms k 0

  equal_terms : i ≡ j → total_of terms js ≡ bit_xor (at i) (bit_xor (at j) (total_of terms js))
  equal_terms e =
      twice (at i) (total_of terms js)
      ∙ ap (λ (k : ℕ). bit_xor (at i) (bit_xor (at k) (total_of terms js))) e

  abbrev placed : Dec (i < j) → List ℕ
  placed (yes below) = i ∷ j ∷ js
  placed (no above) = j ∷ rest

  placed-total :
      total_of terms rest ≡ bit_xor (at i) (total_of terms js)
      → (d : Dec (i < j))
      → total_of terms (placed d) ≡ bit_xor (at i) (bit_xor (at j) (total_of terms js))
  placed-total ih (yes below) = refl
  placed-total ih (no above) = ap (bit_xor (at j)) ih ∙ swapped (at i) (at j) (total_of terms js)

  abbrev toggled : Dec (i ≡ j) → List ℕ
  toggled (yes same) = js
  toggled (no other) = placed (dec_lt i j)

  toggled-total :
      total_of terms rest ≡ bit_xor (at i) (total_of terms js)
      → (d : Dec (i ≡ j))
      → total_of terms (toggled d) ≡ bit_xor (at i) (bit_xor (at j) (total_of terms js))
  toggled-total ih (yes same) = equal_terms same
  toggled-total ih (no other) = placed-total ih (dec_lt i j)

-- Another term, in order, or the equal one gone.
abbrev toggle : ℕ → List ℕ → List ℕ
toggle i [] = i ∷ []
toggle i (j ∷ js) = let rest = toggle i js in toggled [] i j js rest (ℕ_discrete i j)

toggle-total :
    (terms : List ℕ) (i : ℕ) (js : List ℕ)
    → total_of terms (toggle i js) ≡ bit_xor (get_or terms i 0) (total_of terms js)
toggle-total terms i [] = refl
toggle-total terms i (j ∷ js) =
    toggled-total terms i j js (toggle i js) (toggle-total terms i js) (ℕ_discrete i j)

-- What is left of a sum and more terms.
abbrev left : Sum → List ℕ → List ℕ
left (term i) js = toggle i js
left (both s t) js = left s (left t js)

left-total :
    (terms : List ℕ) (s : Sum) (js : List ℕ)
    → total_of terms (left s js) ≡ bit_xor (total terms s) (total_of terms js)
left-total terms (term i) js = toggle-total terms i js
left-total terms (both s t) js =
    left-total terms s (left t js)
    ∙ ap (bit_xor (total terms s)) (left-total terms t js)
    ∙ sym (bit_xor_assoc (total terms s) (total terms t) (total_of terms js))

all_left : (terms : List ℕ) (s : Sum) → total_of terms (left s []) ≡ total terms s
all_left terms s =
    left-total terms s [] ∙ bit_xor_comm (total terms s) 0 ∙ zero-bit_xor (total terms s)

-- Two sums of which the same terms are left are equal.
pub same_total :
    (terms : List ℕ) (s t : Sum) → left s [] ≡ left t [] → total terms s ≡ total terms t
same_total terms s t e = sym (all_left terms s) ∙ ap (total_of terms) e ∙ all_left terms t
