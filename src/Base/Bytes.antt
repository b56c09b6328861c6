-- ===== src/Base/Bytes.antt =====
-- Byte strings: the exclusive or of two, and the predicate that all are bytes.
use zephyr_secure_supervisor.Base.Lists.{length, drop, All}
use zephyr_secure_supervisor.Base.Words.{IsByte}
use zephyr_secure_supervisor.Base.Bits.{bit_xor_cancel, bit_xor_comm, bit_xor_assoc, bit_xor-IsByte}
use Prim.Native.Nat.{ℕ, zero, suc, ◌-◌, ◌≤◌, bit_xor}
use mathlib.Core.Path.{◌≡◌, refl, ap, ap₂, ◌∙◌}
use mathlib.Core.List.{List, [], ◌∷◌, ◌++◌}
use native.Mathlib.Omega.{arith}

-- `out[i] = a[i] ^ b[i]` up to the shorter of the two.
unfoldable pub xor_bytes : List ℕ → List ℕ → List ℕ
xor_bytes [] ys = []
xor_bytes (x ∷ xs) [] = []
xor_bytes (x ∷ xs) (y ∷ ys) = bit_xor x y ∷ xor_bytes xs ys

abbrev pub AllBytes : List ℕ → Type 0
AllBytes xs = All IsByte xs

pub length-xor_bytes :
    (xs ys : List ℕ) → length xs ≤ length ys → length (xor_bytes xs ys) ≡ length xs
unfolding xor_bytes
length-xor_bytes [] ys h = refl
length-xor_bytes (x ∷ xs) [] h = absurd (omega arith)
length-xor_bytes (x ∷ xs) (y ∷ ys) h = ap suc (length-xor_bytes xs ys (omega arith))

-- A mask at least as long as the text comes off again.
pub xor_bytes_cancel :
    (xs ys : List ℕ) → length xs ≤ length ys → xor_bytes (xor_bytes xs ys) ys ≡ xs
unfolding xor_bytes
xor_bytes_cancel [] ys h = refl
xor_bytes_cancel (x ∷ xs) [] h = absurd (omega arith)
xor_bytes_cancel (x ∷ xs) (y ∷ ys) h =
    ap₂ ◌∷◌ (bit_xor_cancel x y) (xor_bytes_cancel xs ys (omega arith))

pub xor_bytes-AllBytes : (xs ys : List ℕ) → AllBytes xs → AllBytes ys → AllBytes (xor_bytes xs ys)
unfolding xor_bytes
xor_bytes-AllBytes [] ys p q = tt
xor_bytes-AllBytes (x ∷ xs) [] p q = tt
xor_bytes-AllBytes (x ∷ xs) (y ∷ ys) p q =
    (bit_xor-IsByte x y p.0 q.0, xor_bytes-AllBytes xs ys p.1 q.1)

pub length-drop {ℓ} : {A : Type ℓ} (n : ℕ) (xs : List A) → length (drop n xs) ≡ length xs - n
length-drop zero xs = omega arith
length-drop (suc n) [] = omega arith
length-drop (suc n) (x ∷ xs) = omega (arith, length-drop n xs)

-- A mask in two parts: the second falls on what the first leaves.
pub xor_bytes-append :
    (xs ys zs : List ℕ)
    → xor_bytes xs (ys ++ zs) ≡ xor_bytes xs ys ++ xor_bytes (drop (length ys) xs) zs
unfolding xor_bytes
xor_bytes-append [] [] zs = refl
xor_bytes-append [] (y ∷ ys) zs = refl
xor_bytes-append (x ∷ xs) [] zs = refl
xor_bytes-append (x ∷ xs) (y ∷ ys) zs = ap (λ r. bit_xor x y ∷ r) (xor_bytes-append xs ys zs)

-- Two texts under one mask: the mask cancels.
pub xor_bytes_same_mask :
    (xs ys zs : List ℕ)
    → length xs ≡ length ys
    → length xs ≤ length zs
    → xor_bytes (xor_bytes xs zs) (xor_bytes ys zs) ≡ xor_bytes xs ys
unfolding xor_bytes
xor_bytes_same_mask [] [] zs p q = refl
xor_bytes_same_mask [] (y ∷ ys) zs p q = absurd (omega arith)
xor_bytes_same_mask (x ∷ xs) [] zs p q = absurd (omega arith)
xor_bytes_same_mask (x ∷ xs) (y ∷ ys) [] p q = absurd (omega arith)
xor_bytes_same_mask (x ∷ xs) (y ∷ ys) (z ∷ zs) p q =
    ap₂ ◌∷◌
      (bit_xor_assoc x z (bit_xor y z)
        ∙ ap (bit_xor x) (bit_xor_comm z (bit_xor y z) ∙ bit_xor_cancel y z))
      (xor_bytes_same_mask xs ys zs (omega arith) (omega arith))
