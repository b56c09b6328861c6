-- ===== src/Aes/Schedule.antt =====
-- The key expansion satisfies the recurrence of FIPS-197, word by word.
use zephyr_secure_supervisor.Base.{
  ℕ, zero, suc, ◌+◌, ◌*◌, ◌-◌, ◌≤◌, ◌<◌, ◌≡◌, ◌≢◌, ◌⊎◌, inl, inr, refl, sym, ap₂, ◌∙◌, List, ◌++◌,
  take, drop, length, get_or, set, length-set, get_or-set_self, get_or-set_ne, get_or-take_append,
  length-take_append_drop, done, fail, other, arith,
}
use native.Mathlib.Decide.{dec_lt}
use zephyr_secure_supervisor.Aes.Block.{AesCtx}
use zephyr_secure_supervisor.Aes.Key.{
  Word, word_at, set_word, xor_word, mix_temp, expand_loop, setkey_enc,
}

length-set_word : (keys : List ℕ) (i : ℕ) (w : Word) → length (set_word keys i w) ≡ length keys
length-set_word keys i w =
    length-set _ (4 * i + 3) w.w3
    ∙ length-set _ (4 * i + 2) w.w2
    ∙ length-set _ (4 * i + 1) w.w1
    ∙ length-set keys (4 * i) w.w0

-- A byte outside word `i` is left alone.
get_or-set_word_ne :
    (keys : List ℕ) (i : ℕ) (w : Word) (k : ℕ)
    → (k < 4 * i) ⊎ (4 * i + 4 ≤ k)
    → get_or (set_word keys i w) k 0 ≡ get_or keys k 0
get_or-set_word_ne keys i w k out =
    get_or-set_ne _ (4 * i + 3) k w.w3 0 (omega arith)
    ∙ get_or-set_ne _ (4 * i + 2) k w.w2 0 (omega arith)
    ∙ get_or-set_ne _ (4 * i + 1) k w.w1 0 (omega arith)
    ∙ get_or-set_ne keys (4 * i) k w.w0 0 (omega arith)

word_path : {v w : Word} → v.w0 ≡ w.w0 → v.w1 ≡ w.w1 → v.w2 ≡ w.w2 → v.w3 ≡ w.w3 → v ≡ w
word_path a b c d = λ i. record { w0 = a i; w1 = b i; w2 = c i; w3 = d i }

word_at-set_word_ne :
    (keys : List ℕ) (i : ℕ) (w : Word) (j : ℕ)
    → i ≢ j
    → word_at (set_word keys i w) j ≡ word_at keys j
word_at-set_word_ne keys i w j ne =
    let far = λ (b : ℕ) (h : b < 4). get_or-set_word_ne keys i w (4 * j + b) (apart b h) in
    word_path (get_or-set_word_ne keys i w (4 * j) (apart0)) (far 1 (omega arith))
      (far 2 (omega arith)) (far 3 (omega arith))
  where
    apart : (b : ℕ) → b < 4 → (4 * j + b < 4 * i) ⊎ (4 * i + 4 ≤ 4 * j + b)
    apart b h = grind arith

    apart0 : (4 * j < 4 * i) ⊎ (4 * i + 4 ≤ 4 * j)
    apart0 = grind arith

word_at-set_word_self :
    (keys : List ℕ) (i : ℕ) (w : Word) → 4 * i + 3 < length keys → word_at (set_word keys i w) i ≡ w
word_at-set_word_self keys i w h =
    let n0 = length-set keys (4 * i) w.w0 in
    let n1 = length-set (set keys (4 * i) w.w0) (4 * i + 1) w.w1 in
    let n2 = length-set (set (set keys (4 * i) w.w0) (4 * i + 1) w.w1) (4 * i + 2) w.w2 in
    word_path
      (get_or-set_ne _ (4 * i + 3) (4 * i) w.w3 0 (omega arith)
        ∙ get_or-set_ne _ (4 * i + 2) (4 * i) w.w2 0 (omega arith)
        ∙ get_or-set_ne _ (4 * i + 1) (4 * i) w.w1 0 (omega arith)
        ∙ get_or-set_self keys (4 * i) w.w0 0 (omega arith))
      (get_or-set_ne _ (4 * i + 3) (4 * i + 1) w.w3 0 (omega arith)
        ∙ get_or-set_ne _ (4 * i + 2) (4 * i + 1) w.w2 0 (omega arith)
        ∙ get_or-set_self _ (4 * i + 1) w.w1 0 (omega (arith, n0)))
      (get_or-set_ne _ (4 * i + 3) (4 * i + 2) w.w3 0 (omega arith)
        ∙ get_or-set_self _ (4 * i + 2) w.w2 0 (omega (arith, n0, n1)))
      (get_or-set_self _ (4 * i + 3) w.w3 0 (omega (arith, n0, n1, n2)))

-- The word that the loop stores at index `i`.
abbrev pub next_word : ℕ → ℕ → List ℕ → Word
next_word nk i keys = xor_word (word_at keys (i - nk)) (mix_temp nk i (word_at keys (i - 1)))

-- The loop writes no word below its index.
loop_keeps :
    (nk left i : ℕ) (keys : List ℕ) (j : ℕ)
    → j < i
    → word_at (expand_loop nk left i keys) j ≡ word_at keys j
unfolding expand_loop
loop_keeps nk zero i keys j h = refl
loop_keeps nk (suc left) i keys j h =
    loop_keeps nk left (suc i) (set_word keys i (next_word nk i keys)) j (omega arith)
    ∙ word_at-set_word_ne keys i (next_word nk i keys) j (omega arith)

length-expand_loop :
    (nk left i : ℕ) (keys : List ℕ) → length (expand_loop nk left i keys) ≡ length keys
unfolding expand_loop
length-expand_loop nk zero i keys = refl
length-expand_loop nk (suc left) i keys =
    length-expand_loop nk left (suc i) (set_word keys i (next_word nk i keys))
    ∙ length-set_word keys i (next_word nk i keys)

-- The recurrence at the word that a round writes.
loop_here :
    (nk left i : ℕ) (keys : List ℕ)
    → 0 < nk
    → nk ≤ i
    → 4 * i + 3 < length keys
    → let out = expand_loop nk (suc left) i keys in word_at out i ≡ next_word nk i out
unfolding expand_loop
loop_here nk left i keys pos h fits =
    let w = next_word nk i keys in
    let later = loop_keeps nk left (suc i) (set_word keys i w) in
    let old = λ (j : ℕ) (below : j < i).
      later j (omega arith) ∙ word_at-set_word_ne keys i w j (omega arith) in
    later i (omega arith)
    ∙ word_at-set_word_self keys i w fits
    ∙ ap₂ (λ (a b : Word). xor_word a (mix_temp nk i b)) (sym (old (i - nk) (omega arith)))
        (sym (old (i - 1) (omega arith)))

loop_recurrence :
    (nk left i : ℕ) (keys : List ℕ) (j : ℕ)
    → 0 < nk
    → nk ≤ i
    → 4 * (i + left) ≤ length keys
    → i ≤ j
    → j < i + left
    → let out = expand_loop nk left i keys in word_at out j ≡ next_word nk j out
unfolding expand_loop
loop_recurrence nk zero i keys j pos h fits lo hi = absurd (omega arith)
loop_recurrence nk (suc left) i keys j pos h fits lo hi = elim (dec_lt i j) [
  | yes later ↦
      loop_recurrence nk left (suc i) (set_word keys i (next_word nk i keys)) j pos (omega arith)
        (omega (arith, length-set_word keys i (next_word nk i keys))) later (omega arith)
  | no here ↦ let e : i ≡ j = omega arith in rw (← e) (loop_here nk left i keys pos h (omega arith))
]

-- The key expansion of FIPS-197, section 5.2, for a key of `nk` words: the first `nk` words are the
-- key, and each later word follows from two earlier ones.
pub record IsExpanded (key : List ℕ) (nk : ℕ) (ctx : AesCtx) : Type 0 where
  pub round_count : ctx.rounds ≡ nk + 6
  pub room : length ctx.round_keys ≡ 240
  pub first : (i : ℕ) → i < nk → word_at ctx.round_keys i ≡ word_at key i
  pub later :
      (i : ℕ) → nk ≤ i → i < 4 * (nk + 7) → word_at ctx.round_keys i ≡ next_word nk i ctx.round_keys

abbrev pub IsKeyWords : ℕ → Type 0
IsKeyWords nk = (nk ≡ 4) ⊎ (nk ≡ 6) ⊎ (nk ≡ 8)

module _ (ctx : AesCtx) (key : List ℕ) where
  abbrev copied : ℕ → List ℕ
  copied n = take n key ++ drop n ctx.round_keys

  expanded : ℕ → AesCtx
  expanded nk = record {
    round_keys = expand_loop nk (4 * (nk + 7) - nk) nk (copied (4 * nk));
    rounds = nk + 6;
  }

  expanded-IsExpanded :
      (nk : ℕ)
      → nk ≤ 8
      → 0 < nk
      → 4 * nk ≤ length key
      → length ctx.round_keys ≡ 240
      → IsExpanded key nk (expanded nk)
  unfolding expanded
  expanded-IsExpanded nk small pos enough room =
      let len = length-take_append_drop (4 * nk) key ctx.round_keys enough (omega arith) in
      let total = 4 * (nk + 7) - nk in
      let at = λ (k : ℕ) (h : k < 4 * nk).
        get_or-take_append (4 * nk) key (drop (4 * nk) ctx.round_keys) k 0 enough h in
      record {
        round_count = refl;
        room = length-expand_loop nk total nk (copied (4 * nk)) ∙ len ∙ room;
        first = λ i h.
            loop_keeps nk total nk (copied (4 * nk)) i h
            ∙ word_path (at (4 * i) (omega arith)) (at (4 * i + 1) (omega arith))
                (at (4 * i + 2) (omega arith)) (at (4 * i + 3) (omega arith));
        later = λ i lo hi.
            loop_recurrence nk total nk (copied (4 * nk)) i pos (omega arith) (omega (arith, len))
              lo (omega arith);
      }

  setkey_enc-expanded :
      (nk : ℕ) → IsKeyWords nk → setkey_enc ctx key (4 * nk) ≡ (done 0, expanded nk)
  unfolding setkey_enc expanded
  setkey_enc-expanded nk (inl e) = rw e
  setkey_enc-expanded nk (inr (inl e)) = rw e
  setkey_enc-expanded nk (inr (inr e)) = rw e

  pub setkey_enc-IsExpanded :
      (nk : ℕ)
      → IsKeyWords nk
      → 4 * nk ≤ length key
      → length ctx.round_keys ≡ 240
      → ((setkey_enc ctx key (4 * nk)).0 ≡ done 0)
        × IsExpanded key nk (setkey_enc ctx key (4 * nk)).1
  setkey_enc-IsExpanded nk words enough room =
      rw (setkey_enc-expanded nk words)
        (refl, expanded-IsExpanded nk (omega arith) (omega arith) enough room)

  -- A key length other than 16, 24 and 32 is refused, and the context is left as it was.
  setkey_enc_refuses :
      (n : ℕ) → n ≢ 16 → n ≢ 24 → n ≢ 32 → setkey_enc ctx key n ≡ (fail (other 1), ctx)
  unfolding setkey_enc
  setkey_enc_refuses n a b c = ground arith
