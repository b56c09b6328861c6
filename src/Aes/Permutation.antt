-- ===== src/Aes/Permutation.antt =====
-- The cipher of src/simple_aes.c under one key is one-to-one on blocks.
use zephyr_secure_supervisor.Base.{
  ℕ, zero, suc, ◌+◌, ◌-◌, ◌≤◌, ◌≡◌, refl, sym, ap, ◌∙◌, true, List, [], ◌∷◌, map, length, get_or,
  take, take_all, AllBytes, all_below, all_below_sound, ◌==◌, ==_iff, if◌then◌else◌,
  xor_bytes_cancel, length-xor_bytes, xor_bytes-AllBytes, arith,
}
use zephyr_secure_supervisor.Aes.Tables.{sbox, sub_byte}
use zephyr_secure_supervisor.Aes.Block.{
  AesCtx, sub_bytes, shift_rows, mix_columns, add_round_key, round_key, encrypt_rounds,
  encrypt_block,
}
use zephyr_secure_supervisor.Aes.Size.{IsKeyed, length-round_key}
use zephyr_secure_supervisor.Aes.Range.{sub_bytes-AllBytes, shift_rows-AllBytes, round_key-AllBytes}
use zephyr_secure_supervisor.Aes.Columns.{
  mix_columns_four_times, mix_columns-AllBytes, length-mix_columns,
}

-- Where a byte stands in a table, from the index `i` on.
position : List ℕ → ℕ → ℕ → ℕ
position [] y i = 0
position (x ∷ xs) y i = let later = position xs y (suc i) in if x == y then i else later

unsub : ℕ → ℕ
unsub y = position sbox y 0

unsub_table : all_below 256 (λ x. unsub (sub_byte x) == x) ≡ true
unfolding all_below sub_byte unsub position
unsub_table = refl

unsub_bytes : (s : List ℕ) → AllBytes s → map unsub (sub_bytes s) ≡ s
unfolding sub_bytes
unsub_bytes [] h = refl
unsub_bytes (x ∷ s) (p, h) = λ i.
    (==_iff _ _).0 (all_below_sound 256 (λ y. unsub (sub_byte y) == y) x unsub_table p) i
    ∷ unsub_bytes s h i

-- A list by its items.
listed : ℕ → (ℕ → ℕ) → List ℕ
listed zero f = []
listed (suc n) f = f 0 ∷ listed n (λ i. f (suc i))

relisted : (s : List ℕ) → listed (length s) (λ i. get_or s i 0) ≡ s
unfolding listed
relisted [] = refl
relisted (x ∷ s) = ap (λ t. x ∷ t) (relisted s)

unshift : List ℕ → List ℕ
unshift t =
    let at = λ (i : ℕ). get_or t i 0 in
    at 0
    ∷ at 13
    ∷ at 10
    ∷ at 7
    ∷ at 4
    ∷ at 1
    ∷ at 14
    ∷ at 11
    ∷ at 8
    ∷ at 5
    ∷ at 2
    ∷ at 15
    ∷ at 12
    ∷ at 9
    ∷ at 6
    ∷ at 3
    ∷ []

unshift_rows : (s : List ℕ) → length s ≡ 16 → unshift (shift_rows s) ≡ s
unfolding unshift shift_rows listed
unshift_rows s n =
    let sixteen : unshift (shift_rows s) ≡ listed 16 (λ i. get_or s i 0) = refl in
    sixteen ∙ ap (λ k. listed k (λ i. get_or s i 0)) (sym n) ∙ relisted s

-- A block or the key of a round.
record IsBlock (s : List ℕ) : Type 0 where
  size : length s ≡ 16
  bytes : AllBytes s

abbrev substituted : List ℕ → List ℕ
substituted s = shift_rows (sub_bytes s)

substituted-IsBlock : (s : List ℕ) → IsBlock (substituted s)
unfolding shift_rows
substituted-IsBlock s = record {
  size = refl;
  bytes = shift_rows-AllBytes (sub_bytes s) (sub_bytes-AllBytes s);
}

length-sub_bytes : (s : List ℕ) → length (sub_bytes s) ≡ length s
unfolding sub_bytes
length-sub_bytes [] = refl
length-sub_bytes (x ∷ s) = ap suc (length-sub_bytes s)

unsubstituted : (s : List ℕ) → IsBlock s → map unsub (unshift (substituted s)) ≡ s
unsubstituted s b =
    ap (map unsub) (unshift_rows (sub_bytes s) (length-sub_bytes s ∙ b.size))
    ∙ unsub_bytes s b.bytes

add_round_key-IsBlock : (s k : List ℕ) → IsBlock s → IsBlock k → IsBlock (add_round_key s k)
unfolding add_round_key
add_round_key-IsBlock s k b r = record {
  size = length-xor_bytes s k (omega (arith, b.size, r.size)) ∙ b.size;
  bytes = xor_bytes-AllBytes s k b.bytes r.bytes;
}

unkeyed : (s k : List ℕ) → IsBlock s → IsBlock k → add_round_key (add_round_key s k) k ≡ s
unfolding add_round_key
unkeyed s k b r = xor_bytes_cancel s k (omega (arith, b.size, r.size))

abbrev one_round : List ℕ → List ℕ → List ℕ
one_round k s = add_round_key (mix_columns (substituted s)) k

mixed-IsBlock : (s : List ℕ) → IsBlock (mix_columns (substituted s))
mixed-IsBlock s =
    let b = substituted-IsBlock s in
    record {
      size = length-mix_columns (substituted s) ∙ b.size;
      bytes = mix_columns-AllBytes (substituted s) b.bytes;
    }

abbrev undo : List ℕ → List ℕ → List ℕ
undo k t = map unsub (unshift (mix_columns (mix_columns (mix_columns (add_round_key t k)))))

undone : (s k : List ℕ) → IsBlock s → IsBlock k → undo k (one_round k s) ≡ s
undone s k b r =
    ap (λ (t : List ℕ). map unsub (unshift (mix_columns (mix_columns (mix_columns t)))))
      (unkeyed (mix_columns (substituted s)) k (mixed-IsBlock s) r)
    ∙ ap (λ (t : List ℕ). map unsub (unshift t))
        (mix_columns_four_times (substituted s) (substituted-IsBlock s).bytes)
    ∙ unsubstituted s b

module _ (ctx : AesCtx) (keyed : IsKeyed ctx) (bytes : AllBytes ctx.round_keys) where
  key_of : (round : ℕ) → round ≤ ctx.rounds → IsBlock (round_key ctx round)
  key_of round le = record {
    size = length-round_key ctx round keyed le;
    bytes = round_key-AllBytes ctx round bytes;
  }

  rounds-IsBlock :
      (n round : ℕ) (s : List ℕ)
      → round + n ≤ ctx.rounds + 1
      → IsBlock s
      → IsBlock (encrypt_rounds ctx n round s)
  unfolding encrypt_rounds
  rounds-IsBlock zero round s le b = b
  rounds-IsBlock (suc n) round s le b = rounds-IsBlock n (suc round) _ (omega arith) (
      add_round_key-IsBlock (mix_columns (substituted s)) _ (mixed-IsBlock s)
        (key_of round (omega arith)))

  rounds_one_to_one :
      (n round : ℕ) (s t : List ℕ)
      → round + n ≤ ctx.rounds + 1
      → IsBlock s
      → IsBlock t
      → encrypt_rounds ctx n round s ≡ encrypt_rounds ctx n round t
      → s ≡ t
  unfolding encrypt_rounds
  rounds_one_to_one zero round s t le b c e = e
  rounds_one_to_one (suc n) round s t le b c e =
      let k = round_key ctx round in
      let r = key_of round (omega arith) in
      let next =
        λ (u : List ℕ). add_round_key-IsBlock (mix_columns (substituted u)) k (mixed-IsBlock u) r in
      let ih =
        rounds_one_to_one n (suc round) (one_round k s) (one_round k t) (omega arith) (next s)
          (next t) e in
      sym (undone s k b r) ∙ ap (undo k) ih ∙ undone t k c r

  -- The last round, without `mix_columns`.
  last_one_to_one :
      (k s t : List ℕ)
      → IsBlock k
      → IsBlock s
      → IsBlock t
      → add_round_key (substituted s) k ≡ add_round_key (substituted t) k
      → s ≡ t
  last_one_to_one k s t r b c e =
      let off = λ (u : List ℕ). unkeyed (substituted u) k (substituted-IsBlock u) r in
      let same = sym (off s) ∙ ap (λ (u : List ℕ). add_round_key u k) e ∙ off t in
      sym (unsubstituted s b) ∙ ap (λ (u : List ℕ). map unsub (unshift u)) same ∙ unsubstituted t c

  -- Two blocks of sixteen bytes with the same cipher text are the same, where the context holds a key
  -- of bytes for each round.
  pub encrypt_block_one_to_one :
      (s t : List ℕ)
      → length s ≡ 16
      → AllBytes s
      → length t ≡ 16
      → AllBytes t
      → encrypt_block ctx s ≡ encrypt_block ctx t
      → s ≡ t
  unfolding encrypt_block
  encrypt_block_one_to_one s t m b n c e =
      let whole = λ (u : List ℕ) (h : length u ≡ 16). take_all u 16 (omega (arith, h)) in
      let block : (u : List ℕ) → length u ≡ 16 → AllBytes u → IsBlock (take 16 u) =
        λ u h g. rw (whole u h) (record { size = h; bytes = g }) in
      let k = round_key ctx 0 in
      let r = key_of 0 (omega arith) in
      let begin = λ (u : List ℕ) (h : length u ≡ 16) (g : AllBytes u).
        add_round_key-IsBlock (take 16 u) k (block u h g) r in
      let rounds = rounds-IsBlock (ctx.rounds - 1) 1 in
      let before_last =
        last_one_to_one (round_key ctx ctx.rounds) _ _ (key_of ctx.rounds (omega arith))
          (rounds (add_round_key (take 16 s) k) (omega arith) (begin s m b))
          (rounds (add_round_key (take 16 t) k) (omega arith) (begin t n c)) e in
      let first =
        rounds_one_to_one (ctx.rounds - 1) 1 (add_round_key (take 16 s) k)
          (add_round_key (take 16 t) k) (omega arith) (begin s m b) (begin t n c) before_last in
      sym (whole s m)
      ∙ sym (unkeyed (take 16 s) k (block s m b) r)
      ∙ ap (λ (u : List ℕ). add_round_key u k) first
      ∙ unkeyed (take 16 t) k (block t n c) r
      ∙ whole t n
