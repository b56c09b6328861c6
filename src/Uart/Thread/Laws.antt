-- ===== src/Uart/Thread/Laws.antt =====
-- The bounded buffer against lines of any length.
use zephyr_secure_supervisor.Base.{
  ℕ, zero, suc, ◌-◌, ◌≡◌, ◌≤◌, refl, sym, ap, true, false, not, ltb, ◌==◌, ==_iff, if◌then◌else◌,
  List, [], ◌∷◌, ◌++◌, length, take, arith, Bool-cases, inl, inr, length-append, take_all,
  take_short, take-append_full, ltb→lt, ltb→le, dec_lt,
}
use zephyr_secure_supervisor.Persist.Nvs.{Nvs}
use zephyr_secure_supervisor.Watchdog.Ctrl.{Wdt}
use zephyr_secure_supervisor.Uart.Text.{String, c_string}
use zephyr_secure_supervisor.Uart.Command.{CommandConfig, handle_line}
use zephyr_secure_supervisor.Uart.Thread.{Console, ends_line, end_line, receive, receive_all}

module _ (nvs : Nvs) (wdt : Wdt) (polls : ℕ) (config : CommandConfig) where
  -- The reader without a bound: it keeps the whole line, and hands over its first
  -- `buffer_len - 1` characters.
  unfoldable pub read_char : ℕ × ℕ → Console nvs wdt polls config → Console nvs wdt polls config
  read_char (now, ch) c =
      let line = take (config.buffer_len - 1) c.buffer in
      let (accum, system) = handle_line nvs wdt polls config now (c_string line) c.accum c.system in
      if not (ends_line ch)
      then record c { buffer = c.buffer ++ ch ∷ [] }
      else if length c.buffer == 0
      then c
      else record { buffer = []; accum = accum; system = system }

  unfoldable pub read_chars :
      List (ℕ × ℕ) → Console nvs wdt polls config → Console nvs wdt polls config
  read_chars [] c = c
  read_chars (ch ∷ chars) c = read_chars chars (read_char ch c)

  abbrev pub truncated : Console nvs wdt polls config → Console nvs wdt polls config
  truncated c = record c { buffer = take (config.buffer_len - 1) c.buffer }

-- One more character in a bounded buffer of `n`.
keep_char :
    (n : ℕ) (xs : String) (ch : ℕ)
    → (if ltb (length (take n xs)) n then take n xs ++ ch ∷ [] else take n xs)
      ≡ take n (xs ++ ch ∷ [])
keep_char n xs ch = elim (Bool-cases (ltb (length (take n xs)) n)) [
  | inl e ↦
      let same = take_short n xs (ltb→lt _ _ e) in
      let fits : length (xs ++ ch ∷ []) ≤ n =
        omega (arith, length-append xs (ch ∷ []), ltb→lt _ _ e, ap length same) in
      rw e (rw same (sym (take_all (xs ++ ch ∷ []) n fits)))
  | inr e ↦ elim (dec_lt (length xs) n) [
    | yes p ↦
        absurd (let le = ltb→le _ _ e in omega (arith, ap length (take_all xs n (omega arith))))
    | no p ↦ rw e (sym (take-append_full n xs (ch ∷ []) (omega arith)))
  ]
]

kept : (xs : String) (n : ℕ) → 1 ≤ n → (length xs == 0) ≡ false → ltb 0 (length (take n xs)) ≡ true
kept [] n p z = cc
kept (x ∷ xs) zero p z = absurd (omega arith)
kept (x ∷ xs) (suc n) p z = ground arith

take_nil : (n : ℕ) → take {A = ℕ} n [] ≡ []
take_nil zero = refl
take_nil (suc n) = refl

module _ (nvs : Nvs) (wdt : Wdt) (polls : ℕ) (config : CommandConfig) where
  receive-read_char :
      (time ch : ℕ) (c : Console nvs wdt polls config)
      → 2 ≤ config.buffer_len
      → receive nvs wdt polls config (time, ch) (truncated nvs wdt polls config c)
        ≡ truncated nvs wdt polls config (read_char nvs wdt polls config (time, ch) c)
  unfolding receive end_line read_char
  receive-read_char time ch c room =
      let n = config.buffer_len - 1 in
      let positive : 1 ≤ n = omega arith in
      elim (Bool-cases (ends_line ch)) [
        | inr e ↦ rw (e, sym (keep_char n c.buffer ch)) (ground arith)
        | inl e ↦ elim (Bool-cases (length c.buffer == 0)) [
          | inl z ↦
              let none_kept : ltb 0 (length (take n c.buffer)) ≡ false =
                let empty = (==_iff (length c.buffer) 0).0 z in
                ground (arith, take_all c.buffer n (omega arith)) in
              rw (e, z, none_kept) refl
          | inr z ↦
              let some_kept : ltb 0 (length (take n c.buffer)) ≡ true =
                kept c.buffer n positive z in
              rw (e, z, some_kept, take_nil n) refl
        ]
      ]

  -- On a buffer of at least two characters, the thread does, for any characters, what the reader
  -- without a bound does that hands over only the first `buffer_len - 1` characters of each line.
  pub receive_all-read_chars :
      (chars : List (ℕ × ℕ)) (c : Console nvs wdt polls config)
      → 2 ≤ config.buffer_len
      → receive_all nvs wdt polls config chars (truncated nvs wdt polls config c)
        ≡ truncated nvs wdt polls config (read_chars nvs wdt polls config chars c)
  unfolding receive_all read_chars
  receive_all-read_chars [] c room = refl
  receive_all-read_chars ((time, ch) ∷ chars) c room =
      rw (receive-read_char time ch c room)
        (receive_all-read_chars chars (read_char nvs wdt polls config (time, ch) c) room)
