-- ===== src/Uart/Command/Watchdog.antt =====
-- `wdg`: the lines that set and clear the watchdog's override.
use zephyr_secure_supervisor.Base.{
  ℕ, ◌+◌, ◌-◌, ◌%◌, ◌≡◌, ◌≤◌, ◌<◌, refl, true, false, ◌==◌, [], ◌∷◌, ◌++◌, All, u32, arith,
}
use zephyr_secure_supervisor.Aes.Block.{AesCtx}
use zephyr_secure_supervisor.Crypto.State.{Crypto, is_enabled}
use zephyr_secure_supervisor.Persist.Nvs.{Nvs, IsNvs}
use zephyr_secure_supervisor.Persist.Working.{IsWorking}
use zephyr_secure_supervisor.Persist.Sync.{InSync}
use zephyr_secure_supervisor.Watchdog.Ctrl.{Wdt}
use zephyr_secure_supervisor.Firmware.{System}
use zephyr_secure_supervisor.Uart.Text.{String, skip_spaces, has_prefix}
use zephyr_secure_supervisor.Uart.Text.Laws.{
  IsSpace, IsDigit, decimal, ends_number, skip_spaces-append, skip_spaces_none, digit_no_space,
  strtoul-decimal, strtoul-minus,
}
use zephyr_secure_supervisor.Uart.Command.{
  CommandConfig, override_and_target, apply_timeout, clear_override, handle_watchdog, ends_token,
  dispatch, handle_line,
}
use zephyr_secure_supervisor.Uart.Command.Override.{IsOverridden, override_and_target-IsOverridden}

abbrev wdg : String → String
wdg s = b'w' ∷ b'd' ∷ b'g' ∷ s

abbrev clear : String → String
clear s = b'c' ∷ b'l' ∷ b'e' ∷ b'a' ∷ b'r' ∷ s

token_ends_number : (s : String) → ends_token s ≡ true → ends_number s ≡ true
token_ends_number [] h = refl
token_ends_number (c ∷ s) h = ground arith

module _ (nvs : Nvs) (wdt : Wdt) (polls : ℕ) (config : CommandConfig) where
  abbrev Sys : Type 0
  Sys = System nvs wdt

  abbrev line_on : ℕ → String → String → Sys → String × Sys
  line_on now line accum s = handle_line nvs wdt polls config now line accum s

  -- A line `wdg` with an argument goes to `handle_watchdog`.
  wdg_line :
      (now : ℕ) (spaces arg accum : String) (s : Sys)
      → All IsSpace spaces
      → (line_on now (wdg (spaces ++ arg)) accum s).1
        ≡ handle_watchdog nvs wdt polls config now (skip_spaces arg) s
  unfolding handle_line dispatch has_prefix
  wdg_line now spaces arg accum s h =
      rw
        (
          skip_spaces_none b'w' (b'd' ∷ b'g' ∷ (spaces ++ arg)) refl,
          skip_spaces-append spaces arg h,
        )
        (ground arith)

  number_lem :
      (now c : ℕ) (ds rest : String) (s : Sys)
      → All IsDigit (c ∷ ds)
      → ends_token rest ≡ true
      → decimal (c ∷ ds) ≤ config.ulong_max
      → decimal (c ∷ ds) < 4294967296
      → handle_watchdog nvs wdt polls config now (c ∷ (ds ++ rest)) s
        ≡ apply_timeout nvs wdt polls config now (decimal (c ∷ ds)) s
  unfolding handle_watchdog has_prefix decimal
  number_lem now c ds rest s h e fits word =
      let digit = h.0 in
      let question : (c == b'?') ≡ false = ground (arith, digit) in
      let no_clear : (b'c' == c) ≡ false = ground (arith, digit) in
      let word_lem : u32 (decimal (c ∷ ds)) ≡ decimal (c ∷ ds) = omega arith in
      rw
        (
          question,
          no_clear,
          strtoul-decimal config.ulong_max c ds rest h (token_ends_number rest e) fits,
          e,
          word_lem,
        )
        refl

  timeout_in_range :
      (now n : ℕ) (s : Sys)
      → 100 ≤ n
      → n ≤ 60000
      → apply_timeout nvs wdt polls config now n s
        ≡ override_and_target nvs wdt polls config now n n s
  unfolding apply_timeout
  timeout_in_range now n s low high = ground arith

  minus_lem :
      (now c n : ℕ) (ds rest : String) (s : Sys)
      → config.ulong_max ≡ 4294967295
      → All IsDigit (c ∷ ds)
      → ends_token rest ≡ true
      → decimal (c ∷ ds) + n ≡ 4294967296
      → 100 ≤ n
      → n ≤ 60000
      → handle_watchdog nvs wdt polls config now (b'-' ∷ c ∷ (ds ++ rest)) s
        ≡ apply_timeout nvs wdt polls config now n s
  unfolding handle_watchdog has_prefix
  minus_lem now c n ds rest s word h e sum low high =
      let max = config.ulong_max in
      let value : u32 ((max + 1 - decimal (c ∷ ds)) % (max + 1)) ≡ n = rw word (omega arith) in
      rw (strtoul-minus max c ds rest h (token_ends_number rest e) (omega arith), e, value) refl

  module _ (ok : IsNvs nvs) (works : IsWorking nvs) where
    -- On working flash that agrees with memory, a line `wdg` with a decimal number between 100 and
    -- 60000 that fits `unsigned long`, spaces before it and none or a space behind it, makes this
    -- number the override, in memory and after a boot with crypto enabled under the same key, and the
    -- target of the supervisor, due at once.
    pub handle_line-override :
        (ctx : AesCtx) (c' : Crypto) (now c : ℕ) (spaces ds rest accum : String) (s : Sys)
        → InSync nvs ctx s.world.persist
        → is_enabled c' ≡ true
        → c'.aes_ctx ≡ ctx
        → All IsSpace spaces
        → All IsDigit (c ∷ ds)
        → ends_token rest ≡ true
        → decimal (c ∷ ds) ≤ config.ulong_max
        → 100 ≤ decimal (c ∷ ds)
        → decimal (c ∷ ds) ≤ 60000
        → IsOverridden nvs wdt polls config ctx c' now
            (decimal (c ∷ ds))
            (decimal (c ∷ ds))
            s
            (line_on now (wdg (spaces ++ (c ∷ (ds ++ rest)))) accum s).1
    handle_line-override ctx c' now c spaces ds rest accum s h on key blank digits e fits low high =
        let n = decimal (c ∷ ds) in
        let word : n < 4294967296 = omega arith in
        rw
          (
            wdg_line now spaces (c ∷ (ds ++ rest)) accum s blank,
            skip_spaces_none c (ds ++ rest) (digit_no_space c digits.0),
            number_lem now c ds rest s digits e fits word,
            timeout_in_range now n s low high,
          )
          (override_and_target-IsOverridden nvs wdt polls config ok works ctx c' now n n s word h on
            key)

    -- On working flash that agrees with memory, a line `wdg` with an argument that begins with `clear`
    -- sets the override to 0, in memory and after a boot with crypto enabled under the same key, and
    -- the target of the supervisor to the steady timeout of the build, due at once.
    handle_line-clear :
        (ctx : AesCtx) (c' : Crypto) (now : ℕ) (spaces rest accum : String) (s : Sys)
        → InSync nvs ctx s.world.persist
        → is_enabled c' ≡ true
        → c'.aes_ctx ≡ ctx
        → All IsSpace spaces
        → IsOverridden nvs wdt polls config ctx c' now 0 config.steady_timeout_ms s
            (line_on now (wdg (spaces ++ clear rest)) accum s).1
    unfolding handle_watchdog has_prefix clear_override
    handle_line-clear ctx c' now spaces rest accum s h on key blank =
        rw
          (
            wdg_line now spaces (clear rest) accum s blank,
            skip_spaces_none b'c' (b'l' ∷ b'e' ∷ b'a' ∷ b'r' ∷ rest) refl,
          )
          (override_and_target-IsOverridden nvs wdt polls config ok works ctx c' now 0
            config.steady_timeout_ms s (omega arith) h on key)

    -- Where `unsigned long` has 32 bits, on working flash that agrees with memory, a line `wdg` with a
    -- minus sign and a decimal number that is 2 ^ 32 less a number between 100 and 60000, spaces
    -- before it and none or a space behind it, makes that difference the override, in memory and after a boot with
    -- crypto enabled under the same key, and the target of the supervisor, due at once.
    pub handle_line-minus :
        (ctx : AesCtx) (c' : Crypto) (now c n : ℕ) (spaces ds rest accum : String) (s : Sys)
        → InSync nvs ctx s.world.persist
        → is_enabled c' ≡ true
        → c'.aes_ctx ≡ ctx
        → config.ulong_max ≡ 4294967295
        → All IsSpace spaces
        → All IsDigit (c ∷ ds)
        → ends_token rest ≡ true
        → decimal (c ∷ ds) + n ≡ 4294967296
        → 100 ≤ n
        → n ≤ 60000
        → IsOverridden nvs wdt polls config ctx c' now n n s
            (line_on now (wdg (spaces ++ (b'-' ∷ c ∷ (ds ++ rest)))) accum s).1
    handle_line-minus ctx c' now c n spaces ds rest accum s h on key word blank digits e sum low
          high =
        rw
          (
            wdg_line now spaces (b'-' ∷ c ∷ (ds ++ rest)) accum s blank,
            skip_spaces_none b'-' (c ∷ (ds ++ rest)) refl,
            minus_lem now c n ds rest s word digits e sum low high,
            timeout_in_range now n s low high,
          )
          (override_and_target-IsOverridden nvs wdt polls config ok works ctx c' now n n s
            (omega arith) h on key)
