-- ===== src/Uart/Tests.antt =====
-- The console's commands at concrete lines.
use zephyr_secure_supervisor.Base.{ℕ, ◌≡◌, refl, List, [], ◌∷◌, some, replicate, arith}
use zephyr_secure_supervisor.Curve.{clamp_scalar}
use zephyr_secure_supervisor.Persist.Memory.{memory, memory-IsNvs, memory-IsWorking}
use zephyr_secure_supervisor.Persist.Keys.{get_secret, get_peer}
use zephyr_secure_supervisor.Persist.Tests.{ready, ready-IsReady, synced-InSync}
use zephyr_secure_supervisor.Watchdog.Tests.{device}
use zephyr_secure_supervisor.Firmware.Tests.{at_rest, config}
use zephyr_secure_supervisor.Uart.Text.{String, skip_spaces}
use zephyr_secure_supervisor.Uart.Text.Laws.{decimal}
use zephyr_secure_supervisor.Uart.Command.{handle_line}
use zephyr_secure_supervisor.Uart.Command.Override.{IsOverridden}
use zephyr_secure_supervisor.Uart.Command.Watchdog.{handle_line-override, handle_line-minus}
use zephyr_secure_supervisor.Uart.Command.Chunks.{handle_line-unchunked}
use zephyr_secure_supervisor.Uart.Command.Provision.{prov_keys, handle_line-keys}
use zephyr_secure_supervisor.Uart.Thread.{Console, receive_all}
use zephyr_secure_supervisor.Uart.Thread.Laws.{read_chars, truncated, receive_all-read_chars}

-- `wdg 3500`
abbrev wdg_line : String
wdg_line = b'w' ∷ b'd' ∷ b'g' ∷ b' ' ∷ b'3' ∷ b'5' ∷ b'0' ∷ b'0' ∷ []

handle_line-override_example :
    IsOverridden memory device 9 config ready.aes_ctx ready 7100 3500 3500 at_rest
      (handle_line memory device 9 config 7100 wdg_line [] at_rest).1
unfolding decimal
handle_line-override_example =
    handle_line-override memory device 9 config memory-IsNvs memory-IsWorking ready.aes_ctx ready
      7100 b'3' (b' ' ∷ []) (b'5' ∷ b'0' ∷ b'0' ∷ []) [] [] at_rest synced-InSync
      ready-IsReady.enabled refl (refl, tt) (refl, (refl, (refl, (refl, tt)))) refl (omega arith)
      (omega arith) (omega arith)

-- `wdg -4294966296`
abbrev minus_line : String
minus_line =
    b'w' ∷ b'd' ∷ b'g' ∷ b' ' ∷ b'-' ∷ b'4' ∷ b'2' ∷ b'9' ∷ b'4' ∷ b'9' ∷ b'6' ∷ b'6' ∷ b'2' ∷ b'9'
    ∷ b'6' ∷ []

handle_line-minus_example :
    IsOverridden memory device 9 config ready.aes_ctx ready 7100 1000 1000 at_rest
      (handle_line memory device 9 config 7100 minus_line [] at_rest).1
unfolding decimal
handle_line-minus_example =
    handle_line-minus memory device 9 config memory-IsNvs memory-IsWorking ready.aes_ctx ready 7100
      b'4' 1000 (b' ' ∷ []) (b'2' ∷ b'9' ∷ b'4' ∷ b'9' ∷ b'6' ∷ b'6' ∷ b'2' ∷ b'9' ∷ b'6' ∷ []) []
      [] at_rest synced-InSync ready-IsReady.enabled refl refl (refl, tt)
      (refl, (refl, (refl, (refl, (refl, (refl, (refl, (refl, (refl, (refl, tt)))))))))) refl
      (omega arith) (omega arith) (omega arith)

-- A chunk `prov curve`, and a line of digits that was meant to go on with it.
abbrev chunk : String
chunk = b'p' ∷ b'r' ∷ b'o' ∷ b'v' ∷ b' ' ∷ b'c' ∷ b'u' ∷ b'r' ∷ b'v' ∷ b'e' ∷ []

abbrev continuation : String
continuation = replicate 64 b'7'

handle_line-unchunked_example :
    handle_line memory device 9 config 7100 continuation chunk at_rest
    ≡ handle_line memory device 9 config 7100 continuation [] at_rest
unfolding skip_spaces
handle_line-unchunked_example =
    handle_line-unchunked memory device 9 config 7100 continuation chunk at_rest refl (λ e. cc)

abbrev secret : List ℕ
secret = replicate 32 0x5A

abbrev peer : List ℕ
peer = replicate 32 0x0F

handle_line-keys_example :
    let (kept, t) = handle_line memory device 9 config 7100 (prov_keys secret peer) chunk at_rest in
    (kept ≡ [])
    × ((get_secret memory [] [] t.world.persist).1 ≡ some (clamp_scalar secret))
    × ((get_peer memory t.world.persist).1 ≡ some peer)
handle_line-keys_example =
    handle_line-keys secret peer (omega arith) (omega arith) refl refl memory device 9 config 7100
      chunk [] [] at_rest memory-IsNvs memory-IsWorking refl (omega arith) refl

-- A console that reads two lines, the first longer than a buffer of six characters.
abbrev quiet : Console memory device 9 (record config { buffer_len = 6 })
quiet = record { buffer = []; accum = []; system = at_rest }

abbrev typing : List (ℕ × ℕ)
typing =
    (1, b'w')
    ∷ (2, b'd')
    ∷ (3, b'g')
    ∷ (4, b' ')
    ∷ (5, b'?')
    ∷ (6, b'?')
    ∷ (7, b'\r')
    ∷ (8, b'\n')
    ∷ (9, b'w')
    ∷ []

receive_all-read_chars_example :
    receive_all memory device 9 (record config { buffer_len = 6 }) typing quiet
    ≡ truncated memory device 9
        (record config { buffer_len = 6 })
        (read_chars memory device 9 (record config { buffer_len = 6 }) typing quiet)
receive_all-read_chars_example =
    receive_all-read_chars memory device 9 (record config { buffer_len = 6 }) typing quiet
      (omega arith)
