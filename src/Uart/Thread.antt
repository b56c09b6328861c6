-- ===== src/Uart/Thread.antt =====
-- `command_thread` and `uart_commands_start` of src/uart_commands.c: lines out of characters.
pub mod Laws
use zephyr_secure_supervisor.Base.{
  ℕ, ◌-◌, Bool, true, false, not, ◌||◌, ltb, ◌==◌, if◌then◌else◌, Option, none, some, List, [], ◌∷◌,
  ◌++◌, length,
}
use zephyr_secure_supervisor.Persist.Nvs.{Nvs}
use zephyr_secure_supervisor.Watchdog.Ctrl.{Wdt}
use zephyr_secure_supervisor.Firmware.{System}
use zephyr_secure_supervisor.Uart.Text.{String, c_string}
use zephyr_secure_supervisor.Uart.Command.{CommandConfig, handle_line}

-- `ch == '\r' || ch == '\n'`
abbrev pub ends_line : ℕ → Bool
ends_line ch = ch == b'\r' || ch == b'\n'

-- The characters in `buffer`, of which there are `len`, with `prov_accum` and the system.
pub record Console (nvs : Nvs) (wdt : Wdt) (polls : ℕ) (config : CommandConfig) : Type 0 where
  pub buffer : String
  pub accum : String
  pub system : System nvs wdt

-- `cmd_safe_mode_active`, and whether the thread was created; `is_ready` is the console's.
unfoldable pub commands_start : Bool → Bool → Bool × Bool
commands_start is_ready safe_mode_active =
    if not is_ready then (safe_mode_active, false) else (safe_mode_active, true)

module _ (nvs : Nvs) (wdt : Wdt) (polls : ℕ) (config : CommandConfig) where
  unfoldable pub end_line : ℕ → Console nvs wdt polls config → Console nvs wdt polls config
  end_line now c =
      let (accum, system) =
        handle_line nvs wdt polls config now (c_string c.buffer) c.accum c.system in
      if ltb 0 (length c.buffer) then record { buffer = []; accum = accum; system = system } else c

  -- A character that `uart_poll_in` returned, at an uptime.
  unfoldable pub receive : ℕ × ℕ → Console nvs wdt polls config → Console nvs wdt polls config
  receive (now, ch) c =
      if ends_line ch
      then end_line now c
      else if ltb (length c.buffer) (config.buffer_len - 1)
      then record c { buffer = c.buffer ++ ch ∷ [] }
      else c

  unfoldable pub receive_all :
      List (ℕ × ℕ) → Console nvs wdt polls config → Console nvs wdt polls config
  receive_all [] c = c
  receive_all (ch ∷ chars) c = receive_all chars (receive ch c)
