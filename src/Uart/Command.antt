-- ===== src/Uart/Command.antt =====
-- The commands of src/uart_commands.c, on the firmware's parts. Of the supervisor they use the target
-- of the watchdog, at the uptime `now`. Log output is left out.
pub mod Override
pub mod Watchdog
pub mod Tokens
pub mod Chunks
pub mod Provision
use zephyr_secure_supervisor.Base.{
  ℕ, zero, suc, ◌+◌, ◌*◌, ◌-◌, ◌%◌, Bool, true, false, not, ◌&&◌, ◌||◌, leb, ltb, ◌==◌,
  if◌then◌else◌, Option, none, some, List, [], ◌∷◌, ◌++◌, length, take, drop, u32, Rc, done, fail,
  einval, is_zero, is_neg,
}
use zephyr_secure_supervisor.Crypto.Hex.{hex_round}
use zephyr_secure_supervisor.Curve.{key_size}
use zephyr_secure_supervisor.Persist.Nvs.{Nvs}
use zephyr_secure_supervisor.Persist.Store.{State}
use zephyr_secure_supervisor.Persist.Api.{
  set_watchdog_override, get_watchdog_override, get_consecutive_watchdog,
}
use zephyr_secure_supervisor.Persist.Keys.{set_secret, set_peer}
use zephyr_secure_supervisor.Watchdog.Ctrl.{Wdt, get_timeout}
use zephyr_secure_supervisor.Supervisor.State.{request_watchdog_target, get_watchdog_target}
use zephyr_secure_supervisor.Firmware.{System, services}
use zephyr_secure_supervisor.Uart.Text.{
  String, is_space, skip_spaces, has_prefix, token, after_token, Number, strtoul,
}

-- The build: whether the backend is Curve25519, `CMD_BUFFER_LEN`, the two timeouts of Kconfig, and the
-- largest `unsigned long`.
pub record CommandConfig : Type 0 where
  pub curve : Bool
  pub buffer_len : ℕ
  pub boot_timeout_ms : ℕ
  pub steady_timeout_ms : ℕ
  pub ulong_max : ℕ

-- The characters in `prov_accum`; `prov_accum_len` is the length.
unfoldable pub accum_append : ℕ → String → String → String
accum_append size accum chunk =
    if leb (size - 1) (length accum)
    then []
    else take (size - 1) ((if not (length accum == 0) then accum ++ b' ' ∷ [] else accum) ++ chunk)

-- The end of `prov_command_complete`, from the scalar on.
unfoldable pub keys_complete : String → Bool
keys_complete cursor =
    let rest = skip_spaces (after_token cursor) in
    if ltb (length (token cursor)) (key_size * 2)
    then false
    else if length rest == 0
    then true
    else not (ltb (length (token rest)) (key_size * 2))

unfoldable pub command_complete : String → Bool
command_complete line =
    let cursor = skip_spaces line in
    let target = skip_spaces (drop 4 cursor) in
    if not (has_prefix (b'p' ∷ b'r' ∷ b'o' ∷ b'v' ∷ []) cursor)
    then true
    else if not (has_prefix (b'c' ∷ b'u' ∷ b'r' ∷ b'v' ∷ b'e' ∷ []) target)
    then true
    else keys_complete (skip_spaces (drop 5 target))

unfoldable pub hex_value_cli : ℕ → Option ℕ
hex_value_cli c =
    if leb b'0' c && leb c b'9'
    then some (c - b'0')
    else (if leb b'a' c && leb c b'f'
        then some (10 + (c - b'a'))
        else (if leb b'A' c && leb c b'F' then some (10 + (c - b'A')) else none))

-- The loop of `decode_hex_token`, over the bytes that are left.
unfoldable pub token_loop : ℕ → String → Rc × List ℕ
token_loop zero s = (done 0, [])
token_loop (suc left) (h ∷ l ∷ s) =
    let rest = token_loop left s in hex_round (hex_value_cli h) (hex_value_cli l) rest
token_loop (suc left) s = (fail einval, [])

unfoldable pub decode_hex_token : String → ℕ → Rc × List ℕ
decode_hex_token tok out_len =
    if not (length tok == out_len * 2) then (fail einval, []) else token_loop out_len tok

-- The numbers that `print_status` logs.
pub record Status : Type 0 where
  pub boot_ms : ℕ
  pub current_ms : ℕ
  pub target_ms : ℕ
  pub override_ms : ℕ
  pub fallback : Bool
  pub consecutive : ℕ

-- `*line == c`, and `*end` that is a space or the end.
abbrev pub starts_with : ℕ → String → Bool
starts_with c [] = false
starts_with c (d ∷ s) = d == c

abbrev pub ends_token : String → Bool
ends_token [] = true
ends_token (c ∷ s) = is_space c

module _ (nvs : Nvs) (wdt : Wdt) (polls : ℕ) (config : CommandConfig) where
  unfoldable pub print_status : Bool → System nvs wdt → Status
  print_status safe_mode_active s = record {
    boot_ms = config.boot_timeout_ms;
    current_ms = get_timeout wdt s.world.ctrl;
    target_ms = get_watchdog_target (services nvs wdt polls) s;
    override_ms = get_watchdog_override s.world.persist;
    fallback = safe_mode_active;
    consecutive = get_consecutive_watchdog s.world.persist;
  }

  -- The override and, where that did not fail, the target.
  unfoldable pub override_and_target : ℕ → ℕ → ℕ → System nvs wdt → System nvs wdt
  override_and_target now override target s =
      let (rc, persist) = set_watchdog_override nvs override s.world.persist in
      let w = s.world in
      let s' = record s { world = record w { persist = persist } } in
      if is_neg rc
      then s'
      else (request_watchdog_target (services nvs wdt polls) now target true s').1

  unfoldable pub apply_timeout : ℕ → ℕ → System nvs wdt → System nvs wdt
  apply_timeout now timeout_ms s =
      if ltb timeout_ms 100 || ltb 60000 timeout_ms
      then s
      else override_and_target now timeout_ms timeout_ms s

  unfoldable pub clear_override : ℕ → System nvs wdt → System nvs wdt
  clear_override now s = override_and_target now 0 config.steady_timeout_ms s

  abbrev pub keep_persist : System nvs wdt → Rc × State nvs.Flash → Rc × System nvs wdt
  keep_persist s (rc, persist) =
      let w = s.world in (rc, record s { world = record w { persist = persist } })

  -- The peer key of a provisioning command, if there is one, behind the scalar.
  unfoldable pub provision_peer : String → System nvs wdt → System nvs wdt
  provision_peer [] s = s
  provision_peer (c ∷ args) s =
      let tok = token (c ∷ args) in
      let (rc, peer) = decode_hex_token tok key_size in
      if not (length tok == key_size * 2)
      then s
      else if not (is_zero rc)
      then s
      else (keep_persist s (set_peer nvs (some peer) s.world.persist)).1

  unfoldable pub provision_keys : String → System nvs wdt → System nvs wdt
  provision_keys args s =
      let (rc, secret) = decode_hex_token (token args) key_size in
      let (set_rc, s') = keep_persist s (set_secret nvs (some secret) s.world.persist) in
      if not (is_zero rc)
      then s
      else if not (is_zero set_rc)
      then s'
      else provision_peer (skip_spaces (after_token args)) s'

  unfoldable pub handle_provision_command : String → System nvs wdt → System nvs wdt
  handle_provision_command body s =
      let args = skip_spaces body in
      let keys = skip_spaces (drop 5 args) in
      if not (has_prefix (b'c' ∷ b'u' ∷ b'r' ∷ b'v' ∷ b'e' ∷ []) args)
      then s
      else if length keys == 0
      then s
      else provision_keys keys s

  unfoldable pub handle_watchdog : ℕ → String → System nvs wdt → System nvs wdt
  handle_watchdog now arg s =
      let r = strtoul config.ulong_max arg in
      if starts_with b'?' arg
      then s
      else if has_prefix (b'c' ∷ b'l' ∷ b'e' ∷ b'a' ∷ b'r' ∷ []) arg
      then clear_override now s
      else if r.overflow || not r.found
      then s
      else if not (ends_token r.end)
      then s
      else apply_timeout now (u32 r.value) s

  -- A chunk of a provisioning command: appended, and carried out where it is complete.
  unfoldable pub provision_chunk : String → String → System nvs wdt → String × System nvs wdt
  provision_chunk accum line s =
      let accum' = accum_append config.buffer_len accum line in
      if command_complete accum'
      then ([], handle_provision_command (drop 4 accum') s)
      else (accum', s)

  -- `handle_line` behind the spaces at the start, with `prov_accum` before and after.
  unfoldable pub dispatch : ℕ → String → String → System nvs wdt → String × System nvs wdt
  dispatch now line accum s =
      let is_prov = has_prefix (b'p' ∷ b'r' ∷ b'o' ∷ b'v' ∷ []) line in
      let kept = if config.curve && (not (length accum == 0) && not is_prov) then [] else accum in
      if has_prefix (b'w' ∷ b'd' ∷ b'g' ∷ []) line
      then (kept, handle_watchdog now (skip_spaces (drop 3 line)) s)
      else if config.curve && is_prov
      then provision_chunk [] line s
      else if config.curve && not (length kept == 0)
      then provision_chunk kept line s
      else (kept, s)

  unfoldable pub handle_line : ℕ → String → String → System nvs wdt → String × System nvs wdt
  handle_line now line accum s =
      let line' = skip_spaces line in
      if length line' == 0 then (accum, s) else dispatch now line' accum s
