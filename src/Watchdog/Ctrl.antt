-- ===== src/Watchdog/Ctrl.antt =====
-- The state and the operations of src/watchdog_ctrl.c, for a board with the STM32 watchdog.
pub mod Laws
use zephyr_secure_supervisor.Base.{
  ℕ, zero, suc, ◌+◌, ◌*◌, ◌/◌, Bool, true, false, not, ltb, ◌==◌, if◌then◌else◌, Option, none, some,
  sub32, Rc, done, fail, eagain, ebusy, enodev, einval, eoverflow, is_zero,
}
use zephyr_secure_supervisor.Watchdog.Compute.{compute}

-- What the file calls of Zephyr's watchdog driver, the vendor's IWDG registers and the clock. `Device`
-- is their state. `feed` may also be refused, with any code.
pub record Wdt : Type 1 where
  pub Device : Type 0
  pub lsi_value : ℕ
  pub device_is_ready : Device → Bool
  pub install_timeout : ℕ → Device → Rc × Device
  pub setup : Device → Rc × Device
  pub feed_channel : ℕ → Device → Rc × Device
  pub enable_write_access : Device → Device
  pub set_prescaler : ℕ → Device → Device
  pub set_reload_counter : ℕ → Device → Device
  pub registers_ready : Device → Bool × Device
  pub reload_counter : Device → Device
  pub uptime_32 : Device → ℕ × Device

-- `wdt_channel_id` is negative until a timeout is installed: `none`.
pub record Ctrl (Device : Type 0) : Type 0 where
  pub device : Device
  pub feed_enabled : Bool
  pub channel_id : Option ℕ
  pub current_timeout_ms : ℕ

module _ (wdt : Wdt) where
  open wdt use {
    Device, lsi_value, device_is_ready, install_timeout, setup, feed_channel, enable_write_access,
    set_prescaler, set_reload_counter, registers_ready, reload_counter, uptime_32,
  }

  abbrev pub update_timeout_ms : ℕ
  update_timeout_ms = 6 * 256 * 1000 / lsi_value

  -- The wait for the registers. The loop runs on fuel, a number of polls; `eoverflow`, which no call
  -- of the file returns, stands for the end of the fuel.
  unfoldable pub wait_ready : ℕ → ℕ → Device → Rc × Device
  wait_ready zero start d = (fail eoverflow, d)
  wait_ready (suc fuel) start d =
      let (is_ready, d1) = registers_ready d in
      let (now, d2) = uptime_32 d1 in
      let rest = wait_ready fuel start d2 in
      if is_ready
      then (done 0, d1)
      else if ltb update_timeout_ms (sub32 now start)
      then (fail eagain, d2)
      else rest

  unfoldable pub finish_retune : Rc × Device → Rc × Device
  finish_retune (rc, d) = if is_zero rc then (done 0, reload_counter d) else (rc, d)

  unfoldable pub retune_hw : ℕ → ℕ → Device → Rc × Device
  retune_hw polls timeout_ms d =
      let (rc, prescaler, reload) = compute lsi_value timeout_ms in
      let d1 = set_reload_counter reload (set_prescaler prescaler (enable_write_access d)) in
      let (start, d2) = uptime_32 d1 in
      if not (is_zero rc) then (rc, d) else finish_retune (wait_ready polls start d2)

  unfoldable pub feed_installed : Option ℕ → Ctrl Device → Rc × Ctrl Device
  feed_installed none s = (fail eagain, s)
  feed_installed (some id) s =
      let (rc, d) = feed_channel id s.device in
      if not s.feed_enabled then (fail ebusy, s) else (rc, record s { device = d })

  unfoldable pub feed : Ctrl Device → Rc × Ctrl Device
  feed s = feed_installed s.channel_id s

  -- The channel, installed where there is none yet.
  unfoldable pub ensure_channel : ℕ → Ctrl Device → Rc × Ctrl Device
  ensure_channel timeout_ms s =
      let (rc, d) = install_timeout timeout_ms s.device in
      let installed = record s { device = d } in
      elim (s.channel_id) [
        | some id ↦ (done 0, s)
        | none ↦ elim rc [
          | done id ↦ (done 0, record installed { channel_id = some id })
          | fail e ↦ (fail e, installed)
        ]
      ]

  unfoldable pub set_up : ℕ → Ctrl Device → Rc × Ctrl Device
  set_up timeout_ms s =
      let (rc, d) = setup s.device in
      let s' = record s { device = d } in
      if is_zero rc then feed (record s' { current_timeout_ms = timeout_ms }) else (rc, s')

  unfoldable pub ctrl_init : ℕ → Ctrl Device → Rc × Ctrl Device
  ctrl_init timeout_ms s =
      let (rc, s') = ensure_channel timeout_ms s in
      if not (device_is_ready s.device)
      then (fail enodev, s)
      else if is_zero rc
      then set_up timeout_ms s'
      else (rc, s')

  unfoldable pub set_enabled : Bool → Ctrl Device → Ctrl Device
  set_enabled enable s =
      let s' = record s { feed_enabled = enable } in if enable then (feed s').1 else s'

  unfoldable pub is_feed_enabled : Ctrl Device → Bool
  is_feed_enabled s = s.feed_enabled

  unfoldable pub retune_installed : ℕ → Option ℕ → ℕ → Ctrl Device → Rc × Ctrl Device
  retune_installed polls none timeout_ms s = (fail eagain, s)
  retune_installed polls (some id) timeout_ms s =
      let (rc, d) = retune_hw polls timeout_ms s.device in
      let s' = record s { device = d } in
      if timeout_ms == 0
      then (fail einval, s)
      else if timeout_ms == s.current_timeout_ms
      then (done 0, s)
      else if is_zero rc
      then (rc, record s' { current_timeout_ms = timeout_ms })
      else (rc, s')

  unfoldable pub retune : ℕ → ℕ → Ctrl Device → Rc × Ctrl Device
  retune polls timeout_ms s = retune_installed polls s.channel_id timeout_ms s

  unfoldable pub get_timeout : Ctrl Device → ℕ
  get_timeout s = s.current_timeout_ms
