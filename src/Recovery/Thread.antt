-- ===== src/Recovery/Thread.antt =====
-- The state of src/recovery.c, its interface and the two halves of a round of `recovery_thread`. The
-- return of `k_event_wait` between the halves is an argument of the second. `sys_reboot` does not
-- return, so the first one ends the round.
use zephyr_secure_supervisor.Base.{
  ℕ, ◌+◌, ◌-◌, Bool, not, leb, ltb, ◌==◌, if◌then◌else◌, Option, none, some, bit_and, bit_or, ◌<<◌,
}

-- `enum recovery_reason`
pub data Reason : Type 0 where
  health_fault manual_trigger safe_mode_timeout watchdog_init_fail : Reason

-- The enumerator's value.
abbrev pub reason_number : Reason → ℕ
reason_number health_fault = 0
reason_number manual_trigger = 1
reason_number safe_mode_timeout = 2
reason_number watchdog_init_fail = 3

-- `RECOVERY_REASON_COUNT`
abbrev pub reason_count : ℕ
reason_count = 4

-- `BIT(reason)`
abbrev pub bit_of : Reason → ℕ
bit_of reason = 1 << reason_number reason

-- The events that are posted, `safe_mode_deadline`, which is `none` for INT64_MIN, and
-- `safe_mode_delay_ms`.
pub record Recovery : Type 0 where
  pub events : ℕ
  pub deadline : Option ℕ
  pub delay_ms : ℕ

-- `recovery_start`, before the thread runs.
unfoldable pub recovery_start : Recovery → Recovery
recovery_start s = record s { events = 0 }

-- `recovery_request`, on the number of the reason.
unfoldable pub recovery_request : ℕ → Recovery → Recovery
recovery_request reason s =
    if leb reason_count reason then s else record s { events = bit_or s.events (1 << reason) }

-- `recovery_schedule_safe_mode_reboot`, at the uptime `now`.
unfoldable pub schedule_safe_mode_reboot : ℕ → ℕ → Recovery → Recovery
schedule_safe_mode_reboot now delay_ms s =
    if delay_ms == 0
    then record s { deadline = none; delay_ms = 0 }
    else record s { deadline = some (now + delay_ms); delay_ms = delay_ms }

abbrev pub int32_max : ℕ
int32_max = 2147483647

-- How the first half ends: with a reboot, or with the wait, for ever where it has no timeout.
pub data Turn : Type 0 where
  reboots : Turn
  waits : Option ℕ → Turn

unfoldable pub until_deadline : ℕ → Option ℕ → Turn
until_deadline now none = waits none
until_deadline now (some deadline) =
    if leb deadline now
    then reboots
    else waits (some (if ltb int32_max (deadline - now) then int32_max else deadline - now))

unfoldable pub begin_round : ℕ → Recovery → Turn
begin_round now s = until_deadline now s.deadline

-- `events & BIT(reason)`
abbrev pub has_reason : Reason → ℕ → Bool
has_reason reason events = not (bit_and events (bit_of reason) == 0)

-- The reason of the reboot in which the second half ends, if it does.
unfoldable pub handle_events : ℕ → Option Reason
handle_events events =
    if events == 0
    then none
    else if has_reason health_fault events
    then some health_fault
    else if has_reason manual_trigger events
    then some manual_trigger
    else if has_reason safe_mode_timeout events
    then some safe_mode_timeout
    else if has_reason watchdog_init_fail events
    then some watchdog_init_fail
    else none
