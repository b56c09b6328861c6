-- ===== src/Recovery/Tests.antt =====
-- The theorems on src/recovery.c at concrete states.
use zephyr_secure_supervisor.Base.{ℕ, ◌+◌, ◌≡◌, ◌≤◌, ◌<◌, ◌⊎◌, ◌↔◌, none, some, arith}
use zephyr_secure_supervisor.Recovery.Thread.{
  Recovery, reboots, waits, begin_round, schedule_safe_mode_reboot, int32_max,
}
use zephyr_secure_supervisor.Recovery.Laws.{begin_round-schedule}

abbrev idle : Recovery
idle = record { events = 8; deadline = none; delay_ms = 0 }

begin_round-schedule_example :
    let turn = begin_round 1000 (schedule_safe_mode_reboot 1000 60000 idle) in
    ((turn ≡ reboots) ↔ (1000 + 60000 ≤ 1000))
    × ((turn ≡ reboots)
        ⊎ ((w : ℕ) × (turn ≡ waits (some w))
            × (0 < w)
            × (1000 + w ≤ 1000 + 60000)
            × (w ≤ int32_max)))
begin_round-schedule_example = begin_round-schedule 1000 60000 1000 idle (omega arith)
