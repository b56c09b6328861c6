-- ===== src/Supervisor/Traces.antt =====
-- The threads' steps on the supervisor in any order: the states that can be reached from a start.
use zephyr_secure_supervisor.Base.{ℕ, ◌≡◌, ◌<◌, Bool, not, arith}
use zephyr_secure_supervisor.Supervisor.State.{
  Services, Supervisor, attempt_watchdog_retune, settle_retune, start, request_watchdog_target,
  update_retune_schedule, notify_led_alive, notify_system_alive, request_manual_recovery,
  max_failures,
}
use zephyr_secure_supervisor.Supervisor.Health.{Limits}
use zephyr_secure_supervisor.Supervisor.Loop.{
  feed_watchdog, clear_counter_if_due, recover_if_failing, grace_branch, healthy_branch,
  degraded_branch, act, supervisor_round,
}
use zephyr_secure_supervisor.Supervisor.Loop.Laws.{supervisor_round-fail_count}

-- A step is one call, at an uptime.
pub data Step (sv : Services) (limits : Limits)
    : Supervisor (sv.World) → Supervisor (sv.World) → Type 0 where
  ran : (s : Supervisor (sv.World)) (now : ℕ) → Step sv limits s (supervisor_round sv limits now s)
  led_alive : (s : Supervisor (sv.World)) (now : ℕ) → Step sv limits s (notify_led_alive sv now s)
  system_alive :
      (s : Supervisor (sv.World)) (now : ℕ) → Step sv limits s (notify_system_alive sv now s)
  retargeted :
      (s : Supervisor (sv.World)) (now timeout_ms : ℕ) (immediately : Bool)
      → Step sv limits s (request_watchdog_target sv now timeout_ms immediately s).1
  asked : (s : Supervisor (sv.World)) → Step sv limits s (request_manual_recovery sv s)

pub data Reachable (sv : Services) (limits : Limits) : Supervisor (sv.World) → Type 0 where
  started :
      (s : Supervisor (sv.World)) (now steady delay : ℕ) (led : Bool)
      → Reachable sv limits (start sv now steady delay led s)
  next :
      {s t : Supervisor (sv.World)}
      → Reachable sv limits s
      → Step sv limits s t
      → Reachable sv limits t

-- The invariant: few failures, and the retune is done exactly when none is pending.
pub record IsSettled {World : Type 0} (s : Supervisor World) : Type 0 where
  pub few : s.fail_count < max_failures
  pub settled : s.wd_cfg.retune_done_once ≡ not s.wd_cfg.retune_pending

module _ (sv : Services) (limits : Limits) where
  open sv use {World}

  attempt-settled :
      (now : ℕ) (s : Supervisor World)
      → s.wd_cfg.retune_done_once ≡ not s.wd_cfg.retune_pending
      → let t = attempt_watchdog_retune sv s.wd_cfg now s in
        t.wd_cfg.retune_done_once ≡ not t.wd_cfg.retune_pending
  unfolding attempt_watchdog_retune settle_retune
  attempt-settled now s h = ground arith

  round_cfg :
      (now : ℕ) (s : Supervisor World)
      → (supervisor_round sv limits now s).wd_cfg
        ≡ (attempt_watchdog_retune sv s.wd_cfg now s).wd_cfg
  unfolding supervisor_round act grace_branch healthy_branch degraded_branch recover_if_failing
      feed_watchdog clear_counter_if_due
  round_cfg now s = ground arith

  Step-IsSettled : {s t : Supervisor World} → Step sv limits s t → IsSettled s → IsSettled t
  unfolding notify_led_alive notify_system_alive request_watchdog_target request_manual_recovery
      update_retune_schedule
  Step-IsSettled (ran s now) r = record {
    few = supervisor_round-fail_count sv limits now s r.few;
    settled = rw (round_cfg now s) (attempt-settled now s r.settled);
  }
  Step-IsSettled (led_alive s now) r = record { few = r.few; settled = r.settled }
  Step-IsSettled (system_alive s now) r = record { few = r.few; settled = r.settled }
  Step-IsSettled (retargeted s now timeout_ms immediately) r = record {
    few = r.few;
    settled = ground arith;
  }
  Step-IsSettled (asked s) r = record { few = r.few; settled = r.settled }

  -- In every state that the threads reach from a start, in whatever order they take their steps, fewer
  -- than three failures are on record, and the retune counts as done exactly when none is pending.
  pub Reachable-IsSettled : (s : Supervisor World) → Reachable sv limits s → IsSettled s
  unfolding start update_retune_schedule
  Reachable-IsSettled _ (started s now steady delay led) = record {
    few = omega arith;
    settled = ground arith;
  }
  Reachable-IsSettled _ (next {s} {t} before step) =
      Step-IsSettled step (Reachable-IsSettled s before)
