-- ===== src/Supervisor/Loop/Clearing.antt =====
-- When a round of the supervisor clears the count of watchdog resets.
use zephyr_secure_supervisor.Base.{
  ℕ, ◌+◌, ◌≡◌, ◌≤◌, ◌⊎◌, inl, inr, Bool, true, false, ltb, done, is_zero→done, arith,
}
use zephyr_secure_supervisor.Supervisor.State.{
  Services, Supervisor, WatchdogCfg, attempt_watchdog_retune, settle_retune, boot_grace_ms,
}
use zephyr_secure_supervisor.Supervisor.Health.{Limits, HealthStatus}
use zephyr_secure_supervisor.Supervisor.Loop.{
  is_healthy, feed_watchdog, clear_counter_if_due, recover_if_failing, grace_branch, healthy_branch,
  degraded_branch, act, supervisor_round,
}
use zephyr_secure_supervisor.Supervisor.Loop.Laws.{health_at, attempt_keeps}

-- What a service touches of a part `A` of the other parts' state: only `clear_watchdog_counter` changes
-- it, as `clear` does.
pub record IsClearedAlone (sv : Services) {A : Type 0} (part : sv.World → A) (clear : A → A)
    : Type 0 where
  pub clears : (w : sv.World) → part (sv.clear_watchdog_counter w) ≡ clear (part w)
  pub feeds : (w : sv.World) → part (sv.watchdog_feed w).1 ≡ part w
  pub retunes : (timeout_ms : ℕ) (w : sv.World) → part (sv.watchdog_retune timeout_ms w).1 ≡ part w
  pub faults : (w : sv.World) → part (sv.request_health_fault w) ≡ part w

module _ (sv : Services) (limits : Limits) {A : Type 0} (part : sv.World → A) (clear : A → A)
    (alone : IsClearedAlone sv part clear) where
  open sv use {World, watchdog_retune}

  -- The condition under which a round clears the counter.
  abbrev IsDue : ℕ → Supervisor World → Type 0
  IsDue now s =
      ((s.wd_cfg.retune_pending ≡ true)
        × (s.wd_cfg.retune_ready_ts ≤ now)
        × ((watchdog_retune s.wd_cfg.desired_timeout_ms s.world).0 ≡ done 0))
      ⊎ ((s.wd_cfg.retune_done_once ≡ true)
          × (s.boot_ts + boot_grace_ms ≤ now)
          × (is_healthy (health_at sv limits now s) ≡ true))

  abbrev IsCleared : Supervisor World → Supervisor World → Type 0
  IsCleared s t = (t.counter_cleared ≡ true) × (part t.world ≡ clear (part s.world))

  abbrev IsKept : Supervisor World → Supervisor World → Type 0
  IsKept s t = (t.counter_cleared ≡ s.counter_cleared) × (part t.world ≡ part s.world)

  attempt-part :
      (now : ℕ) (s : Supervisor World)
      → let t = attempt_watchdog_retune sv s.wd_cfg now s in
        ((s.wd_cfg.retune_pending ≡ true)
          × (s.wd_cfg.retune_ready_ts ≤ now)
          × ((watchdog_retune s.wd_cfg.desired_timeout_ms s.world).0 ≡ done 0)
          × IsCleared s t)
        ⊎ (¬ (
              (s.wd_cfg.retune_pending ≡ true)
              × (s.wd_cfg.retune_ready_ts ≤ now)
              × ((watchdog_retune s.wd_cfg.desired_timeout_ms s.world).0 ≡ done 0))
            × IsKept s t)
  unfolding attempt_watchdog_retune settle_retune
  attempt-part now s =
      let (rc, w) = watchdog_retune s.wd_cfg.desired_timeout_ms s.world in
      ground
        (arith, is_zero→done rc, alone.clears w, alone.retunes s.wd_cfg.desired_timeout_ms s.world)

  -- What comes after the clearing does not touch the part.
  act-part :
      (cfg : WatchdogCfg) (health : HealthStatus) (grace : Bool) (s : Supervisor World)
      → IsKept (clear_counter_if_due sv cfg health grace s) (act sv cfg health grace s)
  unfolding act grace_branch healthy_branch degraded_branch recover_if_failing feed_watchdog
  act-part cfg health grace s =
      let t = clear_counter_if_due sv cfg health grace s in
      ground (
        arith,
        alone.feeds t.world,
        alone.faults t.world,
        alone.faults (sv.watchdog_feed t.world).1,
      )

  pub round_clears :
      (now : ℕ) (s : Supervisor World)
      → s.counter_cleared ≡ false
      → let t = supervisor_round sv limits now s in
        (IsDue now s × IsCleared s t) ⊎ ((¬ IsDue now s) × IsKept s t)
  unfolding supervisor_round clear_counter_if_due
  round_clears now s h =
      let u = attempt_watchdog_retune sv s.wd_cfg now s in
      let keeps = attempt_keeps sv limits s.wd_cfg now s in
      let health = health_at sv limits now s in
      let rest = act-part s.wd_cfg health (ltb now (s.boot_ts + boot_grace_ms)) u in
      elim (attempt-part now s) [
        | inl (pending, ready, retuned, cleared) ↦
            inl (inl (pending, ready, retuned), ground (arith, rest, cleared))
        | inr (not_due, kept) ↦ ground (arith, keeps, not_due, rest, kept, alone.clears u.world)
      ]
