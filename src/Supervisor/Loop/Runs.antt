-- ===== src/Supervisor/Loop/Runs.antt =====
-- A heartbeat that stops: from its last sign of life to the request for a recovery.
use zephyr_secure_supervisor.Base.{ℕ, ◌+◌, ◌≡◌, ◌≢◌, ◌≤◌, ◌<◌, false, u32}
use zephyr_secure_supervisor.Supervisor.State.{Services, Supervisor, boot_grace_ms}
use zephyr_secure_supervisor.Supervisor.Health.{Limits}

module _ (sv : Services) (limits : Limits) where
  open sv use {World, request_health_fault}

  -- At uptime `now`, no retune is due, the grace is over, and the last heartbeat, at `hb`, is too old.
  pub record IsStale (hb now : ℕ) (s : Supervisor World) : Type 0 where
    pub settled : s.wd_cfg.retune_pending ≡ false
    pub late : s.boot_ts + boot_grace_ms ≤ now
    pub seen : s.sys_last_seen ≡ u32 hb
    pub not_never : u32 hb ≢ 0
    pub stale : hb + limits.sys_stale_ms < now
    pub recent : now < hb + 4294967296
