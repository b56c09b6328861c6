-- ===== src/Supervisor.antt =====
-- src/supervisor.c: the loop that samples the health of the threads, feeds and retunes the watchdog
-- and asks for a recovery.
pub mod State
pub mod Health
pub mod Loop
pub mod Traces
pub mod Frame
pub mod Tests
