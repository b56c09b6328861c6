-- ===== src/Recovery.antt =====
-- src/recovery.c: the requests for a reboot, the deadline of the safe mode and the rounds of the
-- thread that serves them.
pub mod Thread
pub mod Laws
pub mod Round
mod Tests
