-- ===== src/Watchdog.antt =====
-- src/watchdog_ctrl.c: the prescaler and reload of a timeout, and the control of the watchdog device.
pub mod Compute
pub mod Ctrl
pub mod Tests
