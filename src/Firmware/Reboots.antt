-- ===== src/Firmware/Reboots.antt =====
-- From a heartbeat that stops to the reboot: src/supervisor.c and src/recovery.c together.
use zephyr_secure_supervisor.Persist.Nvs.{Nvs}
use zephyr_secure_supervisor.Recovery.Thread.{Recovery}
