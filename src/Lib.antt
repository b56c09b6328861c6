-- ===== src/Lib.antt =====
-- Verification of the application of zephyr-secure-supervisor, firmware for Zephyr that supervises a
-- watchdog, keeps its counts of resets in flash, encrypted, and reboots when the board is not well.
--
-- The program's parts, and how they interact:
-- - src/simple_aes.c encrypts a block under an expanded key. src/app_crypto.c calls it in counter mode,
--   derives the session key, and offers buffers sealed under a fresh IV to the other parts.
-- - src/persist_state.c keeps a blob of counters and the Curve25519 keys in non-volatile storage. It
--   seals the blob by src/app_crypto.c when that is ready, and src/app_crypto.c in turn takes its keys
--   and its session counter from it.
-- - src/main.c boots the parts in order and decides on the safe mode by the count of resets. A build for
--   provisioning also stores the keys of Kconfig.
-- - src/watchdog_ctrl.c drives the watchdog. src/supervisor.c samples the signs of life of the threads,
--   feeds and retunes the watchdog through it, and asks src/recovery.c for a reboot.
-- - src/sensor_hts221.c logs the samples of a sensor, sealed by src/app_crypto.c after the first ones, and
--   is what notifies the supervisor. src/uart_commands.c takes lines from the console that set the
--   override of the watchdog, in src/persist_state.c and src/supervisor.c, and store keys.
--
-- The files:
-- - Base: Boolean tests, C arrays as lists, machine words and bits over the native numbers, and the
--   return codes: `done n` for n >= 0, `fail e` for -e.
-- - Aes: `Tables` and `Field` for the S-box and GF(2^8), `Block` for simple_aes_encrypt_block, `Key` for
--   simple_aes_setkey_enc, `Schedule`, `Standard`, `Size` and `Range` for proofs, `Xor`, `Mixing`,
--   `Columns` and `Permutation` for the proof that the cipher is one-to-one, `Tests` with the vectors of FIPS-197.
-- - Crypto: `State` for the variables of src/app_crypto.c, `Hex`, `Iv`, `Ctr`, `Buffers`, `Session` and
--   `Init` for its functions, in the order of the file; their children hold proofs.
-- - Curve: src/curve25519_ref10.c. `Ints` for its signed integers, as bit patterns that wrap, `Field` for
--   fe_add to fe_mul121666, `Invert`, `Encoding` for fe_frombytes and fe_tobytes, `Ladder` for
--   montgomery_ladder and the interface; the rest are proofs: `Signed`, `Carry`, `Rows`, `Convolution` and
--   `Value` for fe_mul, `Power` and `Inverse` for fe_invert, `Points` for what is read of a point,
--   `Small` and `Written` for fe_tobytes, and `Round` for a round of the ladder.
-- - Persist: `Nvs` for what src/persist_state.c calls of Zephyr, `Blob` and `Store` for the record in
--   flash, `Mount` for init_fs_if_needed, `Api` and `Keys` for the interface, `Boot`, `Working`,
--   `Sync` and `Storm` for proofs over boots, `Memory` for a storage in memory with which the hypotheses hold.
-- - Watchdog: `Compute` for stm32_iwdg_compute, `Ctrl` for the rest of src/watchdog_ctrl.c.
-- - Supervisor: `State`, `Health` and `Loop` for src/supervisor.c, with the functions that the thread's
--   body is split into at its branches, `Traces` for the order in which threads take their steps, and `Frame` for
--   what the services keep.
-- - Recovery: `Thread` for the interface of src/recovery.c and the halves of a round of its thread, `Round`
--   for the whole rounds and the loop.
-- - Main: the boot of src/main.c, which composes the other parts; `Autoload` for the keys of Kconfig, `Lost` for a request that comes to nothing,
--   `Workers` for the end of it, with the sensor worker and the command line.
-- - Firmware: the states of the parts in one record, and the services of the supervisor filled by their
--   operations. `Steps` for the threads' steps on it after `main`, in any order, `Boot` for the state that
--   `main` leaves, `Laws`, `Lines` and `Runs` for what they keep, `Clearing` for the count of watchdog resets, `Reboots` for the way
--   from a heartbeat that stops to a reboot.
-- - Uart: src/uart_commands.c: `Text` for the C strings, `Command` for handle_line and all below it,
--   `Thread` for command_thread.
-- - Sensor: src/sensor_hts221.c, with `Worker` for sensor_work_handler on the firmware's parts, and `Bench`
--   for a sensor with fixed readings.
--
-- State is passed explicitly: a function that changes variables takes the record of them and returns it.
-- Each function that a mutex guards is one step. Functions of Zephyr, the vendor's registers
-- and the CRC are parameters, and so is the scalar multiplication outside of `Curve`: records of operations (`Nvs`, `Wdt`, `Hts`, `Services`), with the
-- documented behaviour that theorems rely on as laws (`IsNvs`, `IsWorking`, `IsResetting`). Values of
-- Kconfig are arguments. Uptimes are natural numbers.
--
-- Bounds and fuel: unsigned arithmetic wraps by a remainder where the code's does. The loop of
-- ctr_process has as much fuel as the input has bytes, and takes at least one in each round. The loop of
-- stm32_iwdg_compute has seven rounds, since the eighth divider is refused. The wait for the watchdog's
-- registers has a number of polls as an argument, and a result of its own for the end of that. The
-- recovery thread's loop takes the list of its rounds. All other
-- loops are bounded in the code and recurse on the rounds that are left.
--
-- src/curve25519_ref10.c overflows signed integers in places, which C leaves undefined; the model wraps.
--
-- Not modelled: log output; the assertions of src/safe_memory.h; the hooks for tests; the delays before a reboot and of the LED.
pub mod Base
pub mod Aes
pub mod Crypto
pub mod Curve
pub mod Persist
pub mod Watchdog
pub mod Supervisor
pub mod Recovery
pub mod Main
pub mod Firmware
pub mod Uart
pub mod Sensor
