-- ===== src/Persist/Tests.antt =====
-- The theorems on the blob at concrete boots, and runs of the interface.
use zephyr_secure_supervisor.Base.{
  List, ◌+◌, ◌*◌, ◌<◌, ◌≡◌, refl, true, [], ◌∷◌, none, replicate, arith,
}
use zephyr_secure_supervisor.Crypto.State.{Crypto, aes, is_enabled}
use zephyr_secure_supervisor.Crypto.Buffers.Laws.{IsReady}
use zephyr_secure_supervisor.Persist.Blob.{PersistBlob, IsBlob, persist_magic}
use zephyr_secure_supervisor.Persist.Store.{State, persist_commit_locked}
use zephyr_secure_supervisor.Persist.Store.Laws.{HoldsSealed, commit-HoldsSealed}
use zephyr_secure_supervisor.Persist.Memory.{memory, memory-IsNvs, memory-IsWorking, Items}
use zephyr_secure_supervisor.Persist.Boot.{power_up}
use zephyr_secure_supervisor.Persist.Working.{commit_works}
use zephyr_secure_supervisor.Persist.Storm.{storm, storm-consecutive_watchdog}
use zephyr_secure_supervisor.Persist.Sync.{
  InSync, Op, booted, overridden, counted, cleared, effect, effects,
}
use zephyr_secure_supervisor.Persist.Api.{get_consecutive_watchdog}

-- Crypto with a key schedule of zeros.
abbrev pub ready : Crypto
ready = record {
  key_buf = replicate 32 0;
  key_len = 32;
  iv_seed = replicate 12 7;
  crypto_ready = true;
  iv_counter = 0;
  prng_state = 0x6d5a56a1;
  aes_ctx = record { round_keys = replicate 240 0; rounds = 14 };
  session_mac_key = replicate 16 0;
  session_counter = 0;
  session_salt = 0;
  active_backend = aes;
}

pub ready-IsReady : IsReady ready
unfolding is_enabled
ready-IsReady = record { enabled = refl; keyed = omega arith; seeded = refl }

abbrev pub two_resets : PersistBlob
two_resets = record {
  magic = persist_magic;
  consecutive_watchdog = 2;
  total_watchdog = 9;
  watchdog_override_ms = 2500;
  session_counter = 4;
}

pub two_resets-IsBlob : IsBlob two_resets
two_resets-IsBlob = omega arith

abbrev empty : Items
empty id = none

-- The state in which `two_resets` was committed.
abbrev pub committed : State Items
committed = (persist_commit_locked memory (record (power_up ready empty) { blob = two_resets })).1

pub committed-HoldsSealed : HoldsSealed memory ready.aes_ctx two_resets committed.flash
committed-HoldsSealed =
    let s = record (power_up ready empty) { blob = two_resets } in
    commit-HoldsSealed memory memory-IsNvs s ready-IsReady
      (commit_works memory memory-IsNvs memory-IsWorking s ready-IsReady)

-- The flash as committed, with the same blob in memory.
abbrev pub synced : State Items
synced = record committed { crypto = ready; blob = two_resets; loaded = true }

pub synced-InSync : InSync memory ready.aes_ctx synced
synced-InSync = record {
  is_loaded = refl;
  is_ready = ready-IsReady;
  key = refl;
  is_blob = two_resets-IsBlob;
  valid = refl;
  sealed = committed-HoldsSealed;
}

-- Four resets.
abbrev resets : List Crypto
resets = ready ∷ ready ∷ ready ∷ ready ∷ []

storm-consecutive_watchdog_example :
    let (entered, t) = storm memory 3 resets synced in
    (6 ≡ entered * 3 + get_consecutive_watchdog t)
    × (get_consecutive_watchdog t < 3)
    × InSync memory ready.aes_ctx t
unfolding get_consecutive_watchdog
storm-consecutive_watchdog_example =
    storm-consecutive_watchdog memory memory-IsNvs memory-IsWorking ready.aes_ctx 3 resets synced
      (
        (ready-IsReady, refl),
        ((ready-IsReady, refl), ((ready-IsReady, refl), ((ready-IsReady, refl), tt))),
      )
      synced-InSync (omega arith) (omega arith)

-- A boot by the watchdog, a new override, a session and a return to health.
abbrev day : List Op
day = booted true ∷ overridden 4000 ∷ counted ∷ cleared ∷ []

effects_of_day : effects day two_resets ≡ record two_resets {
  consecutive_watchdog = 0;
  total_watchdog = 10;
  watchdog_override_ms = 4000;
  session_counter = 5;
}
unfolding effects effect
effects_of_day = refl
