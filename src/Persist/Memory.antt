-- ===== src/Persist/Memory.antt =====
-- A file system in memory: the assumptions on non-volatile storage can be met.
use zephyr_secure_supervisor.Base.{
  ℕ, ◌≡◌, ◌≢◌, refl, true, false, List, Option, none, some, length, take, ◌==◌, if◌then◌else◌, Rc,
  done, fail, enoent, arith,
}
use zephyr_secure_supervisor.Persist.Nvs.{Nvs, IsNvs}
use zephyr_secure_supervisor.Persist.Working.{IsWorking}

abbrev pub Items : Type 0
Items = ℕ → Option (List ℕ)

abbrev pub read_item : ℕ → Option (List ℕ) → Rc × List ℕ
read_item len none = (fail enoent, List.[])
read_item len (some bytes) = (done (length bytes), take len bytes)

abbrev pub memory : Nvs
memory = record {
  Flash = Items;
  fa_off = 0;
  fa_size = 8192;
  flash_area_open = λ f. (done 0, f);
  device_is_ready = λ f. true;
  page_info = λ at f. (done 0, 1024);
  mount = λ g f. (done 0, f);
  read = λ id len f. read_item len (f id);
  write = λ id bytes f. (done (length bytes), λ k. if k == id then some bytes else f k);
}

eq_self : (a : ℕ) → (a == a) ≡ true
eq_self a = ground arith

eq_ne : (a b : ℕ) → a ≢ b → (b == a) ≡ false
eq_ne a b h = ground arith

pub memory-IsNvs : IsNvs memory
memory-IsNvs = record {
  open_keeps = λ f id len. refl;
  mount_keeps = λ g f id len. refl;
  read-write_self = λ f id bytes len n h. rw (eq_self id);
  read-write_ne = λ f id id' bytes len h. rw (eq_ne id id' h);
}

pub memory-IsWorking : IsWorking memory
memory-IsWorking = record {
  opens = λ f. refl;
  ready = λ f. refl;
  pages = λ at f. refl;
  mounts = λ g f. refl;
  writes = λ id bytes f. refl;
}
