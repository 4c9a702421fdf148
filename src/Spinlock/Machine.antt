-- ===== src/Spinlock/Machine.antt =====
-- `acquire` and `release` of src/spinlock.c on several processors that share one lock. The
-- `xchg` and the accesses on either side of it are separate steps, taken in any order by the
-- processors.
pub mod Inv
pub mod Safety
use t2_so.Base.{ℕ, ◌<◌, ◌≡◌, Bool, true, false, not, some, none, List, set, update, ◌==◌}
use t2_so.Base.{if◌then◌else◌, Result, ok, panic, ◌>>=◌, ◌>>◌, panic_if}
use t2_so.Spinlock.{Cpu, Spinlock, holding, pushcli, popcli}

-- Where a processor is: in its client with or without the lock, in the loop of `acquire`, past
-- the `xchg` that won, in `release` before its `xchg`, and after it.
pub data Pc : Type 0 where
  outside spinning won inside cleared unlocked : Pc

pub record Machine : Type 0 where
  pub cpus : ℕ → Cpu
  pub lock : Spinlock
  pub pc : ℕ → Pc

-- `acquire` up to its loop
unfoldable pub begin_acquire : Machine → ℕ → Result Machine
begin_acquire m c = do
  panic_if (holding m.lock c)
  ok (record m { cpus = update m.cpus c (pushcli (m.cpus c)); pc = update m.pc c spinning })

-- one round of `while(xchg(&lk->locked, 1) != 0)`
unfoldable pub try_xchg : Machine → ℕ → Machine
try_xchg m c = record m {
  lock = record (m.lock) { locked = 1 };
  pc = update m.pc c (if m.lock.locked == 0 then won else spinning);
}

-- the end of `acquire`, which records the owner and its call stack
unfoldable pub record_owner : Machine → ℕ → List ℕ → Machine
record_owner m c callers = record m {
  lock = record (m.lock) { cpu = some c; pcs = callers };
  pc = update m.pc c inside;
}

-- `release` up to its `xchg`
unfoldable pub begin_release : Machine → ℕ → Result Machine
begin_release m c = do
  panic_if (not (holding m.lock c))
  ok (record m {
    lock = record (m.lock) { pcs = set m.lock.pcs 0 0; cpu = none };
    pc = update m.pc c cleared;
  })

-- `xchg(&lk->locked, 0)`
unfoldable pub unlock : Machine → ℕ → Machine
unlock m c = record m { lock = record (m.lock) { locked = 0 }; pc = update m.pc c unlocked }

-- the `popcli` at the end of `release`
unfoldable pub end_release : Machine → ℕ → Result Machine
end_release m c = do
  cpu ← popcli (m.cpus c)
  ok (record m { cpus = update m.cpus c cpu; pc = update m.pc c outside })

-- A client may call either function whether it has the lock or not.
abbrev pub client : Pc → Bool
client outside = true
client inside = true
client _ = false

-- One step of processor `c`. A processor that panics takes no further step. `other` is what its
-- client does to the processor's own interrupt state between the calls.
pub data Step (m : Machine) : Machine → Type 0 where
  acquire : (c : ℕ) {m' : Machine} → client (m.pc c) ≡ true → begin_acquire m c ≡ ok m' → Step m m'
  spin : (c : ℕ) → m.pc c ≡ spinning → Step m (try_xchg m c)
  owner : (c : ℕ) (callers : List ℕ) → m.pc c ≡ won → Step m (record_owner m c callers)
  release : (c : ℕ) {m' : Machine} → client (m.pc c) ≡ true → begin_release m c ≡ ok m' → Step m m'
  free : (c : ℕ) → m.pc c ≡ cleared → Step m (unlock m c)
  leave : (c : ℕ) {m' : Machine} → m.pc c ≡ unlocked → end_release m c ≡ ok m' → Step m m'
  other :
      (c : ℕ) (cpu : Cpu)
      → client (m.pc c) ≡ true
      → Step m (record m { cpus = update m.cpus c cpu })

-- a machine whose lock has just been initialised
pub record IsInitial (m : Machine) : Type 0 where
  pub unlocked : m.lock.locked ≡ 0
  pub unowned : m.lock.cpu ≡ none
  pub idle : (c : ℕ) → m.pc c ≡ outside

pub data Reach (m₀ : Machine) : Machine → Type 0 where
  start : Reach m₀ m₀
  next : {m m' : Machine} → Reach m₀ m → Step m m' → Reach m₀ m'
