-- ===== src/Spinlock.antt =====
-- src/spinlock.c: spin locks, and the nested disabling of interrupts.
pub mod Interrupts
pub mod Callers
pub mod Machine
mod Tests
use t2_so.Base.{ℕ, ◌+◌, ◌-◌, Bool, true, false, not, ◌&&◌, Option, none, some, ◌==◌, if◌then◌else◌}
use t2_so.Base.{Result, ok, panic, ◌>>=◌, ◌>>◌, panic_if, List, [], ◌∷◌, replicate, set}

-- What `spinlock.c` reads and writes of a processor: `struct cpu`'s `ncli` and `intena`, and
-- FL_IF of its %eflags. `ncli` is never negative: `popcli` panics before it could be.
pub record Cpu : Type 0 where
  pub ncli : ℕ
  pub intena : Bool
  pub interrupts : Bool

-- `struct spinlock`; `cpu` is the index of the processor that `lk->cpu` points to.
pub record Spinlock : Type 0 where
  pub name : ℕ
  pub locked : ℕ
  pub cpu : Option ℕ
  pub pcs : List ℕ

-- `initlock`, on a lock whose `pcs` are left as they are
unfoldable pub initlock : Spinlock → ℕ → Spinlock
initlock lk name = record lk { name = name; locked = 0; cpu = none }

abbrev same_cpu : Option ℕ → ℕ → Bool
same_cpu none c = false
same_cpu (some d) c = d == c

unfoldable pub holding : Spinlock → ℕ → Bool
holding lk c = not (lk.locked == 0) && same_cpu lk.cpu c

unfoldable pub pushcli : Cpu → Cpu
pushcli c = record c {
  ncli = c.ncli + 1;
  intena = if c.ncli == 0 then c.interrupts else c.intena;
  interrupts = false;
}

unfoldable pub popcli : Cpu → Result Cpu
popcli c = do
  panic_if c.interrupts
  panic_if (c.ncli == 0)
  ok (record c {
    ncli = c.ncli - 1;
    interrupts = if c.ncli - 1 == 0 && c.intena then true else c.interrupts;
  })
