-- ===== src/Proc/Table.antt =====
-- The state of src/proc.c: `struct proc`, `ptable`, `nextpid` and `initproc`. A pointer into
-- `ptable.proc` is an index, a null pointer `none`.
use t2_so.Base.{ℕ, Bool, true, false, Option, none, some}
use t2_so.Base.{◌==◌, update}

-- param.h
abbrev pub nproc : ℕ
nproc = 64

abbrev pub nofile : ℕ
nofile = 16

pub data ProcState : Type 0 where
  unused embryo sleeping runnable running zombie : ProcState

abbrev pub is_unused : ProcState → Bool
is_unused unused = true
is_unused _ = false

abbrev pub is_sleeping : ProcState → Bool
is_sleeping sleeping = true
is_sleeping _ = false

abbrev pub is_runnable : ProcState → Bool
is_runnable runnable = true
is_runnable _ = false

abbrev pub is_running : ProcState → Bool
is_running running = true
is_running _ = false

abbrev pub is_zombie : ProcState → Bool
is_zombie zombie = true
is_zombie _ = false

-- What a process can sleep on: nothing (a null pointer), the entry of a process, or another
-- object of the kernel by its address.
pub data Chan : Type 0 where
  null : Chan
  proc_at : ℕ → Chan
  object : ℕ → Chan

abbrev pub same_chan : Chan → Chan → Bool
same_chan null null = true
same_chan (proc_at i) (proc_at j) = i == j
same_chan (object a) (object b) = a == b
same_chan _ _ = false

-- The fields of `struct trapframe` that the kernel sets by name; `others` are the rest.
pub record Trapframe : Type 0 where
  pub eax : ℕ
  pub eip : ℕ
  pub cs : ℕ
  pub eflags : ℕ
  pub esp : ℕ
  pub ss : ℕ
  pub ds : ℕ
  pub es : ℕ
  pub others : ℕ

abbrev pub zero_trapframe : Trapframe
zero_trapframe = record {
  eax = 0;
  eip = 0;
  cs = 0;
  eflags = 0;
  esp = 0;
  ss = 0;
  ds = 0;
  es = 0;
  others = 0;
}

-- `struct context`
pub record Context : Type 0 where
  pub edi : ℕ
  pub esi : ℕ
  pub ebx : ℕ
  pub ebp : ℕ
  pub eip : ℕ

-- `struct proc`. `tf` and `context` are what the pointers of these names point to, on the
-- process's kernel stack, and `tf_at` and `context_at` are the pointers. `returns_to` is the word
-- between the two, which `forkret` takes for its return address. `pid` is the 32-bit pattern of the
-- `int`: from 2^31 on it stands for a negative one.
pub record Proc : Type 0 where
  pub sz : ℕ
  pub pgdir : ℕ
  pub kstack : ℕ
  pub state : ProcState
  pub pid : ℕ
  pub parent : Option ℕ
  pub tf_at : ℕ
  pub tf : Trapframe
  pub returns_to : ℕ
  pub context_at : ℕ
  pub context : Context
  pub chan : Chan
  pub killed : ℕ
  pub ofile : ℕ → Option ℕ
  pub cwd : Option ℕ
  pub name : ℕ → ℕ
  pub step : ℕ
  pub size_step : ℕ

-- `parent` as `proc.c` compares it with the entry of a process
abbrev pub is_child_of : ℕ → Proc → Bool
is_child_of me p = elim p.parent [ none ↦ false | some i ↦ i == me ]

-- `nextpid` is the 32-bit pattern of the `int`, as `pid` is. `world` is the state of the other parts of the kernel that `proc.c` calls.
pub record Kernel (W : Type 0) : Type 0 where
  pub procs : ℕ → Proc
  pub nextpid : ℕ
  pub initproc : ℕ
  pub world : W

-- `k.procs[i] = p`
abbrev pub put : {W : Type 0} → Kernel W → ℕ → Proc → Kernel W
put k i p = record k { procs = update k.procs i p }
