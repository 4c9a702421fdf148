-- ===== src/Proc/Alloc.antt =====
-- `allocproc` and `userinit` of src/proc.c, with the stride that the tickets give.
use t2_so.Proc.Table.{runnable}
use t2_so.Base.{panic}
use t2_so.Base.{◌*◌}
use t2_so.Base.{Result, ok, panic, ◌>>=◌}
use t2_so.Proc.Table.{zero_trapframe}
use t2_so.Base.{ℕ, ◌+◌, ◌-◌, ◌/◌, ◌%◌, ◌^◌, Option, none, some}
use t2_so.Base.{◌==◌, if◌then◌else◌, leb, find_from, ℤ, pos, negsuc}
use t2_so.Proc.Table.{Proc, Kernel, put, nproc, unused, embryo, is_unused}
use t2_so.Str.{safestrcpy, text}
use t2_so.Proc.Table.{Trapframe}
use t2_so.Proc.Services.{Services}

-- param.h, and the sizes of `struct trapframe` and `struct context`
abbrev pub kstacksize : ℕ
kstacksize = 4096

abbrev pub trapframe_size : ℕ
trapframe_size = 76

abbrev pub context_size : ℕ
context_size = 20

-- The stride: 10000 over the tickets, which are clamped to 50..1000, with 500 for none.
unfoldable pub stride : ℤ → ℕ
stride (pos t) =
    if t == 0
    then 10000 / 500
    else if leb t 50
    then 10000 / 50
    else if leb 1000 t
    then 10000 / 1000
    else 10000 / t
stride (negsuc t) = 10000 / 50

-- `"/"`
abbrev root_path : ℕ → ℕ
root_path = text "/"

module _ {W : Type 0} (forkret trapret : ℕ) (svc : Services W) where
  -- the fields that follow the kernel stack's allocation; the frame itself is not written
  abbrev pub on_stack : Proc → ℕ → ℤ → Proc
  on_stack p stack tickets = record p {
    kstack = stack;
    tf_at = stack + kstacksize - trapframe_size;
    returns_to = trapret;
    context_at = stack + kstacksize - trapframe_size - 4 - context_size;
    context = record { edi = 0; esi = 0; ebx = 0; ebp = 0; eip = forkret };
    step = 0;
    size_step = stride tickets;
  }

  -- `allocproc` after its call of `kalloc`, for entry `i`
  unfoldable pub with_stack : ℕ → ℤ → Kernel W → Option ℕ × W → Option ℕ × Kernel W
  with_stack i tickets k (none, world) =
      (none, record (put k i (record (k.procs i) { kstack = 0; state = unused })) { world = world })
  with_stack i tickets k (some s, world) =
      (some i, record (put k i (on_stack (k.procs i) s tickets)) { world = world })

  -- the entry taken: what `allocproc` does before it releases `ptable.lock`; `nextpid` is the
  -- 32-bit pattern of the `int`
  unfoldable pub taken : ℕ → Kernel W → Kernel W
  taken i k = record (put k i (record (k.procs i) { state = embryo; pid = k.nextpid })) {
    nextpid = (k.nextpid + 1) % 2 ^ 32;
  }

  -- the part of `allocproc` after `found:`
  unfoldable pub allocproc_at : ℕ → ℤ → Kernel W → Option ℕ × Kernel W
  allocproc_at i tickets k = with_stack i tickets (taken i k) (svc.kalloc k.world)

  unfoldable pub allocproc : ℤ → Kernel W → Option ℕ × Kernel W
  allocproc tickets k = elim (find_from (λ p. is_unused p.state) k.procs nproc 0) [
    | none ↦ (none, k)
    | some i ↦ allocproc_at i tickets k
  ]

  -- The text of initcode.S and its size, from the linker.
  module _ (initcode : ℕ → ℕ) (initcode_size : ℕ) where
    -- the first process's registers: user segments, interrupts on, at the beginning of initcode.S
    abbrev user_trapframe : Trapframe
    user_trapframe = record zero_trapframe {
      cs = 4 * 8 + 3;
      ds = 5 * 8 + 3;
      es = 5 * 8 + 3;
      ss = 5 * 8 + 3;
      eflags = 0x200;
      esp = 4096;
      eip = 0;
    }

    -- `userinit` once entry `i` and its page directory are there
    unfoldable pub first_process : ℕ → ℕ → Kernel W → Result (Kernel W)
    first_process i pgdir k = do
      w ← svc.inituvm pgdir initcode initcode_size k.world
      (root, w') ← svc.namei root_path w
      ok
          (record (put k i (record (k.procs i) {
            pgdir = pgdir;
            sz = 4096;
            tf = user_trapframe;
            name = safestrcpy (k.procs i).name (text "initcode") (pos 16);
            cwd = root;
            state = runnable;
          })) { initproc = i; world = w' })

    -- A null result of `allocproc` is dereferenced, and `setupkvm`'s is tested: both halt.
    unfoldable pub userinit : Kernel W → Result (Kernel W)
    userinit k =
        let (p, k1) = allocproc (pos 500) k in
        elim p [
          | none ↦ panic
          | some i ↦
              let (dir, w) = svc.setupkvm k1.world in
              elim dir [
                | none ↦ panic
                | some pgdir ↦ first_process i pgdir (record k1 { world = w })
              ]
        ]
