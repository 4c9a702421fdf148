-- ===== src/Proc/Fork.antt =====
-- `fork` and `growproc` of src/proc.c. `me` is the entry of the current process, `proc`.
use t2_so.Base.{
  ℕ, zero, suc, ◌+◌, ◌%◌, ◌^◌, Bool, true, false, Option, none, some, ◌==◌, if◌then◌else◌,
}
use t2_so.Base.{Result, ok, panic, ◌>>=◌, ℤ, pos, negsuc, update, ◌-◌}
use t2_so.Str.{safestrcpy}
use t2_so.Proc.Table.{Proc, Kernel, put, nofile, unused, runnable}
use t2_so.Proc.Services.{Services}
use t2_so.Proc.Alloc.{allocproc}

module _ {W : Type 0} (forkret trapret : ℕ) (svc : Services W) where
  -- the loop over `ofile`, from descriptor `i` on with `left` to go
  unfoldable pub dup_files :
      (ℕ → Option ℕ) → ℕ → ℕ → (ℕ → Option ℕ) → W → Result ((ℕ → Option ℕ) × W)
  dup_files mine zero i theirs w = ok (theirs, w)
  dup_files mine (suc left) i theirs w = elim (mine i) [
    | none ↦ dup_files mine left (i + 1) theirs w
    | some f ↦ do
      (g, w') ← svc.filedup f w
      dup_files mine left (i + 1) (update theirs i (some g)) w'
  ]

  -- `idup(proc->cwd)`; a null directory is dereferenced
  abbrev pub dup_cwd : Option ℕ → W → Result (ℕ × W)
  dup_cwd none w = panic
  dup_cwd (some dir) w = ok (svc.idup dir w)

  -- the new process as `fork` leaves it
  abbrev pub child : ℕ → Proc → Proc → ℕ → (ℕ → Option ℕ) → ℕ → Proc
  child me p np pgdir files cwd = record np {
    pgdir = pgdir;
    sz = p.sz;
    parent = some me;
    tf = record (p.tf) { eax = 0 };
    ofile = files;
    cwd = some cwd;
    state = runnable;
    name = safestrcpy np.name p.name (pos 16);
  }

  -- `fork` once the address space is copied, for the new process at entry `i`
  unfoldable pub fork_copied : ℕ → ℕ → ℕ → Kernel W → Result (Option ℕ × Kernel W)
  fork_copied me i pgdir k = do
    (files, w) ← dup_files (k.procs me).ofile nofile 0 (k.procs i).ofile k.world
    (cwd, w') ← dup_cwd (k.procs me).cwd w
    ok (
      some (k.procs i).pid,
      record (put k i (child me (k.procs me) (k.procs i) pgdir files cwd)) { world = w' },
    )

  -- `fork` when there is no memory for the child
  unfoldable pub fork_undone : ℕ → Kernel W → Result (Option ℕ × Kernel W)
  fork_undone i k = do
    w ← svc.kfree (k.procs i).kstack k.world
    ok (none, record (put k i (record (k.procs i) { kstack = 0; state = unused })) { world = w })

  -- `fork` after its call of `allocproc`
  unfoldable pub fork_with : ℕ → Option ℕ × Kernel W → Result (Option ℕ × Kernel W)
  fork_with me (none, k) = ok (none, k)
  fork_with me (some i, k) = do
    (dir, w) ← svc.copyuvm (k.procs me).pgdir (k.procs me).sz k.world
    elim dir [
      | none ↦ fork_undone i (record k { world = w })
      | some pgdir ↦ fork_copied me i pgdir (record k { world = w })
    ]

  -- The result is the child's pid, `none` for -1.
  unfoldable pub fork : ℕ → ℤ → Kernel W → Result (Option ℕ × Kernel W)
  fork me tickets k = fork_with me (allocproc forkret trapret svc tickets k)

  -- what `growproc` does with the size that `allocuvm` or `deallocuvm` returns
  abbrev pub resized : ℕ → Kernel W → Result (ℕ × W) → Result (Bool × Kernel W)
  resized me k r = do
    (sz, w) ← r
    ok (
        if sz == 0
        then (false, record k { world = w })
        else (true, record (put k me (record (k.procs me) { sz = sz })) { world = w }))

  -- `growproc`, with true for 0 and false for -1; sizes are unsigned
  unfoldable pub growproc : ℕ → ℤ → Kernel W → Result (Bool × Kernel W)
  growproc me (pos n) k =
      let p = k.procs me in
      if n == 0
      then ok (true, k)
      else resized me k (svc.allocuvm p.pgdir p.sz ((p.sz + n) % 2 ^ 32) k.world)
  growproc me (negsuc n) k =
      let p = k.procs me in
      let newsz = (p.sz + 2 ^ 32 - (n + 1) % 2 ^ 32) % 2 ^ 32 in
      resized me k (svc.deallocuvm p.pgdir p.sz newsz k.world)
