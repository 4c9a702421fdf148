-- ===== src/Proc/Exit.antt =====
-- `exit` and `wait` of src/proc.c. `me` is the entry of the current process, `proc`.
pub mod Reparent
pub mod Laws
pub mod Wait
use t2_so.Base.{
  ℕ, zero, suc, ◌+◌, Bool, true, false, Option, none, some, ◌==◌, if◌then◌else◌, not, ◌||◌,
}
use t2_so.Base.{Result, ok, panic, ◌>>=◌, ◌>>◌, panic_if, update}
use t2_so.Proc.Table.{
  Proc, Kernel, Chan, put, nproc, nofile, unused, zombie, is_zombie, is_child_of,
}
use t2_so.Proc.Services.{Services}
use t2_so.Proc.Sleep.{wakeup1, go_to_sleep}

-- what `wakeup1(p)` wakes for a pointer `p` to a process
abbrev pub chan_of : Option ℕ → Chan
chan_of none = Chan.null
chan_of (some i) = Chan.proc_at i

-- one round of the loop that passes children on to `initproc`
abbrev pub pass_on : ℕ → ℕ → ℕ → (ℕ → Proc) → ℕ → Proc
pass_on me init i procs =
    let procs' = update procs i (record (procs i) { parent = some init }) in
    if is_child_of me (procs i)
    then (if is_zombie (procs i).state then wakeup1 (Chan.proc_at init) procs' else procs')
    else procs

-- the loop, from entry `i` on with `left` to go
unfoldable pub pass_on_from : ℕ → ℕ → ℕ → ℕ → (ℕ → Proc) → ℕ → Proc
pass_on_from me init zero i procs = procs
pass_on_from me init (suc left) i procs =
    pass_on_from me init left (i + 1) (pass_on me init i procs)

-- what the scan of `wait` comes to: a zombie child, or whether there are children at all
pub data Scan : Type 0 where
  found : ℕ → Scan
  over : Bool → Scan

unfoldable pub scan_from : ℕ → (ℕ → Proc) → ℕ → ℕ → Bool → Scan
scan_from me procs zero i havekids = over havekids
scan_from me procs (suc left) i havekids =
    let child = is_child_of me (procs i) in
    let rest = scan_from me procs left (i + 1) (havekids || child) in
    if child then (if is_zombie (procs i).state then found i else rest) else rest

-- `wait` returns a pid or -1 (`none`), or sleeps on its own entry and scans again when woken.
pub data Waited : Type 0 where
  returned : Option ℕ → Waited
  asleep : Waited

module _ {W : Type 0} where
  -- `exit` with `ptable.lock` held, up to its call of `sched`
  unfoldable pub exit_locked : ℕ → Kernel W → Kernel W
  exit_locked me k =
      let woken = wakeup1 (chan_of (k.procs me).parent) k.procs in
      let passed = pass_on_from me k.initproc nproc 0 woken in
      record k { procs = update passed me (record (passed me) { state = zombie }) }

module _ {W : Type 0} (svc : Services W) where
  -- the loop that closes the files, from descriptor `i` on with `left` to go
  unfoldable pub close_files : ℕ → ℕ → (ℕ → Option ℕ) → W → Result ((ℕ → Option ℕ) × W)
  close_files zero i files w = ok (files, w)
  close_files (suc left) i files w = elim (files i) [
    | none ↦ close_files left (i + 1) files w
    | some f ↦ do w' ← svc.fileclose f w; close_files left (i + 1) (update files i none) w'
  ]

  -- `iput(proc->cwd)`; a null directory is dereferenced
  abbrev pub put_cwd : Option ℕ → W → Result W
  put_cwd none w = panic
  put_cwd (some dir) w = svc.iput dir w

  -- the state in which `exit` takes the lock
  abbrev pub closed : ℕ → Kernel W → (ℕ → Option ℕ) → W → Kernel W
  closed me k files w = record (put k me (record (k.procs me) { ofile = files; cwd = none })) {
    world = w;
  }

  unfoldable pub exit : ℕ → Kernel W → Result (Kernel W)
  exit me k = do
    panic_if (me == k.initproc)
    (files, w) ← close_files nofile 0 (k.procs me).ofile k.world
    w' ← put_cwd (k.procs me).cwd w
    ok (exit_locked me (closed me k files w'))

  -- what `wait` does with the zombie child at entry `i`
  unfoldable pub reap : ℕ → Kernel W → Result (Option ℕ × Kernel W)
  reap i k =
      let p = k.procs i in
      do
        w ← svc.kfree p.kstack k.world
        w' ← svc.freevm p.pgdir w
        ok (
          some p.pid,
          record (put k i (record p {
            kstack = 0;
            state = unused;
            pid = 0;
            parent = none;
            name = update p.name 0 0;
            killed = 0;
          })) { world = w' },
        )

  -- what `wait` does after a scan
  unfoldable pub after_scan : ℕ → Kernel W → Scan → Result (Waited × Kernel W)
  after_scan me k (found i) = do (pid, k') ← reap i k; ok (returned pid, k')
  after_scan me k (over havekids) =
      if not havekids || not ((k.procs me).killed == 0)
      then ok (returned none, k)
      else ok (asleep, go_to_sleep me (Chan.proc_at me) k)

  -- one round of `wait`'s outer loop, up to `sched` where it sleeps
  unfoldable pub wait : ℕ → Kernel W → Result (Waited × Kernel W)
  wait me k = after_scan me k (scan_from me k.procs nproc 0 false)
