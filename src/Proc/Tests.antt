-- ===== src/Proc/Tests.antt =====
-- The process table at work, over services that hand out pages by counting.
use t2_so.Proc.Alloc.{first_process}
use t2_so.Proc.Alloc.{userinit}
use t2_so.Base.{
  ℕ, ◌+◌, ◌*◌, ◌≤◌, ◌<◌, ◌≡◌, ◌≢◌, ◌⊎◌, refl, true, false, arith, some, none, pos, ok, update,
}
use t2_so.Base.{if◌then◌else◌, ◌==◌, Option, zero, suc, find_from}
use t2_so.Proc.Table.{
  Proc, Kernel, Chan, ProcState, unused, runnable, sleeping, running, zombie, nproc,
}
use t2_so.Proc.Table.{zero_trapframe, is_child_of, nofile}
use t2_so.Proc.Services.{Services}
use t2_so.Base.{List, [], ◌∷◌}
use t2_so.Proc.Alloc.{allocproc}
use t2_so.Proc.Fork.{fork, fork_with, fork_copied, dup_files}
use t2_so.Proc.Alloc.{allocproc_at, with_stack, taken}
use t2_so.Proc.Exit.{close_files, scan_from, after_scan, reap}
use t2_so.Proc.Sched.{least_from}
use t2_so.Proc.Exit.{exit, wait, Waited, asleep}
use t2_so.Proc.Exit.Laws.{exit-orphans}
use t2_so.Proc.Exit.Wait.{wait-WaitSays, WaitSays}
use t2_so.Proc.Sleep.{kill}
use t2_so.Proc.Sched.{choose, schedule}
use t2_so.Proc.Sched.Choice.{Chosen, choose-Chosen}
use t2_so.Proc.Sched.Fairness.{TurnEnd, by_yield, by_sleep, turns, IsFair, turns-IsFair}
use t2_so.Proc.Valid.{IsValid, IsUsed}
use t2_so.Proc.Valid.Reach.{boot, next, inits, forks, schedules, Reach-IsValid}
use t2_so.Proc.Valid.Kill.{marked, BornKilled, kill_lem, kill-zero-BornKilled}

-- The other parts of the kernel keep one counter.
abbrev svc : Services ℕ
svc = record {
  kalloc = λ w. (some (4096 * (w + 1)), w + 1);
  kfree = λ a w. ok w;
  setupkvm = λ w. (some 4096, w);
  inituvm = λ d t n w. ok w;
  copyuvm = λ d n w. ok (some 8192, w);
  freevm = λ d w. ok w;
  allocuvm = λ d old new w. ok (new, w);
  deallocuvm = λ d old new w. ok (new, w);
  filedup = λ f w. ok (f, w);
  fileclose = λ f w. ok w;
  idup = λ i w. (i, w);
  iput = λ i w. ok w;
  namei = λ t w. ok (some 1, w);
}

abbrev free_entry : Proc
free_entry = record {
  sz = 0;
  pgdir = 0;
  kstack = 0;
  state = unused;
  pid = 0;
  parent = none;
  tf_at = 0;
  tf = zero_trapframe;
  returns_to = 0;
  context_at = 0;
  context = record { edi = 0; esi = 0; ebx = 0; ebp = 0; eip = 0 };
  chan = Chan.null;
  killed = 0;
  ofile = λ _. none;
  cwd = none;
  name = λ _. 0;
  step = 0;
  size_step = 0;
}

-- a process with a pid, a parent and a stride
abbrev entry : ProcState → ℕ → Option ℕ → ℕ → Proc
entry st pid parent stride = record free_entry {
  state = st;
  pid = pid;
  parent = parent;
  cwd = some 1;
  size_step = stride;
}

-- the first process, which waits, a child that runs and its own child, a zombie
abbrev procs : ℕ → Proc
procs zero = record (entry sleeping 1 none 20) { chan = Chan.proc_at 0 }
procs (suc zero) = record (entry running 2 (some 0) 20) { ofile = update (λ _. none) 0 (some 9) }
procs (suc (suc zero)) = entry zombie 3 (some 1) 200
procs _ = free_entry

abbrev k : Kernel ℕ
k = record { procs = procs; nextpid = 4; initproc = 0; world = 0 }

-- two runnable processes of different strides
abbrev busy : ℕ → Proc
busy zero = record (entry runnable 1 none 20) { step = 60 }
busy (suc zero) = record (entry runnable 2 (some 0) 200) { step = 40 }
busy _ = free_entry

abbrev kb : Kernel ℕ
kb = record { procs = busy; nextpid = 3; initproc = 0; world = 0 }

choose-Chosen_example : Chosen busy (choose busy)
choose-Chosen_example = choose-Chosen busy

choose_run : choose busy ≡ some 1
unfolding choose least_from
choose_run = refl

busy-bounded : (i : ℕ) → i < nproc → (busy i).size_step ≤ 200
busy-bounded zero h = omega arith
busy-bounded (suc zero) h = omega arith
busy-bounded (suc (suc i)) h = omega arith

busy-IsFair : IsFair kb
busy-IsFair zero zero = λ a b c d. omega arith
busy-IsFair zero (suc zero) = λ a b c d. omega arith
busy-IsFair zero (suc (suc j)) = λ a b c d. cc
busy-IsFair (suc zero) zero = λ a b c d. omega arith
busy-IsFair (suc zero) (suc zero) = λ a b c d. omega arith
busy-IsFair (suc zero) (suc (suc j)) = λ a b c d. cc
busy-IsFair (suc (suc i)) j = λ a b c d. cc

-- the second process yields, the first one sleeps, and the second yields again
abbrev ends : List TurnEnd
ends = by_yield ∷ by_sleep (Chan.object 7) ∷ by_yield ∷ []

turns-IsFair_example : IsFair (turns ends kb)
turns-IsFair_example = turns-IsFair ends kb busy-bounded busy-IsFair

abbrev exited : ℕ → Kernel ℕ
exited me = elim (exit svc me k) [ ok k' ↦ k' | _ ↦ k ]

exit-orphans_example :
    (((exited 1).procs 1).state ≡ zombie)
    × ((fd : ℕ) → fd < nofile → ((exited 1).procs 1).ofile fd ≡ none)
    × (((exited 1).procs 1).cwd ≡ none)
    × ((j : ℕ)
        → j < nproc
        → is_child_of 1 (k.procs j) ≡ true
        → is_child_of k.initproc ((exited 1).procs j) ≡ true)
    × ((j : ℕ) → j < nproc → is_child_of 1 ((exited 1).procs j) ≡ false)
unfolding exit close_files
exit-orphans_example = exit-orphans svc 1 k {k' = exited 1} (omega arith) refl

abbrev waited : Waited × Kernel ℕ
waited = elim (wait svc 1 k) [ ok r ↦ r | _ ↦ (asleep, k) ]

wait-WaitSays_example : WaitSays svc 1 k waited.0 waited.1
unfolding wait after_scan reap scan_from
wait-WaitSays_example = wait-WaitSays svc 1 k {r = waited.0} {k' = waited.1} refl

-- Entry `i` of the table has pid `i + 1`.
procs-facts :
    (i : ℕ)
    → IsUsed (procs i)
    → ((procs i).pid ≡ i + 1)
      × (i < 3)
      × (10 ≤ (procs i).size_step)
      × ((procs i).size_step ≤ 200)
      × ((procs i).step ≡ 0)
procs-facts zero u = omega arith
procs-facts (suc zero) u = omega arith
procs-facts (suc (suc zero)) u = omega arith
procs-facts (suc (suc (suc i))) u = cc

k-IsValid : IsValid k
k-IsValid = record {
  started = omega arith;
  short = omega arith;
  given = λ i li u. omega (arith, procs-facts i u);
  distinct = λ i j li lj ui uj e. omega (arith, procs-facts i ui, procs-facts j uj);
  strides = λ i li u. omega (arith, procs-facts i u);
  steps = λ i li u. omega (arith, procs-facts i u);
}

kill_lem_example :
    (((kill 3 k).0 ≡ false) × ((kill 3 k).1 ≡ k) × ((m : ℕ) → m < nproc → (k.procs m).pid ≢ 3))
    ⊎ (((kill 3 k).0 ≡ true)
        × ((i : ℕ) × (i < nproc)
            × ((k.procs i).pid ≡ 3)
            × ((m : ℕ) → m < i → (k.procs m).pid ≢ 3)
            × ((j : ℕ)
                → (kill 3 k).1.procs j ≡ (if i == j then marked (k.procs i) else k.procs j))))
kill_lem_example = kill_lem 3 k

kill-zero-BornKilled_example :
    ((kill 0 k).0 ≡ true) × BornKilled 7 8 svc (allocproc 7 8 svc (pos 100) (kill 0 k).1)
unfolding find_from
kill-zero-BornKilled_example = kill-zero-BornKilled 7 8 svc (pos 100) k 3 k-IsValid refl refl

-- From boot: the first process is made and chosen, and forks.
abbrev booted : Kernel ℕ
booted = record { procs = λ _. free_entry; nextpid = 1; initproc = 0; world = 0 }

abbrev initcode : ℕ → ℕ
initcode _ = 0

abbrev inited : Kernel ℕ
inited = elim (userinit 7 8 svc initcode 44 booted) [ ok k' ↦ k' | _ ↦ booted ]

abbrev picked : Kernel ℕ
picked = (schedule inited).1

abbrev forked : Option ℕ × Kernel ℕ
forked = elim (fork 7 8 svc 0 (pos 100) picked) [ ok r ↦ r | _ ↦ (none, picked) ]

forked_pids : ((forked.1.procs 0).pid ≡ 1) × ((forked.1.procs 1).pid ≡ 2)
unfolding schedule choose least_from userinit first_process fork fork_with fork_copied allocproc
    allocproc_at with_stack taken find_from dup_files
forked_pids = (refl, refl)

Reach-IsValid_example : IsValid (schedule forked.1).1
unfolding schedule choose least_from userinit first_process fork fork_with fork_copied allocproc
    allocproc_at with_stack taken find_from dup_files
Reach-IsValid_example = Reach-IsValid 7 8 svc initcode 44 (
    next
      (next
        (next (next (boot booted ((λ i li. refl), refl)) (inits {k' = inited} (omega arith) refl))
          schedules)
        (forks 0 (pos 100) {r = forked} (omega arith) refl))
      schedules)
