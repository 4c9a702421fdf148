-- ===== src/Proc/Valid/Reach.antt =====
-- The process table of src/proc.c from boot on, each call one step.
use t2_so.Base.{ℕ, ◌+◌, ◌^◌, ◌<◌, ◌≡◌, Bool, ok, Option, ℤ}
use t2_so.Proc.Table.{Kernel, Chan}
use t2_so.Proc.Services.{Services}
use t2_so.Proc.Alloc.{userinit}
use t2_so.Proc.Fork.{fork, growproc}
use t2_so.Proc.Exit.{exit, wait, Waited}
use t2_so.Proc.Sleep.{wakeup, kill, go_to_sleep, tidy_up, give_up}
use t2_so.Proc.Sched.{schedule, schedule_next}
use t2_so.Proc.Valid.{IsUsed, IsValid}
use t2_so.Proc.Valid.Ops.{wakeup-IsValid, kill-IsValid, go_to_sleep-IsValid, tidy_up-IsValid}
use t2_so.Proc.Valid.Ops.{give_up-IsValid, schedule-IsValid, schedule_next-IsValid}
use t2_so.Proc.Valid.Fork.{fork-IsValid, growproc-IsValid, exit-IsValid, wait-IsValid}
use t2_so.Proc.Valid.Boot.{IsBooted, boot-IsValid, userinit-IsValid}

-- The text of initcode.S and its size are the linker's.
module _ {W : Type 0} (forkret trapret : ℕ) (svc : Services W) (initcode : ℕ → ℕ)
    (initcode_size : ℕ) where
  -- A call by the process at entry `me`, the call of `userinit`, or a turn of one
  -- of the schedulers. Before `userinit` and `fork` the counter of pids is short of the largest
  -- `int`.
  pub data Step (k : Kernel W) : Kernel W → Type 0 where
    inits :
        {k' : Kernel W}
        → k.nextpid + 1 < 2 ^ 31
        → userinit forkret trapret svc initcode initcode_size k ≡ ok k'
        → Step k k'
    forks :
        (me : ℕ) (tickets : ℤ) {r : Option ℕ × Kernel W}
        → k.nextpid + 1 < 2 ^ 31
        → fork forkret trapret svc me tickets k ≡ ok r
        → Step k r.1
    grows :
        (me : ℕ) (n : ℤ) {r : Bool × Kernel W}
        → growproc forkret trapret svc me n k ≡ ok r
        → Step k r.1
    exits : (me : ℕ) {k' : Kernel W} → IsUsed (k.procs me) → exit svc me k ≡ ok k' → Step k k'
    waits :
        (me : ℕ) {r : Waited × Kernel W} → IsUsed (k.procs me) → wait svc me k ≡ ok r → Step k r.1
    kills : (pid : ℕ) → Step k (kill pid k).1
    wakes : (chan : Chan) → Step k (wakeup chan k)
    sleeps : (me : ℕ) (chan : Chan) → IsUsed (k.procs me) → Step k (go_to_sleep me chan k)
    resumes : (me : ℕ) → Step k (tidy_up me k)
    yields : (me : ℕ) → IsUsed (k.procs me) → Step k (give_up me k)
    schedules : Step k (schedule k).1
    picks : (left i : ℕ) → Step k (schedule_next left i k).1

  -- the tables that a kernel comes to from the one that it is loaded with
  pub data Reach : Kernel W → Type 0 where
    boot : (k : Kernel W) → IsBooted k → Reach k
    next : {k₁ k₂ : Kernel W} → Reach k₁ → Step k₁ k₂ → Reach k₂

  Step-IsValid : {k k' : Kernel W} → Step k k' → IsValid k → IsValid k'
  Step-IsValid {k} (inits room e) v =
      userinit-IsValid forkret trapret svc initcode initcode_size k room v e
  Step-IsValid {k} (forks me t room e) v = fork-IsValid forkret trapret svc me t k room v e
  Step-IsValid {k} (grows me n e) v = growproc-IsValid forkret trapret svc me n k v e
  Step-IsValid {k} (exits me u e) v = exit-IsValid svc me k u v e
  Step-IsValid {k} (waits me u e) v = wait-IsValid svc me k u v e
  Step-IsValid {k} (kills pid) v = kill-IsValid pid k v
  Step-IsValid {k} (wakes chan) v = wakeup-IsValid chan k v
  Step-IsValid {k} (sleeps me chan u) v = go_to_sleep-IsValid me chan k u v
  Step-IsValid {k} (resumes me) v = tidy_up-IsValid me k v
  Step-IsValid {k} (yields me u) v = give_up-IsValid me k u v
  Step-IsValid {k} schedules v = schedule-IsValid k v
  Step-IsValid {k} (picks left i) v = schedule_next-IsValid left i k v

  -- Start from the table at boot, with every entry free and `nextpid` 1, and take any sequence of
  -- `userinit`, `fork`, `growproc`, `exit`, `wait`, `kill`, `wakeup`, `sleep` (before and after it
  -- has slept), `yield` and turns of either scheduler; `exit`, `wait`, `sleep` and `yield` are
  -- called by an entry in use, and `userinit` and `fork` while `nextpid + 1` is below 2^31. At every
  -- point `nextpid` is a positive `int`; the entries in use have different, positive pids below it
  -- and strides from 10 to 200; and the step of each is below 5000000, the scheduler's limit, plus
  -- its own stride.
  pub Reach-IsValid : {k : Kernel W} → Reach k → IsValid k
  Reach-IsValid (boot k b) = boot-IsValid k b
  Reach-IsValid (next r st) = Step-IsValid st (Reach-IsValid r)
