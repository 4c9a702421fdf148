-- ===== src/Proc/Sleep.antt =====
-- `wakeup1`, `wakeup` and `kill` of src/proc.c, and the part of `sleep` that runs before `sched`.
-- Each runs with `ptable.lock` held, so it is one step.
pub mod Laws
use t2_so.Base.{ℕ, Bool, true, false, ◌&&◌, ◌==◌, if◌then◌else◌, sweep, find_from, none, some}
use t2_so.Base.{Result, ok, panic, ◌>>=◌, ◌>>◌}
use t2_so.Proc.Table.{Proc, Kernel, Chan, put, nproc, is_sleeping, same_chan, runnable, sleeping}

-- the body of `wakeup1`'s loop
abbrev pub awaken : Chan → Proc → Proc
awaken chan p =
    if is_sleeping p.state && same_chan p.chan chan then record p { state = runnable } else p

unfoldable pub wakeup1 : Chan → (ℕ → Proc) → ℕ → Proc
wakeup1 chan procs = sweep (awaken chan) nproc procs

module _ {W : Type 0} where
  unfoldable pub wakeup : Chan → Kernel W → Kernel W
  wakeup chan k = record k { procs = wakeup1 chan k.procs }

  -- `kill`, with 0 for success and `none` for -1
  unfoldable pub kill : ℕ → Kernel W → Bool × Kernel W
  kill pid k = elim (find_from (λ p. p.pid == pid) k.procs nproc 0) [
    | none ↦ (false, k)
    | some i ↦
        let p = record (k.procs i) { killed = 1 } in
        (true, put k i (if is_sleeping p.state then record p { state = runnable } else p))
  ]

  -- what `sleep` of process `me` changes before it calls `sched`
  unfoldable pub go_to_sleep : ℕ → Chan → Kernel W → Kernel W
  go_to_sleep me chan k = put k me (record (k.procs me) { chan = chan; state = sleeping })

  -- what it changes after `sched` has returned
  unfoldable pub tidy_up : ℕ → Kernel W → Kernel W
  tidy_up me k = put k me (record (k.procs me) { chan = Chan.null })

  -- `yield`, up to its call of `sched`
  unfoldable pub give_up : ℕ → Kernel W → Kernel W
  give_up me k = put k me (record (k.procs me) { state = runnable })
