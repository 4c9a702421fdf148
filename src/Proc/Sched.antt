-- ===== src/Proc/Sched.antt =====
-- `scheduler` of src/proc.c: the choice that its two loops make, and what they change before they
-- switch to the process chosen.
pub mod Choice
pub mod Fairness
use t2_so.Base.{ℕ, zero, suc, ◌+◌, ◌%◌, ◌^◌, Bool, true, false, ◌&&◌, ◌==◌, ltb, if◌then◌else◌}
use t2_so.Base.{find_from, Option, none, some, update}
use t2_so.Proc.Table.{Proc, Kernel, put, nproc, is_runnable, running}

-- The least `step` so far and the entry that has it, `min` and `minP`.
pub record Best : Type 0 where
  pub min : ℕ
  pub at : Option ℕ

-- the body of the loop that looks for the least step
abbrev pub consider : (ℕ → Proc) → ℕ → Best → Best
consider procs i b =
    if is_runnable (procs i).state && ltb (procs i).step b.min
    then record { min = (procs i).step; at = some i }
    else b

unfoldable pub least_from : (ℕ → Proc) → ℕ → ℕ → Best → Best
least_from procs zero i b = b
least_from procs (suc left) i b = least_from procs left (i + 1) (consider procs i b)

-- A process whose step has reached this limit is not run again.
abbrev pub step_limit : ℕ
step_limit = 5000000

unfoldable pub choose : (ℕ → Proc) → Option ℕ
choose procs = (least_from procs nproc 0 (record { min = step_limit; at = none })).at

module _ {W : Type 0} where
  -- the stride scheduler (`s == 0`): what runs before `swtch`, and the process that is run
  unfoldable pub schedule : Kernel W → Option ℕ × Kernel W
  schedule k = elim (choose k.procs) [
    | none ↦ (none, k)
    | some i ↦
        let p = k.procs i in
        (some i, put k i (record p { step = (p.step + p.size_step) % 2 ^ 32; state = running }))
  ]

  -- The first scheduler (`s != 0`), which runs every runnable process in the order of the table.
  -- It looks at the entries from `i` on, `left` of them.
  unfoldable pub schedule_next : ℕ → ℕ → Kernel W → Option ℕ × Kernel W
  schedule_next left i k = elim (find_from (λ p. is_runnable p.state) k.procs left i) [
    | none ↦ (none, k)
    | some j ↦ (some j, put k j (record (k.procs j) { state = running }))
  ]
