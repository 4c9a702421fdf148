-- ===== src/Proc/Valid/Kill.antt =====
-- `kill` of src/proc.c: what it marks, and what `kill(0)` does.
use t2_so.Base.{◌⊎◌}
use t2_so.Base.{ℕ, ◌<◌, ◌≡◌, ◌≢◌, true, false, arith, Option, some, none, ℤ}
use t2_so.Base.{
  find_from, find_from-some, find_from-none, find_from-first, find_from-cong, ◌==◌, if◌then◌else◌,
}
use t2_so.Base.{Option-cases, inl, inr, ◌∙◌}
use t2_so.Proc.Table.{Proc, Kernel, nproc, is_unused, is_sleeping, runnable}
use t2_so.Proc.Services.{Services}
use t2_so.Proc.Alloc.{with_stack, taken, allocproc, allocproc_at}
use t2_so.Proc.Sleep.{kill}
use t2_so.Proc.Valid.{IsValid}

-- an entry as `kill` leaves it
abbrev pub marked : Proc → Proc
marked p =
    if is_sleeping p.state
    then record p { killed = 1; state = runnable }
    else record p { killed = 1 }

module _ {W : Type 0} where
  -- `kill` fails, changing nothing, exactly if no entry has the pid. Otherwise it marks the first
  -- entry that has it as killed, makes that entry runnable if it sleeps, and changes no other.
  pub kill_lem :
      (pid : ℕ) (k : Kernel W)
      → (((kill pid k).0 ≡ false)
          × ((kill pid k).1 ≡ k)
          × ((m : ℕ) → m < nproc → (k.procs m).pid ≢ pid))
        ⊎ (((kill pid k).0 ≡ true)
            × ((i : ℕ) × (i < nproc)
                × ((k.procs i).pid ≡ pid)
                × ((m : ℕ) → m < i → (k.procs m).pid ≢ pid)
                × ((j : ℕ)
                    → (kill pid k).1.procs j ≡ (if i == j then marked (k.procs i) else k.procs j))))
  unfolding kill
  kill_lem pid k = elim (Option-cases (find_from (λ p. p.pid == pid) k.procs nproc 0)) [
    | inl e ↦
        let missed = λ (m : ℕ) (lt : m < nproc).
          find_from-none (λ (p : Proc). p.pid == pid) k.procs nproc 0 m e (omega arith)
            (omega arith) in
        inl (rw (kill, e), rw (kill, e), λ m lt. ground (arith, missed m lt))
    | inr (i, e) ↦
        let found = find_from-some (λ (p : Proc). p.pid == pid) k.procs nproc 0 i e in
        inr (
          rw (kill, e),
          (
            i,
            omega (arith, found.1),
            ground (arith, found.2),
            λ m lt. ground (arith, found.3 m (omega arith) lt),
            λ j. rw (kill, e) (ground arith),
          ),
        )
  ]

  module _ (k : Kernel W) (i : ℕ) (v : IsValid k)
      (e : find_from (λ p. is_unused p.state) k.procs nproc 0 ≡ some i)
      (zero_pid : (k.procs i).pid ≡ 0) where
    -- the entries before the first free one have positive pids
    zero-first : find_from (λ p. p.pid == 0) k.procs nproc 0 ≡ some i
    zero-first =
        let found = find_from-some (λ (p : Proc). is_unused p.state) k.procs nproc 0 i e in
        find_from-first (λ (p : Proc). p.pid == 0) k.procs nproc 0 i (omega arith) found.1
          (ground arith) λ m a b. ground (arith, found.1, found.3 m a b, v.given m)

    unused-kill-zero : find_from (λ p. is_unused p.state) (kill 0 k).1.procs nproc 0 ≡ some i
    unfolding kill
    unused-kill-zero =
        rw (kill, zero-first)
          (find_from-cong (λ (p : Proc). is_unused p.state) k.procs _ nproc 0 (λ m. ground arith)
            ∙ e)

  module _ (forkret trapret : ℕ) (svc : Services W) where
    -- an entry that `allocproc` returns keeps its mark
    abbrev pub BornKilled : Option ℕ × Kernel W → Type 0
    BornKilled (none, k) = Unit
    BornKilled (some i, k) = (k.procs i).killed ≡ 1

    with_stack-BornKilled :
        (i : ℕ) (t : ℤ) (k : Kernel W) (r : Option ℕ × W)
        → (k.procs i).killed ≡ 1
        → BornKilled (with_stack forkret trapret svc i t (taken forkret trapret svc i k) r)
    unfolding with_stack taken
    with_stack-BornKilled i t k (none, w) h = tt
    with_stack-BornKilled i t k (some s, w) h = ground arith

    -- In a valid table whose first free entry has pid 0, as an entry has that was never used or
    -- whose process has been waited for, `kill(0)` succeeds, and the process that the next
    -- `allocproc` makes is marked as killed before it has run.
    pub kill-zero-BornKilled :
        (t : ℤ) (k : Kernel W) (i : ℕ)
        → IsValid k
        → find_from (λ p. is_unused p.state) k.procs nproc 0 ≡ some i
        → (k.procs i).pid ≡ 0
        → ((kill 0 k).0 ≡ true) × BornKilled (allocproc forkret trapret svc t (kill 0 k).1)
    unfolding kill allocproc allocproc_at
    kill-zero-BornKilled t k i v e zero_pid =
        let hit = zero-first k i v e zero_pid in
        let still = unused-kill-zero k i v e zero_pid in
        (
          rw (kill, hit),
          rw (allocproc, still)
              (with_stack-BornKilled i t (kill 0 k).1 (svc.kalloc (kill 0 k).1.world)
                (rw (kill, hit) (ground arith))),
        )
