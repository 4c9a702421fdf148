-- ===== src/Proc/Valid.antt =====
-- The invariant of the process table of src/proc.c.
pub mod Ops
pub mod Fork
pub mod Boot
pub mod Reach
pub mod Kill
use t2_so.Base.{ℕ, ◌+◌, ◌^◌, ◌≤◌, ◌<◌, ◌≡◌, ◌≢◌, refl, Bool, true, false, not, arith, ok, Option}
use t2_so.Proc.Table.{Proc, Kernel, nproc, is_unused}

-- the largest stride that `allocproc` gives
abbrev pub max_stride : ℕ
max_stride = 200

abbrev pub IsUsed : Proc → Type 0
IsUsed p = is_unused p.state ≡ false

-- `nextpid` is a positive `int`. The pids of the entries in use are positive, below `nextpid` and
-- all different. Their strides lie between 10 and 200, and the step of each is below the
-- scheduler's limit plus its own stride.
pub record IsValid {W : Type 0} (k : Kernel W) : Type 0 where
  pub started : 0 < k.nextpid
  pub short : k.nextpid < 2 ^ 31
  pub given :
      (i : ℕ)
      → i < nproc
      → IsUsed (k.procs i)
      → (0 < (k.procs i).pid) × ((k.procs i).pid < k.nextpid)
  pub distinct :
      (i j : ℕ)
      → i < nproc
      → j < nproc
      → IsUsed (k.procs i)
      → IsUsed (k.procs j)
      → (k.procs i).pid ≡ (k.procs j).pid
      → i ≡ j
  pub strides :
      (i : ℕ)
      → i < nproc
      → IsUsed (k.procs i)
      → (10 ≤ (k.procs i).size_step) × ((k.procs i).size_step ≤ max_stride)
  pub steps :
      (i : ℕ) → i < nproc → IsUsed (k.procs i) → (k.procs i).step < 5000000 + (k.procs i).size_step

-- A change of an entry that gives no new pid, stride or step.
pub record Tame (p p' : Proc) : Type 0 where
  pub was_used : IsUsed p' → IsUsed p
  pub same_pid : IsUsed p' → p'.pid ≡ p.pid
  pub same_stride : IsUsed p' → p'.size_step ≡ p.size_step
  pub same_step : IsUsed p' → p'.step ≡ p.step

abbrev pub TameAll : {W : Type 0} → Kernel W → Kernel W → Type 0
TameAll k k' = ((i : ℕ) → i < nproc → Tame (k.procs i) (k'.procs i)) × (k'.nextpid ≡ k.nextpid)

pub TameAll-IsValid : {W : Type 0} (k k' : Kernel W) → TameAll k k' → IsValid k → IsValid k'
TameAll-IsValid k k' (tame, np) v = record {
  started = omega (arith, v.started);
  short = omega (arith, v.short);
  given = λ i li u.
      let t = tame i li in
      let (a, b) = v.given i li (t.was_used u) in
      let q = t.same_pid u in (omega arith, omega arith);
  distinct = λ i j li lj ui uj e.
      v.distinct i j li lj ((tame i li).was_used ui) ((tame j lj).was_used uj)
        (omega (arith, (tame i li).same_pid ui, (tame j lj).same_pid uj));
  strides = λ i li u.
      let (a, b) = v.strides i li ((tame i li).was_used u) in
      let q = (tame i li).same_stride u in (omega arith, omega arith);
  steps = λ i li u.
      let a = v.steps i li ((tame i li).was_used u) in
      let q = (tame i li).same_step u in let s = (tame i li).same_stride u in omega arith;
}
