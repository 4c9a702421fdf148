-- ===== src/Proc/Valid/Ops.antt =====
-- `wakeup`, `kill`, `sleep`, `yield`, both schedulers and `allocproc` against the invariant of the
-- process table.
use native.Mathlib.Nat.{le-div_iff_mul-le, div-le_of_le-mul}
use t2_so.Base.{dec_lt, ℕ, ◌+◌, ◌%◌, ◌^◌, ◌≤◌, ◌<◌, refl, arith, Option, some, none}
use t2_so.Base.{◌==◌, find_from, find_from-some, Option-cases, inl, inr, ℤ, pos, negsuc}
use t2_so.Proc.Table.{running, is_runnable}
use t2_so.Proc.Table.{Proc, Kernel, Chan, nproc, is_unused, put}
use t2_so.Proc.Services.{Services}
use t2_so.Proc.Alloc.{with_stack, taken, stride, allocproc, allocproc_at}
use t2_so.Proc.Sleep.{wakeup, kill, go_to_sleep, tidy_up, give_up}
use t2_so.Proc.Sleep.Laws.{wakeup1_lem}
use t2_so.Proc.Sched.{choose, schedule, schedule_next}
use t2_so.Proc.Sched.Choice.{Chosen, choose-Chosen}
use t2_so.Proc.Valid.{IsUsed, IsValid, Tame, TameAll, TameAll-IsValid}

stride_bounds : (t : ℤ) → (10 ≤ stride t) × (stride t ≤ 200)
unfolding stride
stride_bounds (pos t) = elim (dec_lt 50 t) [
  | yes lo ↦ elim (dec_lt t 1000) [
    | yes hi ↦
        let a = (le-div_iff_mul-le {k = t} {x = 10} {y = 10000} (omega arith)).1 (omega arith) in
        let b = div-le_of_le-mul t {m = 10000} {n = 200} (omega arith) in ground arith
    | no hi ↦ ground arith
  ]
  | no lo ↦ ground arith
]
stride_bounds (negsuc t) = ground arith

module _ {W : Type 0} where
  pub wakeup-IsValid : (chan : Chan) (k : Kernel W) → IsValid k → IsValid (wakeup chan k)
  unfolding wakeup
  wakeup-IsValid chan k =
      TameAll-IsValid k (wakeup chan k)
        (λ i lt. ground (arith, wakeup1_lem chan k.procs i lt), refl)

  pub put-TameAll : (k : Kernel W) (i : ℕ) (p : Proc) → Tame (k.procs i) p → TameAll k (put k i p)
  put-TameAll k i p t = (λ j lt. ground (arith, t), refl)

  pub kill-IsValid : (pid : ℕ) (k : Kernel W) → IsValid k → IsValid (kill pid k).1
  unfolding kill
  kill-IsValid pid k v = elim (Option-cases (find_from (λ p. p.pid == pid) k.procs nproc 0)) [
    | inl e ↦ rw (kill, e) v
    | inr (i, e) ↦ rw (kill, e) (TameAll-IsValid k _ (put-TameAll k i _ (ground arith)) v)
  ]

  pub go_to_sleep-IsValid :
      (me : ℕ) (chan : Chan) (k : Kernel W)
      → IsUsed (k.procs me)
      → IsValid k
      → IsValid (go_to_sleep me chan k)
  unfolding go_to_sleep
  go_to_sleep-IsValid me chan k u = TameAll-IsValid k _ (put-TameAll k me _ (ground arith))

  pub tidy_up-IsValid : (me : ℕ) (k : Kernel W) → IsValid k → IsValid (tidy_up me k)
  unfolding tidy_up
  tidy_up-IsValid me k = TameAll-IsValid k _ (put-TameAll k me _ (ground arith))

  pub give_up-IsValid :
      (me : ℕ) (k : Kernel W) → IsUsed (k.procs me) → IsValid k → IsValid (give_up me k)
  unfolding give_up
  give_up-IsValid me k u = TameAll-IsValid k _ (put-TameAll k me _ (ground arith))

  -- an entry whose step grows by its stride, below the limit
  pub schedule-IsValid : (k : Kernel W) → IsValid k → IsValid (schedule k).1
  unfolding schedule
  schedule-IsValid k v = elim (Option-cases (choose k.procs)) [
    | inl e ↦ rw (schedule, e) v
    | inr (c, e) ↦
        let chosen : Chosen k.procs (some c) = rw e at (choose-Chosen k.procs) in
        rw (schedule, e) (ran c chosen)
  ]
    where
      ran :
          (c : ℕ)
          → Chosen k.procs (some c)
          → let p = k.procs c in
            IsValid (put k c (record p { step = (p.step + p.size_step) % 2 ^ 32; state = running }))
      ran c (lt, run, low, _, _) = record {
        started = v.started;
        short = v.short;
        given = λ i li u. ground (arith, v.given i li, v.given c lt);
        distinct = λ i j li lj ui uj q.
            ground (arith, v.distinct i j li lj, v.distinct c j lt lj, v.distinct i c li lt);
        strides = λ i li u. ground (arith, v.strides i li, v.strides c lt);
        steps = λ i li u. ground (arith, v.steps i li, v.strides c lt);
      }

  pub schedule_next-IsValid :
      (left i : ℕ) (k : Kernel W) → IsValid k → IsValid (schedule_next left i k).1
  unfolding schedule_next
  schedule_next-IsValid left i k v =
      elim (Option-cases (find_from (λ p. is_runnable p.state) k.procs left i)) [
        | inl e ↦ rw (schedule_next, e) v
        | inr (j, e) ↦
            let (_, _, ready, _) = find_from-some (λ p. is_runnable p.state) k.procs left i j e in
            rw (schedule_next, e)
              (TameAll-IsValid k _ (put-TameAll k j _ (ground (arith, ready))) v)
      ]

  module _ (forkret trapret : ℕ) (svc : Services W) where
    with_stack-IsValid :
        (i : ℕ) (t : ℤ) (k : Kernel W) (r : Option ℕ × W)
        → i < nproc
        → k.nextpid + 1 < 2 ^ 31
        → IsValid k
        → IsValid (with_stack forkret trapret svc i t (taken forkret trapret svc i k) r).1
    unfolding with_stack taken
    with_stack-IsValid i t k (none, w) lt room v = record {
      started = ground (arith, v.started);
      short = ground (arith, v.short);
      given = λ j lj u. ground (arith, v.given j lj);
      distinct = λ a b la lb ua ub q. ground (arith, v.distinct a b la lb);
      strides = λ j lj u. ground (arith, v.strides j lj);
      steps = λ j lj u. ground (arith, v.steps j lj);
    }
    with_stack-IsValid i t k (some s, w) lt room v = record {
      started = ground (arith, v.started);
      short = ground (arith, v.short);
      given = λ j lj u. ground (arith, v.given j lj, v.started);
      distinct =
          λ a b la lb ua ub q. ground (arith, v.distinct a b la lb, v.given a la, v.given b lb);
      strides = λ j lj u. ground (arith, v.strides j lj, stride_bounds t);
      steps = λ j lj u. ground (arith, v.steps j lj, stride_bounds t);
    }

    -- A new process gets a pid that no other has, as long as the counter stays a positive `int`.
    pub allocproc-IsValid :
        (t : ℤ) (k : Kernel W)
        → k.nextpid + 1 < 2 ^ 31
        → IsValid k
        → IsValid (allocproc forkret trapret svc t k).1
    unfolding allocproc allocproc_at
    allocproc-IsValid t k room v =
        elim (Option-cases (find_from (λ p. is_unused p.state) k.procs nproc 0)) [
          | inl e ↦ rw (allocproc, e) v
          | inr (i, e) ↦
              let found = find_from-some (λ p. is_unused p.state) k.procs nproc 0 i e in
              rw (allocproc, e)
                (with_stack-IsValid i t k (svc.kalloc k.world) (omega (arith, found.1)) room v)
        ]
