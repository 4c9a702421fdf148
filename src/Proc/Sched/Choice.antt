-- ===== src/Proc/Sched/Choice.antt =====
-- The choice of the stride scheduler: the first runnable process with the least step.
use t2_so.Base.{ap}
use t2_so.Base.{ℕ, zero, suc, ◌+◌, ◌≤◌, ◌<◌, ◌≡◌, refl, true, arith, dec_lt, Option, none, some}
use t2_so.Base.{Bool-cases, inl, inr, ◌&&◌, ltb, ap}
use t2_so.Proc.Table.{Proc, nproc, is_runnable}
use t2_so.Proc.Sched.{Best, consider, least_from, choose, step_limit}

module _ (procs : ℕ → Proc) where
  abbrev pub Runnable : ℕ → Type 0
  Runnable m = is_runnable (procs m).state ≡ true

  -- what the loop knows once it has looked at the entries below `i`
  abbrev pub Summary : ℕ → Option ℕ → ℕ → Type 0
  Summary i none min =
      (min ≡ step_limit) × ((m : ℕ) → m < i → Runnable m → step_limit ≤ (procs m).step)
  Summary i (some j) min =
      (j < i)
      × Runnable j
      × ((procs j).step ≡ min)
      × (min < step_limit)
      × ((m : ℕ) → m < i → Runnable m → min ≤ (procs m).step)
      × ((m : ℕ) → m < j → Runnable m → min < (procs m).step)

  Summary-le :
      (i : ℕ) (at : Option ℕ) (min : ℕ)
      → Summary i at min
      → (min ≤ step_limit) × ((m : ℕ) → m < i → Runnable m → min ≤ (procs m).step)
  Summary-le i none min (e, all) = (omega arith, λ m a b. omega (arith, all m a b))
  Summary-le i (some j) min (_, _, _, lt, all, _) = (omega arith, all)

  -- an entry that is not better is passed over
  Summary-pass :
      (i : ℕ) (at : Option ℕ) (min : ℕ)
      → (Runnable i → min ≤ (procs i).step)
      → Summary i at min
      → Summary (i + 1) at min
  Summary-pass i none min h (e, all) = (
    e,
    λ m a b. elim (dec_lt m i) [
      | yes lt ↦ all m lt b
      | no ge ↦
          let q : i ≡ m = omega arith in omega (arith, h (rw q b), ap (λ (x : ℕ). (procs x).step) q)
    ],
  )
  Summary-pass i (some j) min h (lt, run, e, low, all, first) = (
    omega arith,
    run,
    e,
    low,
    λ m a b. elim (dec_lt m i) [
      | yes lt ↦ all m lt b
      | no ge ↦
          let q : i ≡ m = omega arith in omega (arith, h (rw q b), ap (λ (x : ℕ). (procs x).step) q)
    ],
    first,
  )

  consider-Summary :
      (i : ℕ) (b : Best)
      → Summary i b.at b.min
      → Summary (i + 1) (consider procs i b).at (consider procs i b).min
  consider-Summary i b s =
      elim (Bool-cases (is_runnable (procs i).state && ltb (procs i).step b.min)) [
        | inl better ↦
            let (cap, all) = Summary-le i b.at b.min s in
            rw better (
              omega arith,
              ground arith,
              refl,
              ground arith,
              λ m a h. elim (dec_lt m i) [
                | yes lt ↦ ground (arith, all m lt h)
                | no ge ↦
                    let q : i ≡ m = omega arith in omega (arith, ap (λ (x : ℕ). (procs x).step) q)
              ],
              λ m a h. ground (arith, all m a h),
            )
        | inr same ↦ rw same (Summary-pass i b.at b.min (λ r. ground arith) s)
      ]

  least_from-Summary :
      (left i : ℕ) (b : Best)
      → Summary i b.at b.min
      → let r = least_from procs left i b in Summary (i + left) r.at r.min
  unfolding least_from
  least_from-Summary zero i b s = let e : i + zero ≡ i = omega arith in rw e s
  least_from-Summary (suc left) i b s =
      let e : i + 1 + left ≡ i + suc left = omega arith in
      rw (← e) (least_from-Summary left (i + 1) (consider procs i b) (consider-Summary i b s))

  -- What the stride scheduler chooses: a runnable process whose step is below the limit and least
  -- of all runnable ones, the first such in the table; none, exactly if every runnable process has
  -- reached the limit.
  abbrev pub Chosen : Option ℕ → Type 0
  Chosen none = (m : ℕ) → m < nproc → Runnable m → step_limit ≤ (procs m).step
  Chosen (some j) =
      (j < nproc)
      × Runnable j
      × ((procs j).step < step_limit)
      × ((m : ℕ) → m < nproc → Runnable m → (procs j).step ≤ (procs m).step)
      × ((m : ℕ) → m < j → Runnable m → (procs j).step < (procs m).step)

  Summary-Chosen : (r : Option ℕ) (min : ℕ) → Summary nproc r min → Chosen r
  Summary-Chosen none min (e, all) = all
  Summary-Chosen (some j) min (lt, run, e, low, all, first) =
      (lt, run, omega arith, λ m a h. omega (arith, all m a h), λ m a h. omega (arith, first m a h))

  -- The entry that `scheduler` picks is runnable, its step is below the limit and the least of all
  -- runnable entries, and it is the first such entry; it picks none only if every runnable entry
  -- has reached the limit.
  pub choose-Chosen : Chosen (choose procs)
  unfolding choose
  choose-Chosen = Summary-Chosen _ _ (
      least_from-Summary nproc 0 (record { min = step_limit; at = none })
        (refl, λ m a h. absurd (omega arith)))
