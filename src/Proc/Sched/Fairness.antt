-- ===== src/Proc/Sched/Fairness.antt =====
-- How far the steps of runnable processes drift apart under the stride scheduler.
use t2_so.Base.{List, [], ◌∷◌}
use t2_so.Base.{ℕ, ◌+◌, ◌%◌, ◌^◌, ◌≤◌, ◌<◌, ◌≡◌, arith, Option, none, some}
use t2_so.Base.{ap, inl, inr, Option-cases, ◌==◌, if◌then◌else◌}
use t2_so.Proc.Table.{Proc, Kernel, Chan, nproc, runnable, sleeping}
use t2_so.Proc.Sleep.{give_up, go_to_sleep}
use t2_so.Proc.Sched.{choose, schedule}
use t2_so.Proc.Sched.Choice.{Runnable, Chosen, choose-Chosen}

-- How the process that the scheduler runs gives up the processor: it calls `yield`, or it sleeps.
pub data TurnEnd : Type 0 where
  by_yield : TurnEnd
  by_sleep : Chan → TurnEnd

-- what a turn does to the process that it runs
abbrev ran : TurnEnd → Proc → Proc
ran by_yield p = record p { step = (p.step + p.size_step) % 2 ^ 32; state = runnable }
ran (by_sleep chan) p = record p {
  step = (p.step + p.size_step) % 2 ^ 32;
  chan = chan;
  state = sleeping;
}

module _ {W : Type 0} where
  -- One turn: the scheduler switches to the process it has chosen, which runs until it calls
  -- `yield` or sleeps. With nothing to choose the turn changes nothing.
  abbrev then_ends : TurnEnd → Option ℕ × Kernel W → Kernel W
  then_ends t (none, k) = k
  then_ends by_yield (some i, k) = give_up i k
  then_ends (by_sleep chan) (some i, k) = go_to_sleep i chan k

  pub turn : TurnEnd → Kernel W → Kernel W
  turn t k = then_ends t (schedule k)

  pub turns : List TurnEnd → Kernel W → Kernel W
  turns [] k = k
  turns (t ∷ ts) k = turns ts (turn t k)

  -- strides as `allocproc` gives them
  abbrev pub StridesBounded : Kernel W → Type 0
  StridesBounded k = (i : ℕ) → i < nproc → (k.procs i).size_step ≤ 200

  -- A runnable process is at most its own stride ahead of every other one.
  abbrev pub IsFair : Kernel W → Type 0
  IsFair k =
      (i j : ℕ)
      → i < nproc
      → j < nproc
      → Runnable k.procs i
      → Runnable k.procs j
      → (k.procs i).step ≤ (k.procs j).step + (k.procs i).size_step

  turn-none : (t : TurnEnd) (k : Kernel W) → choose k.procs ≡ none → turn t k ≡ k
  unfolding turn schedule
  turn-none t k e = let idle : schedule k ≡ (none, k) = rw (schedule, e) in ap (then_ends t) idle

  turn-some :
      (t : TurnEnd) (k : Kernel W) (c i : ℕ)
      → choose k.procs ≡ some c
      → (turn t k).procs i ≡ (if c == i then ran t (k.procs c) else k.procs i)
  unfolding turn schedule give_up go_to_sleep
  turn-some by_yield k c i e = rw (turn, schedule, e) (ground arith)
  turn-some (by_sleep chan) k c i e = rw (turn, schedule, e) (ground arith)

  IsFair-ran :
      (t : TurnEnd) (k : Kernel W) (c : ℕ)
      → choose k.procs ≡ some c
      → Chosen k.procs (some c)
      → StridesBounded k
      → IsFair k
      → IsFair (turn t k)
  IsFair-ran by_yield k c e (lt, run, low, least, first) small fair i j li lj ri rj =
      let at = turn-some by_yield k c in
      ground (arith, at i e, at j e, least i, least j, fair i j, fair i c, small c)
  IsFair-ran (by_sleep chan) k c e (lt, run, low, least, first) small fair i j li lj ri rj =
      let at = turn-some (by_sleep chan) k c in ground (arith, at i e, at j e, fair i j)

  StridesBounded-ran :
      (t : TurnEnd) (k : Kernel W) (c : ℕ)
      → choose k.procs ≡ some c
      → c < nproc
      → StridesBounded k
      → StridesBounded (turn t k)
  StridesBounded-ran by_yield k c e lt small i li =
      ground (arith, turn-some by_yield k c i e, small i, small c)
  StridesBounded-ran (by_sleep chan) k c e lt small i li =
      ground (arith, turn-some (by_sleep chan) k c i e, small i, small c)

  turn-keeps :
      (t : TurnEnd) (k : Kernel W)
      → StridesBounded k
      → IsFair k
      → StridesBounded (turn t k) × IsFair (turn t k)
  turn-keeps t k small fair = elim (Option-cases (choose k.procs)) [
    | inl e ↦ rw (turn-none t k e) (small, fair)
    | inr (c, e) ↦
        let chosen : Chosen k.procs (some c) = rw e at (choose-Chosen k.procs) in
        (StridesBounded-ran t k c e chosen.0 small, IsFair-ran t k c e chosen small fair)
  ]

  -- Take a table in which every stride is at most 200 and no runnable process is more than its own
  -- stride ahead of another runnable one, and any number of turns, in each of which the scheduler
  -- runs the process it has chosen until that yields or sleeps. No runnable process is then more
  -- than its own stride ahead of another runnable one. A `fork`, whose child starts at step 0, and
  -- the waking of a sleeper are not turns.
  pub turns-IsFair :
      (ts : List TurnEnd) (k : Kernel W) → StridesBounded k → IsFair k → IsFair (turns ts k)
  unfolding turns
  turns-IsFair [] k small fair = fair
  turns-IsFair (t ∷ ts) k small fair =
      let (small', fair') = turn-keeps t k small fair in turns-IsFair ts (turn t k) small' fair'
