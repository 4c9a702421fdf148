-- ===== src/Spinlock/Machine/Inv.antt =====
-- The invariant of a lock that several processors share, and that every step keeps it.
use t2_so.Base.{ℕ, ◌≡◌, ◌≢◌, Bool, true, false, arith, ok, List}
use t2_so.Spinlock.{holding, same_cpu}
use t2_so.Spinlock.Machine.{Pc, spinning, won, inside, cleared, unlocked, Machine, client}
use t2_so.Spinlock.Machine.{begin_acquire, try_xchg, record_owner, begin_release, unlock}
use t2_so.Spinlock.Machine.{end_release, Step, acquire, spin, owner, release, free, leave, other}
use t2_so.Spinlock.Machine.{IsInitial, Reach, start, next}

-- between the `xchg` that won and the `xchg` that frees
abbrev pub owns : Pc → Bool
owns won = true
owns inside = true
owns cleared = true
owns _ = false

abbrev pub is_inside : Pc → Bool
is_inside inside = true
is_inside _ = false

pub record Inv (m : Machine) : Type 0 where
  pub taken : (i : ℕ) → owns (m.pc i) ≡ true → m.lock.locked ≢ 0
  pub unique : (i j : ℕ) → owns (m.pc i) ≡ true → owns (m.pc j) ≡ true → i ≡ j
  pub recorded : (i : ℕ) → same_cpu m.lock.cpu i ≡ is_inside (m.pc i)

pub Inv-holding : {m : Machine} → Inv m → (c : ℕ) → holding m.lock c ≡ is_inside (m.pc c)
unfolding holding
Inv-holding inv c = ground (arith, inv.taken c, inv.recorded c)

module _ {m : Machine} (inv : Inv m) (c : ℕ) where
  begin_acquire-Inv : {m' : Machine} → client (m.pc c) ≡ true → begin_acquire m c ≡ ok m' → Inv m'
  unfolding begin_acquire
  begin_acquire-Inv cl e = record {
    taken = λ i. ground (arith, inv.taken i, Inv-holding inv c);
    unique = λ i j. ground (arith, inv.unique i j, Inv-holding inv c);
    recorded = λ i. ground (arith, inv.recorded i, Inv-holding inv c);
  }

  try_xchg-Inv : m.pc c ≡ spinning → Inv (try_xchg m c)
  unfolding try_xchg
  try_xchg-Inv at = record {
    taken = λ i. ground arith;
    unique = λ i j. ground (arith, inv.unique i j, inv.taken i, inv.taken j);
    recorded = λ i. ground (arith, inv.recorded i);
  }

  record_owner-Inv : (callers : List ℕ) → m.pc c ≡ won → Inv (record_owner m c callers)
  unfolding record_owner
  record_owner-Inv callers at = record {
    taken = λ i. ground (arith, inv.taken c, inv.taken i);
    unique = λ i j. ground (arith, inv.unique i j, inv.unique c j, inv.unique i c);
    recorded = λ i. ground (arith, inv.recorded i, inv.unique c i);
  }

  begin_release-Inv : {m' : Machine} → client (m.pc c) ≡ true → begin_release m c ≡ ok m' → Inv m'
  unfolding begin_release
  begin_release-Inv cl e = record {
    taken = λ i. ground (arith, inv.taken i, inv.taken c, Inv-holding inv c);
    unique =
        λ i j. ground (arith, inv.unique i j, inv.unique c j, inv.unique i c, Inv-holding inv c);
    recorded = λ i. ground (arith, inv.recorded i, inv.unique c i, Inv-holding inv c);
  }

  unlock-Inv : m.pc c ≡ cleared → Inv (unlock m c)
  unfolding unlock
  unlock-Inv at = record {
    taken = λ i. ground (arith, inv.unique c i);
    unique = λ i j. ground (arith, inv.unique i j);
    recorded = λ i. ground (arith, inv.recorded i);
  }

  end_release-Inv : {m' : Machine} → m.pc c ≡ unlocked → end_release m c ≡ ok m' → Inv m'
  unfolding end_release
  end_release-Inv at e = record {
    taken = λ i. ground (arith, inv.taken i);
    unique = λ i j. ground (arith, inv.unique i j);
    recorded = λ i. ground (arith, inv.recorded i);
  }

Step-Inv : {m m' : Machine} → Step m m' → Inv m → Inv m'
Step-Inv (acquire c cl e) inv = begin_acquire-Inv inv c cl e
Step-Inv (spin c at) inv = try_xchg-Inv inv c at
Step-Inv (owner c callers at) inv = record_owner-Inv inv c callers at
Step-Inv (release c cl e) inv = begin_release-Inv inv c cl e
Step-Inv (free c at) inv = unlock-Inv inv c at
Step-Inv (leave c at e) inv = end_release-Inv inv c at e
Step-Inv (other c cpu cl) inv = record {
  taken = inv.taken;
  unique = inv.unique;
  recorded = inv.recorded;
}

IsInitial-Inv : {m : Machine} → IsInitial m → Inv m
IsInitial-Inv {m} h = record {
  taken = λ i. ground (arith, h.idle i);
  unique = λ i j. ground (arith, h.idle i);
  recorded = λ i. ground (arith, h.idle i, h.unowned);
}

pub Reach-Inv : {m₀ m : Machine} → IsInitial m₀ → Reach m₀ m → Inv m
Reach-Inv h start = IsInitial-Inv h
Reach-Inv h (next r st) = Step-Inv st (Reach-Inv h r)
