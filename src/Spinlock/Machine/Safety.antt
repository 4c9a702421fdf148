-- ===== src/Spinlock/Machine/Safety.antt =====
-- What a client of a spin lock may rely on, whatever the other processors do.
use t2_so.Base.{ℕ, ◌≡◌, ◌↔◌, true, arith, panic}
use t2_so.Spinlock.{holding}
use t2_so.Spinlock.Machine.{inside, Machine, begin_acquire, begin_release, IsInitial, Reach}
use t2_so.Spinlock.Machine.Inv.{owns, is_inside, Reach-Inv, Inv-holding}

module _ {m₀ m : Machine} (init : IsInitial m₀) (r : Reach m₀ m) where
  -- In every state that the processors can reach from a lock just initialised, at most one of
  -- them is between the `xchg` of `acquire` that won and the `xchg` of `release` that frees.
  pub mutual_exclusion : (i j : ℕ) → owns (m.pc i) ≡ true → owns (m.pc j) ≡ true → i ≡ j
  mutual_exclusion i j = (Reach-Inv init r).unique i j

  -- In every reachable state `holding`, which reads the shared fields without any lock, is true
  -- for exactly the processor whose client has the lock.
  pub holding-inside : (c : ℕ) → (holding m.lock c ≡ true) ↔ (m.pc c ≡ inside)
  holding-inside c = (λ h. ground (arith, e), λ h. ground (arith, e))
    where
      e : holding m.lock c ≡ is_inside (m.pc c)
      e = Inv-holding (Reach-Inv init r) c

  -- In every reachable state `acquire` panics for exactly the processor whose client has the
  -- lock already, and `release` for every processor but that one.
  pub acquire_release_panic :
      (c : ℕ)
      → ((begin_acquire m c ≡ panic) ↔ (m.pc c ≡ inside))
        × ((begin_release m c ≡ panic) ↔ ¬ (m.pc c ≡ inside))
  unfolding begin_acquire begin_release
  acquire_release_panic c = (
    (λ h. ground (arith, e), λ h. ground (arith, e)),
    (λ h. ground (arith, e), λ h. ground (arith, e)),
  )
    where
      e : holding m.lock c ≡ is_inside (m.pc c)
      e = Inv-holding (Reach-Inv init r) c
