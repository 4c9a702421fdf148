-- ===== src/Spinlock/Tests.antt =====
-- Two processors, the first of which takes the lock while the second spins.
use t2_so.Base.{◌==◌}
use t2_so.Base.{ℕ, ◌≡◌, ◌↔◌, refl, true, false, arith, [], ◌∷◌, ok, panic}
use t2_so.Base.{if◌then◌else◌, update, none}
use t2_so.Spinlock.{Cpu, Spinlock, holding, pushcli}
use t2_so.Spinlock.Machine.{Machine, outside, inside, spinning, begin_acquire, begin_release}
use t2_so.Spinlock.Machine.{try_xchg, record_owner, Reach, start, next, acquire, spin, owner}
use t2_so.Spinlock.Machine.{IsInitial}
use t2_so.Spinlock.Machine.Safety.{mutual_exclusion, acquire_release_panic}
use t2_so.Spinlock.Interrupts.{run, push, pop, nil, pair, run-Nested, Restored, IsConsistent}
use t2_so.Spinlock.Callers.{getcallerpcs}

abbrev idle_cpu : Cpu
idle_cpu = record { ncli = 0; intena = false; interrupts = true }

abbrev fresh_lock : Spinlock
fresh_lock = record { name = 7; locked = 0; cpu = none; pcs = [] }

abbrev m₀ : Machine
m₀ = record { cpus = λ _. idle_cpu; lock = fresh_lock; pc = λ _. outside }

m₀-IsInitial : IsInitial m₀
m₀-IsInitial = record { unlocked = refl; unowned = refl; idle = λ _. refl }

-- processor 0 has called `acquire`, then processor 1
abbrev m₁ : Machine
m₁ = record m₀ {
  cpus = update m₀.cpus 0 (record { ncli = 1; intena = true; interrupts = false });
  pc = update m₀.pc 0 spinning;
}

abbrev m₂ : Machine
m₂ = record m₁ {
  cpus = update m₁.cpus 1 (record { ncli = 1; intena = true; interrupts = false });
  pc = update m₁.pc 1 spinning;
}

-- processor 0 wins the race and records itself, and processor 1 goes on spinning
abbrev m₅ : Machine
m₅ = try_xchg (record_owner (try_xchg m₂ 0) 0 (3 ∷ [])) 1

m₅-Reach : Reach m₀ m₅
unfolding begin_acquire pushcli holding try_xchg record_owner
m₅-Reach =
    next
      (next
        (next (next (next start (acquire 0 {m' = m₁} refl refl)) (acquire 1 {m' = m₂} refl refl))
          (spin 0 refl))
        (owner 0 (3 ∷ []) refl))
      (spin 1 refl)

mutual_exclusion_example : ◌≡◌ {A = ℕ} 0 0
unfolding try_xchg record_owner
mutual_exclusion_example = mutual_exclusion m₀-IsInitial m₅-Reach 0 0 refl refl

acquire_release_panic_example :
    ((begin_acquire m₅ 1 ≡ panic) ↔ (m₅.pc 1 ≡ inside))
    × ((begin_release m₅ 1 ≡ panic) ↔ ¬ (m₅.pc 1 ≡ inside))
acquire_release_panic_example = acquire_release_panic m₀-IsInitial m₅-Reach 1

idle_cpu-IsConsistent : IsConsistent idle_cpu
idle_cpu-IsConsistent = record { masked = λ h. absurd (omega arith) }

run-Nested_example :
    (d : Cpu) × (run (push ∷ push ∷ pop ∷ pop ∷ []) idle_cpu ≡ ok d)
    × Restored idle_cpu d
    × IsConsistent d
run-Nested_example = run-Nested idle_cpu (pair (pair nil nil) nil) idle_cpu-IsConsistent

abbrev frames : ℕ → ℕ
frames a = if a == 0x80001004 then 77 else 0

getcallerpcs_run : getcallerpcs frames 0x80001008 ≡ 77 ∷ 0 ∷ 0 ∷ 0 ∷ 0 ∷ 0 ∷ 0 ∷ 0 ∷ 0 ∷ 0 ∷ []
unfolding getcallerpcs
getcallerpcs_run = refl
