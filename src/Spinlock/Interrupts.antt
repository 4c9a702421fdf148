-- ===== src/Spinlock/Interrupts.antt =====
-- The nesting of `pushcli` and `popcli` (src/spinlock.c).
use t2_so.Base.{◌<◌, ◌≡◌, refl, false, arith, Result, ok, ◌>>=◌}
use t2_so.Base.{List, [], ◌∷◌, ◌++◌}
use mathlib.Core.Path.{fun_ext}
use t2_so.Base.{sym, bind_assoc}
use t2_so.Spinlock.{Cpu, pushcli, popcli}

pub data Op : Type 0 where
  push pop : Op

pub apply : Op → Cpu → Result Cpu
apply push c = ok (pushcli c)
apply pop c = popcli c

-- calls in their order, on one processor
pub run : List Op → Cpu → Result Cpu
run [] c = ok c
run (op ∷ ops) c = apply op c >>= run ops

-- sequences in which every `pushcli` is matched by a later `popcli`
pub data Nested : List Op → Type 0 where
  nil : Nested []
  pair : {a b : List Op} → Nested a → Nested b → Nested (push ∷ a ++ pop ∷ b)

-- Interrupts are off while calls of `pushcli` are open.
pub record IsConsistent (c : Cpu) : Type 0 where
  pub masked : 0 < c.ncli → c.interrupts ≡ false

-- What well nested calls leave as it was. `intena` is only read while a call is open.
pub record Restored (c d : Cpu) : Type 0 where
  pub depth : d.ncli ≡ c.ncli
  pub flag : d.interrupts ≡ c.interrupts
  pub kept : 0 < c.ncli → d.intena ≡ c.intena

run-append : (a b : List Op) (c : Cpu) → run (a ++ b) c ≡ (run a c >>= run b)
unfolding run
run-append [] b c = refl
run-append (op ∷ a) b c =
    rw (fun_ext (run-append a b)) (sym (bind_assoc (apply op c) (run a) (run b)))

pushcli-IsConsistent : (c : Cpu) → IsConsistent (pushcli c)
unfolding pushcli
pushcli-IsConsistent c = record { masked = λ h. refl }

-- the step that closes a pair
popcli-Restored :
    (c d : Cpu)
    → IsConsistent c
    → Restored (pushcli c) d
    → (e : Cpu) × (popcli d ≡ ok e) × Restored c e × IsConsistent e
unfolding pushcli popcli
popcli-Restored c d k r = (
  record d { ncli = c.ncli; interrupts = c.interrupts },
  ground (arith, k.masked, r.depth, r.flag, r.kept),
  ground (arith, k.masked, r.depth, r.flag, r.kept),
  record { masked = k.masked },
)

Restored-trans : {c d e : Cpu} → Restored c d → Restored d e → Restored c e
Restored-trans r s = ground (arith, r.depth, r.flag, r.kept, s.depth, s.flag, s.kept)

-- On a processor whose interrupts are off while calls of `pushcli` are open, well nested calls of
-- `pushcli` and `popcli` never panic. They leave the depth and the interrupt flag as they were,
-- and `intena` too if a call was open already.
pub run-Nested :
    {ops : List Op} (c : Cpu)
    → Nested ops
    → IsConsistent c
    → (d : Cpu) × (run ops c ≡ ok d) × Restored c d × IsConsistent d
unfolding run apply
run-Nested c nil k = (c, refl, record { depth = refl; flag = refl; kept = λ h. refl }, k)
run-Nested c (pair {a} {b} na nb) k =
    let (d, ran_a, r, kd) = run-Nested (pushcli c) na (pushcli-IsConsistent c) in
    let (e, popped, s, ke) = popcli-Restored c d k r in
    let (f, ran_b, t, kf) = run-Nested e nb ke in
    (f, rw (run-append a (pop ∷ b) (pushcli c), ran_a, popped) ran_b, Restored-trans s t, kf)
