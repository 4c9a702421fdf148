-- ===== src/Proc/Valid/Boot.antt =====
-- The process table before `userinit`, and the first process that `userinit` of src/proc.c makes.
use t2_so.Base.{panic}
use t2_so.Base.{true}
use t2_so.Base.{ℕ, ◌+◌, ◌^◌, ◌<◌, ◌≡◌, refl, arith, ok, Option, some, none, pos}
use t2_so.Base.{Option-cases, inl, inr, >>=-eq-ok, ok-injective, subst}
use t2_so.Proc.Table.{Kernel, nproc, is_unused}
use t2_so.Proc.Services.{Services}
use t2_so.Proc.Alloc.{allocproc, first_process, userinit}
use t2_so.Proc.Valid.{IsUsed, IsValid, TameAll-IsValid}
use t2_so.Proc.Valid.Ops.{put-TameAll, allocproc-IsValid}
use t2_so.Proc.Valid.Fork.{Fresh, allocproc-Fresh}

-- The static data of proc.c: every entry is free, and the next pid is 1.
abbrev pub IsBooted : {W : Type 0} → Kernel W → Type 0
IsBooted k = ((i : ℕ) → i < nproc → is_unused (k.procs i).state ≡ true) × (k.nextpid ≡ 1)

pub boot-IsValid : {W : Type 0} (k : Kernel W) → IsBooted k → IsValid k
boot-IsValid k (free, one) = record {
  started = omega arith;
  short = omega arith;
  given = λ i li u. ground (arith, free i li);
  distinct = λ i j li lj ui uj e. ground (arith, free i li);
  strides = λ i li u. ground (arith, free i li);
  steps = λ i li u. ground (arith, free i li);
}

module _ {W : Type 0} (forkret trapret : ℕ) (svc : Services W) where
  module _ (initcode : ℕ → ℕ) (initcode_size : ℕ) where
    first_process-IsValid :
        (i pgdir : ℕ) (k : Kernel W) {k' : Kernel W}
        → IsUsed (k.procs i)
        → IsValid k
        → first_process forkret trapret svc initcode initcode_size i pgdir k ≡ ok k'
        → IsValid k'
    unfolding first_process
    first_process-IsValid i pgdir k u v e =
        let (w, _, e₁) = >>=-eq-ok (svc.inituvm pgdir initcode initcode_size k.world) _ e in
        let (r, _, e₂) = >>=-eq-ok (svc.namei _ w) _ e₁ in
        subst IsValid (ok-injective e₂) (TameAll-IsValid k _ (put-TameAll k i _ (ground arith)) v)

    pub userinit-IsValid :
        (k : Kernel W) {k' : Kernel W}
        → k.nextpid + 1 < 2 ^ 31
        → IsValid k
        → userinit forkret trapret svc initcode initcode_size k ≡ ok k'
        → IsValid k'
    unfolding userinit
    userinit-IsValid k room v e =
        made (allocproc forkret trapret svc (pos 500) k)
          (allocproc-Fresh forkret trapret svc (pos 500) k)
          (allocproc-IsValid forkret trapret svc (pos 500) k room v) e
      where
        made :
            (a : Option ℕ × Kernel W) {k' : Kernel W}
            → Fresh forkret trapret svc a
            → IsValid a.1
            → (elim a.0 [
              | none ↦ panic
              | some i ↦ elim (svc.setupkvm a.1.world).0 [
                | none ↦ panic
                | some pgdir ↦
                    first_process forkret trapret svc initcode initcode_size i pgdir
                      (record (a.1) { world = (svc.setupkvm a.1.world).1 })
              ]
            ])
              ≡ ok k'
            → IsValid k'
        made (none, k) u v e = cc
        made (some i, k) u v e = elim (Option-cases (svc.setupkvm k.world).0) [
          | inl d ↦ cc
          | inr (pgdir, d) ↦
              let at = record k { world = (svc.setupkvm k.world).1 } in
              first_process-IsValid i pgdir at u
                (TameAll-IsValid k at ((λ j lj. ground arith), refl) v) (rw d at e)
        ]
