-- ===== src/Proc/Valid/Fork.antt =====
-- `fork`, `growproc`, `exit` and `wait` against the invariant of the process table.
use t2_so.Base.{ℕ, ◌+◌, ◌^◌, ◌<◌, ◌≡◌, refl, arith, ok, Option, some, none, ℤ, subst}
use t2_so.Base.{Option-cases, inl, inr, find_from, >>=-eq-ok, ok-injective}
use t2_so.Proc.Table.{Kernel, put, nproc, nofile, is_unused}
use t2_so.Proc.Services.{Services}
use t2_so.Proc.Alloc.{with_stack, taken, allocproc, allocproc_at}
use t2_so.Proc.Fork.{
  growproc, resized, fork, fork_with, fork_undone, fork_copied, dup_files, dup_cwd,
}
use t2_so.Base.{
  Bool, Bool-cases, true, false, ◌⊎◌, if◌then◌else◌, Result, pos, negsuc, not, ◌||◌, ◌==◌,
}
use t2_so.Proc.Exit.{Scan, found, over, Waited}
use t2_so.Proc.Exit.{exit, wait, reap, after_scan, exit_locked, closed}
use t2_so.Proc.Exit.Laws.{exit-eq-ok, exit_locked_lem}
use t2_so.Proc.Exit.Reparent.{rouse, adopt}
use t2_so.Proc.Valid.{IsUsed, IsValid, TameAll, TameAll-IsValid}
use t2_so.Proc.Valid.Ops.{put-TameAll, allocproc-IsValid, go_to_sleep-IsValid}

module _ {W : Type 0} (forkret trapret : ℕ) (svc : Services W) where
  -- an entry that `allocproc` returns is in use
  abbrev pub Fresh : Option ℕ × Kernel W → Type 0
  Fresh (none, k) = Unit
  Fresh (some i, k) = IsUsed (k.procs i)

  with_stack-Fresh :
      (i : ℕ) (t : ℤ) (k : Kernel W) (r : Option ℕ × W)
      → Fresh (with_stack forkret trapret svc i t (taken forkret trapret svc i k) r)
  unfolding with_stack taken
  with_stack-Fresh i t k (none, w) = tt
  with_stack-Fresh i t k (some s, w) = ground arith

  pub allocproc-Fresh : (t : ℤ) (k : Kernel W) → Fresh (allocproc forkret trapret svc t k)
  unfolding allocproc allocproc_at
  allocproc-Fresh t k = elim (Option-cases (find_from (λ p. is_unused p.state) k.procs nproc 0)) [
    | inl e ↦ rw (allocproc, e) tt
    | inr (i, e) ↦ rw (allocproc, e) (with_stack-Fresh i t k (svc.kalloc k.world))
  ]

  fork_undone-IsValid :
      (i : ℕ) (k : Kernel W) {r : Option ℕ × Kernel W}
      → IsValid k
      → fork_undone forkret trapret svc i k ≡ ok r
      → IsValid r.1
  unfolding fork_undone
  fork_undone-IsValid i k v e =
      let (w, _, q) = >>=-eq-ok (svc.kfree (k.procs i).kstack k.world) _ e in
      subst (λ x. IsValid x.1) (ok-injective q)
        (TameAll-IsValid k _ (put-TameAll k i _ (ground arith)) v)

  fork_copied-IsValid :
      (me i pgdir : ℕ) (k : Kernel W) {r : Option ℕ × Kernel W}
      → IsUsed (k.procs i)
      → IsValid k
      → fork_copied forkret trapret svc me i pgdir k ≡ ok r
      → IsValid r.1
  unfolding fork_copied
  fork_copied-IsValid me i pgdir k u v e =
      let ((files, w), _, e₁) =
        >>=-eq-ok
          (dup_files forkret trapret svc (k.procs me).ofile nofile 0 (k.procs i).ofile k.world) _
          e in
      let ((cwd, w'), _, e₂) = >>=-eq-ok (dup_cwd forkret trapret svc (k.procs me).cwd w) _ e₁ in
      subst (λ x. IsValid x.1) (ok-injective e₂)
        (TameAll-IsValid k _ (put-TameAll k i _ (ground arith)) v)

  fork_with-IsValid :
      (me : ℕ) (a : Option ℕ × Kernel W) {r : Option ℕ × Kernel W}
      → Fresh a
      → IsValid a.1
      → fork_with forkret trapret svc me a ≡ ok r
      → IsValid r.1
  unfolding fork_with
  fork_with-IsValid me (none, k) u v e = subst (λ x. IsValid x.1) (ok-injective e) v
  fork_with-IsValid me (some i, k) u v e =
      let ((dir, w), _, e₁) =
        >>=-eq-ok (svc.copyuvm (k.procs me).pgdir (k.procs me).sz k.world) _ e in
      copied dir w e₁
    where
      kept : (w : W) → IsValid (record k { world = w })
      kept w = TameAll-IsValid k _ ((λ j lj. ground arith), refl) v

      copied :
          {r : Option ℕ × Kernel W} (dir : Option ℕ) (w : W)
          → (elim dir [
            | none ↦ fork_undone forkret trapret svc i (record k { world = w })
            | some pgdir ↦ fork_copied forkret trapret svc me i pgdir (record k { world = w })
          ])
            ≡ ok r
          → IsValid r.1
      copied none w q = fork_undone-IsValid i (record k { world = w }) (kept w) q
      copied (some pgdir) w q = fork_copied-IsValid me i pgdir (record k { world = w }) u (kept w) q

  pub fork-IsValid :
      (me : ℕ) (t : ℤ) (k : Kernel W) {r : Option ℕ × Kernel W}
      → k.nextpid + 1 < 2 ^ 31
      → IsValid k
      → fork forkret trapret svc me t k ≡ ok r
      → IsValid r.1
  unfolding fork
  fork-IsValid me t k room v =
      fork_with-IsValid me (allocproc forkret trapret svc t k) (allocproc-Fresh t k)
        (allocproc-IsValid forkret trapret svc t k room v)

module _ {W : Type 0} (forkret trapret : ℕ) (svc : Services W) where
  abbrev GrownIsValid : Bool × Kernel W → Type 0
  GrownIsValid r = IsValid r.1

  resized-IsValid :
      (me : ℕ) (k : Kernel W) (a : Result (ℕ × W)) {r : Bool × Kernel W}
      → IsValid k
      → resized forkret trapret svc me k a ≡ ok r
      → IsValid r.1
  resized-IsValid me k a v e =
      let ((sz, w), _, q) = >>=-eq-ok a _ e in
      subst GrownIsValid (ok-injective q) (either sz w (Bool-cases (sz == 0)))
    where
      either :
          (sz : ℕ) (w : W)
          → ((sz == 0) ≡ true) ⊎ ((sz == 0) ≡ false)
          → GrownIsValid (
              if sz == 0
              then (false, record k { world = w })
              else (true, record (put k me (record (k.procs me) { sz = sz })) { world = w }))
      either sz w (inl h) = rw h (TameAll-IsValid k _ ((λ j lj. ground arith), refl) v)
      either sz w (inr h) = rw h (TameAll-IsValid k _ (put-TameAll k me _ (ground arith)) v)

  pub growproc-IsValid :
      (me : ℕ) (n : ℤ) (k : Kernel W) {r : Bool × Kernel W}
      → IsValid k
      → growproc forkret trapret svc me n k ≡ ok r
      → IsValid r.1
  unfolding growproc
  growproc-IsValid me (pos n) k v e = elim (Bool-cases (n == 0)) [
    | inl h ↦ subst (λ x. IsValid x.1) (ok-injective (rw (growproc, h) at e)) v
    | inr h ↦ resized-IsValid me k _ v (rw (growproc, h) at e)
  ]
  growproc-IsValid me (negsuc n) k v e = resized-IsValid me k _ v e

module _ {W : Type 0} (svc : Services W) where
  exit_locked-TameAll : (me : ℕ) (k : Kernel W) → IsUsed (k.procs me) → TameAll k (exit_locked me k)
  unfolding exit_locked rouse adopt
  exit_locked-TameAll me k u = (λ j lj. ground (arith, exit_locked_lem me k j lj), refl)

  pub exit-IsValid :
      (me : ℕ) (k : Kernel W) {k' : Kernel W}
      → IsUsed (k.procs me)
      → IsValid k
      → exit svc me k ≡ ok k'
      → IsValid k'
  exit-IsValid me k u v e =
      let (files, w, w', _, _, q) = exit-eq-ok svc me k e in
      let at = closed svc me k files w' in
      let shut : IsValid at = TameAll-IsValid k _ (put-TameAll k me _ (ground arith)) v in
      subst IsValid q (TameAll-IsValid at _ (exit_locked-TameAll me at (ground arith)) shut)

  reap-IsValid :
      (i : ℕ) (k : Kernel W) {r : Option ℕ × Kernel W}
      → IsValid k
      → reap svc i k ≡ ok r
      → IsValid r.1
  unfolding reap
  reap-IsValid i k v e =
      let (w, _, e₁) = >>=-eq-ok (svc.kfree (k.procs i).kstack k.world) _ e in
      let (w', _, e₂) = >>=-eq-ok (svc.freevm (k.procs i).pgdir w) _ e₁ in
      subst (λ x. IsValid x.1) (ok-injective e₂)
        (TameAll-IsValid k _ (put-TameAll k i _ (ground arith)) v)

  after_scan-IsValid :
      (me : ℕ) (k : Kernel W) (s : Scan) {r : Waited × Kernel W}
      → IsUsed (k.procs me)
      → IsValid k
      → after_scan svc me k s ≡ ok r
      → IsValid r.1
  unfolding after_scan
  after_scan-IsValid me k (found i) u v e =
      let ((pid, k₁), reaped, q) = >>=-eq-ok (reap svc i k) _ e in
      subst (λ x. IsValid x.1) (ok-injective q) (reap-IsValid i k v reaped)
  after_scan-IsValid me k (over b) u v e =
      elim (Bool-cases (not b || not ((k.procs me).killed == 0))) [
        | inl h ↦ subst (λ x. IsValid x.1) (ok-injective (rw (after_scan, h) at e)) v
        | inr h ↦
            subst (λ x. IsValid x.1) (ok-injective (rw (after_scan, h) at e))
              (go_to_sleep-IsValid me _ k u v)
      ]

  pub wait-IsValid :
      (me : ℕ) (k : Kernel W) {r : Waited × Kernel W}
      → IsUsed (k.procs me)
      → IsValid k
      → wait svc me k ≡ ok r
      → IsValid r.1
  unfolding wait
  wait-IsValid me k u v e = after_scan-IsValid me k _ u v e
