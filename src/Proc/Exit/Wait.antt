-- ===== src/Proc/Exit/Wait.antt =====
-- What `wait` finds and leaves in the process table.
use t2_so.Base.{◌⊎◌}
use t2_so.Base.{
  ℕ, zero, suc, ◌+◌, ◌≤◌, ◌<◌, ◌≡◌, ◌≢◌, refl, Bool, true, false, arith, Bool-cases, inl, inr,
}
use t2_so.Base.{>>=-eq-ok, ◌==◌, ◌||◌, some, none, Option, ok, dec_lt}
use t2_so.Proc.Table.{Proc, Kernel, Chan, nproc, sleeping, unused, is_zombie, is_child_of}
use t2_so.Proc.Services.{Services}
use t2_so.Proc.Sleep.{go_to_sleep}
use t2_so.Proc.Exit.{scan_from, Scan, found, over, Waited, returned, asleep}
use t2_so.Base.{ok-injective, subst, not}
use t2_so.Proc.Exit.{after_scan}
use t2_so.Proc.Exit.{reap, wait}

-- What a scan of the entries from `i` on says, with `b` for the children seen before.
abbrev pub Scanned : ℕ → (ℕ → Proc) → ℕ → ℕ → Bool → Scan → Type 0
Scanned me procs left i b (found j) =
    (i ≤ j)
    × (j < i + left)
    × (is_child_of me (procs j) ≡ true)
    × (is_zombie (procs j).state ≡ true)
Scanned me procs left i b (over havekids) =
    ((j : ℕ)
      → i ≤ j
      → j < i + left
      → is_child_of me (procs j) ≡ true
      → (is_zombie (procs j).state ≡ false) × (havekids ≡ true))
    × (b ≡ true → havekids ≡ true)
    × (havekids ≡ true
        → (b ≡ true) ⊎ ((j : ℕ) × (i ≤ j) × (j < i + left) × (is_child_of me (procs j) ≡ true)))

-- an entry that is passed over
Scanned-step :
    (me : ℕ) (procs : ℕ → Proc) (left i : ℕ) (b c : Bool) (r : Scan)
    → is_child_of me (procs i) ≡ c
    → (is_child_of me (procs i) ≡ true → is_zombie (procs i).state ≡ false)
    → Scanned me procs left (i + 1) (b || c) r
    → Scanned me procs (suc left) i b r
Scanned-step me procs left i b c (found j) e h (lo, hi, c', z) = (omega arith, omega arith, c', z)
Scanned-step me procs left i b c (over havekids) isc h (all, kept, some_child) = (
  λ j lo hi c. elim (dec_lt i j) [
    | yes lt ↦ all j (omega arith) (omega arith) c
    | no ge ↦
        let q : i ≡ j = omega arith in
        let c' : is_child_of me (procs i) ≡ true = rw q c in (rw (← q) (h c'), kept (ground arith))
  ],
  λ e. kept (ground arith),
  λ e. elim (some_child e) [
    | inl before ↦ elim (Bool-cases b) [
      | inl yes_b ↦ inl yes_b
      | inr no_b ↦ inr (i, omega arith, omega arith, ground arith)
    ]
    | inr (j, lo, hi, c) ↦ inr (j, omega arith, omega arith, c)
  ],
)

scan_from-Scanned :
    (me : ℕ) (procs : ℕ → Proc) (left i : ℕ) (b : Bool)
    → Scanned me procs left i b (scan_from me procs left i b)
unfolding scan_from
scan_from-Scanned me procs zero i b = (λ j lo hi c. absurd (omega arith), λ e. e, λ e. inl e)
scan_from-Scanned me procs (suc left) i b = elim (Bool-cases (is_child_of me (procs i))) [
  | inl child ↦ elim (Bool-cases (is_zombie (procs i).state)) [
    | inl dead ↦ rw (child, dead) (omega arith, omega arith, child, dead)
    | inr live ↦
        rw (child, live)
          (Scanned-step me procs left i b true _ child (λ _. live)
            (scan_from-Scanned me procs left (i + 1) (b || true)))
  ]
  | inr other ↦ rw other (
      Scanned-step me procs left i b false _ other (λ c. cc)
        (scan_from-Scanned me procs left (i + 1) (b || false)))
]

module _ {W : Type 0} (svc : Services W) (me : ℕ) (k : Kernel W) where
  -- What one round of `wait` returns, and what it leaves.
  abbrev pub WaitSays : Waited → Kernel W → Type 0
  WaitSays (returned (some pid)) k' =
      (i : ℕ) × (i < nproc)
      × (is_child_of me (k.procs i) ≡ true)
      × (is_zombie (k.procs i).state ≡ true)
      × (pid ≡ (k.procs i).pid)
      × ((k'.procs i).state ≡ unused)
      × ((j : ℕ) → j ≢ i → k'.procs j ≡ k.procs j)
  WaitSays (returned none) k' =
      ((j : ℕ)
        → j < nproc
        → is_child_of me (k.procs j) ≡ true
        → (is_zombie (k.procs j).state ≡ false) × ((k.procs me).killed ≢ 0))
      × (k' ≡ k)
  WaitSays asleep k' =
      ((j : ℕ)
        → j < nproc
        → is_child_of me (k.procs j) ≡ true
        → is_zombie (k.procs j).state ≡ false)
      × ((j : ℕ) × (j < nproc) × (is_child_of me (k.procs j) ≡ true))
      × ((k.procs me).killed ≡ 0)
      × ((k'.procs me).state ≡ sleeping)
      × ((k'.procs me).chan ≡ Chan.proc_at me)

  reap-WaitSays :
      (i : ℕ) {pid : Option ℕ} {k' : Kernel W}
      → i < nproc
      → is_child_of me (k.procs i) ≡ true
      → is_zombie (k.procs i).state ≡ true
      → reap svc i k ≡ ok (pid, k')
      → WaitSays (returned pid) k'
  unfolding reap
  reap-WaitSays i {pid} {k'} lt c z e =
      let (w, _, e₁) = >>=-eq-ok (svc.kfree (k.procs i).kstack k.world) _ e in
      let (w', _, e₂) = >>=-eq-ok (svc.freevm (k.procs i).pgdir w) _ e₁ in
      subst (λ x. WaitSays (returned x.0) x.1) (ok-injective e₂)
        (i, lt, c, z, refl, ground arith, λ j ne. ground arith)

  after_scan-WaitSays :
      (s : Scan) {r : Waited} {k' : Kernel W}
      → Scanned me k.procs nproc 0 false s
      → after_scan svc me k s ≡ ok (r, k')
      → WaitSays r k'
  unfolding after_scan go_to_sleep
  after_scan-WaitSays (found i) {r} {k'} (lo, hi, c, z) e =
      let ((pid, k₁), reaped, q) = >>=-eq-ok (reap svc i k) _ e in
      subst (λ x. WaitSays x.0 x.1) (ok-injective q) (reap-WaitSays i hi c z reaped)
  after_scan-WaitSays (over havekids) {r} {k'} (all, _, child) e =
      elim (Bool-cases (not havekids || not ((k.procs me).killed == 0))) [
        | inl b ↦
            subst (λ x. WaitSays x.0 x.1) (ok-injective (rw (after_scan, b) at e))
              (
                λ j h ch.
                    let (dead, kids) = all j (omega arith) (omega arith) ch in (dead, ground arith),
                refl,
              )
        | inr b ↦
            subst (λ x. WaitSays x.0 x.1) (ok-injective (rw (after_scan, b) at e))
              (
                λ j h ch. (all j (omega arith) (omega arith) ch).0,
                some_child (child (ground arith)),
                ground arith,
                ground arith,
                ground arith,
              )
      ]
    where
      some_child :
          (false ≡ true) ⊎ ((j : ℕ) × (0 ≤ j) × (j < nproc) × (is_child_of me (k.procs j) ≡ true))
          → (j : ℕ) × (j < nproc) × (is_child_of me (k.procs j) ≡ true)
      some_child (inl h) = cc
      some_child (inr (j, _, lt, c)) = (j, lt, c)

  -- If `wait` returns a pid, it is that of a zombie child, whose entry alone has changed and is now
  -- free. If it returns -1, no child is a zombie, and there is no child unless the caller has been
  -- killed. If it sleeps, on the caller's own entry, there is a child, none is a zombie, and the
  -- caller has not been killed.
  pub wait-WaitSays : {r : Waited} {k' : Kernel W} → wait svc me k ≡ ok (r, k') → WaitSays r k'
  unfolding wait
  wait-WaitSays e = after_scan-WaitSays _ (scan_from-Scanned me k.procs nproc 0 false) e
