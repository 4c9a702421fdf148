-- ===== src/Proc/Exit/Laws.antt =====
-- What `exit` leaves in the process table.
use t2_so.Base.{ℕ, zero, suc, ◌+◌, ◌<◌, ◌≡◌, ◌≢◌, Bool, true, false, arith, inl, inr}
use t2_so.Base.{
  >>=-eq-ok, Option-cases, ◌==◌, ◌&&◌, if◌then◌else◌, ltb, leb, update, none, Option, ok, panic,
}
use t2_so.Proc.Table.{Proc, Kernel, Chan, nproc, nofile, zombie, is_child_of}
use t2_so.Proc.Services.{Services}
use t2_so.Proc.Sleep.{wakeup1, awaken}
use t2_so.Proc.Sleep.Laws.{wakeup1_lem}
use t2_so.Proc.Exit.{chan_of}
use t2_so.Base.{panic_if}
use t2_so.Proc.Exit.{closed, put_cwd}
use t2_so.Proc.Exit.{close_files, exit_locked, exit}
use t2_so.Proc.Exit.Reparent.{any_zombie, adopt, rouse, in_range, pass_on_from_lem}

module _ (me init : ℕ) (b : Bool) (c : Chan) (i : ℕ) where
  -- what the three loops of `exit` do to one entry
  abbrev after_loops : Proc → Proc
  after_loops p = rouse me init b (adopt me init (in_range me init nproc 0 i) (awaken c p))

  after_loops-files : (p : Proc) → ((after_loops p).ofile ≡ p.ofile) × ((after_loops p).cwd ≡ p.cwd)
  unfolding rouse adopt
  after_loops-files p = (ground arith, ground arith)

  after_loops-parent :
      (p : Proc)
      → i < nproc
      → me ≢ init
      → (is_child_of me p ≡ true → is_child_of init (after_loops p) ≡ true)
        × (is_child_of me (after_loops p) ≡ false)
  unfolding rouse adopt in_range
  after_loops-parent p lt ne = (λ h. ground arith, ground arith)

module _ {W : Type 0} where
  pub exit_locked_lem :
      (me : ℕ) (k : Kernel W) (j : ℕ)
      → j < nproc
      → let woken = wakeup1 (chan_of (k.procs me).parent) k.procs in
        let p = rouse me k.initproc (any_zombie me k.initproc nproc 0 woken) (
          adopt me k.initproc
            (in_range me k.initproc nproc 0 j)
            (awaken (chan_of (k.procs me).parent) (k.procs j))) in
        (exit_locked me k).procs j ≡ (if me == j then record p { state = zombie } else p)
  unfolding exit_locked
  exit_locked_lem me k j lt = ground (
    arith,
    pass_on_from_lem me k.initproc nproc 0 (wakeup1 (chan_of (k.procs me).parent) k.procs) j lt
        (omega arith),
    wakeup1_lem (chan_of (k.procs me).parent) k.procs j lt,
  )

  exit_locked-entry :
      (me : ℕ) (k : Kernel W) (j : ℕ)
      → me < nproc
      → j < nproc
      → me ≢ k.initproc
      → (((exit_locked me k).procs me).state ≡ zombie)
        × (((exit_locked me k).procs me).ofile ≡ (k.procs me).ofile)
        × (((exit_locked me k).procs me).cwd ≡ (k.procs me).cwd)
        × (is_child_of me (k.procs j) ≡ true
            → is_child_of k.initproc ((exit_locked me k).procs j) ≡ true)
        × (is_child_of me ((exit_locked me k).procs j) ≡ false)
  exit_locked-entry me k j lm lj ne =
      let c = chan_of (k.procs me).parent in
      let b = any_zombie me k.initproc nproc 0 (wakeup1 c k.procs) in
      let at_me = exit_locked_lem me k me lm in
      let at_j = exit_locked_lem me k j lj in
      let kept = after_loops-files me k.initproc b c me (k.procs me) in
      let parent = after_loops-parent me k.initproc b c j (k.procs j) lj ne in
      (
        ground (arith, at_me),
        ground (arith, at_me, kept),
        ground (arith, at_me, kept),
        λ ch. ground (arith, at_j, parent),
        ground (arith, at_j, parent),
      )

  pub close_files_lem :
      (svc : Services W) (left i : ℕ) (files : ℕ → Option ℕ) (w : W) {files' : ℕ → Option ℕ}
      {w' : W}
      → close_files svc left i files w ≡ ok (files', w')
      → (fd : ℕ) → files' fd ≡ (if leb i fd && ltb fd (i + left) then none else files fd)
  unfolding close_files
  close_files_lem svc zero i files w e fd = ground arith
  close_files_lem svc (suc left) i files w e fd = elim (Option-cases (files i)) [
    | inl q ↦
        let e' = rw (close_files, q) at e in
        ground (arith, close_files_lem svc left (i + 1) files w e' fd)
    | inr (f, q) ↦
        let e' = rw (close_files, q) at e in
        let (w₁, _, rest) = >>=-eq-ok (svc.fileclose f w) _ e' in
        ground (arith, close_files_lem svc left (i + 1) (update files i none) w₁ rest fd)
  ]

module _ {W : Type 0} (svc : Services W) (me : ℕ) (k : Kernel W) where
  -- `exit` halts the machine for the first process.
  pub exit-initproc : me ≡ k.initproc → exit svc me k ≡ panic
  unfolding exit
  exit-initproc e = ground arith

  pub exit-eq-ok :
      {k' : Kernel W}
      → exit svc me k ≡ ok k'
      → (files : ℕ → Option ℕ) × (w : W) × (w' : W) × (me ≢ k.initproc)
        × (close_files svc nofile 0 (k.procs me).ofile k.world ≡ ok (files, w))
        × (exit_locked me (closed svc me k files w') ≡ k')
  unfolding exit
  exit-eq-ok e =
      let (_, p, e₁) = >>=-eq-ok (panic_if (me == k.initproc)) _ e in
      let ((files, w), c, e₂) =
        >>=-eq-ok (close_files svc nofile 0 (k.procs me).ofile k.world) _ e₁ in
      let (w', _, e₃) = >>=-eq-ok (put_cwd svc (k.procs me).cwd w) _ e₂ in
      (files, w, w', ground arith, c, cc)

  -- When `exit` of a process other than the first reaches `sched`, the process is a zombie, its
  -- files and its directory are closed, each of its children has become a child of the first
  -- process, and no entry is its child any more.
  pub exit-orphans :
      {k' : Kernel W}
      → me < nproc
      → exit svc me k ≡ ok k'
      → ((k'.procs me).state ≡ zombie)
        × ((fd : ℕ) → fd < nofile → (k'.procs me).ofile fd ≡ none)
        × ((k'.procs me).cwd ≡ none)
        × ((j : ℕ)
            → j < nproc
            → is_child_of me (k.procs j) ≡ true
            → is_child_of k.initproc (k'.procs j) ≡ true)
        × ((j : ℕ) → j < nproc → is_child_of me (k'.procs j) ≡ false)
  unfolding exit
  exit-orphans {k'} lt e =
      let (files, w, w', ne, c, q) = exit-eq-ok e in
      let entry =
        λ (j : ℕ) (lj : j < nproc). exit_locked-entry me (closed svc me k files w') j lt lj ne in
      let mine = entry me lt in
      let shut = close_files_lem svc nofile 0 (k.procs me).ofile k.world c in
      rw (← q) (
        mine.0,
        λ fd h. ground (arith, mine.1, shut fd),
        ground (arith, mine.2),
        λ j h ch. (entry j h).3 (ground arith),
        λ j h. (entry j h).4,
      )
