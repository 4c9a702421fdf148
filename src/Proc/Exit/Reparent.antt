-- ===== src/Proc/Exit/Reparent.antt =====
-- The loop of `exit` that passes the children on, entry by entry.
use t2_so.Base.{ℕ, zero, suc, ◌+◌, ◌≤◌, ◌<◌, ◌≡◌, ◌∙◌, refl, Bool, false, arith}
use t2_so.Base.{◌==◌, ◌&&◌, ◌||◌, if◌then◌else◌, ltb, leb, update, some}
use t2_so.Proc.Table.{Proc, Chan, nproc, is_zombie, is_child_of}
use t2_so.Proc.Sleep.{awaken}
use t2_so.Proc.Sleep.Laws.{wakeup1_lem}
use t2_so.Proc.Exit.{pass_on, pass_on_from}

module _ (me init : ℕ) where
  -- one of the `left` entries from `i` on is a zombie child
  pub any_zombie : ℕ → ℕ → (ℕ → Proc) → Bool
  any_zombie zero i procs = false
  any_zombie (suc left) i procs =
      (is_child_of me (procs i) && is_zombie (procs i).state) || any_zombie left (i + 1) procs

  -- the entry with its parent replaced, if the loop has come past it
  unfoldable pub adopt : Bool → Proc → Proc
  adopt b p = if b && is_child_of me p then record p { parent = some init } else p

  unfoldable pub rouse : Bool → Proc → Proc
  rouse b p = if b then awaken (Chan.proc_at init) p else p

  unfoldable pub in_range : ℕ → ℕ → ℕ → Bool
  in_range left i j = leb i j && ltb j (i + left)

  pass_on_lem :
      (i : ℕ) (procs : ℕ → Proc) (j : ℕ)
      → j < nproc
      → pass_on me init i procs j
        ≡ rouse (is_child_of me (procs i) && is_zombie (procs i).state) (adopt (i == j) (procs j))
  unfolding rouse adopt
  pass_on_lem i procs j lt = ground (
    arith,
    wakeup1_lem (Chan.proc_at init) (update procs i (record (procs i) { parent = some init })) j,
  )

  any_zombie-pass_on :
      (left n i : ℕ) (procs : ℕ → Proc)
      → n < i
      → i + left ≤ nproc
      → any_zombie left i (pass_on me init n procs) ≡ any_zombie left i procs
  unfolding any_zombie rouse adopt
  any_zombie-pass_on zero n i procs lo hi = refl
  any_zombie-pass_on (suc left) n i procs lo hi =
      ground (arith, any_zombie-pass_on left n (i + 1) procs, pass_on_lem n procs i)

  rouse_twice : (b c : Bool) (p : Proc) → rouse b (rouse c p) ≡ rouse (c || b) p
  unfolding rouse
  rouse_twice b c p = ground arith

  adopt-rouse : (b c : Bool) (p : Proc) → adopt b (rouse c p) ≡ rouse c (adopt b p)
  unfolding rouse adopt
  adopt-rouse b c p = ground arith

  adopt_twice : (a b : Bool) (p : Proc) → adopt b (adopt a p) ≡ adopt (a || b) p
  unfolding adopt
  adopt_twice a b p = ground arith

  in_range-suc : (left i j : ℕ) → in_range (suc left) i j ≡ (i == j || in_range left (i + 1) j)
  unfolding in_range
  in_range-suc left i j = ground arith

  pub pass_on_from_lem :
      (left i : ℕ) (procs : ℕ → Proc) (j : ℕ)
      → j < nproc
      → i + left ≤ nproc
      → pass_on_from me init left i procs j
        ≡ rouse (any_zombie left i procs) (adopt (in_range left i j) (procs j))
  unfolding pass_on_from any_zombie
  pass_on_from_lem zero i procs j lt hi = unfold rouse adopt in_range in ground arith
  pass_on_from_lem (suc left) i procs j lt hi =
      pass_on_from_lem left (i + 1) (pass_on me init i procs) j lt (omega arith)
      ∙ rw (
        any_zombie-pass_on left i (i + 1) procs (omega arith) (omega arith),
        pass_on_lem i procs j lt,
        adopt-rouse,
        adopt_twice,
        rouse_twice,
        in_range-suc,
      )
