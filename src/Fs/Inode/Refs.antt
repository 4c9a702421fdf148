-- ===== src/Fs/Inode/Refs.antt =====
-- An inode has at most one entry of the cache, and `iget` keeps it so.
use t2_so.Base.{
  ℕ, ◌+◌, ◌<◌, ◌≡◌, ◌≢◌, ◌∙◌, ◌⊎◌, inl, inr, refl, sym, ap, subst, arith, true, false, ◌==◌,
  Bool-cases, Option-cases, update, find_from, find_from-some, find_from-none, ℕ_discrete,
}
use t2_so.Fs.{Blocks, ninode}
use t2_so.Fs.Run.{Run, done, halt, done-injective}
use t2_so.Fs.Inode.{Inode, State, with_inode, is_cached, recycled, iget}

module _ {W : Type 0} (io : Blocks W) where
  -- Two entries in use are for different inodes.
  abbrev pub IsCache : State W → Type 0
  IsCache s =
      (i j : ℕ)
      → i < ninode
      → j < ninode
      → 0 < (s.icache i).ref
      → 0 < (s.icache j).ref
      → (s.icache i).dev ≡ (s.icache j).dev
      → (s.icache i).inum ≡ (s.icache j).inum
      → i ≡ j

  -- what `iget` leaves when it has returned entry `i`
  pub record Got (dev inum i : ℕ) (s s' : State W) : Type 0 where
    pub cache : IsCache s'
    pub small : i < ninode
    pub dev_is : (s'.icache i).dev ≡ dev
    pub inum_is : (s'.icache i).inum ≡ inum
    pub counted : (s'.icache i).ref ≡ (s.icache i).ref + 1
    pub others : (j : ℕ) → j ≢ i → s'.icache j ≡ s.icache j
    pub world : s'.world ≡ s.world
    -- an entry for the inode, or one not in use and then no entry is for it
    pub source :
        ((0 < (s.icache i).ref)
          × (s'.icache i ≡ record (s.icache i) { ref = (s.icache i).ref + 1 }))
        ⊎ (((s.icache i).ref ≡ 0)
            × (s'.icache i ≡ recycled io dev inum (s.icache i))
            × ((j : ℕ) → j < ninode → is_cached io dev inum (s.icache j) ≡ false))

  found-Got :
      (dev inum i : ℕ) (s : State W)
      → IsCache s
      → i < ninode
      → is_cached io dev inum (s.icache i) ≡ true
      → Got dev inum i s (with_inode s i (record (s.icache i) { ref = (s.icache i).ref + 1 }))
  found-Got dev inum i s h lt e = record {
    cache = cache;
    small = lt;
    dev_is = rw self (ground (arith, e));
    inum_is = rw self (ground (arith, e));
    counted = rw self refl;
    others = λ j ne. let off : (i == j) ≡ false = ground (arith, ne) in rw off refl;
    world = refl;
    source = inl (ground (arith, e), rw self refl);
  }
    where
      self : (i == i) ≡ true
      self = ground arith

      now : ℕ → Inode
      now = update s.icache i (record (s.icache i) { ref = (s.icache i).ref + 1 })

      kept :
          (j : ℕ)
          → ((now j).dev ≡ (s.icache j).dev)
            × ((now j).inum ≡ (s.icache j).inum)
            × (0 < (now j).ref → 0 < (s.icache j).ref)
      kept j = elim (Bool-cases (i == j)) [
        | inl hit ↦
            let q : i ≡ j = ground (arith, hit) in
            (
              rw hit (ap (λ x. (s.icache x).dev) q),
              rw hit (ap (λ x. (s.icache x).inum) q),
              λ _. subst (λ x. 0 < (s.icache x).ref) q (ground (arith, e)),
            )
        | inr miss ↦ (rw miss refl, rw miss refl, λ u. rw miss at u)
      ]

      cache : IsCache (with_inode s i (record (s.icache i) { ref = (s.icache i).ref + 1 }))
      cache a b la lb ra rb d n =
          h a b la lb ((kept a).2 ra) ((kept b).2 rb) (sym (kept a).0 ∙ (d ∙ (kept b).0))
            (sym (kept a).1 ∙ (n ∙ (kept b).1))

  recycled-Got :
      (dev inum i : ℕ) (s : State W)
      → IsCache s
      → i < ninode
      → (s.icache i).ref ≡ 0
      → ((j : ℕ) → j < ninode → is_cached io dev inum (s.icache j) ≡ false)
      → Got dev inum i s (with_inode s i (recycled io dev inum (s.icache i)))
  recycled-Got dev inum i s h lt free absent = record {
    cache = cache;
    small = lt;
    dev_is = rw self refl;
    inum_is = rw self refl;
    counted = rw (self, free) refl;
    others = λ j ne. let off : (i == j) ≡ false = ground (arith, ne) in rw off refl;
    world = refl;
    source = inr (free, rw self refl, absent);
  }
    where
      self : (i == i) ≡ true
      self = ground arith

      s' : State W
      s' = with_inode s i (recycled io dev inum (s.icache i))

      -- another entry in use is not for the inode
      other :
          (j : ℕ)
          → j < ninode
          → i ≢ j
          → 0 < (s'.icache j).ref
          → (s'.icache j).dev ≡ dev
          → (s'.icache j).inum ≡ inum
          → i ≡ j
      other j lj ne r d n =
          let off : (i == j) ≡ false = ground (arith, ne) in
          let r₁ = rw off at r in
          let d₁ = rw off at d in
          let n₁ = rw off at n in absurd (ground (arith, absent j lj, r₁, d₁, n₁))

      dev_now : (a : ℕ) → i ≡ a → (s'.icache a).dev ≡ dev
      dev_now a q = ap (λ x. (s'.icache x).dev) (sym q) ∙ rw self refl

      inum_now : (a : ℕ) → i ≡ a → (s'.icache a).inum ≡ inum
      inum_now a q = ap (λ x. (s'.icache x).inum) (sym q) ∙ rw self refl

      kept : (a : ℕ) → i ≢ a → s'.icache a ≡ s.icache a
      kept a ne = let off : (i == a) ≡ false = ground (arith, ne) in rw off refl

      cache : IsCache s'
      cache a b la lb ra rb d n = elim (ℕ_discrete i a) [
        | yes ia ↦ elim (ℕ_discrete i b) [
          | yes ib ↦ sym ia ∙ ib
          | no nb ↦ sym ia ∙ other b lb nb rb (sym d ∙ dev_now a ia) (sym n ∙ inum_now a ia)
        ]
        | no na ↦ elim (ℕ_discrete i b) [
          | yes ib ↦ sym (other a la na ra (d ∙ dev_now b ib) (n ∙ inum_now b ib)) ∙ ib
          | no nb ↦
              let ka : s'.icache a ≡ s.icache a = kept a na in
              let kb : s'.icache b ≡ s.icache b = kept b nb in
              h a b la lb (subst (λ (e : Inode). 0 < e.ref) ka ra)
                (subst (λ (e : Inode). 0 < e.ref) kb rb)
                (ap (λ (e : Inode). e.dev) (sym ka) ∙ (d ∙ ap (λ (e : Inode). e.dev) kb))
                (ap (λ (e : Inode). e.inum) (sym ka) ∙ (n ∙ ap (λ (e : Inode). e.inum) kb))
        ]
      ]

  -- A call of `iget` that returns has found the one entry for the inode, or taken over an entry that
  -- was not in use, since there was none for it. It has counted one reference more, left the other
  -- entries alone, and two entries in use are still for different inodes.
  pub iget-Got :
      (dev inum i : ℕ) (s s' : State W)
      → IsCache s
      → iget io dev inum s ≡ done (i, s')
      → Got dev inum i s s'
  unfolding iget
  iget-Got dev inum i s s' h e =
      elim (Option-cases (find_from (is_cached io dev inum) s.icache ninode 0)) [
        | inl none_ ↦
            elim (Option-cases (find_from (λ (ip : Inode). ip.ref == 0) s.icache ninode 0)) [
              | inl full ↦
                  let stop : Run (ℕ × State W) = halt in
                  let stuck : stop ≡ done (i, s') = sym (rw (iget, none_, full) refl) ∙ e in cc
              | inr (j, free) ↦
                  let (_, lt, unused, _) =
                    find_from-some (λ (ip : Inode). ip.ref == 0) s.icache ninode 0 j free in
                  let out : (j, with_inode s j (recycled io dev inum (s.icache j))) ≡ (i, s') =
                    done-injective (sym (rw (iget, none_, free) refl) ∙ e) in
                  subst (λ (q : ℕ × State W). Got dev inum q.0 s q.1) out
                    (recycled-Got dev inum j s h (omega arith) (ground (arith, unused)) (λ x lx.
                      find_from-none (is_cached io dev inum) s.icache ninode 0 x none_ (omega arith)
                        (omega arith)))
            ]
        | inr (j, some_) ↦
            let (_, lt, hit, _) =
              find_from-some (is_cached io dev inum) s.icache ninode 0 j some_ in
            let out : (j, with_inode s j (record (s.icache j) { ref = (s.icache j).ref + 1 }))
                ≡ (i, s') =
              done-injective (sym (rw (iget, some_) refl) ∙ e) in
            subst (λ (q : ℕ × State W). Got dev inum q.0 s q.1) out
              (found-Got dev inum j s h (omega arith) hit)
      ]
