-- ===== src/Log/Commit.antt =====
-- What `commit_trans` leaves on the disk, wherever the power is lost.
use t2_so.Log.Atomic.{install_and_clear-disk}
use t2_so.Base.{
  ℕ, ◌+◌, ◌-◌, ◌<◌, ◌≡◌, ◌≢◌, inl, inr, ◌∙◌, refl, arith, update, ◌==◌, sym, ap, update_self, ltb,
  Bool-cases, true, false, if◌then◌else◌, min,
}
use t2_so.Disk.{Block, look, bread, modify, bwrite}
use t2_so.Disk.Laws.{look-bread, look-modify, look-bwrite}
use t2_so.Log.{Log, commit, commit_trans, install_and_clear, write_head}
use t2_so.Log.Spec.{replay, HomesBelow}
use t2_so.Log.Install.{IsCoherent}
use t2_so.Log.Head.{header, header-words, write_head-disk}
use t2_so.Log.Atomic.{replay-update_start, IsLogged, StandsFor, install_and_clear-StandsFor}

-- a log as it is before `commit_trans`: the header on the disk is still empty
pub record IsReady (l : Log) : Type 0 where
  pub empty : l.bufs.disk l.start 0 ≡ 0
  pub below : HomesBelow l.start l.sector l.n
  pub coherent : IsCoherent l.n l

-- `write_head` leaves the log blocks and the homes as they are.
write_head-look : (l : Log) (x : ℕ) → x ≢ l.start → look (write_head l).bufs x ≡ look l.bufs x
unfolding write_head
write_head-look l x ne =
    let ne' : l.start ≢ x = λ e. ne (sym e) in
    let off : (l.start == x) ≡ false = ground (arith, ne') in
    simp (look-bwrite, look-modify, look-bread, off)

write_head-power : (l : Log) → (write_head l).bufs.power ≡ l.bufs.power - 1
unfolding write_head bwrite modify bread
write_head-power l = refl

write_head-IsCoherent : (l : Log) → IsReady l → IsCoherent l.n (write_head l)
unfolding write_head
write_head-IsCoherent l h t lt =
    write_head-look l (l.start + t + 1) (λ e. omega arith)
    ∙ (h.coherent t lt
        ∙ sym (ap (λ (d : ℕ → Block). d (l.start + t + 1)) (write_head-disk l) ∙ kept))
  where
    kept :
        (if l.bufs.power == 0 then l.bufs.disk else update l.bufs.disk l.start (header l))
          (l.start + t + 1)
        ≡ l.bufs.disk (l.start + t + 1)
    kept = ground arith

write_head-IsLogged : (l : Log) → IsReady l → 0 < l.bufs.power → IsLogged (write_head l)
unfolding write_head
write_head-IsLogged l h lt =
    let on : (l.bufs.power == 0) ≡ false = ground arith in
    let (zeroth, rest) = header-words l in
    let disk : (write_head l).bufs.disk ≡ update l.bufs.disk l.start (header l) =
      write_head-disk l ∙ rw on in
    let head : (write_head l).bufs.disk l.start ≡ header l =
      ap (λ (d : ℕ → Block). d l.start) disk ∙ update_self l.bufs.disk l.start (header l) in
    record {
      count = rw head zeroth;
      sectors = λ i lt'. rw head (rest i lt');
      below = h.below;
      coherent = write_head-IsCoherent l h;
    }

-- without power nothing reaches the disk
no_power :
    (l : Log)
    → IsReady l
    → l.bufs.power ≡ 0
    → (install_and_clear (write_head l)).bufs.disk ≡ l.bufs.disk
no_power l h z =
    let zero_power : (write_head l).bufs.power ≡ 0 = omega (arith, write_head-power l) in
    let off : ((write_head l).bufs.power - (write_head l).n == 0) ≡ true = ground arith in
    let none : min (write_head l).bufs.power (write_head l).n ≡ 0 = omega arith in
    let off' : (l.bufs.power == 0) ≡ true = ground arith in
    install_and_clear-disk (write_head l) (unfold write_head in h.below)
      (unfold write_head in write_head-IsCoherent l h)
    ∙ (rw (off, none) (unfold replay in (write_head-disk l ∙ rw off')))

-- A ready log stands for its disk as it is.
IsReady-StandsFor : (l : Log) → IsReady l → StandsFor l.start l.bufs.disk l.bufs.disk
IsReady-StandsFor l h = record {
  header = λ i lt. absurd (omega (arith, h.empty));
  blocks = λ s home. rw h.empty (unfold replay in refl);
}

-- the commit of a transaction that wrote
some_writes :
    (l : Log)
    → IsReady l
    → (l.bufs.power ≡ 0
        → StandsFor l.start (install_and_clear (write_head l)).bufs.disk l.bufs.disk)
    → let d' = (install_and_clear (write_head l)).bufs.disk in
      let new = replay l.start l.sector l.n 0 l.bufs.disk in
      (l.bufs.power ≡ 0 → StandsFor l.start d' l.bufs.disk)
      × (0 < l.bufs.power → StandsFor l.start d' new)
      × (l.n + 1 < l.bufs.power → (d' l.start 0 ≡ 0) × ((s : ℕ) → s < l.start → d' s ≡ new s))
unfolding write_head
some_writes l h zero_power = (
  zero_power,
  λ lt. (full lt).0,
  λ lt. (full (omega arith)).1 (omega (arith, write_head-power l, write_head-n)),
)
  where
    write_head-n : (write_head l).n ≡ l.n
    write_head-n = unfold write_head in refl

    new_blocks :
        0 < l.bufs.power
        → (s : ℕ) → s < l.start
        → replay
            (write_head l).start
            (write_head l).sector
            (write_head l).n
            0
            (write_head l).bufs.disk
            s
          ≡ replay l.start l.sector l.n 0 l.bufs.disk s
    new_blocks lt s home =
        let on : (l.bufs.power == 0) ≡ false = ground arith in
        rw (write_head-disk l, on)
          (unfold write_head in
            replay-update_start l.start l.sector l.n l.bufs.disk (header l) s home h.below)

    full :
        0 < l.bufs.power
        → let d' = (install_and_clear (write_head l)).bufs.disk in
          let new = replay l.start l.sector l.n 0 l.bufs.disk in
          StandsFor l.start d' new
          × ((write_head l).n < (write_head l).bufs.power
              → (d' l.start 0 ≡ 0) × ((s : ℕ) → s < l.start → d' s ≡ new s))
    full lt =
        let (stands, done) =
          install_and_clear-StandsFor (write_head l) (write_head-IsLogged l h lt) in
        (
          record {
            header = stands.header;
            blocks = λ s home. stands.blocks s home ∙ new_blocks lt s home;
          },
          λ more. let (z, b) = done more in (z, λ s home. b s home ∙ new_blocks lt s home),
        )

-- The commit of a log that is ready to be committed: its header on the disk is empty, each home
-- lies below the log, and the log blocks in the cache are those on the disk. If no write reaches
-- the disk, the disk stands for the blocks from before the transaction; if at least one does, for
-- those with all the writes of the transaction; and with power for the header, the copies and the
-- clearing of the header, these are all in place, and the log is empty.
pub commit_trans-atomic :
    (l : Log)
    → IsReady l
    → let d' = (commit_trans l).bufs.disk in
      let new = replay l.start l.sector l.n 0 l.bufs.disk in
      (l.bufs.power ≡ 0 → StandsFor l.start d' l.bufs.disk)
      × (0 < l.bufs.power → StandsFor l.start d' new)
      × (l.n + 1 < l.bufs.power → (d' l.start 0 ≡ 0) × ((s : ℕ) → s < l.start → d' s ≡ new s))
unfolding commit_trans commit
commit_trans-atomic l h = elim (Bool-cases (ltb 0 l.n)) [
  | inl e ↦ rw e (some_writes l h (λ z. rw (no_power l h z) (IsReady-StandsFor l h)))
  | inr e ↦
      let z : l.n ≡ 0 = ground arith in
      let nothing : replay l.start l.sector l.n 0 l.bufs.disk ≡ l.bufs.disk =
        rw z (unfold replay in refl) in
      let same = IsReady-StandsFor l h in
      rw (e, nothing) (λ _. same, λ _. same, λ _. (h.empty, λ s home. refl))
]
