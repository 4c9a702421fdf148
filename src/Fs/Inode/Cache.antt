-- ===== src/Fs/Inode/Cache.antt =====
-- What `iupdate` has written, a later `ilock` of the inode finds, through whichever entry of the
-- cache.
use t2_so.Base.{subst}
use t2_so.Base.{
  ℕ, ◌+◌, ◌≤◌, ◌<◌, ◌≡◌, ◌≢◌, ◌⊎◌, inl, inr, ◌∙◌, refl, arith, ◌==◌, ltb, true, false, ap,
  Bool-cases, ok, dec_lt,
}
use t2_so.Str.{Memory}
use t2_so.Fs.{Blocks, IsLawful, iblock}
use t2_so.Fs.Run.{done, called, >>=-eq-done, done-injective, called-eq-done}
use t2_so.Fs.Inode.{
  Dinode, Inode, State, offset_of, put_dinode, get_dinode, with_inode, iupdate, fill, ilock,
}
use t2_so.Fs.Inode.Layout.{IsDinode, put_dinode-other, get_dinode-put_dinode, get_dinode-cong}

-- an inode as the disk has it, over the entry `old`
abbrev pub on_disk : {W : Type 0} → Blocks W → W → ℕ → Dinode → Dinode
on_disk io w inum old = get_dinode (io.data_of w (iblock inum)) (offset_of inum) old

-- what `iupdate` of entry `i` leaves
pub record Updated {W : Type 0} (io : Blocks W) (limit i : ℕ) (s s' : State W) : Type 0 where
  pub icache : s'.icache ≡ s.icache
  pub self :
      (old : Dinode) → IsDinode old → on_disk io s'.world (s.icache i).inum old ≡ (s.icache i).disk
  pub others :
      (x : ℕ) (old : Dinode)
      → iblock x < limit
      → x ≢ (s.icache i).inum
      → on_disk io s'.world x old ≡ on_disk io s.world x old

module _ {W : Type 0} (io : Blocks W) (limit : ℕ) (law : IsLawful io limit) where
  abbrev written : ℕ → State W → Memory
  written i s =
      put_dinode (io.data_of s.world (iblock (s.icache i).inum)) (offset_of (s.icache i).inum)
        (s.icache i).disk

  written-Updated :
      (i : ℕ) (s : State W) (w : W)
      → iblock (s.icache i).inum < limit
      → IsDinode (s.icache i).disk
      → io.log_write (iblock (s.icache i).inum) (written i s) s.world ≡ ok w
      → Updated io limit i s (record s { world = w })
  written-Updated i s w home fits e = record {
    icache = refl;
    self = λ old h.
        ap (λ (m : Memory). get_dinode m (offset_of inum) old) at_home
        ∙ get_dinode-put_dinode _ (offset_of inum) (s.icache i).disk old fits h;
    others = λ x old lt ne. elim (Bool-cases (iblock inum == iblock x)) [
      | inl here ↦
          let same : iblock inum ≡ iblock x = ground (arith, here) in
          get_dinode-cong (io.data_of s.world (iblock x)) (io.data_of w (iblock x)) (offset_of x)
            old
            (λ a lo hi.
              ap (λ (m : Memory). m a) (at_x x lt here)
              ∙ (put_dinode-other (io.data_of s.world (iblock inum)) (offset_of inum)
                    (s.icache i).disk a (apart x a ne same lo hi)
                  ∙ ap (λ (b : ℕ). io.data_of s.world b a) same))
      | inr away ↦
          let q : io.data_of w (iblock x) ≡ io.data_of s.world (iblock x) =
            law.log_write_lem (iblock inum) _ s.world w (iblock x) home lt e ∙ rw away in
          ap (λ (m : Memory). get_dinode m (offset_of x) old) q
    ];
  }
    where
      inum : ℕ
      inum = (s.icache i).inum

      at_home : io.data_of w (iblock inum) ≡ written i s
      at_home =
          let self : (iblock inum == iblock inum) ≡ true = ground arith in
          law.log_write_lem (iblock inum) _ s.world w (iblock inum) home home e ∙ rw self

      at_x :
          (x : ℕ)
          → iblock x < limit
          → (iblock inum == iblock x) ≡ true
          → io.data_of w (iblock x) ≡ written i s
      at_x x lt here = law.log_write_lem (iblock inum) _ s.world w (iblock x) home lt e ∙ rw here

      apart :
          (x a : ℕ)
          → x ≢ inum
          → iblock inum ≡ iblock x
          → offset_of x ≤ a
          → a < offset_of x + 64
          → (a < offset_of inum) ⊎ (offset_of inum + 64 ≤ a)
      apart x a ne same lo hi = elim (dec_lt a (offset_of inum)) [
        | yes lt ↦ inl lt
        | no ge ↦ inr (omega (arith, ne))
      ]

  iupdate-Updated :
      (i : ℕ) (s s' : State W)
      → iblock (s.icache i).inum < limit
      → IsDinode (s.icache i).disk
      → iupdate io i s ≡ done s'
      → Updated io limit i s s'
  unfolding iupdate
  iupdate-Updated i s s' home fits e =
      let (w, q, e₁) =
        >>=-eq-done (called (io.log_write (iblock (s.icache i).inum) (written i s) s.world)) _ e in
      subst (Updated io limit i s) (done-injective e₁)
        (written-Updated i s w home fits (called-eq-done _ q))

  -- `iupdate` of entry `i` writes its fields to the disk, and changes no other inode there. A later
  -- `ilock` of any entry for the same inode that is not yet valid and not locked reads them back.
  pub ilock-iupdate :
      (i j : ℕ) (s s' : State W) (entries : ℕ → Inode)
      → iblock (s.icache i).inum < limit
      → IsDinode (s.icache i).disk
      → (s.icache i).disk.type ≢ 0
      → (entries j).inum ≡ (s.icache i).inum
      → 0 < (entries j).ref
      → (entries j).busy ≡ false
      → (entries j).valid ≡ false
      → IsDinode (entries j).disk
      → iupdate io i s ≡ done s'
      → Updated io limit i s s'
        × (ilock io j (record s' { icache = entries })
            ≡ done (
                with_inode
                  (record s' { icache = entries })
                  j
                  (record (entries j) { busy = true; valid = true; disk = (s.icache i).disk })))
  unfolding ilock fill
  ilock-iupdate i j s s' entries home fits typed same held free stale old e =
      let u = iupdate-Updated i s s' home fits e in
      let seen : on_disk io s'.world (entries j).inum (entries j).disk ≡ (s.icache i).disk =
        ap (λ (x : ℕ). on_disk io s'.world x (entries j).disk) same ∙ u.self (entries j).disk old in
      let counted : ltb (entries j).ref 1 ≡ false = ground arith in
      let kind : ((s.icache i).disk.type == 0) ≡ false = ground (arith, typed) in
      (u, simp (counted, free, stale, seen, kind))
