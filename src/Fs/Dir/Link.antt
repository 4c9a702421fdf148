-- ===== src/Fs/Dir/Link.antt =====
-- `dirlink` into a free entry of a directory, and `dirlookup` after it.
use t2_so.Base.{
  ℕ, zero, suc, ◌+◌, ◌-◌, ◌*◌, ◌/◌, ◌≤◌, ◌<◌, ◌≡◌, ◌∙◌, refl, sym, ap, subst, arith, true, false,
  not, ◌&&◌, ◌==◌, ltb, leb, Bool-cases, inl, inr, none, some, ℤ, pos, find_from, ◌≢◌,
}
use t2_so.Base.{find_from-some, find_from-none, find_from-first}
use t2_so.Str.{Memory}
use t2_so.Fs.{Blocks, IsLawful, t_dev}
use t2_so.Fs.Run.{Run, done, ◌>>=◌, ◌>>◌, halt_if, >>=-eq-done, done-injective}
use t2_so.Fs.Inode.{Dinode, Inode, State, load_short, iget}
use t2_so.Fs.Content.{Devices, writei}
use t2_so.Fs.Content.Mapped.{content}
use t2_so.Fs.Content.Read.{overlay}
use t2_so.Fs.Content.Apart.{IsApart, Overwritten}
use t2_so.Fs.Content.Overwrite.{writei-Overwritten}
use t2_so.Fs.Dir.{
  is_count, put_entry, next_entry, turns, read_entry, empty_from, add_entry, dirlookup, dirlink,
}
use t2_so.Fs.Dir.Entry.{is_free, load_short-put_entry, has_name-put_entry}
use t2_so.Fs.Dir.Lookup.{
  has_name-cong, IsDir, bytes_at, has_name, overlay-below, read_entry-bytes, dirlookup-found,
}

module _ {W : Type 0} (io : Blocks W) (devsw : Devices W) (junk : Memory) where
  empty_from-free :
      (s : State W) (i count : ℕ)
      → IsDir io s i count
      → (fuel left k m : ℕ) (de : Memory) → 16 * (k + left) ≡ (s.icache i).disk.size
      → left < fuel
      → find_from (λ j. is_free (bytes_at io s i (16 * j))) (λ j. j) left k ≡ some m
      → (de' : Memory) × (empty_from io devsw junk fuel i de (16 * k) s ≡ done (16 * m, de', s))
  unfolding empty_from find_from
  empty_from-free s i count h zero left k m de size lt e = absurd (omega arith)
  empty_from-free s i count h (suc fuel) zero k m de size lt e = cc
  empty_from-free s i count h (suc fuel) (suc left) k m de size lt e =
      let b : Memory = bytes_at io s i (16 * k) in
      let de' : Memory = overlay (content io s i) de 0 (16 * k) 16 in
      let there : ltb (16 * k) (s.icache i).disk.size ≡ true = ground (arith, size) in
      let got : read_entry io devsw junk i de (16 * k) s ≡ done (de', s) =
        read_entry-bytes io devsw junk s i count h de (16 * k) (omega (arith, size)) in
      let below : (j : ℕ) → j < 16 → de' j ≡ b j = overlay-below (content io s i) de (16 * k) in
      let inum : load_short de' 0 ≡ load_short b 0 =
        omega (arith, below 0 (omega arith), below 1 (omega arith)) in
      let small : count ≤ 140 = h.mapped.small in
      let bound : (s.icache i).disk.size ≤ count * 512 = h.fits in
      let next : next_entry (16 * k) ≡ 16 * (k + 1) = omega (arith, size, small, bound) in
      elim (Bool-cases (load_short b 0 == 0)) [
        | inl free ↦
            let same : k ≡ m = ground (arith, free, e) in
            (de', rw (there, got, inum, free, same) refl)
        | inr used ↦
            let go : empty_from io devsw junk (suc fuel) i de (16 * k) s
                ≡ empty_from io devsw junk fuel i de' (16 * (k + 1)) s =
              rw (there, got, inum, used, next) refl in
            let (de₂, ih) =
              empty_from-free s i count h fuel left (k + 1) m de' (omega (arith, size))
                (omega arith) (rw used at e) in
            (de₂, go ∙ ih)
      ]

  -- the end of `dirlink`
  abbrev linked : ℤ × State W → Run (ℤ × State W)
  linked q = halt_if (not (is_count 16 q.0)) >> done (pos 0, q.1)

  linked-done :
      (P : State W → Type 0) (t : ℤ × State W) (r : ℤ) (s' : State W)
      → t.0 ≡ pos 16
      → P t.1
      → linked t ≡ done (r, s')
      → (r ≡ pos 0) × P s'
  linked-done P t r s' wrote p e =
      let out : (pos 0, t.1) ≡ (r, s') = done-injective (sym (rw wrote refl) ∙ e) in
      subst (λ (q : ℤ × State W). (q.0 ≡ pos 0) × P q.1) out (refl {a = pos 0}, p)

  module _ (limit : ℕ) (law : IsLawful io limit) (s : State W) (i count : ℕ)
      (h : IsDir io s i count) (apart : IsApart io limit s i count) (name : Memory)
      (inum k : ℕ) where
    -- the directory with the entry number `k` written
    abbrev Entered : State W → Type 0
    Entered s' =
        (de : Memory) × Overwritten io limit i count (put_entry de name inum) 0 (16 * k) 16 s s'

    add_entry-Entered :
        (r : ℤ) (s' : State W)
        → find_from
            (λ j. is_free (bytes_at io s i (16 * j)))
            (λ j. j)
            ((s.icache i).disk.size / 16)
            0
          ≡ some k
        → add_entry io devsw junk i name inum s ≡ done (r, s')
        → (r ≡ pos 0) × Entered s'
    unfolding add_entry
    add_entry-Entered r s' free e =
        let (lo, hi, _, _) = find_from-some _ _ _ _ _ free in
        let size : 16 * (0 + (s.icache i).disk.size / 16) ≡ (s.icache i).disk.size =
          omega (arith, h.whole) in
        let (de, stopped) =
          empty_from-free s i count h (turns i s) ((s.icache i).disk.size / 16) 0 k junk size
            (omega arith) free in
        let plain : (s.icache i).disk.type ≢ t_dev = λ q. omega (arith, q, h.kind) in
        let e₁ : writei io devsw i (put_entry de name inum) (16 * k) 16 s >>= linked
            ≡ done (r, s') =
          sym (rw stopped refl) ∙ e in
        let (t, ran, next) =
          >>=-eq-done (writei io devsw i (put_entry de name inum) (16 * k) 16 s) linked e₁ in
        let (wrote, o) =
          writei-Overwritten io limit law devsw s t.1 i count (put_entry de name inum) (16 * k) 16
            t.0 plain apart h.fits (omega arith) ran in
        linked-done Entered t r s' wrote (de, o) next

    entered_bytes :
        (s' : State W) (de : Memory)
        → Overwritten io limit i count (put_entry de name inum) 0 (16 * k) 16 s s'
        → 16 * k + 16 ≤ (s.icache i).disk.size
        → (j : ℕ) → j < 16
        → bytes_at io s' i (16 * k) j ≡ put_entry de name inum j
    entered_bytes s' de o le j lt =
        let there : (leb (16 * k) (16 * k + j) && ltb (16 * k + j) (16 * k + 16)) ≡ true =
          ground (arith, lt) in
        let place : 0 + (16 * k + j - 16 * k) ≡ j = omega arith in
        let bound : (s.icache i).disk.size ≤ count * 512 = h.fits in
        o.bytes (16 * k + j) (omega (arith, bound)) ∙ rw (there, place) refl

    other_bytes :
        (s' : State W) (de : Memory) (m : ℕ)
        → Overwritten io limit i count (put_entry de name inum) 0 (16 * k) 16 s s'
        → m < k
        → 16 * k + 16 ≤ (s.icache i).disk.size
        → (j : ℕ) → j < 16
        → bytes_at io s' i (16 * m) j ≡ bytes_at io s i (16 * m) j
    other_bytes s' de m o before le j lt =
        let away : leb (16 * k) (16 * m + j) ≡ false = ground (arith, lt, before) in
        let bound : (s.icache i).disk.size ≤ count * 512 = h.fits in
        o.bytes (16 * m + j) (omega (arith, bound)) ∙ rw away refl

    entered-IsDir :
        (s' : State W) (de : Memory)
        → Overwritten io limit i count (put_entry de name inum) 0 (16 * k) 16 s s'
        → IsDir io s' i count
    entered-IsDir s' de o =
        let same : (s'.icache i).disk ≡ (s.icache i).disk =
          ap (λ (c : ℕ → Inode). (c i).disk) o.icache in
        let size : (s'.icache i).disk.size ≡ (s.icache i).disk.size =
          ap (λ (d : Dinode). d.size) same in
        record {
          kind = ap (λ (d : Dinode). d.type) same ∙ h.kind;
          mapped = o.apart.mapped;
          fits = omega (arith, size, h.fits);
          whole = omega (arith, size, h.whole);
        }

    Entered-found :
        (s' : State W)
        → inum < 65536
        → inum ≢ 0
        → find_from
            (λ j. has_name name (bytes_at io s i (16 * j)))
            (λ j. j)
            ((s.icache i).disk.size / 16)
            0
          ≡ none
        → k < (s.icache i).disk.size / 16
        → Entered s'
        → dirlookup io devsw junk i name s'
          ≡ (iget io (s.icache i).dev inum s' >>= λ q. done (some (q.0, 16 * k), q.1))
    Entered-found s' short used absent lt (de, o) =
        let size : (s'.icache i).disk.size ≡ (s.icache i).disk.size =
          ap (λ (c : ℕ → Inode). (c i).disk.size) o.icache in
        let dev : (s'.icache i).dev ≡ (s.icache i).dev =
          ap (λ (c : ℕ → Inode). (c i).dev) o.icache in
        let here : (j : ℕ) → j < 16 → bytes_at io s' i (16 * k) j ≡ put_entry de name inum j =
          entered_bytes s' de o (omega arith) in
        let hit : has_name name (bytes_at io s' i (16 * k)) ≡ true =
          has_name-cong name (bytes_at io s' i (16 * k)) (put_entry de name inum) here
          ∙ has_name-put_entry de name inum short used in
        let first : find_from (λ j. has_name name (bytes_at io s' i (16 * j))) (λ j. j)
              ((s'.icache i).disk.size / 16) 0
            ≡ some k =
          find_from-first (λ j. has_name name (bytes_at io s' i (16 * j))) (λ j. j)
            ((s'.icache i).disk.size / 16) 0 k (omega arith) (omega (arith, size)) hit
            (λ m lo before.
              has_name-cong name (bytes_at io s' i (16 * m)) (bytes_at io s i (16 * m))
                (other_bytes s' de m o before (omega arith))
              ∙ find_from-none (λ j. has_name name (bytes_at io s i (16 * j))) (λ j. j)
                  ((s.icache i).disk.size / 16) 0 m absent lo (omega arith)) in
        let number : load_short (bytes_at io s' i (16 * k)) 0 ≡ inum = omega (
          arith,
          here 0 (omega arith),
          here 1 (omega arith),
          load_short-put_entry de name inum short,
        ) in
        dirlookup-found io devsw junk s' i count (entered-IsDir s' de o) name
        ∙ rw (first, dev, number) refl

    -- `dirlink` of a name that the directory does not have, into its first free entry, which is the
    -- one with the number `k`: a call that returns succeeds, and `dirlookup` finds the name there and
    -- takes the linked inode. The directory's blocks are there and apart.
    pub dirlink-dirlookup :
        (r : ℤ) (s' : State W)
        → inum < 65536
        → inum ≢ 0
        → find_from
            (λ j. has_name name (bytes_at io s i (16 * j)))
            (λ j. j)
            ((s.icache i).disk.size / 16)
            0
          ≡ none
        → find_from
            (λ j. is_free (bytes_at io s i (16 * j)))
            (λ j. j)
            ((s.icache i).disk.size / 16)
            0
          ≡ some k
        → dirlink io devsw junk i name inum s ≡ done (r, s')
        → (r ≡ pos 0)
          × (dirlookup io devsw junk i name s'
              ≡ (iget io (s.icache i).dev inum s' >>= λ q. done (some (q.0, 16 * k), q.1)))
    unfolding dirlink
    dirlink-dirlookup r s' short used absent free e =
        let missing : dirlookup io devsw junk i name s ≡ done (none, s) =
          dirlookup-found io devsw junk s i count h name ∙ rw absent refl in
        let e₁ : add_entry io devsw junk i name inum s ≡ done (r, s') = sym (rw missing refl) ∙ e in
        let (_, within, _, _) = find_from-some _ _ _ _ _ free in
        let (zero_, entered) = add_entry-Entered r s' free e₁ in
        (zero_, Entered-found s' short used absent (omega arith) entered)
