-- ===== src/Fs/Dir/Lookup.antt =====
-- Which entry of a directory `dirlookup` finds.
use t2_so.Base.{
  ℕ, zero, suc, ◌+◌, ◌-◌, ◌*◌, ◌/◌, ◌%◌, ◌≤◌, ◌<◌, ◌≡◌, ◌∙◌, refl, arith, Bool, true, false, not,
  ◌&&◌, ◌==◌, ltb, leb, Bool-cases, inl, inr, Option, none, some, pos, find_from, min, ◌≢◌,
}
use t2_so.Str.{Memory}
use t2_so.Str.Compare.{strncmp-cong}
use t2_so.Fs.{Blocks, bsize, dirsiz, t_dir, t_dev}
use t2_so.Fs.Run.{Run, done, ◌>>=◌}
use t2_so.Fs.Inode.{State, load_short, iget}
use t2_so.Fs.Content.{Devices, readi}
use t2_so.Fs.Content.Mapped.{IsMapped, content}
use t2_so.Fs.Content.Read.{overlay, readi-content}
use t2_so.Fs.Dir.{namecmp, is_count, name_of, next_entry, turns, read_entry, lookup_from, dirlookup}

pub namecmp-cong :
    (name a b : Memory) → ((j : ℕ) → j < dirsiz → a j ≡ b j) → namecmp name a ≡ namecmp name b
unfolding namecmp
namecmp-cong name a b same = strncmp-cong name a b dirsiz same

-- whether the entry in these bytes is in use and has the name
abbrev pub has_name : Memory → Memory → Bool
has_name name de = not (load_short de 0 == 0) && is_count 0 (namecmp name (name_of de))

pub has_name-cong :
    (name a b : Memory) → ((j : ℕ) → j < 16 → a j ≡ b j) → has_name name a ≡ has_name name b
has_name-cong name a b same =
    let inum : load_short a 0 ≡ load_short b 0 =
      omega (arith, same 0 (omega arith), same 1 (omega arith)) in
    let named : namecmp name (name_of a) ≡ namecmp name (name_of b) =
      namecmp-cong name (name_of a) (name_of b) (λ j lt. same (2 + j) (omega arith)) in
    rw (inum, named) refl

pub overlay-below :
    (c : ℕ → ℕ) (de : Memory) (off j : ℕ) → j < 16 → overlay c de 0 off 16 j ≡ c (off + j)
overlay-below c de off j lt =
    let same : off + (j - 0) ≡ off + j = omega arith in
    let inside : (leb 0 j && ltb j (0 + 16)) ≡ true = ground (arith, lt) in rw (inside, same) refl

module _ {W : Type 0} (io : Blocks W) where
  -- the bytes of a file from `off` on
  abbrev pub bytes_at : State W → ℕ → ℕ → Memory
  bytes_at s i off j = content io s i (off + j)

  -- the entry number `k`, if there is one
  abbrev pub found_at : ℕ → State W → Option ℕ → Run (Option (ℕ × ℕ) × State W)
  found_at i s none = done (none, s)
  found_at i s (some k) = iget io (s.icache i).dev (load_short (bytes_at s i (16 * k)) 0) s >>= λ q.
      done (some (q.0, 16 * k), q.1)

  -- a directory: whole entries, in blocks that are there
  pub record IsDir (s : State W) (i count : ℕ) : Type 0 where
    pub kind : (s.icache i).disk.type ≡ t_dir
    pub mapped : IsMapped io s i count
    pub fits : (s.icache i).disk.size ≤ count * bsize
    pub whole : (s.icache i).disk.size % 16 ≡ 0

  module _ (devsw : Devices W) (junk : Memory) (s : State W) (i count : ℕ)
      (h : IsDir s i count) where
    pub read_entry-bytes :
        (de : Memory) (off : ℕ)
        → off + 16 ≤ (s.icache i).disk.size
        → read_entry io devsw junk i de off s ≡ done (overlay (content io s i) de 0 off 16, s)
    unfolding read_entry
    read_entry-bytes de off le =
        let small : count ≤ 140 = h.mapped.small in
        let bound : (s.icache i).disk.size ≤ count * 512 = h.fits in
        let plain : (s.icache i).disk.type ≢ t_dev = λ q. omega (arith, q, h.kind) in
        let near : ltb (s.icache i).disk.size off ≡ false = ground (arith, le) in
        let all : min 16 ((s.icache i).disk.size - off) ≡ 16 = omega arith in
        let got : readi io devsw i de off 16 s
            ≡ done (pos 16, overlay (content io s i) de 0 off 16, s) =
          readi-content io devsw s i count de off 16 plain h.mapped h.fits (omega arith)
          ∙ rw (near, all) refl in
        rw got refl

    lookup_from-found :
        (fuel left k : ℕ) (name de : Memory)
        → 16 * (k + left) ≡ (s.icache i).disk.size
        → left < fuel
        → lookup_from io devsw junk fuel i name de (16 * k) s
          ≡ found_at i s (find_from (λ j. has_name name (bytes_at s i (16 * j))) (λ j. j) left k)
    unfolding lookup_from find_from
    lookup_from-found zero left k name de size lt = absurd (omega arith)
    lookup_from-found (suc fuel) zero k name de size lt =
        let over : ltb (16 * k) (s.icache i).disk.size ≡ false = ground (arith, size) in
        rw over refl
    lookup_from-found (suc fuel) (suc left) k name de size lt =
        let b : Memory = bytes_at s i (16 * k) in
        let de' : Memory = overlay (content io s i) de 0 (16 * k) 16 in
        let there : ltb (16 * k) (s.icache i).disk.size ≡ true = ground (arith, size) in
        let got : read_entry io devsw junk i de (16 * k) s ≡ done (de', s) =
          read_entry-bytes de (16 * k) (omega (arith, size)) in
        let below : (j : ℕ) → j < 16 → de' j ≡ b j = overlay-below (content io s i) de (16 * k) in
        let inum : load_short de' 0 ≡ load_short b 0 =
          omega (arith, below 0 (omega arith), below 1 (omega arith)) in
        let named : namecmp name (name_of de') ≡ namecmp name (name_of b) =
          namecmp-cong name (name_of de') (name_of b) (λ j lt. below (2 + j) (omega arith)) in
        let small : count ≤ 140 = h.mapped.small in
        let bound : (s.icache i).disk.size ≤ count * 512 = h.fits in
        let next : next_entry (16 * k) ≡ 16 * (k + 1) = omega (arith, size, small, bound) in
        let ih : lookup_from io devsw junk fuel i name de' (16 * (k + 1)) s
            ≡ found_at i s
                (find_from (λ j. has_name name (bytes_at s i (16 * j))) (λ j. j) left (k + 1)) =
          lookup_from-found fuel left (k + 1) name de' (omega (arith, size)) (omega arith) in
        rw (there, got, inum, named, next, ih)
          (elim (Bool-cases (load_short b 0 == 0)) [
            | inl free ↦ rw free refl
            | inr used ↦ elim (Bool-cases (is_count 0 (namecmp name (name_of b)))) [
              | inl yes_name ↦ rw (used, yes_name) refl
              | inr no_name ↦ rw (used, no_name) refl
            ]
          ])

    -- `dirlookup` of a directory finds the first entry in use that has the name in its first 14
    -- characters, and takes its inode into the cache; if there is none, it leaves all as it is.
    pub dirlookup-found :
        (name : Memory)
        → dirlookup io devsw junk i name s
          ≡ found_at i s (
              find_from
                (λ j. has_name name (bytes_at s i (16 * j)))
                (λ j. j)
                ((s.icache i).disk.size / 16)
                0)
    unfolding dirlookup
    dirlookup-found name =
        let dir : ((s.icache i).disk.type == t_dir) ≡ true = ground (arith, h.kind) in
        rw
          (
            dir,
            lookup_from-found (turns i s) ((s.icache i).disk.size / 16) 0 name junk
                (omega (arith, h.whole)) (omega arith),
          )
          refl
