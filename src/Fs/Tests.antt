-- ===== src/Fs/Tests.antt =====
-- Concrete runs of the file system, over a disk whose blocks are written at once.
use t2_so.Fs.Inode.{iget}
use t2_so.Base.{◌∙◌}
use t2_so.Base.{◌*◌}
use t2_so.Str.{strncmp}
use t2_so.Fs.Bitmap.{bit}
use t2_so.Fs.Bitmap.{bfree}
use t2_so.Fs.{load_word}
use t2_so.Base.{
  ℕ, ◌+◌, ◌<◌, ◌≡◌, ◌≢◌, refl, sym, ap, arith, true, false, ◌==◌, if◌then◌else◌, none, some, pos,
  update, ok, panic, Result, find_from, [], ◌∷◌,
}
use t2_so.Str.{Memory}
use t2_so.Fs.{Blocks, IsLawful}
use t2_so.Fs.Run.{Run, done, halt, sleeps, ◌>>=◌}
use t2_so.Fs.Bitmap.{balloc}
use t2_so.Kalloc.{load_word}
use t2_so.Fs.Inode.{Inode, State, iupdate, ilock, with_inode}
use t2_so.Fs.Inode.Layout.{IsDinode}
use t2_so.Fs.Inode.Refs.{IsCache, Got, iget-Got}
use t2_so.Fs.Inode.Cache.{Updated, ilock-iupdate}
use t2_so.Fs.Content.{
  Devices, bmap, own_block, copy_bytes, readi, writei, read_from, write_from, grow,
}
use t2_so.Fs.Content.Mapped.{block_of, content}
use t2_so.Fs.Content.Read.{overlay, readi-content}
use t2_so.Fs.Content.Apart.{IsApart, Overwritten}
use t2_so.Fs.Content.Overwrite.{writei-Overwritten, readi-writei}
use t2_so.Fs.Dir.{dirlookup, lookup_from, read_entry, dirlink, empty_from, add_entry, namecmp}
use t2_so.Fs.Dir.Lookup.{IsDir, found_at, has_name, bytes_at, dirlookup-found}
use t2_so.Fs.Dir.Link.{dirlink-dirlookup}
use t2_so.Fs.Path.{namex, start}
use t2_so.Fs.Path.Elements.{follow, namex-follow}
use t2_so.Fs.Bitmap.{bit, bfree}

abbrev Disk : Type 0
Disk = ℕ → Memory

abbrev disk : Blocks Disk
disk = record { data_of = λ w b. w b; log_write = λ b d w. ok (update w b d) }

value_of : {A : Type 0} → A → Result A → A
value_of a (ok b) = b
value_of a panic = a

disk-IsLawful : (limit : ℕ) → IsLawful disk limit
unfolding value_of
disk-IsLawful limit = record {
  log_write_lem = λ b d w w' x lt small e.
      let now : update w b d ≡ w' = ap (value_of w) e in ap (λ (v : Disk). v x) (sym now);
}

-- the result of a run that returns
result : {A : Type 0} → A → Run A → A
result a (done b) = b
result a halt = a
result a (sleeps i) = a

-- Six blocks, and the bitmap in block 4: blocks 0 to 4 are in use.
abbrev small_disk : Disk
small_disk b a =
    if b == 1
    then (if a == 0 then 6 else if a == 8 then 8 else 0)
    else if b == 4
    then (if a == 0 then 31 else 0)
    else 0

abbrev allocated : Disk
allocated = (result (0, small_disk) (balloc disk small_disk)).1

abbrev freed : Disk
freed = result small_disk (bfree disk 5 allocated)

-- Two inodes in the cache: a directory of two entries in block 20, the first of them in use with the
-- name "a", and a file of ten bytes in block 21.
abbrev free_inode : Inode
free_inode = record {
  dev = 1;
  inum = 0;
  ref = 0;
  busy = false;
  valid = false;
  disk = record { type = 0; major = 0; minor = 0; nlink = 0; size = 0; addrs = λ k. 0 };
}

abbrev in_block : ℕ → ℕ → ℕ → ℕ → Inode
in_block inum kind size b = record free_inode {
  inum = inum;
  ref = 1;
  busy = true;
  valid = true;
  disk = record (free_inode.disk) {
    type = kind;
    nlink = 1;
    size = size;
    addrs = λ k. if k == 0 then b else 0;
  };
}

abbrev some_files : State Disk
some_files = record {
  icache =
      λ i. if i == 0 then in_block 1 1 32 20 else if i == 1 then in_block 2 2 10 21 else free_inode;
  world = λ b a.
      if b == 20
      then (if a == 0 then 2 else if a == 2 then 97 else 0)
      else if b == 21
      then a + 1
      else 0;
}

in_one_block :
    (i b : ℕ) → b ≢ 0 → block_of disk some_files i 0 ≡ b → b < 100 → IsApart disk 100 some_files i 1
in_one_block i b nz e lt = record {
  mapped = record {
    small = omega arith;
    blocks = λ bn small z.
        let q : bn ≡ 0 = omega arith in
        nz (sym e ∙ (ap (λ k. block_of disk some_files i k) (sym q) ∙ z));
    indirect = λ more. absurd (omega arith);
  };
  below = λ bn small.
      let q : bn ≡ 0 = omega arith in
      let found : block_of disk some_files i bn ≡ b =
        ap (λ k. block_of disk some_files i k) q ∙ e in
      rw found lt;
  distinct = λ a b₁ la lb _. omega arith;
  indirect_below = λ more. absurd (omega arith);
  indirect_apart = λ bn more small. absurd (omega arith);
}

abbrev no_devices : Devices Disk
no_devices = record { read = λ major. none; write = λ major. none }

abbrev buffer : Memory
buffer a = 7

readi-content_example :
    readi disk no_devices 1 buffer 4 20 some_files
    ≡ done (pos 6, overlay (content disk some_files 1) buffer 0 4 6, some_files)
readi-content_example =
    readi-content disk no_devices some_files 1 1 buffer 4 20 (λ q. omega (arith, q))
      (in_one_block 1 21 (λ q. omega (arith, q)) refl (omega arith)).mapped (omega arith)
      (omega arith)

abbrev source : Memory
source a = a + 50

abbrev overwritten : State Disk
overwritten = (result (pos 0, some_files) (writei disk no_devices 1 source 4 3 some_files)).1

writei-Overwritten_example :
    (pos 3 ≡ pos 3) × Overwritten disk 100 1 1 source 0 4 3 some_files overwritten
unfolding writei result write_from bmap own_block grow
writei-Overwritten_example =
    writei-Overwritten disk 100 (disk-IsLawful 100) no_devices some_files overwritten 1 1 source 4 3
      (pos 3) (λ q. omega (arith, q)) (in_one_block 1 21 (λ q. omega (arith, q)) refl (omega arith))
      (omega arith) (omega arith) refl

readi-writei_example :
    readi disk no_devices 1 buffer 4 3 overwritten
    ≡ done (pos 3, copy_bytes buffer 0 source 0 3, overwritten)
unfolding writei result write_from bmap own_block grow
readi-writei_example =
    readi-writei disk 100 (disk-IsLawful 100) no_devices some_files overwritten 1 1 source buffer 4
      3 (pos 3) (λ q. omega (arith, q))
      (in_one_block 1 21 (λ q. omega (arith, q)) refl (omega arith)) (omega arith) (omega arith)
      refl

directory-IsDir : IsDir disk some_files 0 1
directory-IsDir = record {
  kind = refl;
  mapped = (in_one_block 0 20 (λ q. omega (arith, q)) refl (omega arith)).mapped;
  fits = omega arith;
  whole = omega arith;
}

-- the names "a" and "b"
abbrev letter : ℕ → Memory
letter c k = if k == 0 then c else 0

dirlookup-found_example :
    dirlookup disk no_devices buffer 0 (letter 97) some_files
    ≡ found_at disk 0 some_files
        (find_from (λ j. has_name (letter 97) (bytes_at disk some_files 0 (16 * j))) (λ j. j) 2 0)
dirlookup-found_example =
    dirlookup-found disk no_devices buffer some_files 0 1 directory-IsDir (letter 97)

abbrev entered : State Disk
entered = (result (pos 0, some_files) (dirlink disk no_devices buffer 0 (letter 98) 9 some_files)).1

dirlink-dirlookup_example :
    (pos 0 ≡ pos 0)
    × (dirlookup disk no_devices buffer 0 (letter 98) entered
        ≡ (iget disk 1 9 entered >>= λ q. done (some (q.0, 16), q.1)))
unfolding dirlink result dirlookup lookup_from empty_from add_entry read_entry readi read_from
    writei write_from bmap own_block grow find_from namecmp strncmp copy_bytes
dirlink-dirlookup_example =
    dirlink-dirlookup disk no_devices buffer 100 (disk-IsLawful 100) some_files 0 1 directory-IsDir
      (in_one_block 0 20 (λ q. omega (arith, q)) refl (omega arith)) (letter 98) 9 1 (pos 0) entered
      (omega arith) (λ q. omega (arith, q)) refl refl refl

-- the path "a//b"
namex-follow_example :
    namex disk no_devices buffer 0 (97 ∷ 47 ∷ 47 ∷ 98 ∷ []) true buffer some_files ≡ (
      start disk no_devices buffer 0 (97 ∷ 47 ∷ 47 ∷ 98 ∷ []) some_files >>= λ r.
      follow disk no_devices buffer 0 true ((97 ∷ []) ∷ (98 ∷ []) ∷ []) r.0 buffer r.1)
namex-follow_example =
    namex-follow disk no_devices buffer 0 (97 ∷ 47 ∷ 47 ∷ 98 ∷ []) true buffer some_files

-- entry 1 for the inode of entry 0
abbrev stale : ℕ → Inode
stale i = record (in_block 1 1 32 0) { busy = false; valid = false }

abbrev updated : State Disk
updated = result some_files (iupdate disk 0 some_files)

in_block-IsDinode : (b : ℕ) → b < 100 → IsDinode (in_block 1 1 32 b).disk
in_block-IsDinode b lt = record {
  type = omega arith;
  major = omega arith;
  minor = omega arith;
  nlink = omega arith;
  size = omega arith;
  addrs = λ k. ground (arith, lt);
  array = λ k lt. ground arith;
}

ilock-iupdate_example :
    Updated disk 100 0 some_files updated
    × (ilock disk 1 (record updated { icache = stale })
        ≡ done (
            with_inode
              (record updated { icache = stale })
              1
              (record (stale 1) { busy = true; valid = true; disk = (in_block 1 1 32 20).disk })))
unfolding iupdate result
ilock-iupdate_example =
    ilock-iupdate disk 100 (disk-IsLawful 100) 0 1 some_files updated stale (omega arith)
      (in_block-IsDinode 20 (omega arith)) (λ q. omega (arith, q)) refl (omega arith) refl refl
      (in_block-IsDinode 0 (omega arith)) refl

some_files-IsCache : IsCache disk some_files
some_files-IsCache i j li lj ri rj d n = ground (arith, ri, rj, n)

-- an inode that is not in the cache
abbrev one_more : State Disk
one_more = (result (0, some_files) (iget disk 1 5 some_files)).1

iget-Got_example : Got disk 1 5 2 some_files one_more
unfolding iget result find_from
iget-Got_example = iget-Got disk 1 5 2 some_files one_more some_files-IsCache refl
