-- ===== src/Fs/Dir.antt =====
-- The directories of src/fs.c. An entry is 16 bytes: the number of an inode, 0 if it is free, and a
-- name of up to 14 bytes, padded with zeros.
pub mod Lookup
pub mod Entry
pub mod Link
use t2_so.Base.{
  ℕ, zero, suc, ◌+◌, ◌-◌, ◌*◌, ◌/◌, ◌%◌, ◌^◌, Bool, true, false, not, ◌&&◌, ◌||◌, ◌==◌,
  if◌then◌else◌, ltb, leb, Option, none, some, update, ℤ, pos, negsuc, List, [], ◌∷◌,
}
use t2_so.Str.{Memory, strncmp, strncpy}
use t2_so.Fs.{Blocks, dirsiz, t_dir}
use t2_so.Fs.Run.{Run, done, halt, sleeps, halt_if, ◌>>=◌, ◌>>◌}
use t2_so.Fs.Inode.{Dinode, Inode, State, load_short, store_short, iget}
use t2_so.Fs.Content.{Devices, readi, writei, iput}

-- `struct stat`
pub record Stat : Type 0 where
  pub type : ℕ
  pub dev : ℕ
  pub ino : ℕ
  pub nlink : ℕ
  pub size : ℕ

unfoldable pub stati : {W : Type 0} → ℕ → State W → Stat
stati i s =
    let ip = s.icache i in
    record {
      type = ip.disk.type;
      dev = ip.dev;
      ino = ip.inum;
      nlink = ip.disk.nlink;
      size = ip.disk.size;
    }

unfoldable pub namecmp : Memory → Memory → ℤ
namecmp s t = strncmp s t dirsiz

-- whether a result of type `int` is `n`
abbrev pub is_count : ℕ → ℤ → Bool
is_count n (pos k) = k == n
is_count n (negsuc k) = false

-- `de.name`
abbrev pub name_of : Memory → Memory
name_of de k = de (2 + k)

-- `strncpy(de.name, name, DIRSIZ); de.inum = inum`
unfoldable pub put_entry : Memory → Memory → ℕ → Memory
put_entry de name inum =
    store_short (λ a. if ltb a 2 then de a else strncpy (name_of de) name (pos dirsiz) (a - 2)) 0
      inum

-- `off += sizeof(de)`
abbrev pub next_entry : ℕ → ℕ
next_entry off = (off + 16) % 2 ^ 32

-- more turns than the loops over the directory take
abbrev pub turns : {W : Type 0} → ℕ → State W → ℕ
turns i s = (s.icache i).disk.size / 16 + 2

-- `junk` is what the local `de` holds before it is read.
module _ {W : Type 0} (io : Blocks W) (devsw : Devices W) (junk : Memory) where
  unfoldable pub read_entry : ℕ → Memory → ℕ → State W → Run (Memory × State W)
  read_entry i de off s =
      readi io devsw i de off 16 s >>= λ r. halt_if (not (is_count 16 r.0)) >> done (r.1, r.2)

  -- the loop of `dirlookup`, on fuel: the entry of the cache and the offset
  unfoldable pub lookup_from :
      ℕ → ℕ → Memory → Memory → ℕ → State W → Run (Option (ℕ × ℕ) × State W)
  lookup_from zero i name de off s = done (none, s)
  lookup_from (suc fuel) i name de off s =
      if ltb off (s.icache i).disk.size
      then (read_entry i de off s >>= λ r.
          let inum = load_short r.0 0 in
          let rest = lookup_from fuel i name r.0 (next_entry off) r.1 in
          if inum == 0
          then rest
          else if is_count 0 (namecmp name (name_of r.0))
          then (iget io (r.1.icache i).dev inum r.1 >>= λ q. done (some (q.0, off), q.1))
          else rest)
      else done (none, s)

  unfoldable pub dirlookup : ℕ → Memory → State W → Run (Option (ℕ × ℕ) × State W)
  dirlookup i name s =
      halt_if (not ((s.icache i).disk.type == t_dir)) >> lookup_from (turns i s) i name junk 0 s

  -- the loop of `dirlink`, on fuel: the offset where it stops, and `de`
  unfoldable pub empty_from : ℕ → ℕ → Memory → ℕ → State W → Run (ℕ × Memory × State W)
  empty_from zero i de off s = done (off, de, s)
  empty_from (suc fuel) i de off s =
      if ltb off (s.icache i).disk.size
      then (read_entry i de off s >>= λ r.
          let rest = empty_from fuel i r.0 (next_entry off) r.1 in
          if load_short r.0 0 == 0 then done (off, r.0, r.1) else rest)
      else done (off, de, s)

  -- `dirlink` after its test that the name is not there
  unfoldable pub add_entry : ℕ → Memory → ℕ → State W → Run (ℤ × State W)
  add_entry i name inum s = empty_from (turns i s) i junk 0 s >>= λ r.
      writei io devsw i (put_entry r.1 name inum) r.0 16 r.2 >>= λ q.
      halt_if (not (is_count 16 q.0)) >> done (pos 0, q.1)

  unfoldable pub dirlink : ℕ → Memory → ℕ → State W → Run (ℤ × State W)
  dirlink i name inum s = dirlookup i name s >>= λ r. elim r.0 [
    | some found ↦ iput io found.0 r.1 >>= λ s₁. done (negsuc 0, s₁)
    | none ↦ add_entry i name inum r.1
  ]
