-- ===== src/Fs.antt =====
-- src/fs.c and the layout of the disk in src/fs.h: the inodes of the disk, their cache in memory,
-- the blocks that hold a file, directories and path names. The file system works on blocks of 512
-- bytes through `bread` and `log_write`, the record `Blocks` here.
pub mod Run
pub mod Bitmap
pub mod Inode
pub mod Content
pub mod Dir
pub mod Path
mod Tests
use t2_so.Base.{◌==◌}
use t2_so.Base.{if◌then◌else◌}
use t2_so.Base.{◌≡◌}
use t2_so.Base.{◌<◌}
use t2_so.Base.{ℕ, ◌+◌, ◌*◌, ◌/◌, ◌%◌, Bool, Result, Option}
use t2_so.Str.{Memory}
use t2_so.Kalloc.{load_word}

-- fs.h
abbrev pub bsize : ℕ
bsize = 512

abbrev pub ndirect : ℕ
ndirect = 12

abbrev pub nindirect : ℕ
nindirect = 128

abbrev pub maxfile : ℕ
maxfile = ndirect + nindirect

-- inodes to a block, and bits of the bitmap to a block
abbrev pub ipb : ℕ
ipb = 8

abbrev pub bpb : ℕ
bpb = 4096

abbrev pub dirsiz : ℕ
dirsiz = 14

-- param.h
abbrev pub ninode : ℕ
ninode = 50

abbrev pub ndev : ℕ
ndev = 10

abbrev pub rootdev : ℕ
rootdev = 1

abbrev pub rootino : ℕ
rootino = 1

-- stat.h
abbrev pub t_dir : ℕ
t_dir = 1

abbrev pub t_dev : ℕ
t_dev = 3

abbrev pub iblock : ℕ → ℕ
iblock i = i / ipb + 2

abbrev pub bblock : ℕ → ℕ → ℕ
bblock b ninodes = b / bpb + ninodes / ipb + 3

-- `struct superblock`
pub record Superblock : Type 0 where
  pub size : ℕ
  pub nblocks : ℕ
  pub ninodes : ℕ
  pub nlog : ℕ

-- The data of a block as `bread` gives them, and `log_write` of a block with new data, over a state
-- `W` of the buffer cache and the log. There is one disk, so a block is its number.
pub record Blocks (W : Type 0) : Type 0 where
  pub data_of : W → ℕ → Memory
  pub log_write : ℕ → Memory → W → Result W

-- the superblock that a block's data hold
abbrev pub superblock_of : Memory → Superblock
superblock_of m = record {
  size = load_word m 0;
  nblocks = load_word m 4;
  ninodes = load_word m 8;
  nlog = load_word m 12;
}

unfoldable pub readsb : {W : Type 0} → Blocks W → W → Superblock
readsb io w = superblock_of (io.data_of w 1)

-- What the file system asks of `log_write`: among the blocks below the log, it changes the one that
-- it is given.
pub record IsLawful {W : Type 0} (io : Blocks W) (limit : ℕ) : Type 0 where
  pub log_write_lem :
      (s : ℕ) (d : Memory) (w w' : W) (x : ℕ)
      → s < limit
      → x < limit
      → io.log_write s d w ≡ Result.ok w'
      → io.data_of w' x ≡ (if s == x then d else io.data_of w x)
