-- ===== src/Fs/Inode.antt =====
-- The inodes of src/fs.c: their 64 bytes on the disk, and the cache of those in use.
pub mod Layout
pub mod Cache
pub mod Refs
use t2_so.Base.{
  ℕ, zero, suc, ◌+◌, ◌-◌, ◌*◌, ◌/◌, ◌%◌, Bool, true, false, not, ◌&&◌, ◌||◌, ◌==◌, if◌then◌else◌,
  ltb, Option, none, some, update, find_from,
}
use t2_so.Str.{Memory, memset, store_word}
use t2_so.Kalloc.{load_word}
use t2_so.Fs.{Superblock, Blocks, readsb, iblock, ipb, ndirect, ninode}
use t2_so.Fs.Run.{Run, done, halt, sleeps, called, halt_if, ◌>>=◌, ◌>>◌}

-- a `short`, its low byte first
abbrev pub load_short : Memory → ℕ → ℕ
load_short m a = m a + 256 * m (a + 1)

abbrev pub store_short : Memory → ℕ → ℕ → Memory
store_short m a v = update (update m a (v % 256)) (a + 1) (v / 256 % 256)

-- `struct dinode`, and the same fields of `struct inode`. A `short` is its pattern of 16 bits.
pub record Dinode : Type 0 where
  pub type : ℕ
  pub major : ℕ
  pub minor : ℕ
  pub nlink : ℕ
  pub size : ℕ
  pub addrs : ℕ → ℕ

-- `struct inode`
pub record Inode : Type 0 where
  pub dev : ℕ
  pub inum : ℕ
  pub ref : ℕ
  pub busy : Bool
  pub valid : Bool
  pub disk : Dinode

-- `icache`, and the state of the files below
pub record State (W : Type 0) : Type 0 where
  pub icache : ℕ → Inode
  pub world : W

-- where an inode stands in its block
abbrev pub offset_of : ℕ → ℕ
offset_of inum = inum % ipb * 64

-- `memmove(dip->addrs, ip->addrs, sizeof(ip->addrs))`, word by word
unfoldable pub store_words : Memory → ℕ → (ℕ → ℕ) → ℕ → Memory
store_words m a words zero = m
store_words m a words (suc n) = store_word (store_words m a words n) (a + 4 * n) (words n)

-- the copy to `dip`
unfoldable pub put_dinode : Memory → ℕ → Dinode → Memory
put_dinode m a d =
    let m₁ = store_short (store_short m a d.type) (a + 2) d.major in
    let m₂ = store_short (store_short m₁ (a + 4) d.minor) (a + 6) d.nlink in
    store_words (store_word m₂ (a + 8) d.size) (a + 12) d.addrs (ndirect + 1)

-- the copy from `dip`
unfoldable pub get_dinode : Memory → ℕ → Dinode → Dinode
get_dinode m a old = record {
  type = load_short m a;
  major = load_short m (a + 2);
  minor = load_short m (a + 4);
  nlink = load_short m (a + 6);
  size = load_word m (a + 8);
  addrs = λ j. if ltb j (ndirect + 1) then load_word m (a + 12 + 4 * j) else old.addrs j;
}

-- one entry of the cache changed
abbrev pub with_inode : {W : Type 0} → State W → ℕ → Inode → State W
with_inode s i ip = record s { icache = update s.icache i ip }

module _ {W : Type 0} (io : Blocks W) where
  unfoldable pub iupdate : ℕ → State W → Run (State W)
  iupdate i s =
      let ip = s.icache i in
      let bno = iblock ip.inum in
      called
        (io.log_write bno (put_dinode (io.data_of s.world bno) (offset_of ip.inum) ip.disk) s.world)
      >>= λ w. done (record s { world = w })

  abbrev pub is_cached : ℕ → ℕ → Inode → Bool
  is_cached dev inum ip = ltb 0 ip.ref && ip.dev == dev && ip.inum == inum

  -- an entry taken over for another inode
  abbrev pub recycled : ℕ → ℕ → Inode → Inode
  recycled dev inum ip = record ip { dev = dev; inum = inum; ref = 1; busy = false; valid = false }

  -- the end of `iget`, given the first empty entry
  abbrev pub iget_at : ℕ → ℕ → Option ℕ → State W → Run (ℕ × State W)
  iget_at dev inum none s = halt
  iget_at dev inum (some i) s = done (i, with_inode s i (recycled dev inum (s.icache i)))

  -- `iget`: the entry of the cache. The one loop looks for the inode and for an empty entry.
  unfoldable pub iget : ℕ → ℕ → State W → Run (ℕ × State W)
  iget dev inum s = elim (find_from (is_cached dev inum) s.icache ninode 0) [
    | some i ↦ done (i, with_inode s i (record (s.icache i) { ref = (s.icache i).ref + 1 }))
    | none ↦ iget_at dev inum (find_from (λ (ip : Inode). ip.ref == 0) s.icache ninode 0) s
  ]

  unfoldable pub idup : ℕ → State W → ℕ × State W
  idup i s = (i, with_inode s i (record (s.icache i) { ref = (s.icache i).ref + 1 }))

  -- the read of entry `i`, now `ip`, from the disk
  unfoldable pub fill : ℕ → Inode → State W → Run (State W)
  fill i ip s =
      let d = get_dinode (io.data_of s.world (iblock ip.inum)) (offset_of ip.inum) ip.disk in
      halt_if (d.type == 0) >> done (with_inode s i (record ip { disk = d; valid = true }))

  -- `ilock`; a null pointer is not modelled, its callers pass none
  unfoldable pub ilock : ℕ → State W → Run (State W)
  ilock i s = do
    halt_if (ltb (s.icache i).ref 1)
    if (s.icache i).busy
        then sleeps i
        else (let ip = record (s.icache i) { busy = true } in
            if ip.valid then done (with_inode s i ip) else fill i ip s)

  unfoldable pub iunlock : ℕ → State W → Run (State W)
  iunlock i s = do
    halt_if (not ((s.icache i).busy) || ltb (s.icache i).ref 1)
    done (with_inode s i (record (s.icache i) { busy = false }))

  -- the loop of `ialloc`, from inode `inum` on with `left` to look at
  unfoldable pub ialloc_from : ℕ → ℕ → ℕ → ℕ → State W → Run (ℕ × State W)
  ialloc_from dev type zero inum s = halt
  ialloc_from dev type (suc left) inum s =
      let m = io.data_of s.world (iblock inum) in
      let rest = ialloc_from dev type left (inum + 1) s in
      if load_short m (offset_of inum) == 0
      then (called (
            io.log_write (iblock inum)
              (store_short (memset m (offset_of inum) 0 64) (offset_of inum) type) s.world)
          >>= λ w. iget dev inum (record s { world = w }))
      else rest

  unfoldable pub ialloc : ℕ → ℕ → State W → Run (ℕ × State W)
  ialloc dev type s = ialloc_from dev type ((readsb io s.world).ninodes - 1) 1 s
