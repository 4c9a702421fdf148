-- ===== src/Fs/Content/Mapped.antt =====
-- A file all of whose blocks are there: the bytes that it holds, and that `bmap` finds its blocks.
use t2_so.Base.{
  ℕ, ◌-◌, ◌*◌, ◌/◌, ◌%◌, ◌≤◌, ◌<◌, ◌≡◌, ◌≢◌, arith, ◌==◌, if◌then◌else◌, ltb, true, false,
  Bool-cases, inl, inr,
}
use t2_so.Kalloc.{load_word}
use t2_so.Fs.{Blocks, bsize, ndirect, nindirect, maxfile}
use t2_so.Fs.Run.{done}
use t2_so.Fs.Inode.{State}
use t2_so.Fs.Content.{own_block, indirect_block, bmap}

module _ {W : Type 0} (io : Blocks W) where
  -- the block that holds block `bn` of a file, 0 if there is none
  abbrev pub block_of : State W → ℕ → ℕ → ℕ
  block_of s i bn =
      let addrs = (s.icache i).disk.addrs in
      if ltb bn ndirect
      then addrs bn
      else load_word (io.data_of s.world (addrs ndirect)) (4 * (bn - ndirect))

  -- Blocks 0 to `count` of the file are there, and so is the indirect block if they need it.
  pub record IsMapped (s : State W) (i count : ℕ) : Type 0 where
    pub small : count ≤ maxfile
    pub blocks : (bn : ℕ) → bn < count → block_of s i bn ≢ 0
    pub indirect : ndirect < count → (s.icache i).disk.addrs ndirect ≢ 0

  -- byte `k` of the file
  abbrev pub content : State W → ℕ → ℕ → ℕ
  content s i k = io.data_of s.world (block_of s i (k / bsize)) (k % bsize)

  pub bmap-block_of :
      (s : State W) (i count bn : ℕ)
      → IsMapped s i count
      → bn < count
      → bmap io i bn s ≡ done (block_of s i bn, s)
  unfolding bmap own_block indirect_block
  bmap-block_of s i count bn h lt = elim (Bool-cases (ltb bn ndirect)) [
    | inl e ↦
        let there : (s.icache i).disk.addrs bn ≢ 0 = λ z. h.blocks bn lt (rw e z) in
        let off : ((s.icache i).disk.addrs bn == 0) ≡ false = ground (arith, there) in rw (e, off)
    | inr e ↦
        let word : ℕ =
          load_word (io.data_of s.world ((s.icache i).disk.addrs ndirect)) (4 * (bn - ndirect)) in
        let there : word ≢ 0 = λ z. h.blocks bn lt (rw e z) in
        let off : (word == 0) ≡ false = ground (arith, there) in
        let more : ndirect < count = ground (arith, e, lt) in
        let last : ((s.icache i).disk.addrs ndirect == 0) ≡ false =
          ground (arith, h.indirect more) in
        let within : ltb (bn - ndirect) nindirect ≡ true = ground (arith, h.small) in
        rw (e, within, last, off)
  ]
