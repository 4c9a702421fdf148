-- ===== src/Fs/Content/Apart.antt =====
-- A file whose blocks are apart from each other, and a write of one of them.
use t2_so.Base.{
  ℕ, ◌+◌, ◌-◌, ◌*◌, ◌/◌, ◌%◌, ◌<◌, ◌≡◌, ◌≢◌, ◌∙◌, arith, ◌==◌, ◌&&◌, if◌then◌else◌, ltb, leb, true,
  false, Bool-cases, inl, inr, ap, sym, ok,
}
use t2_so.Str.{Memory}
use t2_so.Fs.{Blocks, IsLawful, bsize, ndirect}
use t2_so.Fs.Inode.{State}
use t2_so.Fs.Content.Mapped.{block_of, IsMapped, content}

module _ {W : Type 0} (io : Blocks W) (limit : ℕ) where
  -- The blocks of a file lie below the log and apart from each other.
  pub record IsApart (s : State W) (i count : ℕ) : Type 0 where
    pub mapped : IsMapped io s i count
    pub below : (bn : ℕ) → bn < count → block_of io s i bn < limit
    pub distinct : (a b : ℕ) → a < count → b < count → block_of io s i a ≡ block_of io s i b → a ≡ b
    pub indirect_below : ndirect < count → (s.icache i).disk.addrs ndirect < limit
    pub indirect_apart :
        (bn : ℕ)
        → ndirect < count
        → bn < count
        → block_of io s i bn ≢ (s.icache i).disk.addrs ndirect

  -- what a write of the `left` bytes of `src` from `d` on, at byte `off`, makes of the file
  pub record Overwritten (i count : ℕ) (src : Memory) (d off left : ℕ) (s s' : State W)
      : Type 0 where
    pub icache : s'.icache ≡ s.icache
    pub apart : IsApart s' i count
    pub blocks : (bn : ℕ) → bn < count → block_of io s' i bn ≡ block_of io s i bn
    pub bytes :
        (k : ℕ)
        → k < count * bsize
        → content io s' i k
          ≡ (if leb off k && ltb k (off + left) then src (d + (k - off)) else content io s i k)
    pub others :
        (x : ℕ)
        → x < limit
        → ((bn : ℕ) → bn < count → block_of io s i bn ≢ x)
        → io.data_of s'.world x ≡ io.data_of s.world x

  -- a write of one block of the file
  module _ (law : IsLawful io limit) (s : State W) (i count bn : ℕ) (h : IsApart s i count)
      (lt : bn < count) (new : Memory) (w : W)
      (e : io.log_write (block_of io s i bn) new s.world ≡ ok w) where
    abbrev pub after : State W
    after = record s { world = w }

    pub data_after :
        (x : ℕ)
        → x < limit
        → io.data_of w x ≡ (if block_of io s i bn == x then new else io.data_of s.world x)
    data_after x small =
        law.log_write_lem (block_of io s i bn) new s.world w x (h.below bn lt) small e

    pub block_of-after : (a : ℕ) → a < count → block_of io after i a ≡ block_of io s i a
    block_of-after a small = elim (Bool-cases (ltb a ndirect)) [
      | inl direct ↦ rw direct
      | inr far ↦
          let more : ndirect < count = ground (arith, far, small) in
          let away : (block_of io s i bn == (s.icache i).disk.addrs ndirect) ≡ false =
            ground (arith, h.indirect_apart bn more lt) in
          let same : io.data_of w ((s.icache i).disk.addrs ndirect)
              ≡ io.data_of s.world ((s.icache i).disk.addrs ndirect) =
            data_after ((s.icache i).disk.addrs ndirect) (h.indirect_below more) ∙ rw away in
          rw (far, same)
    ]

    pub after-IsApart : IsApart after i count
    after-IsApart = record {
      mapped = record {
        small = h.mapped.small;
        blocks = λ a small z. h.mapped.blocks a small (sym (block_of-after a small) ∙ z);
        indirect = h.mapped.indirect;
      };
      below = λ a small. omega (arith, block_of-after a small, h.below a small);
      distinct = λ a b p q same.
          h.distinct a b p q (sym (block_of-after a p) ∙ (same ∙ block_of-after b q));
      indirect_below = h.indirect_below;
      indirect_apart =
          λ a more small same. h.indirect_apart a more small (sym (block_of-after a small) ∙ same);
    }

    pub content-after :
        (k : ℕ)
        → k < count * bsize
        → content io after i k ≡ (if k / bsize == bn then new (k % bsize) else content io s i k)
    content-after k small =
        let a : ℕ = k / bsize in
        let la : a < count = omega arith in
        let there : io.data_of w (block_of io after i a) ≡ (
            if block_of io s i bn == block_of io s i a
            then new
            else io.data_of s.world (block_of io s i a)) =
          ap (io.data_of w) (block_of-after a la) ∙ data_after (block_of io s i a) (h.below a la) in
        elim (Bool-cases (a == bn)) [
          | inl here ↦
              let same : a ≡ bn = ground (arith, here) in
              let hit : (block_of io s i bn == block_of io s i a) ≡ true =
                ground (arith, ap (block_of io s i) same) in
              let now : io.data_of w (block_of io after i a) ≡ new = there ∙ rw hit in
              ap (λ (m : Memory). m (k % bsize)) now ∙ rw here
          | inr away ↦
              let ne : a ≢ bn = λ q. ground (arith, away, q) in
              let miss : (block_of io s i bn == block_of io s i a) ≡ false = ground (
                arith,
                λ (q : block_of io s i bn ≡ block_of io s i a). ne (sym (h.distinct bn a lt la q)),
              ) in
              let now : io.data_of w (block_of io after i a)
                  ≡ io.data_of s.world (block_of io s i a) =
                there ∙ rw miss in
              ap (λ (m : Memory). m (k % bsize)) now ∙ rw away
        ]
