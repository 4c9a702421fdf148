-- ===== src/Log/Head.antt =====
-- What `write_head` and `read_head` do with the header block.
use t2_so.Base.{
  ℕ, zero, suc, ◌+◌, ◌-◌, ◌<◌, ◌≡◌, ◌∙◌, refl, arith, update, ◌==◌, if◌then◌else◌, leb, ltb, ◌&&◌,
}
use t2_so.Disk.{Block, look, bread, boot}
use t2_so.Disk.Laws.{look-bread, disk-bwrite-modify, disk-bread, power-bread}
use t2_so.Log.{Log, write_sectors, write_head, read_sectors, read_head}

write_sectors_lem :
    (sector : ℕ → ℕ) (left i : ℕ) (hb : Block) (w : ℕ)
    → write_sectors sector left i hb w
      ≡ (if ltb i w && leb w (i + left) then sector (w - 1) else hb w)
unfolding write_sectors
write_sectors_lem sector zero i hb w = ground arith
write_sectors_lem sector (suc left) i hb w =
    ground (arith, write_sectors_lem sector left (i + 1) (update hb (i + 1) (sector i)) w)

read_sectors_lem :
    (lh : Block) (left i : ℕ) (sector : ℕ → ℕ) (j : ℕ)
    → read_sectors lh left i sector j
      ≡ (if leb i j && ltb j (i + left) then lh (j + 1) else sector j)
unfolding read_sectors
read_sectors_lem lh zero i sector j = ground arith
read_sectors_lem lh (suc left) i sector j =
    ground (arith, read_sectors_lem lh left (i + 1) (update sector i (lh (i + 1))) j)

-- the header block that `write_head` writes
abbrev pub header : Log → Block
header l = write_sectors l.sector l.n 0 (update (look l.bufs l.start) 0 l.n)

pub header-words :
    (l : Log) → (header l 0 ≡ l.n) × ((i : ℕ) → i < l.n → header l (i + 1) ≡ l.sector i)
header-words l = (
  ground (arith, write_sectors_lem l.sector l.n 0 (update (look l.bufs l.start) 0 l.n) 0),
  λ i lt.
      ground (
        arith,
        write_sectors_lem l.sector l.n 0 (update (look l.bufs l.start) 0 l.n) (i + 1),
        at i,
      ),
)
  where
    at : (i : ℕ) → l.sector (i + 1 - 1) ≡ l.sector i
    at i = let e : i + 1 - 1 ≡ i = omega arith in rw e

-- `write_head` writes the header alone.
pub write_head-disk :
    (l : Log)
    → (write_head l).bufs.disk
      ≡ (if l.bufs.power == 0 then l.bufs.disk else update l.bufs.disk l.start (header l))
unfolding write_head
write_head-disk l = simp (disk-bwrite-modify, look-bread, disk-bread, power-bread)

-- After a boot `read_head` has the header's words.
pub read_head-boot :
    (l : Log) (d : ℕ → Block) (power : ℕ)
    → let r = read_head (record l { bufs = boot d power }) in
      (r.n ≡ d l.start 0)
      × ((i : ℕ) → i < d l.start 0 → r.sector i ≡ d l.start (i + 1))
      × (r.bufs.disk ≡ d)
      × (r.bufs.power ≡ power)
      × ((x : ℕ) → look r.bufs x ≡ d x)
unfolding read_head
read_head-boot l d power = (
  rw (seen l.start),
  λ i lt.
      rw (seen l.start) (ground (arith, read_sectors_lem (d l.start) (d l.start 0) 0 l.sector i)),
  disk-bread l.start (boot d power) ∙ (unfold boot in refl),
  power-bread l.start (boot d power) ∙ (unfold boot in refl),
  seen,
)
  where
    seen : (x : ℕ) → look (bread l.start (boot d power)) x ≡ d x
    seen x = look-bread l.start (boot d power) x ∙ (unfold look boot in refl)
