-- ===== src/Disk/Laws.antt =====
-- What the operations on cached blocks leave in the cache's view and on the disk.
use t2_so.Base.{ℕ, ◌≡◌, refl, arith, update, ◌==◌, if◌then◌else◌}
use t2_so.Disk.{Block, Bufs, look, bread, modify, bwrite}

pub look-bread : (s : ℕ) (b : Bufs) (x : ℕ) → look (bread s b) x ≡ look b x
unfolding look bread
look-bread s b x = ground arith

pub look-modify :
    (s : ℕ) (d : Block) (b : Bufs) (x : ℕ)
    → look (modify s d b) x ≡ (if s == x then d else look b x)
unfolding look modify
look-modify s d b x = ground arith

pub look-bwrite : (s : ℕ) (b : Bufs) (x : ℕ) → look (bwrite s b) x ≡ look b x
unfolding look bwrite
look-bwrite s b x = ground arith

pub disk-bwrite :
    (s : ℕ) (b : Bufs)
    → (bwrite s b).disk ≡ (if b.power == 0 then b.disk else update b.disk s (look b s))
unfolding bwrite
disk-bwrite s b = refl

-- a cached block given new data and written
pub disk-bwrite-modify :
    (s : ℕ) (d : Block) (b : Bufs)
    → (bwrite s (modify s d b)).disk ≡ (if b.power == 0 then b.disk else update b.disk s d)
unfolding bwrite modify
disk-bwrite-modify s d b = ground (arith, look-modify s d b s)

pub disk-bread : (s : ℕ) (b : Bufs) → (bread s b).disk ≡ b.disk
unfolding bread
disk-bread s b = refl

pub power-bread : (s : ℕ) (b : Bufs) → (bread s b).power ≡ b.power
unfolding bread
power-bread s b = refl
