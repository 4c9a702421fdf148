-- ===== src/Log/Install.antt =====
-- What `install_trans` writes, and what a loss of power on the way leaves.
use t2_so.Base.{
  ℕ, zero, suc, ◌+◌, ◌-◌, ◌≤◌, ◌<◌, ◌≡◌, ◌≢◌, ◌∙◌, refl, false, arith, update, ◌==◌, min,
}
use t2_so.Base.{if◌then◌else◌, ap, sym}
use t2_so.Disk.{Block, look, bread, modify, bwrite}
use t2_so.Disk.Laws.{
  disk-bread, power-bread, look-bread, look-modify, look-bwrite, disk-bwrite-modify,
}
use t2_so.Log.{Log, install_one, install_from}
use t2_so.Log.Spec.{replay, HomesBelow}

-- the data that `install_one` moves
abbrev pub moved : ℕ → Log → Block
moved tail l = look l.bufs (l.start + tail + 1)

install_one-look :
    (tail : ℕ) (l : Log) (x : ℕ)
    → look (install_one tail l).bufs x
      ≡ (if l.sector tail == x then moved tail l else look l.bufs x)
unfolding install_one
install_one-look tail l x = simp (look-bwrite, look-modify, look-bread)

install_one-disk :
    (tail : ℕ) (l : Log)
    → (install_one tail l).bufs.disk ≡ (
        if l.bufs.power == 0
        then l.bufs.disk
        else update l.bufs.disk (l.sector tail) (moved tail l))
unfolding install_one
install_one-disk tail l = simp (disk-bwrite-modify, look-bread, look-bread, disk-bread, power-bread)

-- The log blocks as the cache shows them are those on the disk.
abbrev pub IsCoherent : ℕ → Log → Type 0
IsCoherent n l = (t : ℕ) → t < n → look l.bufs (l.start + t + 1) ≡ l.bufs.disk (l.start + t + 1)

pub record Installed (k tail : ℕ) (l l' : Log) : Type 0 where
  pub disk : l'.bufs.disk ≡ replay l.start l.sector (min l.bufs.power k) tail l.bufs.disk
  pub power : l'.bufs.power ≡ l.bufs.power - k
  pub start : l'.start ≡ l.start
  pub size : l'.size ≡ l.size
  pub busy : l'.busy ≡ l.busy

install_one-IsCoherent :
    (n tail : ℕ) (l : Log)
    → tail < n
    → HomesBelow l.start l.sector n
    → IsCoherent n l
    → IsCoherent n (install_one tail l)
install_one-IsCoherent n tail l lt below same t ht =
    unfold install_one in
    (install_one-look tail l (l.start + t + 1)
      ∙ (kept
          ∙ sym
              (ap (λ (d : ℕ → Block). d (l.start + t + 1)) (install_one-disk tail l) ∙ kept_disk)))
  where
    apart : l.sector tail ≢ l.start + t + 1
    apart e = omega (arith, below tail lt)

    kept :
        (if l.sector tail == l.start + t + 1 then moved tail l else look l.bufs (l.start + t + 1))
        ≡ l.bufs.disk (l.start + t + 1)
    kept = ground (arith, apart, same t ht)

    kept_disk :
        (if l.bufs.power == 0
            then l.bufs.disk
            else update l.bufs.disk (l.sector tail) (moved tail l))
          (l.start + t + 1)
        ≡ l.bufs.disk (l.start + t + 1)
    kept_disk = ground (arith, apart)

-- one copy, then those that the power allows
replay-min :
    (start : ℕ) (sector : ℕ → ℕ) (p k tail : ℕ) (d : ℕ → Block)
    → replay start sector
        (min (p - 1) k)
        (tail + 1)
        (if p == 0 then d else update d (sector tail) (d (start + tail + 1)))
      ≡ replay start sector (min p (suc k)) tail d
unfolding replay
replay-min start sector zero k tail d =
    let e : min (zero - 1) k ≡ 0 = omega arith in
    let f : min zero (suc k) ≡ 0 = omega arith in rw (e, f)
replay-min start sector (suc p) k tail d =
    let e : min (suc p - 1) k ≡ min p k = omega arith in
    let f : min (suc p) (suc k) ≡ suc (min p k) = omega arith in
    let z : (suc p == 0) ≡ false = ground arith in rw (e, f, z)

Installed-suc :
    (k tail : ℕ) (l l' : Log)
    → look l.bufs (l.start + tail + 1) ≡ l.bufs.disk (l.start + tail + 1)
    → Installed k (tail + 1) (install_one tail l) l'
    → Installed (suc k) tail l l'
Installed-suc k tail l l' same i = record {
  disk = i.disk ∙ first;
  power = unfold install_one bwrite modify bread in omega (arith, i.power);
  start = unfold install_one in i.start;
  size = unfold install_one in i.size;
  busy = unfold install_one in i.busy;
}
  where
    first :
        replay
          (install_one tail l).start
          (install_one tail l).sector
          (min (install_one tail l).bufs.power k)
          (tail + 1)
          (install_one tail l).bufs.disk
        ≡ replay l.start l.sector (min l.bufs.power (suc k)) tail l.bufs.disk
    first =
        rw (install_one-disk tail l, same)
          (unfold install_one bwrite modify bread in
            replay-min l.start l.sector l.bufs.power k tail l.bufs.disk)

-- With power for `p` writes, `install_trans` copies the first `p` log blocks to their homes.
pub install_from-Installed :
    (n k tail : ℕ) (l : Log)
    → tail + k ≤ n
    → HomesBelow l.start l.sector n
    → IsCoherent n l
    → Installed k tail l (install_from k tail l)
unfolding install_from
install_from-Installed n zero tail l lt below same = record {
  disk = let e : min l.bufs.power zero ≡ 0 = omega arith in rw e (unfold replay in refl);
  power = omega arith;
  start = refl;
  size = refl;
  busy = refl;
}
install_from-Installed n (suc k) tail l lt below same =
    Installed-suc k tail l _ (same tail (omega arith)) (
      install_from-Installed n k (tail + 1) (install_one tail l) (omega arith)
        (unfold install_one in below) (install_one-IsCoherent n tail l (omega arith) below same))
