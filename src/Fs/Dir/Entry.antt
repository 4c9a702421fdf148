-- ===== src/Fs/Dir/Entry.antt =====
-- A new entry of a directory: its name and the number of its inode.
use t2_so.Base.{ℕ, ◌+◌, ◌-◌, ◌<◌, ◌≡◌, ◌∙◌, refl, arith, Bool, true, false, ◌==◌, ltb, pos, ◌≢◌}
use t2_so.Str.{Memory, strncpy}
use t2_so.Str.Copy.{strncpy-zero_in}
use t2_so.Str.Compare.{strncmp-zero_in}
use t2_so.Fs.{dirsiz}
use t2_so.Fs.Inode.{load_short}
use t2_so.Fs.Dir.{namecmp, name_of, put_entry}
use t2_so.Fs.Dir.Lookup.{has_name, namecmp-cong}

-- a new entry has its name, and the number of its inode
namecmp-strncpy : (name old : Memory) → namecmp name (strncpy old name (pos dirsiz)) ≡ pos 0
unfolding namecmp
namecmp-strncpy name old =
    (strncmp-zero_in name (strncpy old name (pos dirsiz)) dirsiz).1
      (λ k lt nz. ground (strncpy-zero_in name old dirsiz k, lt, nz, arith))

pub load_short-put_entry :
    (de name : Memory) (inum : ℕ) → inum < 65536 → load_short (put_entry de name inum) 0 ≡ inum
unfolding put_entry
load_short-put_entry de name inum lt = ground (arith, lt)

name_of-put_entry :
    (de name : Memory) (inum j : ℕ)
    → name_of (put_entry de name inum) j ≡ strncpy (name_of de) name (pos dirsiz) j
unfolding put_entry
name_of-put_entry de name inum j =
    let back : 2 + j - 2 ≡ j = omega arith in
    let past : ltb (2 + j) 2 ≡ false = ground arith in
    let apart₀ : (0 == 2 + j) ≡ false = ground arith in
    let apart₁ : (1 == 2 + j) ≡ false = ground arith in rw (apart₀, apart₁, past, back) refl

pub has_name-put_entry :
    (de name : Memory) (inum : ℕ)
    → inum < 65536
    → inum ≢ 0
    → has_name name (put_entry de name inum) ≡ true
has_name-put_entry de name inum lt nz =
    let named : namecmp name (name_of (put_entry de name inum)) ≡ pos 0 =
      namecmp-cong name (name_of (put_entry de name inum)) (strncpy (name_of de) name (pos dirsiz))
        (λ j _. name_of-put_entry de name inum j)
      ∙ namecmp-strncpy name (name_of de) in
    let used : (inum == 0) ≡ false = ground (arith, nz) in
    rw (load_short-put_entry de name inum lt, used, named) refl

-- whether an entry is free
abbrev pub is_free : Memory → Bool
is_free de = load_short de 0 == 0
