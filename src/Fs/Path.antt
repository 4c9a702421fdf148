-- ===== src/Fs/Path.antt =====
-- The path names of src/fs.c. A path is the list of its characters before the final zero.
pub mod Elements
use t2_so.Base.{get_or}
use t2_so.Base.{length}
use t2_so.Base.{
  ℕ, zero, suc, ◌+◌, ◌-◌, ◌*◌, ◌/◌, ◌%◌, ◌^◌, Bool, true, false, not, ◌&&◌, ◌||◌, ◌==◌,
  if◌then◌else◌, ltb, leb, Option, none, some, update, ℤ, pos, negsuc, List, [], ◌∷◌,
}
use t2_so.Str.{Memory}
use t2_so.Fs.{Blocks, dirsiz, t_dir, rootdev, rootino}
use t2_so.Fs.Run.{Run, done, halt, sleeps, ◌>>=◌}
use t2_so.Fs.Inode.{Dinode, Inode, State, iget, idup, ilock, iunlock}
use t2_so.Fs.Content.{Devices, copy_bytes, iput, iunlockput}
use t2_so.Fs.Dir.{dirlookup}

abbrev pub slash : ℕ
slash = 47

-- `while(*path == '/') path++`
unfoldable pub skip_slashes : List ℕ → List ℕ
skip_slashes [] = []
skip_slashes (c ∷ path) = let rest = skip_slashes path in if c == slash then rest else c ∷ path

-- `while(*path != '/' && *path != 0) path++`: what is passed over, and what is left
unfoldable pub first_name : List ℕ → List ℕ
first_name [] = []
first_name (c ∷ path) = let rest = first_name path in if c == slash then [] else c ∷ rest

unfoldable pub skip_name : List ℕ → List ℕ
skip_name [] = []
skip_name (c ∷ path) = let rest = skip_name path in if c == slash then c ∷ path else rest

abbrev pub chars : List ℕ → Memory
chars s k = get_or s k 0

abbrev pub is_empty {ℓ} : {A : Type ℓ} → List A → Bool
is_empty [] = true
is_empty (c ∷ path) = false

abbrev pub is_absolute : List ℕ → Bool
is_absolute [] = false
is_absolute (c ∷ path) = c == slash

-- The characters from `s` on, `len` of them, go to `name`: the first 14, or all and a zero.
unfoldable pub put_name : Memory → List ℕ → Memory
put_name name s =
    let len = length s in
    if leb dirsiz len
    then copy_bytes name 0 (chars s) 0 dirsiz
    else update (copy_bytes name 0 (chars s) 0 len) len 0

unfoldable pub skipelem : List ℕ → Memory → Option (List ℕ × Memory)
skipelem path name =
    let s = skip_slashes path in
    if is_empty s then none else some (skip_slashes (skip_name s), put_name name (first_name s))

-- `junk` is what a local array holds before it is written, and `cwd` the directory of the process.
module _ {W : Type 0} (io : Blocks W) (devsw : Devices W) (junk : Memory) (cwd : ℕ) where
  -- One turn of the loop of `namex` for a name, and the turns after it. It is given whether the name
  -- is the last one.
  abbrev pub step_into :
      Bool
      → Bool
      → ℕ
      → Memory
      → State W
      → (ℕ → State W → Run (Option ℕ × Memory × State W))
      → Run (Option ℕ × Memory × State W)
  step_into parent last ip name s next = ilock io ip s >>= λ s₁.
      if not ((s₁.icache ip).disk.type == t_dir)
      then (iunlockput io ip s₁ >>= λ s₂. done (none, name, s₂))
      else if parent && last
      then (iunlock io ip s₁ >>= λ s₂. done (some ip, name, s₂))
      else (dirlookup io devsw junk ip name s₁ >>= λ r. iunlockput io ip r.1 >>= λ s₂. elim r.0 [
        | none ↦ done (none, name, s₂)
        | some found ↦ next found.0 s₂
      ])

  -- the end of `namex`
  abbrev pub no_more : Bool → ℕ → Memory → State W → Run (Option ℕ × Memory × State W)
  no_more parent ip name s =
      if parent then (iput io ip s >>= λ s₁. done (none, name, s₁)) else done (some ip, name, s)

  -- the loop of `namex`, on fuel
  unfoldable pub walk : ℕ → Bool → ℕ → List ℕ → Memory → State W → Run (Option ℕ × Memory × State W)
  walk zero parent ip path name s = no_more parent ip name s
  walk (suc fuel) parent ip path name s = elim (skipelem path name) [
    | none ↦ no_more parent ip name s
    | some r ↦
        step_into parent (is_empty r.0) ip r.1 s (λ next s₁. walk fuel parent next r.0 r.1 s₁)
  ]

  unfoldable pub start : List ℕ → State W → Run (ℕ × State W)
  start path s = if is_absolute path then iget io rootdev rootino s else done (idup io cwd s)

  unfoldable pub namex : List ℕ → Bool → Memory → State W → Run (Option ℕ × Memory × State W)
  namex path parent name s = start path s >>= λ r. walk (length path + 1) parent r.0 path name r.1

  unfoldable pub namei : List ℕ → State W → Run (Option ℕ × Memory × State W)
  namei path s = namex path false junk s

  unfoldable pub nameiparent : List ℕ → Memory → State W → Run (Option ℕ × Memory × State W)
  nameiparent path name s = namex path true name s
