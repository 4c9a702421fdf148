-- ===== src/File.antt =====
-- src/file.c: the table of open files. What it calls in fs.c, log.c and pipe.c works on a state
-- `W` of theirs; a null pointer is no file.
pub mod Refs
pub mod Chunks
mod Tests
use t2_so.Base.{
  ℕ, zero, suc, ◌+◌, ◌-◌, ◌*◌, ◌/◌, ◌%◌, ◌^◌, Bool, true, false, not, ◌||◌, ◌&&◌, ◌==◌,
  if◌then◌else◌, ltb, leb, Option, none, some, update,
}
use t2_so.Base.{ℤ, pos, negsuc, ltb_ℤ, ◌-ℤ◌, pos_part}
use t2_so.Log.{logsize}
use t2_so.Base.{Result, ok, panic, ◌>>=◌, ◌>>◌, panic_if, find_from}

-- param.h
abbrev pub nfile : ℕ
nfile = 100

pub data FileType : Type 0 where
  fd_none fd_pipe fd_inode : FileType

-- `struct file`
pub record File : Type 0 where
  pub type : FileType
  pub ref : ℕ
  pub readable : Bool
  pub writable : Bool
  pub pipe : ℕ
  pub ip : ℕ
  pub off : ℕ

abbrev pub Ftable : Type 0
Ftable = ℕ → File

-- What file.c calls: pipe.c, log.c and fs.c. A read or write returns its result as an `int`.
pub record Calls (W : Type 0) : Type 0 where
  pub pipeclose : ℕ → Bool → W → Result W
  pub begin_trans : W → W
  pub commit_trans : W → W
  pub ilock : ℕ → W → Result W
  pub iunlock : ℕ → W → Result W
  pub iput : ℕ → W → Result W
  pub stati : ℕ → ℕ → W → W
  pub piperead : ℕ → ℕ → ℤ → W → Result (ℤ × W)
  pub pipewrite : ℕ → ℕ → ℤ → W → Result (ℤ × W)
  pub readi : ℕ → ℕ → ℕ → ℤ → W → Result (ℤ × W)
  pub writei : ℕ → ℕ → ℕ → ℤ → W → Result (ℤ × W)

-- `filealloc`: the entry that is now in use, and the table
unfoldable pub filealloc : Ftable → Option ℕ × Ftable
filealloc t = elim (find_from (λ (f : File). f.ref == 0) t nfile 0) [
  | none ↦ (none, t)
  | some f ↦ (some f, update t f (record (t f) { ref = 1 }))
]

unfoldable pub filedup : ℕ → Ftable → Result (ℕ × Ftable)
filedup f t = do
  panic_if (ltb (t f).ref 1)
  ok (f, update t f (record (t f) { ref = (t f).ref + 1 }))

-- the entry after its last reference is gone
abbrev pub closed : File → File
closed f = record f { ref = 0; type = fd_none }

-- what `fileclose` does with the copy of the entry
unfoldable pub let_go : {W : Type 0} → Calls W → File → W → Result W
let_go c ff w = elim ff.type [
  | fd_none ↦ ok w
  | fd_pipe ↦ c.pipeclose ff.pipe ff.writable w
  | fd_inode ↦ c.iput ff.ip (c.begin_trans w) >>= λ w'. ok (c.commit_trans w')
]

unfoldable pub fileclose : {W : Type 0} → Calls W → ℕ → Ftable → W → Result (Ftable × W)
fileclose c f t w = do
  panic_if (ltb (t f).ref 1)
  if ltb 0 ((t f).ref - 1)
      then ok (update t f (record (t f) { ref = (t f).ref - 1 }), w)
      else (let_go c (t f) w >>= λ w'. ok (update t f (closed (t f)), w'))

-- `filestat`, to the address `st`
unfoldable pub filestat : {W : Type 0} → Calls W → File → ℕ → W → Result (ℤ × W)
filestat c f st w = elim f.type [
  | fd_inode ↦ c.ilock f.ip w >>= λ w₁. c.iunlock f.ip (c.stati f.ip st w₁) >>= λ w₂. ok (pos 0, w₂)
  | fd_none ↦ ok (negsuc 0, w)
  | fd_pipe ↦ ok (negsuc 0, w)
]

-- `if(r > 0) f->off += r`
unfoldable pub advanced : File → ℤ → File
advanced f r = if ltb_ℤ (pos 0) r then record f { off = (f.off + pos_part r) % 2 ^ 32 } else f

unfoldable pub fileread : {W : Type 0} → Calls W → File → ℕ → ℤ → W → Result (ℤ × File × W)
fileread c f addr n w = if not f.readable then ok (negsuc 0, f, w) else elim f.type [
  | fd_pipe ↦ c.piperead f.pipe addr n w >>= λ r. ok (r.0, f, r.1)
  | fd_inode ↦ c.ilock f.ip w >>= λ w₁. c.readi f.ip addr f.off n w₁ >>= λ r.
      c.iunlock f.ip r.1 >>= λ w₂. ok (r.0, advanced f r.0, w₂)
  | fd_none ↦ panic
]

-- the most bytes that one transaction writes
abbrev pub max_chunk : ℕ
max_chunk = (logsize - 1 - 1 - 2) / 2 * 512

-- one round of the loop of `filewrite`: a transaction that writes `n1` bytes
unfoldable pub write_chunk : {W : Type 0} → Calls W → File → ℕ → ℕ → W → Result (ℤ × File × W)
write_chunk c f addr n1 w = c.ilock f.ip (c.begin_trans w) >>= λ w₁.
    c.writei f.ip addr f.off (pos n1) w₁ >>= λ r.
    c.iunlock f.ip r.1 >>= λ w₂. ok (r.0, advanced f r.0, c.commit_trans w₂)

-- How the loop of `filewrite` ends: the bytes not written, the file and the state.
abbrev pub WriteEnd : Type 0 → Type 0
WriteEnd W = ℕ × File × W

-- what follows a transaction of `n1` bytes that returned `r`
abbrev pub after_chunk :
    {W : Type 0} → ℕ → ℕ → (File → W → Result (WriteEnd W)) → ℤ × File × W → Result (WriteEnd W)
after_chunk n1 left rest (negsuc _, f, w) = ok (left, f, w)
after_chunk n1 left rest (pos r, f, w) = if r == n1 then rest f w else panic

abbrev pub chunk : ℕ → ℕ
chunk left = if ltb max_chunk left then max_chunk else left

-- the loop of `filewrite` with `left` bytes to go
unfoldable pub write_chunks : {W : Type 0} → Calls W → ℕ → File → ℕ → ℕ → W → Result (WriteEnd W)
write_chunks c zero f addr left w = ok (left, f, w)
write_chunks {W} c (suc fuel) f addr left w =
    let rest : File → W → Result (WriteEnd W) =
      λ f' w'. write_chunks c fuel f' ((addr + chunk left) % 2 ^ 32) (left - chunk left) w' in
    if left == 0
    then ok (0, f, w)
    else (write_chunk c f addr (chunk left) w >>= after_chunk (chunk left) left rest)

unfoldable pub filewrite : {W : Type 0} → Calls W → File → ℕ → ℤ → W → Result (ℤ × File × W)
filewrite c f addr n w = if not f.writable then ok (negsuc 0, f, w) else elim f.type [
  | fd_pipe ↦ c.pipewrite f.pipe addr n w >>= λ r. ok (r.0, f, r.1)
  | fd_inode ↦ elim n [
    | negsuc _ ↦ ok (negsuc 0, f, w)
    | pos k ↦
        write_chunks c k f addr k w >>= λ r. ok (if r.0 == 0 then pos k else negsuc 0, r.1, r.2)
  ]
  | fd_none ↦ panic
]
