-- ===== src/Syscall.antt =====
-- src/syscall.c: how the kernel reads the arguments of a system call from the memory of the
-- process that makes it. A result `none` is the return of -1.
pub mod Args
mod Tests
use t2_so.Base.{
  ℕ, zero, suc, ◌+◌, ◌-◌, ◌*◌, ◌%◌, ◌^◌, Bool, true, false, ◌&&◌, ◌||◌, ◌==◌, if◌then◌else◌, ltb,
  leb, Option, none, some,
}
use t2_so.Str.{Memory}
use t2_so.Kalloc.{load_word}

-- what the functions read of `proc`: its size, the stack pointer that it trapped with, its memory
pub record Caller : Type 0 where
  pub sz : ℕ
  pub esp : ℕ
  pub memory : Memory

unfoldable pub fetchint : Caller → ℕ → Option ℕ
fetchint c addr =
    if leb c.sz addr || ltb c.sz ((addr + 4) % 2 ^ 32) then none else some (load_word c.memory addr)

-- the loop of `fetchstr` with `left` bytes of the process to go: the number of bytes before the zero
unfoldable pub scan : Memory → ℕ → ℕ → ℕ → Option ℕ
scan m zero s n = none
scan m (suc left) s n = let rest = scan m left (s + 1) (n + 1) in if m s == 0 then some n else rest

-- `fetchstr`: the length of the string at `addr`
unfoldable pub fetchstr : Caller → ℕ → Option ℕ
fetchstr c addr = if leb c.sz addr then none else scan c.memory (c.sz - addr) addr 0

unfoldable pub argint : Caller → ℕ → Option ℕ
argint c n = fetchint c ((c.esp + 4 + 4 * n) % 2 ^ 32)

-- the test of `argptr`; `size` is the word that holds the `int`
abbrev pub bad_block : Caller → ℕ → ℕ → Bool
bad_block c i size = leb c.sz i || ltb c.sz ((i + size) % 2 ^ 32)

abbrev pub block_at : Caller → ℕ → Option ℕ → Option ℕ
block_at c size none = none
block_at c size (some i) = if bad_block c i size then none else some i

unfoldable pub argptr : Caller → ℕ → ℕ → Option ℕ
argptr c n size = block_at c size (argint c n)

abbrev pub with_length : ℕ → Option ℕ → Option (ℕ × ℕ)
with_length addr none = none
with_length addr (some len) = some (addr, len)

abbrev pub string_at : Caller → Option ℕ → Option (ℕ × ℕ)
string_at c none = none
string_at c (some addr) = with_length addr (fetchstr c addr)

-- `argstr`: the address of the string and its length
unfoldable pub argstr : Caller → ℕ → Option (ℕ × ℕ)
argstr c n = string_at c (argint c n)
