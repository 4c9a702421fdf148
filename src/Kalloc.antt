-- ===== src/Kalloc.antt =====
-- src/kalloc.c: the allocator of pages of physical memory. A free page holds the address of the
-- next in its first word. `end` is the first address after the kernel, which the linker sets.
pub mod Words
pub mod FreeList
pub mod Owners
pub mod Range
mod Tests
use t2_so.Base.{
  ℕ, zero, suc, ◌+◌, ◌-◌, ◌*◌, ◌/◌, ◌%◌, ◌^◌, Bool, true, false, not, ◌&&◌, ◌||◌, ◌==◌,
  if◌then◌else◌, ltb, leb, Option, none, some,
}
use t2_so.Base.{Result, ok, panic, ◌>>=◌, ◌>>◌, panic_if}
use t2_so.Str.{Memory, memset, store_word}

abbrev pub pgsize : ℕ
pgsize = 4096

abbrev pub kernbase : ℕ
kernbase = 2147483648

abbrev pub phystop : ℕ
phystop = 234881024

abbrev pub v2p : ℕ → ℕ
v2p a = (a + 2 ^ 32 - kernbase) % 2 ^ 32

-- the rounding to a page, `(sz + PGSIZE - 1) & ~(PGSIZE - 1)`
unfoldable pub pgroundup : ℕ → ℕ
pgroundup sz = let up = (sz + pgsize - 1) % 2 ^ 32 in up - up % pgsize

-- `kmem` and the memory that it manages
pub record Kmem : Type 0 where
  pub use_lock : Bool
  pub freelist : ℕ
  pub memory : Memory

-- the word at an address, lowest byte first
unfoldable pub load_word : Memory → ℕ → ℕ
load_word m a = m a + 256 * m (a + 1) + 65536 * m (a + 2) + 16777216 * m (a + 3)

-- the test of `kfree`
abbrev pub no_page : ℕ → ℕ → Bool
no_page end v = not (v % pgsize == 0) || ltb v end || leb phystop (v2p v)

unfoldable pub kfree : ℕ → ℕ → Kmem → Result Kmem
kfree end v k = do
  panic_if (no_page end v)
  let junk = memset k.memory v 1 pgsize
  ok (record k { freelist = v; memory = store_word junk v k.freelist })

-- `kalloc`: the page, or none for the null pointer
unfoldable pub kalloc : Kmem → Option ℕ × Kmem
kalloc k =
    if k.freelist == 0
    then (none, k)
    else (some k.freelist, record k { freelist = load_word k.memory k.freelist })

-- the loop of `freerange`; it makes at most 2^20 rounds, one for each page of the address space
unfoldable pub free_pages : ℕ → ℕ → ℕ → ℕ → Kmem → Result Kmem
free_pages end zero p vend k = ok k
free_pages end (suc fuel) p vend k =
    let rest = λ (k' : Kmem). free_pages end fuel ((p + pgsize) % 2 ^ 32) vend k' in
    if leb ((p + pgsize) % 2 ^ 32) vend then kfree end p k >>= rest else ok k

unfoldable pub freerange : ℕ → ℕ → ℕ → Kmem → Result Kmem
freerange end vstart vend k = free_pages end (2 ^ 20) (pgroundup vstart) vend k

unfoldable pub kinit1 : ℕ → ℕ → ℕ → Kmem → Result Kmem
kinit1 end vstart vend k = freerange end vstart vend (record k { use_lock = false })

unfoldable pub kinit2 : ℕ → ℕ → ℕ → Kmem → Result Kmem
kinit2 end vstart vend k = do k' ← freerange end vstart vend k; ok (record k' { use_lock = true })
