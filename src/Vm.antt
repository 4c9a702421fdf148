-- ===== src/Vm.antt =====
-- src/vm.c: page tables in memory. A page table has 1024 entries of 4 bytes; the upper 20 bits of an
-- entry are a physical address, the lower ones flags. An address of the kernel is the physical
-- address and `kernbase`. `end` is the first address after the kernel, as in Kalloc.

pub mod Bits
pub mod Tables
pub mod NewTable
pub mod Walk
pub mod Store
pub mod Mapped
mod Tests
pub mod User
use Prim.Native.Nat.{bit_or}
use t2_so.Base.{
  ℕ, zero, suc, ◌+◌, ◌-◌, ◌*◌, ◌/◌, ◌%◌, ◌^◌, Bool, true, false, not, ◌&&◌, ◌||◌, ◌==◌,
  if◌then◌else◌, ltb, leb, min, Option, none, some, List, [], ◌∷◌,
}
use t2_so.Base.{Result, ok, panic, ◌>>=◌, ◌>>◌, panic_if, ℤ, pos, negsuc}
use t2_so.Str.{Memory, memset, memmove, store_word}
use t2_so.Kalloc.{pgsize, kernbase, phystop, v2p, pgroundup, Kmem, load_word, kalloc, kfree}

-- mmu.h
abbrev pub pdx : ℕ → ℕ
pdx va = va / 2 ^ 22 % 1024

abbrev pub ptx : ℕ → ℕ
ptx va = va / 2 ^ 12 % 1024

abbrev pub pgrounddown : ℕ → ℕ
pgrounddown a = a - a % pgsize

abbrev pub pte_addr : ℕ → ℕ
pte_addr e = e - e % 4096

abbrev pub pte_flags : ℕ → ℕ
pte_flags e = e % 4096

abbrev pub pte_p : ℕ
pte_p = 1

abbrev pub pte_w : ℕ
pte_w = 2

abbrev pub pte_u : ℕ
pte_u = 4

-- `e & PTE_P` and `e & PTE_U`
abbrev pub is_present : ℕ → Bool
is_present e = e % 2 == 1

abbrev pub is_user : ℕ → Bool
is_user e = e / 4 % 2 == 1

-- memlayout.h
abbrev pub extmem : ℕ
extmem = 1048576

abbrev pub devspace : ℕ
devspace = 4261412864

abbrev pub kernlink : ℕ
kernlink = kernbase + extmem

abbrev pub p2v : ℕ → ℕ
p2v a = (a + kernbase) % 2 ^ 32

abbrev pub with_memory : Kmem → Memory → Kmem
with_memory k m = record k { memory = m }

-- a new page table for the entry at the address `pde`
abbrev pub new_table : ℕ → Option ℕ × Kmem → Option ℕ × Kmem
new_table pde (none, k) = (none, k)
new_table pde (some pgtab, k) = (
  some pgtab,
  with_memory k (
      store_word (memset k.memory pgtab 0 pgsize) pde
        (bit_or (bit_or (bit_or (v2p pgtab) pte_p) pte_w) pte_u)),
)

-- the page table that `walkpgdir` goes on with
abbrev pub table_for : ℕ → Bool → Kmem → Option ℕ × Kmem
table_for pde alloc k =
    let e = load_word k.memory pde in
    if is_present e
    then (some (p2v (pte_addr e)), k)
    else if alloc
    then new_table pde (kalloc k)
    else (none, k)

abbrev pub entry_in : ℕ → Option ℕ × Kmem → Option ℕ × Kmem
entry_in va (none, k) = (none, k)
entry_in va (some pgtab, k) = (some (pgtab + 4 * ptx va), k)

-- `walkpgdir`: the address of an entry, none for the null pointer
unfoldable pub walkpgdir : ℕ → ℕ → Bool → Kmem → Option ℕ × Kmem
walkpgdir pgdir va alloc k = entry_in va (table_for (pgdir + 4 * pdx va) alloc k)

-- a turn of the loop of `mappages`, given the entry, and the turns after it
abbrev pub map_at : Bool → ℕ → ℕ → (Kmem → Result (ℤ × Kmem)) → Option ℕ × Kmem → Result (ℤ × Kmem)
map_at last pa perm next (none, k) = ok (negsuc 0, k)
map_at last pa perm next (some pte, k) =
    if is_present (load_word k.memory pte)
    then panic
    else (let k' = with_memory k (store_word k.memory pte (bit_or (bit_or pa perm) pte_p)) in
        if last then ok (pos 0, k') else next k')

-- the loop of `mappages`, on fuel
unfoldable pub map_from : ℕ → ℕ → ℕ → ℕ → ℕ → ℕ → Kmem → Result (ℤ × Kmem)
map_from zero pgdir a last pa perm k = ok (pos 0, k)
map_from (suc fuel) pgdir a last pa perm k =
    map_at (a == last) pa perm
      (map_from fuel pgdir ((a + pgsize) % 2 ^ 32) last ((pa + pgsize) % 2 ^ 32) perm)
      (walkpgdir pgdir a true k)

-- `mappages`; it maps at most 2^20 pages
unfoldable pub mappages : ℕ → ℕ → ℕ → ℕ → ℕ → Kmem → Result (ℤ × Kmem)
mappages pgdir va size pa perm k =
    map_from (2 ^ 20) pgdir (pgrounddown va) (pgrounddown ((va + size + 2 ^ 32 - 1) % 2 ^ 32)) pa
      perm k

abbrev pub is_error : ℤ → Bool
is_error (pos n) = false
is_error (negsuc n) = true

-- `struct kmap`
pub record Kmap : Type 0 where
  pub virt : ℕ
  pub phys_start : ℕ
  pub phys_end : ℕ
  pub perm : ℕ

-- `kmap`, where `data` is the address of the kernel's data, which the linker sets
abbrev pub kmap : ℕ → List Kmap
kmap data_ =
    record { virt = kernbase; phys_start = 0; phys_end = extmem; perm = pte_w }
    ∷ record { virt = kernlink; phys_start = v2p kernlink; phys_end = v2p data_; perm = 0 }
    ∷ record { virt = data_; phys_start = v2p data_; phys_end = phystop; perm = pte_w }
    ∷ record { virt = devspace; phys_start = devspace; phys_end = 0; perm = pte_w }
    ∷ []

-- the loop of `setupkvm`
unfoldable pub map_kernel : ℕ → List Kmap → Kmem → Result (Option ℕ × Kmem)
map_kernel pgdir [] k = ok (some pgdir, k)
map_kernel pgdir (r ∷ rs) k =
    mappages pgdir r.virt ((r.phys_end + 2 ^ 32 - r.phys_start) % 2 ^ 32) r.phys_start r.perm k
    >>= λ q. if is_error q.0 then ok (none, q.1) else map_kernel pgdir rs q.1

-- `setupkvm` once it has a page for the directory
abbrev pub with_directory : ℕ → Option ℕ × Kmem → Result (Option ℕ × Kmem)
with_directory data_ (none, k) = ok (none, k)
with_directory data_ (some pgdir, k) =
    panic_if (ltb devspace (p2v phystop))
    >> map_kernel pgdir (kmap data_) (with_memory k (memset k.memory pgdir 0 pgsize))

unfoldable pub setupkvm : ℕ → Kmem → Result (Option ℕ × Kmem)
setupkvm data_ k = with_directory data_ (kalloc k)
