-- ===== src/Vm/User.antt =====
-- The operations of src/vm.c on the user part of an address space. A null pointer that the code uses
-- all the same is the address 0.
use Prim.Native.Nat.{bit_or}
use t2_so.Base.{
  ℕ, zero, suc, ◌+◌, ◌-◌, ◌*◌, ◌%◌, ◌^◌, Bool, true, false, not, ◌&&◌, ◌==◌, if◌then◌else◌, ltb,
  leb, min, Option, none, some,
}
use t2_so.Base.{Result, ok, ◌>>=◌, ◌>>◌, panic_if, ℤ, pos, negsuc}
use t2_so.Str.{memset, memmove, store_word}
use t2_so.Kalloc.{pgsize, kernbase, v2p, pgroundup, Kmem, load_word, kalloc, kfree}
use t2_so.Vm.{
  pgrounddown, pte_addr, pte_flags, pte_w, pte_u, is_present, is_user, p2v, with_memory, walkpgdir,
  mappages, is_error, setupkvm,
}

abbrev pub or_null : Option ℕ → ℕ
or_null none = 0
or_null (some a) = a

abbrev pub is_none : Option ℕ → Bool
is_none none = true
is_none (some a) = false

-- whether a result of type `int` is `n`
abbrev pub is_count : ℕ → ℤ → Bool
is_count n (pos k) = k == n
is_count n (negsuc k) = false

-- the entry for `va`, without a new page table
abbrev pub lookup : ℕ → ℕ → Kmem → Option ℕ
lookup pgdir va k = (walkpgdir pgdir va false k).0

-- a page filled with zeros and mapped at `va`, of which `mappages` may fail unnoticed
unfoldable pub map_zeroed : ℕ → ℕ → ℕ → Kmem → Result Kmem
map_zeroed pgdir va mem k =
    mappages pgdir va pgsize (v2p mem) (bit_or pte_w pte_u)
      (with_memory k (memset k.memory mem 0 pgsize))
    >>= λ q. ok q.1

-- `inituvm`, with the code at the address `init`
unfoldable pub inituvm : ℕ → ℕ → ℕ → Kmem → Result Kmem
inituvm pgdir init sz k =
    let mem = or_null (kalloc k).0 in
    panic_if (leb pgsize sz)
    >> (map_zeroed pgdir 0 mem (kalloc k).1 >>= λ k₁.
        ok (with_memory k₁ (memmove k₁.memory mem init sz)))

-- the loop of `loaduvm`, on fuel; `readi` reads the program's inode to an address
unfoldable pub load_from :
    (ℕ → ℕ → ℕ → Kmem → Result (ℤ × Kmem)) → ℕ → ℕ → ℕ → ℕ → ℕ → ℕ → Kmem → Result (ℤ × Kmem)
load_from readi zero pgdir addr offset sz i k = ok (pos 0, k)
load_from readi (suc fuel) pgdir addr offset sz i k =
    let n = min (sz - i) pgsize in
    let pte = lookup pgdir ((addr + i) % 2 ^ 32) k in
    let pa = pte_addr (load_word k.memory (or_null pte)) in
    let rest = load_from readi fuel pgdir addr offset sz ((i + pgsize) % 2 ^ 32) in
    if ltb i sz
    then (panic_if (is_none pte)
        >> (readi (p2v pa) ((offset + i) % 2 ^ 32) n k >>= λ q.
            if is_count n q.0 then rest q.1 else ok (negsuc 0, q.1)))
    else ok (pos 0, k)

unfoldable pub loaduvm :
    (ℕ → ℕ → ℕ → Kmem → Result (ℤ × Kmem)) → ℕ → ℕ → ℕ → ℕ → Kmem → Result (ℤ × Kmem)
loaduvm readi pgdir addr offset sz k =
    panic_if (not (addr % pgsize == 0)) >> load_from readi (2 ^ 20) pgdir addr offset sz 0 k

-- the loop of `deallocuvm`, on fuel, from the page `a` on
unfoldable pub dealloc_from : ℕ → ℕ → ℕ → ℕ → ℕ → Kmem → Result Kmem
dealloc_from end zero pgdir a oldsz k = ok k
dealloc_from end (suc fuel) pgdir a oldsz k =
    let pte = lookup pgdir a k in
    let e = load_word k.memory (or_null pte) in
    let rest = dealloc_from end fuel pgdir in
    if not (ltb a oldsz)
    then ok k
    else if is_none pte
    then rest ((a + 1024 * pgsize) % 2 ^ 32) oldsz k
    else if is_present e
    then (panic_if (pte_addr e == 0)
        >> (kfree end (p2v (pte_addr e)) k >>= λ k₁.
            rest ((a + pgsize) % 2 ^ 32) oldsz
              (with_memory k₁ (store_word k₁.memory (or_null pte) 0))))
    else rest ((a + pgsize) % 2 ^ 32) oldsz k

unfoldable pub deallocuvm : ℕ → ℕ → ℕ → ℕ → Kmem → Result (ℕ × Kmem)
deallocuvm end pgdir oldsz newsz k =
    if leb oldsz newsz
    then ok (oldsz, k)
    else (dealloc_from end (2 ^ 20) pgdir (pgroundup newsz) oldsz k >>= λ k₁. ok (newsz, k₁))

-- the loop of `allocuvm`, on fuel, from the page `a` on
unfoldable pub alloc_from : ℕ → ℕ → ℕ → ℕ → ℕ → ℕ → Kmem → Result (ℕ × Kmem)
alloc_from end zero pgdir a oldsz newsz k = ok (newsz, k)
alloc_from end (suc fuel) pgdir a oldsz newsz k =
    let (mem, k₁) = kalloc k in
    let rest = alloc_from end fuel pgdir ((a + pgsize) % 2 ^ 32) oldsz newsz in
    if not (ltb a newsz)
    then ok (newsz, k)
    else if is_none mem
    then (deallocuvm end pgdir newsz oldsz k₁ >>= λ q. ok (0, q.1))
    else (map_zeroed pgdir a (or_null mem) k₁ >>= rest)

-- `allocuvm`; what it prints when memory runs out is left out
unfoldable pub allocuvm : ℕ → ℕ → ℕ → ℕ → Kmem → Result (ℕ × Kmem)
allocuvm end pgdir oldsz newsz k =
    if leb kernbase newsz
    then ok (0, k)
    else if ltb newsz oldsz
    then ok (oldsz, k)
    else alloc_from end (2 ^ 20) pgdir (pgroundup oldsz) oldsz newsz k

-- the loop of `freevm` over the directory, with `left` entries to go
unfoldable pub free_tables : ℕ → ℕ → ℕ → ℕ → Kmem → Result Kmem
free_tables end pgdir zero i k = ok k
free_tables end pgdir (suc left) i k =
    let e = load_word k.memory (pgdir + 4 * i) in
    (if is_present e then kfree end (p2v (pte_addr e)) k else ok k)
    >>= free_tables end pgdir left (i + 1)

unfoldable pub freevm : ℕ → ℕ → Kmem → Result Kmem
freevm end pgdir k =
    panic_if (pgdir == 0)
    >> (deallocuvm end pgdir kernbase 0 k >>= λ q.
        free_tables end pgdir 1024 0 q.1 >>= kfree end pgdir)

-- `*pte &= ~PTE_U`
abbrev pub without_user : ℕ → ℕ
without_user e = if is_user e then e - pte_u else e

unfoldable pub clearpteu : ℕ → ℕ → Kmem → Result Kmem
clearpteu pgdir uva k =
    let pte = lookup pgdir uva k in
    let a = or_null pte in
    panic_if (is_none pte)
    >> ok (with_memory k (store_word k.memory a (without_user (load_word k.memory a))))

-- `copyuvm` from the page `i` on, into the directory `d`: whether all went well
unfoldable pub copy_from : ℕ → ℕ → ℕ → ℕ → ℕ → Kmem → Result (Bool × Kmem)
copy_from zero pgdir d sz i k = ok (true, k)
copy_from (suc fuel) pgdir d sz i k =
    let pte = lookup pgdir i k in
    let e = load_word k.memory (or_null pte) in
    let (mem, k₁) = kalloc k in
    let k₂ = with_memory k₁ (memmove k₁.memory (or_null mem) (p2v (pte_addr e)) pgsize) in
    let rest = copy_from fuel pgdir d sz ((i + pgsize) % 2 ^ 32) in
    if not (ltb i sz)
    then ok (true, k)
    else (panic_if (is_none pte)
        >> (panic_if (not (is_present e))
            >> (if is_none mem
                then ok (false, k₁)
                else (mappages d i pgsize (v2p (or_null mem)) (pte_flags e) k₂ >>= λ q.
                    if is_error q.0 then ok (false, q.1) else rest q.1))))

-- `copyuvm` once it has a directory
abbrev pub copy_into : ℕ → ℕ → ℕ → Option ℕ × Kmem → Result (Option ℕ × Kmem)
copy_into end pgdir sz (none, k) = ok (none, k)
copy_into end pgdir sz (some d, k) = copy_from (2 ^ 20) pgdir d sz 0 k >>= λ q.
    if q.0 then ok (some d, q.1) else (freevm end d q.1 >>= λ k₁. ok (none, k₁))

unfoldable pub copyuvm : ℕ → ℕ → ℕ → ℕ → Kmem → Result (Option ℕ × Kmem)
copyuvm end data_ pgdir sz k = setupkvm data_ k >>= copy_into end pgdir sz

-- `uva2ka`. It reads the entry before it knows that there is one.
unfoldable pub uva2ka : ℕ → ℕ → Kmem → Option ℕ
uva2ka pgdir uva k =
    let e = load_word k.memory (or_null (lookup pgdir uva k)) in
    if is_present e && is_user e then some (p2v (pte_addr e)) else none

-- the loop of `copyout`, on fuel
unfoldable pub copyout_from : ℕ → ℕ → ℕ → ℕ → ℕ → Kmem → ℤ × Kmem
copyout_from zero pgdir va buf len k = (pos 0, k)
copyout_from (suc fuel) pgdir va buf len k =
    let va0 = pgrounddown va in
    let pa0 = uva2ka pgdir va0 k in
    let n = min (pgsize - (va - va0)) len in
    let k₁ = with_memory k (memmove k.memory (or_null pa0 + (va - va0)) buf n) in
    let rest = copyout_from fuel pgdir ((va0 + pgsize) % 2 ^ 32) (buf + n) (len - n) k₁ in
    if len == 0 then (pos 0, k) else if is_none pa0 then (negsuc 0, k) else rest

unfoldable pub copyout : ℕ → ℕ → ℕ → ℕ → Kmem → ℤ × Kmem
copyout pgdir va p len k = copyout_from len pgdir va p len k
