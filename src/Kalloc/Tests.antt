-- ===== src/Kalloc/Tests.antt =====
-- Concrete runs of the page allocator, for a kernel that ends at 2149580800.
use t2_so.Kalloc.Owners.{frees}
use t2_so.Kalloc.Owners.{start}
use t2_so.Kalloc.Owners.{next}
use t2_so.Base.{ℕ, ◌≡◌, ◌↔◌, refl, arith, true, false, update, [], some, ok, panic}
use t2_so.Str.{memset, store_word}
use t2_so.Kalloc.{no_page, pgsize, Kmem, kfree, kalloc, freerange}
use t2_so.Kalloc.FreeList.{IsPage, IsFreeList, SameOutside, Freed, kfree-Freed}
use t2_so.Kalloc.Owners.{Heap, at_start, Reach, Reach-IsSafe}
use t2_so.Kalloc.Range.{chain, freerange-chain}

abbrev kernel_end : ℕ
kernel_end = 2149580800

abbrev nothing : Kmem
nothing = record { use_lock = false; freelist = 0; memory = λ _. 0 }

abbrev page : ℕ
page = 2149584896

abbrev one_page : Kmem
one_page = record nothing {
  freelist = page;
  memory = store_word (memset nothing.memory page 1 pgsize) page 0;
}

kfree_page : kfree kernel_end page nothing ≡ ok one_page
unfolding kfree
kfree_page = refl

abbrev heap : Heap
heap = record { kmem = one_page; owned = update (at_start kernel_end nothing).owned page false }

heap-Reach : Reach kernel_end heap
heap-Reach = next (start nothing) (frees page one_page refl kfree_page)

Reach-IsSafe_example :
    ((p : ℕ)
      → (kalloc one_page).0 ≡ some p
      → (heap.owned p ≡ false)
        × IsPage kernel_end p
        × ((kalloc one_page).1.memory ≡ one_page.memory))
    × ((v : ℕ)
        → heap.owned v ≡ true
        → (k : Kmem) × (kfree kernel_end v one_page ≡ ok k)
          × SameOutside v one_page.memory k.memory)
Reach-IsSafe_example = Reach-IsSafe kernel_end heap heap-Reach

kfree-Freed_example :
    ((kfree kernel_end page nothing ≡ panic) ↔ (no_page kernel_end page ≡ true))
    × ((k : Kmem)
        → kfree kernel_end page nothing ≡ ok k
        → IsPage kernel_end page × Freed kernel_end page nothing [] k)
kfree-Freed_example = kfree-Freed kernel_end page nothing [] (omega arith) refl tt

-- two pages and a half
freerange-chain_example :
    (k : Kmem) × (freerange kernel_end 2149580900 2149595136 nothing ≡ ok k)
    × IsFreeList kernel_end k (chain 2 2149584896 [])
freerange-chain_example =
    freerange-chain kernel_end 2149580900 2149595136 2 nothing [] (omega arith) (omega arith)
      (omega arith) (omega arith) (omega arith) refl tt
