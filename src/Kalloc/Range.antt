-- ===== src/Kalloc/Range.antt =====
-- `freerange` of src/kalloc.c, with which `kinit1` and `kinit2` fill the free list.
use t2_so.Base.{
  ℕ, zero, suc, ◌+◌, ◌-◌, ◌*◌, ◌/◌, ◌%◌, ◌^◌, ◌≤◌, ◌<◌, ◌≡◌, ◌∙◌, refl, arith, leb, true, false,
  List, [], ◌∷◌,
}
use t2_so.Base.{Result, ok, panic}
use t2_so.Kalloc.{no_page, pgsize, pgroundup, Kmem, kfree, free_pages, freerange}
use t2_so.Kalloc.FreeList.{IsPage, Fresh, IsFreeList, kfree-Freed}

-- `n` pages from `p` on, put one after the other before `pages`
abbrev pub chain : ℕ → ℕ → List ℕ → List ℕ
chain zero p pages = pages
chain (suc n) p pages = chain n (p + pgsize) (p ∷ pages)

-- All pages of a list lie below an address.
abbrev pub AllBelow : ℕ → List ℕ → Type 0
AllBelow v [] = Unit {0}
AllBelow v (p ∷ ps) = (p < v) × AllBelow v ps

AllBelow-Fresh : (v : ℕ) (pages : List ℕ) → AllBelow v pages → Fresh v pages
AllBelow-Fresh v [] h = h
AllBelow-Fresh v (p ∷ ps) (lt, h) = ((λ e. omega arith), AllBelow-Fresh v ps h)

AllBelow-mono : (v w : ℕ) (pages : List ℕ) → v ≤ w → AllBelow v pages → AllBelow w pages
AllBelow-mono v w [] le h = h
AllBelow-mono v w (p ∷ ps) le (lt, h) = (omega arith, AllBelow-mono v w ps le h)

-- one round
kfree_next :
    (end p : ℕ) (k : Kmem) (pages : List ℕ)
    → IsPage end p
    → IsFreeList end k pages
    → AllBelow p pages
    → (k' : Kmem) × (kfree end p k ≡ ok k') × IsFreeList end k' (p ∷ pages)
kfree_next end p k pages page free below = case (kfree end p k) refl
  where
    case :
        (r : Result Kmem)
        → kfree end p k ≡ r
        → (k' : Kmem) × (kfree end p k ≡ ok k') × IsFreeList end k' (p ∷ pages)
    case panic e =
        let ((stops, _), _) =
          kfree-Freed end p k pages page.1 free (AllBelow-Fresh p pages below) in
        let bad : no_page end p ≡ true = stops e in absurd (ground (arith, page, bad))
    case (ok k') e =
        let (_, done) = kfree-Freed end p k pages page.1 free (AllBelow-Fresh p pages below) in
        let (_, change) = done k' e in (k', e, change.free)

free_pages_round :
    (end fuel p vend : ℕ) (k k' : Kmem)
    → leb ((p + pgsize) % 2 ^ 32) vend ≡ true
    → (p + pgsize) % 2 ^ 32 ≡ p + pgsize
    → kfree end p k ≡ ok k'
    → free_pages end (suc fuel) p vend k ≡ free_pages end fuel (p + pgsize) vend k'
unfolding free_pages
free_pages_round end fuel p vend k k' go_on up e = rw (go_on, e, up)

free_pages-chain :
    (end fuel n p vend : ℕ) (k : Kmem) (pages : List ℕ)
    → p % pgsize ≡ 0
    → end ≤ p
    → 2147483648 ≤ end
    → p + n * pgsize ≤ vend
    → vend < p + n * pgsize + pgsize
    → vend ≤ 2382364672
    → n < fuel
    → IsFreeList end k pages
    → AllBelow p pages
    → (k' : Kmem) × (free_pages end fuel p vend k ≡ ok k') × IsFreeList end k' (chain n p pages)
unfolding free_pages
free_pages-chain end zero n p vend k pages a b base c d e f g h = absurd (omega arith)
free_pages-chain end (suc fuel) zero p vend k pages a b base c d e f g h =
    let stop : leb ((p + pgsize) % 2 ^ 32) vend ≡ false = ground arith in (k, rw stop, g)
free_pages-chain end (suc fuel) (suc n) p vend k pages a b base c d e f g h =
    let go_on : leb ((p + pgsize) % 2 ^ 32) vend ≡ true = ground arith in
    let up : (p + pgsize) % 2 ^ 32 ≡ p + pgsize = omega arith in
    let page : no_page end p ≡ false = ground arith in
    let (k₁, q, free) = kfree_next end p k pages (page, omega arith) g h in
    let (k₂, r, final) =
      free_pages-chain end fuel n (p + pgsize) vend k₁ (p ∷ pages) (omega arith) (omega arith) base
        (omega arith) (omega arith) e (omega arith) free
        (omega arith, AllBelow-mono p (p + pgsize) pages (omega arith) h) in
    (k₂, free_pages_round end fuel p vend k k₁ go_on up q ∙ r, final)

-- Take a range of memory after the kernel and up to PHYSTOP at most, and a free list whose pages
-- lie below it. `freerange` of the range does not panic. It puts each whole page of the range on the free list, the last one first.
pub freerange-chain :
    (end vstart vend n : ℕ) (k : Kmem) (pages : List ℕ)
    → let p = (vstart + pgsize - 1) / pgsize * pgsize in
      end ≤ vstart
      → 2147483648 ≤ end
      → p + n * pgsize ≤ vend
      → vend < p + n * pgsize + pgsize
      → vend ≤ 2382364672
      → IsFreeList end k pages
      → AllBelow p pages
      → (k' : Kmem) × (freerange end vstart vend k ≡ ok k') × IsFreeList end k' (chain n p pages)
unfolding freerange pgroundup
freerange-chain end vstart vend n k pages b base c d e g h =
    let p : ℕ = (vstart + pgsize - 1) / pgsize * pgsize in
    let up : (vstart + pgsize - 1) % 2 ^ 32 - (vstart + pgsize - 1) % 2 ^ 32 % pgsize ≡ p =
      omega arith in
    rw up (
      free_pages-chain end (2 ^ 20) n p vend k pages (omega arith) (omega arith) base c d e
        (omega arith) g h)
