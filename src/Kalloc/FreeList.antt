-- ===== src/Kalloc/FreeList.antt =====
-- The free list, as the list of pages that it holds.
use t2_so.Base.{ok-injective}
use t2_so.Base.{subst}
use t2_so.Base.{◌↔◌}
use t2_so.Base.{
  ℕ, ◌+◌, ◌%◌, ◌^◌, ◌≤◌, ◌<◌, ◌≡◌, ◌≢◌, ◌⊎◌, inl, inr, ◌∙◌, refl, arith, ◌==◌, true, false, List,
  [], ◌∷◌, none, some, dec_lt, Bool-cases,
}
use t2_so.Base.{ok, panic}
use t2_so.Str.{Memory, memset, store_word}
use t2_so.Str.Mem.{memset-within}
use t2_so.Kalloc.{load_word, pgsize, no_page, Kmem, kfree, kalloc}
use t2_so.Kalloc.Words.{load_word-store_word, load_word-cong, store_word-other}

-- the address of a page that the allocator may manage
abbrev pub IsPage : ℕ → ℕ → Type 0
IsPage end p = (no_page end p ≡ false) × (p < 2 ^ 32)

abbrev pub Fresh : ℕ → List ℕ → Type 0
Fresh p [] = Unit {0}
Fresh p (q ∷ ps) = (p ≢ q) × Fresh p ps

-- The words chain the pages from `head` on, each page once, and the last has a null pointer.
abbrev pub FreeFrom : ℕ → Memory → ℕ → List ℕ → Type 0
FreeFrom end m head [] = head ≡ 0
FreeFrom end m head (p ∷ ps) =
    (head ≡ p) × IsPage end p × Fresh p ps × FreeFrom end m (load_word m p) ps

abbrev pub IsFreeList : ℕ → Kmem → List ℕ → Type 0
IsFreeList end k pages = FreeFrom end k.memory k.freelist pages

-- Two memories differ at most in a page.
abbrev pub SameOutside : ℕ → Memory → Memory → Type 0
SameOutside v m m' = (i : ℕ) → (i < v) ⊎ (v + pgsize ≤ i) → m' i ≡ m i

pub IsPage-bounds : (end p : ℕ) → IsPage end p → (p % pgsize ≡ 0) × (0 < p) × (end ≤ p)
IsPage-bounds end p (e, _) = (ground (arith, e), ground (arith, e), ground (arith, e))

-- the free list after a change of a page that is not on it
pub FreeFrom-SameOutside :
    (end v : ℕ) (m m' : Memory) (head : ℕ) (pages : List ℕ)
    → v % pgsize ≡ 0
    → SameOutside v m m'
    → Fresh v pages
    → FreeFrom end m head pages
    → FreeFrom end m' head pages
FreeFrom-SameOutside end v m m' head [] aligned same fresh h = h
FreeFrom-SameOutside end v m m' head (p ∷ ps) aligned same (ne, fresh) (a, b, c, d) =
    let (page, _, _) = IsPage-bounds end p b in
    let kept : load_word m' p ≡ load_word m p =
      load_word-cong m m' p (λ i lo hi. same i (apart page i lo hi)) in
    (a, b, c, rw kept (FreeFrom-SameOutside end v m m' (load_word m p) ps aligned same fresh d))
  where
    apart : p % pgsize ≡ 0 → (i : ℕ) → p ≤ i → i < p + 4 → (i < v) ⊎ (v + pgsize ≤ i)
    apart page i lo hi = elim (dec_lt i v) [
      | yes lt ↦ inl lt
      | no ge ↦ inr (omega (arith, ne, aligned))
    ]

-- what `kfree` of a page does
pub record Freed (end v : ℕ) (k : Kmem) (pages : List ℕ) (k' : Kmem) : Type 0 where
  pub free : IsFreeList end k' (v ∷ pages)
  pub same : SameOutside v k.memory k'.memory
  pub junk : (i : ℕ) → v + 4 ≤ i → i < v + pgsize → k'.memory i ≡ 1
  pub use_lock : k'.use_lock ≡ k.use_lock

-- a free list's first address fits a word
head_lt :
    (end : ℕ) (m : Memory) (head : ℕ) (pages : List ℕ) → FreeFrom end m head pages → head < 2 ^ 32
head_lt end m head [] h = omega arith
head_lt end m head (p ∷ ps) (a, (_, b), _, _) = omega arith

freed : ℕ → Kmem → Kmem
freed v k = record k { freelist = v; memory = store_word (memset k.memory v 1 pgsize) v k.freelist }

freed-Freed :
    (end v : ℕ) (k : Kmem) (pages : List ℕ)
    → IsPage end v
    → IsFreeList end k pages
    → Fresh v pages
    → Freed end v k pages (freed v k)
unfolding freed
freed-Freed end v k pages page free fresh =
    let (aligned, _, _) = IsPage-bounds end v page in
    record {
      free = (
        refl,
        page,
        fresh,
        rw
            (load_word-store_word (memset k.memory v 1 pgsize) v k.freelist
              (head_lt end k.memory k.freelist pages free))
            (FreeFrom-SameOutside end v k.memory _ k.freelist pages aligned outside fresh free),
      );
      same = outside;
      junk = λ i lo hi.
          store_word-other (memset k.memory v 1 pgsize) v k.freelist i (inr lo)
          ∙ (memset-within k.memory v 1 pgsize i ∙ ground arith);
      use_lock = refl;
    }
  where
    word : (i : ℕ) → (i < v) ⊎ (v + pgsize ≤ i) → (i < v) ⊎ (v + 4 ≤ i)
    word i (inl a) = inl a
    word i (inr a) = inr (omega arith)

    outside : SameOutside v k.memory (store_word (memset k.memory v 1 pgsize) v k.freelist)
    outside i away =
        store_word-other (memset k.memory v 1 pgsize) v k.freelist i (word i away)
        ∙ (memset-within k.memory v 1 pgsize i ∙ ground (arith, away))

-- `kfree` of a 32-bit address that is not on the free list panics exactly if the address is no
-- page. It puts a page at the head of the free list, fills the rest of it with ones, and changes
-- no other memory.
pub kfree-Freed :
    (end v : ℕ) (k : Kmem) (pages : List ℕ)
    → v < 2 ^ 32
    → IsFreeList end k pages
    → Fresh v pages
    → ((kfree end v k ≡ panic) ↔ (no_page end v ≡ true))
      × ((k' : Kmem) → kfree end v k ≡ ok k' → IsPage end v × Freed end v k pages k')
unfolding kfree freed
kfree-Freed end v k pages lt free fresh = elim (Bool-cases (no_page end v)) [
  | inl e ↦ rw e ((λ _. refl, λ _. refl), λ k' q. cc)
  | inr e ↦ rw e (
    (λ q. cc, λ q. cc),
    λ k' q. (
      (refl, lt),
      subst (Freed end v k pages) (ok-injective q) (freed-Freed end v k pages (e, lt) free fresh),
    ),
  )
]

-- `kalloc` takes the head of the free list, and finds none exactly if the list is empty. It
-- changes no memory.
pub kalloc-FreeFrom :
    (end : ℕ) (k : Kmem) (p : ℕ) (pages : List ℕ)
    → (IsFreeList end k [] → kalloc k ≡ (none, k))
      × (IsFreeList end k (p ∷ pages)
          → ((kalloc k).0 ≡ some p)
            × IsPage end p
            × IsFreeList end (kalloc k).1 pages
            × ((kalloc k).1.memory ≡ k.memory)
            × Fresh p pages)
unfolding kalloc
kalloc-FreeFrom end k p pages = (λ e. rw e, λ (a, b, c, d). taken a b c d)
  where
    taken :
        k.freelist ≡ p
        → IsPage end p
        → Fresh p pages
        → FreeFrom end k.memory (load_word k.memory p) pages
        → ((kalloc k).0 ≡ some p)
          × IsPage end p
          × IsFreeList end (kalloc k).1 pages
          × ((kalloc k).1.memory ≡ k.memory)
          × Fresh p pages
    taken a b c d =
        let (_, positive, _) = IsPage-bounds end p b in
        let nonzero : (k.freelist == 0) ≡ false = ground (arith, a, positive) in
        let both : kalloc k ≡ (some p, record k { freelist = load_word k.memory p }) =
          rw (nonzero, a) in
        rw both (refl, b, d, refl, c)
