-- ===== src/Kalloc/Owners.antt =====
-- The pages that the allocator has handed out: whoever has a page may write to it.
use t2_so.Base.{◌↔◌}
use t2_so.Base.{
  ℕ, ◌+◌, ◌≤◌, ◌<◌, ◌≡◌, inl, inr, ◌∙◌, refl, sym, arith, ◌==◌, update, Bool, true, false, not, ltb,
  ◌&&◌, List, [], ◌∷◌, Option, none, some, Bool-cases, ap, update_self, ℕ_discrete,
}
use t2_so.Base.{Result, ok, panic}
use t2_so.Kalloc.{no_page, pgsize, Kmem, kfree, kalloc}
use t2_so.Kalloc.FreeList.{
  IsPage, Fresh, IsFreeList, SameOutside, FreeFrom-SameOutside, IsPage-bounds, Freed, kfree-Freed,
  kalloc-FreeFrom,
}

-- the allocator, and which pages are in use
pub record Heap : Type 0 where
  pub kmem : Kmem
  pub owned : ℕ → Bool

-- Before `kinit1` the free list is empty, and all pages belong to the kernel that starts.
abbrev pub at_start : ℕ → Kmem → Heap
at_start end k = record {
  kmem = record k { freelist = 0 };
  owned = λ p. not (no_page end p) && ltb p 4294967296;
}

pub data Step (end : ℕ) : Heap → Heap → Type 0 where
  takes :
      {h : Heap} (p : ℕ) (k : Kmem)
      → kalloc h.kmem ≡ (some p, k)
      → Step end h (record { kmem = k; owned = update h.owned p true })
  misses : {h : Heap} (k : Kmem) → kalloc h.kmem ≡ (none, k) → Step end h (record h { kmem = k })
  frees :
      {h : Heap} (v : ℕ) (k : Kmem)
      → h.owned v ≡ true
      → kfree end v h.kmem ≡ ok k
      → Step end h (record { kmem = k; owned = update h.owned v false })
  writes :
      {h : Heap} (v a b : ℕ)
      → h.owned v ≡ true
      → v ≤ a
      → a < v + pgsize
      → Step end h (record h { kmem = record h.kmem { memory = update h.kmem.memory a b } })

pub data Reach (end : ℕ) : Heap → Type 0 where
  start : (k : Kmem) → Reach end (at_start end k)
  next : {h h' : Heap} → Reach end h → Step end h h' → Reach end h'

abbrev pub NoneOwned : (ℕ → Bool) → List ℕ → Type 0
NoneOwned owned [] = Unit {0}
NoneOwned owned (p ∷ ps) = (owned p ≡ false) × NoneOwned owned ps

pub record IsSound (end : ℕ) (h : Heap) : Type 0 where
  pub pages : List ℕ
  pub free : IsFreeList end h.kmem pages
  pub unowned : NoneOwned h.owned pages
  pub are_pages : (p : ℕ) → h.owned p ≡ true → IsPage end p

NoneOwned-Fresh :
    (owned : ℕ → Bool) (v : ℕ) (pages : List ℕ)
    → owned v ≡ true
    → NoneOwned owned pages
    → Fresh v pages
NoneOwned-Fresh owned v [] e h = h
NoneOwned-Fresh owned v (p ∷ ps) e (a, b) =
    ((λ q. absurd (ground (arith, ap owned q, e, a))), NoneOwned-Fresh owned v ps e b)

NoneOwned-update :
    (owned : ℕ → Bool) (v : ℕ) (b : Bool) (pages : List ℕ)
    → Fresh v pages
    → NoneOwned owned pages
    → NoneOwned (update owned v b) pages
NoneOwned-update owned v b [] f h = h
NoneOwned-update owned v b (p ∷ ps) (ne, f) (e, h) =
    (ground (arith, ne, e), NoneOwned-update owned v b ps f h)

-- a page that `kalloc` returns
taken :
    (end : ℕ) (h : Heap) (p : ℕ) (k : Kmem) (pages : List ℕ)
    → IsSound end h
    → kalloc h.kmem ≡ (some p, k)
    → IsFreeList end h.kmem pages
    → NoneOwned h.owned pages
    → (h.owned p ≡ false)
      × IsPage end p
      × IsSound end (record { kmem = k; owned = update h.owned p true })
taken end h p k [] s e free unowned =
    let none_left : kalloc h.kmem ≡ (none, h.kmem) = (kalloc-FreeFrom end h.kmem 0 []).0 free in cc
taken end h p k (q ∷ ps) s e free (unowned, later) =
    let (a, b, c, _, f) = (kalloc-FreeFrom end h.kmem q ps).1 free in
    let same : some p ≡ some q = sym (ap (λ (r : Option ℕ × Kmem). r.0) e) ∙ a in
    let pq : p ≡ q = ground (arith, same) in
    let left : (kalloc h.kmem).1 ≡ k = ap (λ (r : Option ℕ × Kmem). r.1) e in
    rw (pq, ← left)
      (
        unowned,
        b,
        record {
          pages = ps;
          free = c;
          unowned = NoneOwned-update h.owned q true ps f later;
          are_pages = λ x o. elim (ℕ_discrete q x) [
            | yes eq ↦ rw (← eq) b
            | no ne ↦ s.are_pages x (ground (arith, ne, o))
          ];
        },
      )

missed :
    (end : ℕ) (h : Heap) (k : Kmem) (pages : List ℕ)
    → IsSound end h
    → kalloc h.kmem ≡ (none, k)
    → IsFreeList end h.kmem pages
    → NoneOwned h.owned pages
    → IsSound end (record h { kmem = k })
missed end h k [] s e free unowned =
    let none_left : kalloc h.kmem ≡ (none, h.kmem) = (kalloc-FreeFrom end h.kmem 0 []).0 free in
    let left : h.kmem ≡ k = ap (λ (r : Option ℕ × Kmem). r.1) (sym none_left ∙ e) in
    rw (← left) (record { pages = []; free = free; unowned = tt; are_pages = s.are_pages })
missed end h k (q ∷ ps) s e free unowned =
    let (a, _, _, _, _) = (kalloc-FreeFrom end h.kmem q ps).1 free in cc

-- `kfree` of a page in use
kfree_owned :
    (end : ℕ) (h : Heap) (v : ℕ) (s : IsSound end h)
    → h.owned v ≡ true
    → ((kfree end v h.kmem ≡ panic) ↔ (no_page end v ≡ true))
      × ((k : Kmem) → kfree end v h.kmem ≡ ok k → IsPage end v × Freed end v h.kmem s.pages k)
kfree_owned end h v s o =
    kfree-Freed end v h.kmem s.pages (s.are_pages v o).1 s.free
      (NoneOwned-Fresh h.owned v s.pages o s.unowned)

Step-IsSound : (end : ℕ) (h h' : Heap) → Step end h h' → IsSound end h → IsSound end h'
Step-IsSound end h h' (takes p k e) s = (taken end h p k s.pages s e s.free s.unowned).2
Step-IsSound end h h' (misses k e) s = missed end h k s.pages s e s.free s.unowned
Step-IsSound end h h' (frees v k o e) s =
    let (page, freed) = (kfree_owned end h v s o).1 k e in
    record {
      pages = v ∷ s.pages;
      free = freed.free;
      unowned = (
        update_self h.owned v false,
        NoneOwned-update h.owned v false s.pages (NoneOwned-Fresh h.owned v s.pages o s.unowned)
            s.unowned,
      );
      are_pages = λ p q. elim (ℕ_discrete v p) [
        | yes same ↦ absurd (ground (arith, same, q))
        | no ne ↦ s.are_pages p (ground (arith, ne, q))
      ];
    }
Step-IsSound end h h' (writes v a b o lo hi) s =
    let (aligned, _, _) = IsPage-bounds end v (s.are_pages v o) in
    record {
      pages = s.pages;
      free =
          FreeFrom-SameOutside end v h.kmem.memory _ _ s.pages aligned
            (λ i away. ground (arith, away)) (NoneOwned-Fresh h.owned v s.pages o s.unowned) s.free;
      unowned = s.unowned;
      are_pages = s.are_pages;
    }

at_start-IsSound : (end : ℕ) (k : Kmem) → IsSound end (at_start end k)
at_start-IsSound end k = record {
  pages = [];
  free = refl;
  unowned = tt;
  are_pages = λ p o. (ground (arith, o), ground (arith, o));
}

pub Reach-IsSound : (end : ℕ) (h : Heap) → Reach end h → IsSound end h
Reach-IsSound end h (start k) = at_start-IsSound end k
Reach-IsSound end h' (next {h} r s) = Step-IsSound end h h' s (Reach-IsSound end h r)

kalloc_memory : (k : Kmem) → (kalloc k).1.memory ≡ k.memory
unfolding kalloc
kalloc_memory k = elim (Bool-cases (k.freelist == 0)) [ inl e ↦ rw e | inr e ↦ rw e ]

-- After any sequence of allocations, releases of pages in use, and writes to pages in use:
-- `kalloc` returns a page that is not in use and leaves memory as it is; and `kfree` of a page in
-- use does not panic and changes no byte of any other page.
pub Reach-IsSafe :
    (end : ℕ) (h : Heap)
    → Reach end h
    → ((p : ℕ)
        → (kalloc h.kmem).0 ≡ some p
        → (h.owned p ≡ false) × IsPage end p × ((kalloc h.kmem).1.memory ≡ h.kmem.memory))
      × ((v : ℕ)
          → h.owned v ≡ true
          → (k : Kmem) × (kfree end v h.kmem ≡ ok k) × SameOutside v h.kmem.memory k.memory)
Reach-IsSafe end h r = (
  λ p e.
      let (a, b, _) = taken end h p _ (sound.pages) sound (pair p e) sound.free sound.unowned in
      (a, b, kalloc_memory h.kmem),
  λ v o. freed v o (kfree end v h.kmem) refl,
)
  where
    sound : IsSound end h
    sound = Reach-IsSound end h r

    pair : (p : ℕ) → (kalloc h.kmem).0 ≡ some p → kalloc h.kmem ≡ (some p, (kalloc h.kmem).1)
    pair p e = ap (λ (o : Option ℕ). (o, (kalloc h.kmem).1)) e

    freed :
        (v : ℕ)
        → h.owned v ≡ true
        → (r : Result Kmem) → kfree end v h.kmem ≡ r
        → (k : Kmem) × (kfree end v h.kmem ≡ ok k) × SameOutside v h.kmem.memory k.memory
    freed v o panic e =
        let ((stops, _), _) = kfree_owned end h v sound o in
        let (fine, _) = sound.are_pages v o in
        let bad : no_page end v ≡ true = stops e in absurd (ground (arith, fine, bad))
    freed v o (ok k) e =
        let (_, done) = kfree_owned end h v sound o in
        let (_, change) = done k e in (k, e, change.same)
