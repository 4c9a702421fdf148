-- ===== src/Bio/Get.antt =====
-- Which buffer `bget` takes.
use t2_so.Base.{
  ℕ, zero, suc, ◌+◌, ◌<◌, ◌≡◌, ◌∙◌, refl, sym, ap, arith, Bool, true, false, not, ◌&&◌, ◌==◌,
  if◌then◌else◌, List, [], ◌∷◌, length, Option, none, some, Option-cases, inl, inr,
}
use t2_so.Kalloc.FreeList.{Fresh}
use t2_so.Bio.{nbuf, Bcache, is_for, cached_from, clean_from, hit, reused, bget}
use t2_so.Bio.Links.{Links}
use t2_so.Bio.Release.{IsRing}

-- the first, and the last, that passes a test
abbrev pub first_of : (ℕ → Bool) → List ℕ → Option ℕ
first_of test [] = none
first_of test (x ∷ xs) = if test x then some x else first_of test xs

abbrev pub or_else : Option ℕ → Option ℕ → Option ℕ
or_else none o = o
or_else (some x) o = some x

abbrev pub last_of : (ℕ → Bool) → List ℕ → Option ℕ
last_of test [] = none
last_of test (x ∷ xs) = or_else (last_of test xs) (if test x then some x else none)

-- neither busy nor to be written
abbrev pub is_clean : Bcache → ℕ → Bool
is_clean c b = not (c.buf b).busy && not (c.buf b).dirty

abbrev pub has_sector : Bcache → ℕ → ℕ → ℕ → Bool
has_sector c dev sector b = is_for dev sector (c.buf b)

cached_from-first_of :
    (c : Bcache) (dev sector fuel a : ℕ) (xs : List ℕ)
    → Links c.next c.prev a xs nbuf
    → Fresh nbuf xs
    → length xs < fuel
    → cached_from fuel dev sector (c.next a) c ≡ first_of (has_sector c dev sector) xs
unfolding cached_from
cached_from-first_of c dev sector zero a xs h fresh lt = absurd (omega arith)
cached_from-first_of c dev sector (suc fuel) a [] (h, k) fresh lt = rw h refl
cached_from-first_of c dev sector (suc fuel) a (x ∷ xs) (h, k, r) (f, fs) lt =
    let off : (x == nbuf) ≡ false = ground (arith, f) in
    rw (h, off, cached_from-first_of c dev sector fuel x xs r fs (omega arith)) refl

or_else_assoc : (o p q : Option ℕ) → or_else (or_else o p) q ≡ or_else o (or_else p q)
or_else_assoc none p q = refl
or_else_assoc (some x) p q = refl

or_else_test :
    (b : Bool) (x : ℕ) (o : Option ℕ)
    → (if b then some x else o) ≡ or_else (if b then some x else none) o
or_else_test true x o = refl
or_else_test false x o = refl

or_else-none : (o : Option ℕ) → or_else o none ≡ o
or_else-none none = refl
or_else-none (some x) = refl

clean_from-last_of :
    (c : Bcache) (fuel a : ℕ) (xs : List ℕ) (e : ℕ)
    → Links c.next c.prev a xs e
    → Fresh nbuf xs
    → clean_from (length xs + fuel) (c.prev e) c
      ≡ or_else (last_of (is_clean c) xs) (clean_from fuel a c)
unfolding clean_from
clean_from-last_of c fuel a [] e (h, k) fresh =
    let z : 0 + fuel ≡ fuel = omega arith in rw (z, k) refl
clean_from-last_of c fuel a (x ∷ xs) e (h, k, r) (f, fs) =
    let q : suc (length xs) + fuel ≡ length xs + suc fuel = omega arith in
    let off : (x == nbuf) ≡ false = ground (arith, f) in
    let here : clean_from (suc fuel) x c
        ≡ or_else (if is_clean c x then some x else none) (clean_from fuel a c) =
      rw (off, k) (or_else_test (is_clean c x) x (clean_from fuel a c)) in
    ap (λ n. clean_from n (c.prev e) c) q
    ∙ (clean_from-last_of c (suc fuel) x xs e r fs
        ∙ (ap (or_else (last_of (is_clean c) xs)) here
            ∙ sym (
                or_else_assoc (last_of (is_clean c) xs) (if is_clean c x then some x else none)
                  (clean_from fuel a c))))

-- `bget` on the list of all buffers: if one has the sector, it is the first such in the order of use,
-- and `bget` sleeps when it is busy; otherwise the least recently used buffer that is neither busy nor
-- to be written is taken over, and `bget` panics if there is none.
pub bget-first_of :
    (c : Bcache) (dev sector : ℕ) (order : List ℕ)
    → IsRing c order
    → length order ≡ nbuf
    → bget dev sector c ≡ elim (first_of (has_sector c dev sector) order) [
      | some b ↦ hit b c
      | none ↦ reused dev sector (last_of (is_clean c) order) c
    ]
unfolding bget clean_from
bget-first_of c dev sector order h all =
    let front : cached_from (nbuf + 1) dev sector (c.next nbuf) c
        ≡ first_of (has_sector c dev sector) order =
      cached_from-first_of c dev sector (nbuf + 1) nbuf order h.links h.head (omega (arith, all)) in
    let turns : nbuf + 1 ≡ length order + 1 = omega (arith, all) in
    let back : clean_from (nbuf + 1) (c.prev nbuf) c ≡ last_of (is_clean c) order =
      ap (λ n. clean_from n (c.prev nbuf) c) turns
      ∙ (clean_from-last_of c 1 nbuf order nbuf h.links h.head
          ∙ or_else-none (last_of (is_clean c) order)) in
    elim (Option-cases (first_of (has_sector c dev sector) order)) [
      | inl absent ↦ rw (bget, front, absent, back) refl
      | inr (b, there) ↦ rw (bget, front, there) refl
    ]
