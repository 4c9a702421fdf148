-- ===== src/Bio/Release.antt =====
-- `brelse` on the list of buffers.
use t2_so.Base.{◌==◌}
use t2_so.Base.{
  ℕ, ◌≡◌, ◌≢◌, ◌∙◌, refl, sym, subst, arith, true, false, update, List, [], ◌∷◌, ◌++◌, ok, panic,
}
use t2_so.Kalloc.FreeList.{Fresh}
use t2_so.Bio.{nbuf, Bcache, unlinked, linked, brelse}
use t2_so.Bio.Links.{Links, Distinct, update_ne, unlink, link_first}

-- The links lead from the head through the buffers `order`, each once, and back.
pub record IsRing (c : Bcache) (order : List ℕ) : Type 0 where
  pub head : Fresh nbuf order
  pub distinct : Distinct order
  pub links : Links c.next c.prev nbuf order nbuf

fresh_drop :
    (i : ℕ) (ys : List ℕ) (b : ℕ) (zs : List ℕ) → Fresh i (ys ++ b ∷ zs) → Fresh i (ys ++ zs)
fresh_drop i [] b zs (f, fs) = fs
fresh_drop i (y ∷ ys) b zs (f, fs) = (f, fresh_drop i ys b zs fs)

fresh_ne : (i : ℕ) (ys : List ℕ) (b : ℕ) (zs : List ℕ) → Fresh i (ys ++ b ∷ zs) → i ≢ b
fresh_ne i [] b zs (f, fs) = f
fresh_ne i (y ∷ ys) b zs (f, fs) = fresh_ne i ys b zs fs

fresh_self : (ys : List ℕ) (b : ℕ) (zs : List ℕ) → Distinct (ys ++ b ∷ zs) → Fresh b (ys ++ zs)
fresh_self [] b zs (f, ds) = f
fresh_self (y ∷ ys) b zs (f, ds) = (λ q. fresh_ne y ys b zs f (sym q), fresh_self ys b zs ds)

Distinct-drop : (ys : List ℕ) (b : ℕ) (zs : List ℕ) → Distinct (ys ++ b ∷ zs) → Distinct (ys ++ zs)
Distinct-drop [] b zs (f, ds) = ds
Distinct-drop (y ∷ ys) b zs (f, ds) = (fresh_drop y ys b zs f, Distinct-drop ys b zs ds)

self_next :
    (n p : ℕ → ℕ) (a : ℕ) (ys : List ℕ) (b : ℕ) (zs : List ℕ) (e : ℕ)
    → e ≢ b
    → Distinct (ys ++ b ∷ zs)
    → Links n p a (ys ++ b ∷ zs) e
    → n b ≢ b
self_next n p a [] b [] e ne ds (_, _, (h, _)) = λ q. ne (sym h ∙ q)
self_next n p a [] b (z ∷ zs) e ne ((f, _), ds) (_, _, (h, _, _)) = λ q. f (sym q ∙ h)
self_next n p a (y ∷ ys) b zs e ne (_, ds) (_, _, r) = self_next n p y ys b zs e ne ds r

unlinked-IsRing :
    (c : Bcache) (ys : List ℕ) (b : ℕ) (zs : List ℕ)
    → IsRing c (ys ++ b ∷ zs)
    → IsRing (unlinked b c) (ys ++ zs)
unlinked-IsRing c ys b zs h =
    let off : nbuf ≢ b = fresh_ne nbuf ys b zs h.head in
    let own : update c.prev (c.next b) (c.prev b) b ≡ c.prev b =
      update_ne c.prev (c.next b) (c.prev b) b
        (self_next c.next c.prev nbuf ys b zs nbuf off h.distinct h.links) in
    record {
      head = fresh_drop nbuf ys b zs h.head;
      distinct = Distinct-drop ys b zs h.distinct;
      links =
          subst
            (λ x.
              Links (update c.next x (c.next b)) (update c.prev (c.next b) (c.prev b)) nbuf
                (ys ++ zs) nbuf)
            (sym own) (unlink c.next c.prev nbuf ys b zs nbuf h.head h.head h.distinct h.links);
    }

linked-IsRing :
    (c : Bcache) (xs : List ℕ) (b : ℕ)
    → nbuf ≢ b
    → Fresh b xs
    → IsRing c xs
    → IsRing (linked b c) (b ∷ xs)
linked-IsRing c xs b ne fresh h = record {
  head = (ne, h.head);
  distinct = (fresh, h.distinct);
  links = link_first c.next c.prev nbuf xs b ne h.head fresh h.distinct h.links;
}

-- what `brelse` of a busy buffer leaves
pub record Released (b : ℕ) (rest : List ℕ) (c c' : Bcache) : Type 0 where
  pub ring : IsRing c' (b ∷ rest)
  pub idle : (c'.buf b).busy ≡ false
  pub others : (j : ℕ) → b ≢ j → c'.buf j ≡ c.buf j

-- `brelse` panics for a buffer that is not busy. A busy one, wherever it stands in the list of the
-- buffers, becomes the first, and the others keep their order; it is no longer busy, and no other
-- buffer is changed.
pub brelse-Released :
    (c : Bcache) (ys : List ℕ) (b : ℕ) (zs : List ℕ)
    → IsRing c (ys ++ b ∷ zs)
    → ((c.buf b).busy ≡ false → brelse b c ≡ panic)
      × ((c.buf b).busy ≡ true → (c' : Bcache) × (brelse b c ≡ ok c') × Released b (ys ++ zs) c c')
unfolding brelse
brelse-Released c ys b zs h = (λ idle. rw idle refl, λ busy. (after, rw busy refl, released))
  where
    after : Bcache
    after =
        let c₁ = linked b (unlinked b c) in
        record c₁ { buf = update c₁.buf b (record (c₁.buf b) { busy = false }) }

    moved : IsRing (linked b (unlinked b c)) (b ∷ (ys ++ zs))
    moved =
        linked-IsRing (unlinked b c) (ys ++ zs) b (fresh_ne nbuf ys b zs h.head)
          (fresh_self ys b zs h.distinct) (unlinked-IsRing c ys b zs h)

    self : (b == b) ≡ true
    self = ground arith

    released : Released b (ys ++ zs) c after
    released = record {
      ring = record { head = moved.head; distinct = moved.distinct; links = moved.links };
      idle = rw self refl;
      others = λ j ne. let off : (b == j) ≡ false = ground (arith, ne) in rw off refl;
    }
