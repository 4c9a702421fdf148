-- ===== src/Vm/Walk.antt =====
-- `walkpgdir` on a sound directory, and a change of the entry that it finds.
use t2_so.Base.{
  ℕ, ◌+◌, ◌*◌, ◌%◌, ◌^◌, ◌<◌, ◌≡◌, ◌≢◌, ◌∙◌, ◌⊎◌, inl, inr, refl, sym, ap, subst, arith, true,
  false, ◌==◌, if◌then◌else◌, Bool-cases, List, [], ◌∷◌, Option, none, some,
}
use t2_so.Str.{Memory, memset, store_word}
use t2_so.Kalloc.{pgsize, load_word, Kmem, kalloc}
use t2_so.Kalloc.Words.{store_word-other}
use t2_so.Kalloc.FreeList.{FreeFrom, SameOutside, FreeFrom-SameOutside, IsPage-bounds}
use t2_so.Vm.{pdx, ptx, walkpgdir}
use t2_so.Vm.Tables.{table, has_table, entry, IsSound, pde_of}
use t2_so.Vm.NewTable.{tabled, memset-SameOutside, has_table-new, table-new, entry-new}

pub store_word-SameOutside :
    (m : Memory) (v x w : ℕ) → x < 1024 → SameOutside v m (store_word m (v + 4 * x) w)
store_word-SameOutside m v x w lt i away =
    store_word-other m (v + 4 * x) w i
      (elim away [ inl a ↦ inl (omega arith) | inr b ↦ inr (omega arith) ])

-- `kalloc` of the first page, and a new table in it
abbrev taken : ℕ → ℕ → ℕ → Kmem → Kmem
taken pgdir d p k = record k { freelist = load_word k.memory p; memory = tabled k.memory pgdir d p }

module _ (end pgdir : ℕ) (k : Kmem) where
  taken-IsSound :
      (d p : ℕ) (ps : List ℕ)
      → IsSound end pgdir k (p ∷ ps)
      → d < 1024
      → has_table k.memory pgdir d ≡ false
      → IsSound end pgdir (taken pgdir d p k) ps
        × ((va : ℕ) → entry (tabled k.memory pgdir d p) pgdir va ≡ entry k.memory pgdir va)
        × (has_table (tabled k.memory pgdir d p) pgdir d ≡ true)
        × (table (tabled k.memory pgdir d p) pgdir d ≡ p)
  taken-IsSound d p ps h small absent = (sound, same, there, place)
    where
      aligned : p % 4096 ≡ 0
      aligned = (IsPage-bounds end p h.free.1).0

      ne : pgdir ≢ p
      ne = h.fresh.0

      word : p < 2 ^ 32
      word = h.free.1.1

      has :
          (e : ℕ)
          → e < 1024
          → has_table (tabled k.memory pgdir d p) pgdir e
            ≡ (if d == e then true else has_table k.memory pgdir e)
      has = has_table-new k.memory pgdir d p h.page aligned ne small word

      at :
          (e : ℕ)
          → e < 1024
          → table (tabled k.memory pgdir d p) pgdir e
            ≡ (if d == e then p else table k.memory pgdir e)
      at = table-new k.memory pgdir d p h.page aligned ne small word

      self : (d == d) ≡ true
      self = ground arith

      there : has_table (tabled k.memory pgdir d p) pgdir d ≡ true
      there = has d small ∙ rw self refl

      place : table (tabled k.memory pgdir d p) pgdir d ≡ p
      place = at d small ∙ rw self refl

      old :
          (e : ℕ)
          → e < 1024
          → has_table k.memory pgdir e ≡ true
          → (table k.memory pgdir e ≢ pgdir) × (table k.memory pgdir e ≢ p)
      old e lt q = (h.apart e lt q, (h.tables_fresh e lt q).0)

      same : (va : ℕ) → entry (tabled k.memory pgdir d p) pgdir va ≡ entry k.memory pgdir va
      same = entry-new k.memory pgdir d p h.page aligned ne small word absent old

      free : FreeFrom end (tabled k.memory pgdir d p) (load_word k.memory p) ps
      free =
          FreeFrom-SameOutside end pgdir (memset k.memory p 0 pgsize) (tabled k.memory pgdir d p)
            (load_word k.memory p) ps h.page
            (store_word-SameOutside (memset k.memory p 0 pgsize) pgdir d (pde_of p) small) h.fresh.1
            (FreeFrom-SameOutside end p k.memory (memset k.memory p 0 pgsize) (load_word k.memory p)
              ps aligned (memset-SameOutside k.memory p) h.free.2 h.free.3)

      -- a table after it is the new one or one from before
      which :
          (e : ℕ)
          → e < 1024
          → has_table (tabled k.memory pgdir d p) pgdir e ≡ true
          → ((d ≡ e) × (table (tabled k.memory pgdir d p) pgdir e ≡ p))
            ⊎ ((has_table k.memory pgdir e ≡ true)
                × (table (tabled k.memory pgdir d p) pgdir e ≡ table k.memory pgdir e))
      which e lt q = elim (Bool-cases (d == e)) [
        | inl hit ↦ inl (ground (arith, hit), at e lt ∙ rw hit refl)
        | inr miss ↦ inr (sym (has e lt ∙ rw miss refl) ∙ q, at e lt ∙ rw miss refl)
      ]

      sound : IsSound end pgdir (taken pgdir d p k) ps
      sound = record {
        free = free;
        page = h.page;
        fresh = h.fresh.1;
        apart = λ e lt q r. elim (which e lt q) [
          | inl (_, new) ↦ ne (sym r ∙ new)
          | inr (before, t) ↦ h.apart e lt before (sym t ∙ r)
        ];
        tables_fresh = λ e lt q. elim (which e lt q) [
          | inl (_, new) ↦ rw new h.free.2
          | inr (before, t) ↦ rw t (h.tables_fresh e lt before).1
        ];
        distinct = λ e f le lf qe qf r. elim (which e le qe) [
          | inl (de, new_e) ↦ elim (which f lf qf) [
            | inl (df, _) ↦ sym de ∙ df
            | inr (bf, tf) ↦ absurd ((old f lf bf).1 (sym tf ∙ (sym r ∙ new_e)))
          ]
          | inr (be, te) ↦ elim (which f lf qf) [
            | inl (_, new_f) ↦ absurd ((old e le be).1 (sym te ∙ (r ∙ new_f)))
            | inr (bf, tf) ↦ h.distinct e f le lf be bf (sym te ∙ (r ∙ tf))
          ]
        ];
      }

  -- what a call of `walkpgdir` that may make a table returns
  pub record Walked (va pte : ℕ) (k' : Kmem) : Type 0 where
    pub pages : List ℕ
    pub sound : IsSound end pgdir k' pages
    pub there : has_table k'.memory pgdir (pdx va) ≡ true
    pub place : pte ≡ table k'.memory pgdir (pdx va) + 4 * ptx va
    pub same : (a : ℕ) → entry k'.memory pgdir a ≡ entry k.memory pgdir a

  abbrev WalkSays : ℕ → Option ℕ × Kmem → Type 0
  WalkSays va (none, k') = Unit {0}
  WalkSays va (some pte, k') = Walked va pte k'

  kalloc-first :
      (p : ℕ)
      → k.freelist ≡ p
      → 0 < p
      → kalloc k ≡ (some p, record k { freelist = load_word k.memory p })
  unfolding kalloc
  kalloc-first p first positive =
      let some_left : (p == 0) ≡ false = ground (arith, positive) in rw (first, some_left) refl

  new_table-says :
      (va : ℕ) (pages : List ℕ)
      → IsSound end pgdir k pages
      → has_table k.memory pgdir (pdx va) ≡ false
      → WalkSays va (walkpgdir pgdir va true k)
  unfolding walkpgdir kalloc
  new_table-says va [] h absent =
      let none_left : (k.freelist == 0) ≡ true = ground (arith, h.free) in rw (absent, none_left) tt
  new_table-says va (p ∷ ps) h absent =
      let first : k.freelist ≡ p = h.free.0 in
      let (_, positive, _) = IsPage-bounds end p h.free.1 in
      let (sound, same, there, place) = taken-IsSound (pdx va) p ps h (omega arith) absent in
      let w : Walked va (p + 4 * ptx va) (taken pgdir (pdx va) p k) = record {
        pages = ps;
        sound = sound;
        there = there;
        place = ap (λ x. x + 4 * ptx va) (sym place);
        same = same;
      } in
      let walk : walkpgdir pgdir va true k ≡ (some (p + 4 * ptx va), taken pgdir (pdx va) p k) =
        rw (absent, kalloc-first p first positive) refl in
      subst (WalkSays va) (sym walk) w

  walkpgdir-says :
      (va : ℕ) (pages : List ℕ)
      → IsSound end pgdir k pages
      → WalkSays va (walkpgdir pgdir va true k)
  unfolding walkpgdir
  walkpgdir-says va pages h = elim (Bool-cases (has_table k.memory pgdir (pdx va))) [
    | inl there ↦
        rw there
          (record { pages = pages; sound = h; there = there; place = refl; same = λ a. refl })
    | inr absent ↦ new_table-says va pages h absent
  ]

  pub walkpgdir-Walked :
      (va pte : ℕ) (pages : List ℕ) (k' : Kmem)
      → IsSound end pgdir k pages
      → walkpgdir pgdir va true k ≡ (some pte, k')
      → Walked va pte k'
  walkpgdir-Walked va pte pages k' h e = subst (WalkSays va) e (walkpgdir-says va pages h)
