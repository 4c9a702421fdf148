-- ===== src/Vm/Mapped.antt =====
-- What `mappages` maps.
use t2_so.Base.{
  ℕ, zero, suc, ◌+◌, ◌-◌, ◌*◌, ◌%◌, ◌^◌, ◌≤◌, ◌<◌, ◌≡◌, ◌≢◌, ◌∙◌, inl, inr, refl, sym, ap, subst,
  arith, Bool, true, false, ◌==◌, if◌then◌else◌, ltb, leb, ◌&&◌, Bool-cases, List, Option, none,
  some, ℤ, pos, Result, ok, panic, ok-injective,
}
use Prim.Native.Nat.{bit_or}
use t2_so.Str.{Memory, store_word}
use t2_so.Kalloc.{pgsize, load_word, Kmem}
use t2_so.Vm.{
  pdx, ptx, pte_p, is_present, with_memory, pgrounddown, walkpgdir, map_at, map_from, mappages,
}
use t2_so.Vm.Bits.{page_entry}
use t2_so.Vm.Tables.{has_table, table, entry, entry_some, IsSound}
use t2_so.Vm.Walk.{Walked, walkpgdir-Walked}
use t2_so.Vm.Store.{same_page, same_page_lem, stored-IsSound, entry-stored}

-- the entry of a page for the physical address `pa`
abbrev pub pte_of : ℕ → ℕ → ℕ
pte_of pa perm = bit_or (bit_or pa perm) pte_p

-- the pages from `a` to `last`
abbrev pub in_pages : ℕ → ℕ → ℕ → Bool
in_pages a last x = leb a x && ltb x (last + pgsize)

-- The pages from `a` to `last`, which no entry mapped, are mapped to the ones from `pa` on, and no
-- other address has another entry than before.
pub record Mapped (end pgdir perm a last pa : ℕ) (k k' : Kmem) : Type 0 where
  pub pages : List ℕ
  pub sound : IsSound end pgdir k' pages
  pub entries :
      (x : ℕ)
      → x < 2 ^ 32
      → entry k'.memory pgdir x ≡ (
          if in_pages a last x
          then pte_of (pa + (pgrounddown x - a)) perm
          else entry k.memory pgdir x)
  pub unmapped :
      (x : ℕ) → x < 2 ^ 32 → in_pages a last x ≡ true → is_present (entry k.memory pgdir x) ≡ false

same_page_range :
    (a x : ℕ) → a % 4096 ≡ 0 → a < 2 ^ 32 → x < 2 ^ 32 → same_page a x ≡ in_pages a a x
same_page_range a x aligned la lx = ground (arith, aligned, la, lx)

entry-same_page :
    (m : Memory) (pgdir a x : ℕ) → same_page a x ≡ true → entry m pgdir x ≡ entry m pgdir a
entry-same_page m pgdir a x e =
    let found : ℕ → ℕ → ℕ =
      λ d y. if has_table m pgdir d then load_word m (table m pgdir d + 4 * y) else 0 in
    let (d, y) = same_page_lem a x e in
    ap (λ z. found z (ptx x)) (sym d) ∙ ap (found (pdx a)) (sym y)

module _ (end pgdir perm : ℕ) (flags : perm < 4096) where
  one_page :
      (k k₁ : Kmem) (a pa pte : ℕ)
      → a % 4096 ≡ 0
      → a < 2 ^ 32
      → pa % 4096 ≡ 0
      → pa < 2 ^ 32
      → Walked end pgdir k a pte k₁
      → is_present (load_word k₁.memory pte) ≡ false
      → Mapped end pgdir perm a a pa k (with_memory k₁ (store_word k₁.memory pte (pte_of pa perm)))
  one_page k k₁ a pa pte aligned la paligned lpa w free =
      subst
        (λ q.
          Mapped end pgdir perm a a pa k (with_memory k₁ (store_word k₁.memory q (pte_of pa perm))))
        (sym w.place)
        (record {
          pages = w.pages;
          sound = stored-IsSound end pgdir k₁ w.pages w.sound a (pte_of pa perm) w.there word;
          entries = λ x lx.
              entry-stored end pgdir k₁ w.pages w.sound a (pte_of pa perm) w.there word x
              ∙ entered x lx;
          unmapped = λ x lx hit.
              let before : entry k.memory pgdir x ≡ load_word k₁.memory pte =
                entry-same_page k.memory pgdir a x (same_page_range a x aligned la lx ∙ hit)
                ∙ (sym (w.same a)
                    ∙ (entry_some k₁.memory pgdir a (table k₁.memory pgdir (pdx a)) w.there refl
                        ∙ ap (load_word k₁.memory) (sym w.place))) in
              ap is_present before ∙ free;
        })
    where
      word : pte_of pa perm < 2 ^ 32
      word = omega (arith, page_entry pa perm paligned flags)

      entered :
          (x : ℕ)
          → x < 2 ^ 32
          → (if same_page a x then pte_of pa perm else entry k₁.memory pgdir x) ≡ (
              if in_pages a a x
              then pte_of (pa + (pgrounddown x - a)) perm
              else entry k.memory pgdir x)
      entered x lx = elim (Bool-cases (in_pages a a x)) [
        | inl hit ↦
            let at : pa + (pgrounddown x - a) ≡ pa = ground (arith, hit, aligned) in
            rw (same_page_range a x aligned la lx ∙ hit, hit, at) refl
        | inr miss ↦ rw (same_page_range a x aligned la lx ∙ miss, miss, w.same x) refl
      ]

  more_pages :
      (k k₁ k₂ : Kmem) (a last pa : ℕ)
      → a % 4096 ≡ 0
      → a < last
      → Mapped end pgdir perm a a pa k k₁
      → Mapped end pgdir perm (a + 4096) last (pa + 4096) k₁ k₂
      → Mapped end pgdir perm a last pa k k₂
  more_pages k k₁ k₂ a last pa aligned lt o₁ o₂ = record {
    pages = o₂.pages;
    sound = o₂.sound;
    entries = λ x lx. o₂.entries x lx ∙ elim (Bool-cases (in_pages (a + 4096) last x)) [
      | inl hit ↦
          let all : in_pages a last x ≡ true = ground (arith, hit) in
          let at : pa + 4096 + (pgrounddown x - (a + 4096)) ≡ pa + (pgrounddown x - a) =
            ground (arith, hit, aligned) in
          rw (hit, all, at) refl
      | inr miss ↦
          let near : in_pages a a x ≡ in_pages a last x = ground (arith, miss, lt) in
          rw miss (o₁.entries x lx ∙ rw near refl)
    ];
    unmapped = λ x lx all. elim (Bool-cases (in_pages (a + 4096) last x)) [
      | inl hit ↦
          let off : in_pages a a x ≡ false = ground (arith, hit) in
          let same : entry k₁.memory pgdir x ≡ entry k.memory pgdir x =
            o₁.entries x lx ∙ rw off refl in
          ap is_present (sym same) ∙ o₂.unmapped x lx hit
      | inr miss ↦ o₁.unmapped x lx (ground (arith, miss, all, lt))
    ];
  }

  map_from-Mapped :
      (fuel n : ℕ) (k k' : Kmem) (pages : List ℕ) (a last pa : ℕ)
      → n < fuel
      → a % 4096 ≡ 0
      → last ≡ a + 4096 * n
      → last < 2 ^ 32
      → pa % 4096 ≡ 0
      → pa + 4096 * n < 2 ^ 32
      → IsSound end pgdir k pages
      → map_from fuel pgdir a last pa perm k ≡ ok (pos 0, k')
      → Mapped end pgdir perm a last pa k k'
  unfolding map_from
  map_from-Mapped zero n k k' pages a last pa lt aligned range top paligned ptop h e =
      absurd (omega arith)
  map_from-Mapped (suc fuel) n k k' pages a last pa lt aligned range top paligned ptop h e =
      turn
        (λ k₁ ps more s e₁.
          let na : (a + 4096) % 2 ^ 32 ≡ a + 4096 = omega (arith, range, top, more) in
          let np : (pa + 4096) % 2 ^ 32 ≡ pa + 4096 = omega (arith, range, ptop, more) in
          map_from-Mapped fuel (n - 1) k₁ k' ps (a + 4096) last (pa + 4096)
            (omega (arith, lt, range, more)) (omega (arith, aligned)) (omega (arith, range, more))
            top (omega (arith, paligned)) (omega (arith, ptop, range, more)) s
            (sym (rw (na, np) refl) ∙ e₁))
        (walkpgdir pgdir a true k) refl e
    where
      next : Kmem → Result (ℤ × Kmem)
      next = map_from fuel pgdir ((a + 4096) % 2 ^ 32) last ((pa + 4096) % 2 ^ 32) perm

      -- the theorem for the turns after it
      Later : Type 0
      Later =
          (k₁ : Kmem) (ps : List ℕ)
          → a ≢ last
          → IsSound end pgdir k₁ ps
          → next k₁ ≡ ok (pos 0, k')
          → Mapped end pgdir perm (a + 4096) last (pa + 4096) k₁ k'

      stores :
          Later
          → (pte : ℕ) (k₁ : Kmem) → Walked end pgdir k a pte k₁
          → is_present (load_word k₁.memory pte) ≡ false
          → (if a == last
              then ok (pos 0, with_memory k₁ (store_word k₁.memory pte (pte_of pa perm)))
              else next (with_memory k₁ (store_word k₁.memory pte (pte_of pa perm))))
            ≡ ok (pos 0, k')
          → Mapped end pgdir perm a last pa k k'
      stores ih pte k₁ w free e₁ =
          let o : Mapped end pgdir perm a a pa k
              (with_memory k₁ (store_word k₁.memory pte (pte_of pa perm))) =
            one_page k k₁ a pa pte aligned (omega arith) paligned (omega arith) w free in
          elim (Bool-cases (a == last)) [
            | inl here ↦
                let same : a ≡ last = ground (arith, here) in
                let k₂ : Kmem = with_memory k₁ (store_word k₁.memory pte (pte_of pa perm)) in
                let ends : ok (pos 0, k₂) ≡ ok (pos 0, k') = sym (rw here refl) ∙ e₁ in
                let pair : (pos 0, k₂) ≡ (pos 0, k') = ok-injective ends in
                let out : k₂ ≡ k' = ap (λ (q : ℤ × Kmem). q.1) pair in
                subst (λ l. Mapped end pgdir perm a l pa k k') same
                  (subst (Mapped end pgdir perm a a pa k) out o)
            | inr far ↦
                let more : a ≢ last = ground (arith, far) in
                let k₂ : Kmem = with_memory k₁ (store_word k₁.memory pte (pte_of pa perm)) in
                more_pages k k₂ k' a last pa aligned (omega (arith, range, more)) o
                  (ih k₂ o.pages more o.sound (sym (rw far refl) ∙ e₁))
          ]

      turn :
          Later
          → (w : Option ℕ × Kmem) → walkpgdir pgdir a true k ≡ w
          → map_at (a == last) pa perm next w ≡ ok (pos 0, k')
          → Mapped end pgdir perm a last pa k k'
      turn ih (none, k₁) q e₁ = cc
      turn ih (some pte, k₁) q e₁ = elim (Bool-cases (is_present (load_word k₁.memory pte))) [
        | inl taken ↦
            let stopped : Result (ℤ × Kmem) = panic in
            let bad : stopped ≡ ok (pos 0, k') = sym (rw taken refl) ∙ e₁ in cc
        | inr free ↦
            stores ih pte k₁ (walkpgdir-Walked end pgdir k a pte pages k₁ h q) free
              (sym (rw free refl) ∙ e₁)
      ]

  -- `mappages` of whole pages, which ends before the address space does and returns 0, on a directory
  -- whose tables are apart from each other and from the free pages: no page was mapped before, each is
  -- mapped to its physical page with the flags, every other address has the entry that it had, and the
  -- directory is still such.
  pub mappages-Mapped :
      (k k' : Kmem) (pages : List ℕ) (va n pa : ℕ)
      → va % 4096 ≡ 0
      → pa % 4096 ≡ 0
      → 0 < n
      → va + 4096 * n ≤ 2 ^ 32
      → pa + 4096 * n ≤ 2 ^ 32
      → IsSound end pgdir k pages
      → mappages pgdir va (4096 * n) pa perm k ≡ ok (pos 0, k')
      → Mapped end pgdir perm va (va + 4096 * (n - 1)) pa k k'
  unfolding mappages
  mappages-Mapped k k' pages va n pa aligned paligned some_pages top ptop h e =
      let first : pgrounddown va ≡ va = omega arith in
      let last : pgrounddown ((va + 4096 * n + 2 ^ 32 - 1) % 2 ^ 32) ≡ va + 4096 * (n - 1) =
        omega arith in
      map_from-Mapped (2 ^ 20) (n - 1) k k' pages va (va + 4096 * (n - 1)) pa (omega arith) aligned
        refl (omega arith) paligned (omega arith) h (sym (rw (first, last) refl) ∙ e)
