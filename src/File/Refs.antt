-- ===== src/File/Refs.antt =====
-- The reference counts of the file table, against the references that the rest of the kernel holds.
use t2_so.Base.{
  ℕ, ◌+◌, ◌-◌, ◌<◌, ◌≡◌, inl, inr, ◌∙◌, sym, ap, arith, true, false, ◌==◌, if◌then◌else◌, ltb,
  Bool-cases, Option, none, some, Option-cases, update, find_from, find_from-some, find_from-none,
  ◌≢◌,
}
use t2_so.Base.{ok, panic_if, >>=-eq-ok, ok-injective}
use t2_so.File.{File, Ftable, Calls, nfile, filealloc, filedup, fileclose, let_go, closed, fd_none}

-- the table, how many references are held to each entry, and the state of the other files
pub record Held (W : Type 0) : Type 0 where
  pub table : Ftable
  pub held : ℕ → ℕ
  pub world : W

-- Calls of file.c by holders, and changes that a holder makes to the fields of its entry.
pub data Step {W : Type 0} (c : Calls W) : Held W → Held W → Type 0 where
  allocs :
      (h : Held W) (f : ℕ) (t : Ftable)
      → filealloc h.table ≡ (some f, t)
      → Step c h (record h { table = t; held = update h.held f (h.held f + 1) })
  dups :
      (h : Held W) (f : ℕ) (r : ℕ × Ftable)
      → 0 < h.held f
      → filedup f h.table ≡ ok r
      → Step c h (record h { table = r.1; held = update h.held f (h.held f + 1) })
  closes :
      (h : Held W) (f : ℕ) (r : Ftable × W)
      → 0 < h.held f
      → fileclose c f h.table h.world ≡ ok r
      → Step c h (record { table = r.0; held = update h.held f (h.held f - 1); world = r.1 })
  changes :
      (h : Held W) (f : ℕ) (g : File) (w : W)
      → 0 < h.held f
      → g.ref ≡ (h.table f).ref
      → Step c h (record h { table = update h.table f g; world = w })

pub data Reach {W : Type 0} (c : Calls W) : Held W → Type 0 where
  start :
      (t : Ftable) (w : W)
      → ((f : ℕ) → (t f).ref ≡ 0)
      → Reach c (record { table = t; held = λ _. 0; world = w })
  next : {h h' : Held W} → Reach c h → Step c h h' → Reach c h'

abbrev IsCounted : {W : Type 0} → Held W → Type 0
IsCounted h = (f : ℕ) → (h.table f).ref ≡ h.held f

module _ {W : Type 0} (c : Calls W) where
  -- an entry that `filealloc` returns was free
  filealloc_free :
      (t t' : Ftable) (f : ℕ)
      → filealloc t ≡ (some f, t')
      → (f < nfile) × ((t f).ref ≡ 0) × (t' ≡ update t f (record (t f) { ref = 1 }))
  unfolding filealloc
  filealloc_free t t' f e = elim (Option-cases (find_from (λ (f : File). f.ref == 0) t nfile 0)) [
    | inl q ↦
        let e' : ◌≡◌ {A = Option ℕ × Ftable} (none, t) (some f, t') = rw (filealloc, q) at e in
        let n : ◌≡◌ {A = Option ℕ} none (some f) = ap (λ (r : Option ℕ × Ftable). r.0) e' in cc
    | inr (g, q) ↦
        let e' : ◌≡◌ {A = Option ℕ × Ftable} (some g, update t g (record (t g) { ref = 1 }))
            (some f, t') =
          rw (filealloc, q) at e in
        let s : some g ≡ some f = ap (λ (r : Option ℕ × Ftable). r.0) e' in
        let same : g ≡ f = ground (arith, s) in
        let (_, below, free, _) = find_from-some (λ (f : File). f.ref == 0) t nfile 0 g q in
        rw (← same)
          (omega arith, ground (arith, free), sym (ap (λ (r : Option ℕ × Ftable). r.1) e'))
  ]

  filedup_table :
      (t : Ftable) (f : ℕ) (r : ℕ × Ftable)
      → filedup f t ≡ ok r
      → r ≡ (f, update t f (record (t f) { ref = (t f).ref + 1 }))
  unfolding filedup
  filedup_table t f r e =
      let (_, _, e') = >>=-eq-ok (panic_if (ltb (t f).ref 1)) _ e in sym (ok-injective e')

  fileclose_refs :
      (t : Ftable) (f : ℕ) (w : W) (r : Ftable × W) (g : ℕ)
      → fileclose c f t w ≡ ok r
      → (r.0 g).ref ≡ (if f == g then (t f).ref - 1 else (t g).ref)
  unfolding fileclose
  fileclose_refs t f w r g e =
      let (_, _, e') = >>=-eq-ok (panic_if (ltb (t f).ref 1)) _ e in
      elim (Bool-cases (ltb 0 ((t f).ref - 1))) [
        | inl more ↦
            let q : (update t f (record (t f) { ref = (t f).ref - 1 }), w) ≡ r =
              ok-injective (rw more at e') in
            rw (← q) (ground arith)
        | inr last ↦
            let (w', _, e₂) = >>=-eq-ok (let_go c (t f) w) _ (rw last at e') in
            let q : (update t f (closed (t f)), w') ≡ r = ok-injective e₂ in
            rw (← q) (ground (arith, last))
      ]

  Step-IsCounted : (h h' : Held W) → Step c h h' → IsCounted h → IsCounted h'
  Step-IsCounted h h' (allocs _ f t e) s g =
      let (_, free, table) = filealloc_free h.table t f e in
      rw table (ground (arith, free, s f, s g))
  Step-IsCounted h h' (dups _ f r lt e) s g =
      rw (filedup_table h.table f r e) (ground (arith, s f, s g))
  Step-IsCounted h h' (closes _ f r lt e) s g =
      fileclose_refs h.table f h.world r g e ∙ ground (arith, s f, s g)
  Step-IsCounted h h' (changes _ f g w lt e) s x = ground (arith, e, s f, s x)

  Reach-IsCounted : (h : Held W) → Reach c h → IsCounted h
  Reach-IsCounted h (start t w z) = z
  Reach-IsCounted h' (next {h} r s) = Step-IsCounted h h' s (Reach-IsCounted h r)

  -- The table after the last reference goes: the entry is free again, and `let_go` has run.
  fileclose-last :
      (t : Ftable) (f : ℕ) (w w' : W)
      → (t f).ref ≡ 1
      → let_go c (t f) w ≡ ok w'
      → (t' : Ftable) × ((fileclose c f t w ≡ ok (t', w'))
          × ((t' f).ref ≡ 0)
          × ((t' f).type ≡ fd_none)
          × ((g : ℕ) → g ≢ f → t' g ≡ t g))
  unfolding fileclose
  fileclose-last t f w w' one gone =
      let fine : ltb (t f).ref 1 ≡ false = ground (arith, one) in
      let last : ltb 0 ((t f).ref - 1) ≡ false = ground (arith, one) in
      (
        update t f (closed (t f)),
        (rw (fine, last, gone), ground arith, ground arith, λ g ne. ground (arith, ne)),
      )

  filealloc-finds :
      (t : Ftable) (f : ℕ)
      → f < nfile
      → (t f).ref ≡ 0
      → (g : ℕ) × ((t' : Ftable) × (filealloc t ≡ (some g, t')))
  unfolding filealloc
  filealloc-finds t f lt free =
      elim (Option-cases (find_from (λ (f : File). f.ref == 0) t nfile 0)) [
        | inl q ↦
            let full =
              find_from-none (λ (f : File). f.ref == 0) t nfile 0 f q (omega arith) (omega arith) in
            absurd (ground (arith, full, free))
        | inr (g, q) ↦ (g, (update t g (record (t g) { ref = 1 }), rw (filealloc, q)))
      ]

  -- Start from a table whose counts are 0, and let holders call `filealloc`, `filedup` and
  -- `fileclose` and change the other fields of entries they hold, in any order. The count of each
  -- entry is then the number of references held to it. `filealloc` returns an entry to which none
  -- is held, and returns one whenever there is such an entry below `nfile`. `filedup` of an entry
  -- with a holder does not panic. `fileclose`, when a second reference is held, only counts down
  -- and calls nothing; of the last reference, when what lets the file go returns, it returns with that
  -- state, the entry with count 0 and type FD_NONE and the other entries as they were.
  pub Reach-refs :
      (h : Held W)
      → Reach c h
      → ((f : ℕ) → (h.table f).ref ≡ h.held f)
        × ((f : ℕ) (t : Ftable) → filealloc h.table ≡ (some f, t) → (f < nfile) × (h.held f ≡ 0))
        × ((f : ℕ)
            → f < nfile
            → h.held f ≡ 0
            → (g : ℕ) × ((t : Ftable) × (filealloc h.table ≡ (some g, t))))
        × ((f : ℕ) → 0 < h.held f → (r : ℕ × Ftable) × (filedup f h.table ≡ ok r))
        × ((f : ℕ)
            → 1 < h.held f
            → fileclose c f h.table h.world
              ≡ ok (update h.table f (record (h.table f) { ref = h.held f - 1 }), h.world))
        × ((f : ℕ) (w : W)
            → h.held f ≡ 1
            → let_go c (h.table f) h.world ≡ ok w
            → (t : Ftable) × ((fileclose c f h.table h.world ≡ ok (t, w))
                × ((t f).ref ≡ 0)
                × ((t f).type ≡ fd_none)
                × ((g : ℕ) → g ≢ f → t g ≡ h.table g)))
  unfolding filedup fileclose
  Reach-refs h r = (
    counted,
    λ f t e. let (below, free, _) = filealloc_free h.table t f e in (below, sym (counted f) ∙ free),
    λ f lt free. filealloc-finds h.table f lt (counted f ∙ free),
    λ f lt.
        let fine : ltb (h.table f).ref 1 ≡ false = ground (arith, counted f) in
        ((f, update h.table f (record (h.table f) { ref = (h.table f).ref + 1 })), rw fine),
    λ f lt.
        let fine : ltb (h.table f).ref 1 ≡ false = ground (arith, counted f) in
        let more : ltb 0 ((h.table f).ref - 1) ≡ true = ground (arith, counted f) in
        rw (fine, more, counted f),
    λ f w one gone. fileclose-last h.table f h.world w (counted f ∙ one) gone,
  )
    where
      counted : IsCounted h
      counted = Reach-IsCounted h r
