-- ===== src/Log/Append.antt =====
-- The log after `log_write`.
use t2_so.Base.{ℕ_discrete}
use t2_so.Base.{Bool}
use t2_so.Base.{
  ℕ, ◌+◌, ◌≤◌, ◌<◌, ◌≡◌, ◌≢◌, ◌⊎◌, inl, inr, ◌∙◌, refl, arith, update, ◌==◌, sym, ap, update_self,
  dec_lt, leb, not, ◌||◌, true, false, if◌then◌else◌, none, some, Option-cases,
}
use t2_so.Base.{Result, ok, panic, ◌>>◌, panic_if}
use t2_so.Disk.{Block, Bufs, look, bread, modify, bwrite, pin}
use t2_so.Disk.Laws.{
  look-bread, look-modify, look-bwrite, power-bread, disk-bread, disk-bwrite-modify,
}
use t2_so.Log.{Log, logsize, slot_from, log_write}
use t2_so.Log.Spec.{replay, source, fetch, HomesBelow, replay-source}
use t2_so.Log.Install.{IsCoherent}
use t2_so.Log.Atomic.{source-none}
use t2_so.Log.Slots.{IsOpen, slot_from-first, source-some, source_unique, source_absent}

-- the log after `log_write`
abbrev pub slot : ℕ → Log → ℕ
slot s l = slot_from l.sector s l.n 0

abbrev pub appended : ℕ → Log → Log
appended s l =
    let b₁ = bread (l.start + slot s l + 1) l.bufs in
    let b₂ = bwrite (l.start + slot s l + 1) (modify (l.start + slot s l + 1) (look b₁ s) b₁) in
    record l {
      sector = update l.sector (slot s l) s;
      n = if slot s l == l.n then l.n + 1 else l.n;
      bufs = pin s b₂;
    }

-- two guards as one
guards :
    (a b : Bool) (r : Result Log)
    → (panic_if a >> (panic_if b >> r)) ≡ (if a || b then panic else r)
guards true b r = refl
guards false true r = refl
guards false false r = refl

pub log_write-appended :
    (s : ℕ) (l : Log)
    → log_write s l
      ≡ (if leb logsize l.n || leb l.size (l.n + 1) || not l.busy then panic else ok (appended s l))
unfolding log_write
log_write-appended s l = guards (leb logsize l.n || leb l.size (l.n + 1)) (not l.busy) _

pin-look : (s : ℕ) (b : Bufs) (x : ℕ) → look (pin s b) x ≡ look b x
unfolding pin look
pin-look s b x = refl

pin-disk : (s : ℕ) (b : Bufs) → (pin s b).disk ≡ b.disk
unfolding pin
pin-disk s b = refl

module _ (l : Log) (h : IsOpen l) (s : ℕ) (home : s < l.start) where
  slot_ok :
      (slot s l ≤ l.n)
      × (slot s l < l.n → l.sector (slot s l) ≡ s)
      × ((j : ℕ) → j < slot s l → l.sector j ≢ s)
  slot_ok =
      let (a, b, c, d) = slot_from-first l.sector s l.n 0 in
      (omega arith, λ lt. c (omega arith), λ j lt. d j (omega arith) lt)

  appended-look :
      (x : ℕ)
      → look (appended s l).bufs x
        ≡ (if l.start + slot s l + 1 == x then look l.bufs s else look l.bufs x)
  appended-look x = simp (pin-look, look-bwrite, look-modify, look-bread)

  pub appended-disk : (appended s l).bufs.disk ≡ (
      if l.bufs.power == 0
      then l.bufs.disk
      else update l.bufs.disk (l.start + slot s l + 1) (look l.bufs s))
  appended-disk = simp (pin-disk, disk-bwrite-modify, look-bread, disk-bread, power-bread)

  -- the slots in use afterwards
  slots :
      (t : ℕ)
      → t < (appended s l).n
      → ((t ≡ slot s l) × ((appended s l).sector t ≡ s))
        ⊎ ((t < l.n) × (t ≢ slot s l) × ((appended s l).sector t ≡ l.sector t) × (l.sector t ≢ s))
  slots t lt =
      let (a, b, c) = slot_ok in
      elim (dec_lt t (slot s l)) [
        | yes p ↦ inr (omega arith, (λ e. omega arith), ground arith, c t p)
        | no p ↦ elim (dec_lt (slot s l) t) [
          | yes above ↦
              let below : t < l.n = ground (arith, lt, above) in
              inr (
                below,
                (λ e. omega arith),
                ground arith,
                λ e. omega (
                  arith,
                  h.distinct t (slot s l) below (omega arith) (e ∙ sym (b (omega arith))),
                ),
              )
          | no not_above ↦ let same : t ≡ slot s l = omega arith in inl (same, ground (arith, same))
        ]
      ]

  pub appended_distinct :
      (i j : ℕ)
      → i < (appended s l).n
      → j < (appended s l).n
      → (appended s l).sector i ≡ (appended s l).sector j
      → i ≡ j
  appended_distinct i j p q e = case (slots i p) (slots j q)
    where
      case :
          ((i ≡ slot s l) × ((appended s l).sector i ≡ s))
            ⊎ ((i < l.n)
                × (i ≢ slot s l)
                × ((appended s l).sector i ≡ l.sector i)
                × (l.sector i ≢ s))
          → ((j ≡ slot s l) × ((appended s l).sector j ≡ s))
            ⊎ ((j < l.n)
                × (j ≢ slot s l)
                × ((appended s l).sector j ≡ l.sector j)
                × (l.sector j ≢ s))
          → i ≡ j
      case (inl (a, _)) (inl (b, _)) = a ∙ sym b
      case (inl (_, a)) (inr (_, _, b, c)) = absurd (c (sym b ∙ (sym e ∙ a)))
      case (inr (_, _, b, c)) (inl (_, a)) = absurd (c (sym b ∙ (e ∙ a)))
      case (inr (a, _, b, _)) (inr (c, _, d, _)) = h.distinct i j a c (sym b ∙ (e ∙ d))

  pub appended-HomesBelow : HomesBelow l.start (appended s l).sector (appended s l).n
  appended-HomesBelow i lt = elim (slots i lt) [
    | inl (_, a) ↦ omega (arith, a)
    | inr (a, _, b, _) ↦ omega (arith, b, h.ready.below i a)
  ]

  disk_on :
      0 < l.bufs.power
      → (x : ℕ)
      → (appended s l).bufs.disk x ≡ update l.bufs.disk (l.start + slot s l + 1) (look l.bufs s) x
  disk_on on x =
      let off : (l.bufs.power == 0) ≡ false = ground arith in
      let written : (appended s l).bufs.disk
          ≡ update l.bufs.disk (l.start + slot s l + 1) (look l.bufs s) =
        appended-disk ∙ rw off in
      ap (λ (d : ℕ → Block). d x) written

  pub appended-IsCoherent : 0 < l.bufs.power → IsCoherent (appended s l).n (appended s l)
  appended-IsCoherent on t lt =
      appended-look (l.start + t + 1) ∙ (same (slots t lt) ∙ sym (disk_on on (l.start + t + 1)))
    where
      same :
          ((t ≡ slot s l) × ((appended s l).sector t ≡ s))
            ⊎ ((t < l.n)
                × (t ≢ slot s l)
                × ((appended s l).sector t ≡ l.sector t)
                × (l.sector t ≢ s))
          → (if l.start + slot s l + 1 == l.start + t + 1
              then look l.bufs s
              else look l.bufs (l.start + t + 1))
            ≡ update l.bufs.disk (l.start + slot s l + 1) (look l.bufs s) (l.start + t + 1)
      same (inl (e, _)) = ground (arith, e)
      same (inr (below, ne, _, _)) = ground (arith, ne, h.ready.coherent t below)

  slot_lt : slot s l < (appended s l).n
  slot_lt = let (a, b, c) = slot_ok in ground (arith, a)

  this_block :
      (x : ℕ)
      → s ≡ x
      → 0 < l.bufs.power
      → fetch l.start (appended s l).bufs.disk x (source (appended s l).sector (appended s l).n 0 x)
        ≡ (if s == x then look l.bufs s else replay l.start l.sector l.n 0 l.bufs.disk x)
  this_block x e on =
      let found : source (appended s l).sector (appended s l).n 0 x ≡ some (slot s l) =
        source_unique (appended s l).sector (appended s l).n x (slot s l) appended_distinct slot_lt
          (update_self l.sector (slot s l) s ∙ e) in
      rw found (disk_on on (l.start + slot s l + 1) ∙ ground (arith, e))

  absent :
      (x : ℕ)
      → s ≢ x
      → source l.sector l.n 0 x ≡ none
      → source (appended s l).sector (appended s l).n 0 x ≡ none
  absent x ne q = source_absent (appended s l).sector (appended s l).n x λ t lt e.
      elim (slots t lt) [
        | inl (_, a) ↦ ne (sym a ∙ e)
        | inr (a, _, b, _) ↦
            source-none l.sector l.n 0 x t q (omega arith) (omega arith) (sym b ∙ e)
      ]

  present :
      (x t : ℕ)
      → s ≢ x
      → source l.sector l.n 0 x ≡ some t
      → (source (appended s l).sector (appended s l).n 0 x ≡ some t) × (t ≢ slot s l)
  present x t ne q =
      let (a, b, c) = source-some l.sector l.n 0 x t q in
      let (d, e, f) = slot_ok in
      let apart : t ≢ slot s l =
        λ same. ne (sym (e (omega arith)) ∙ (ap l.sector (sym same) ∙ c)) in
      (
        source_unique (appended s l).sector (appended s l).n x t appended_distinct
            (ground (arith, b)) (ground (arith, apart, c)),
        apart,
      )

  other_block :
      (x : ℕ)
      → s ≢ x
      → 0 < l.bufs.power
      → x < l.start
      → fetch l.start (appended s l).bufs.disk x (source (appended s l).sector (appended s l).n 0 x)
        ≡ (if s == x then look l.bufs s else replay l.start l.sector l.n 0 l.bufs.disk x)
  other_block x ne on lt =
      let off : (s == x) ≡ false = ground (arith, ne) in
      rw off (
        (elim (Option-cases (source l.sector l.n 0 x)) [
          | inl q ↦ rw (absent x ne q, q) (disk_on on x ∙ ground arith)
          | inr (t, q) ↦
              let (found, apart) = present x t ne q in
              rw (found, q) (disk_on on (l.start + t + 1) ∙ ground (arith, apart))
        ])
        ∙ sym (replay-source l.start l.sector l.n l.n 0 _ x (omega arith) h.ready.below))

  pub appended-fetch :
      0 < l.bufs.power
      → (x : ℕ) → x < l.start
      → replay l.start (appended s l).sector (appended s l).n 0 (appended s l).bufs.disk x
        ≡ (if s == x then look l.bufs s else replay l.start l.sector l.n 0 l.bufs.disk x)
  appended-fetch on x lt =
      replay-source l.start (appended s l).sector (appended s l).n (appended s l).n 0 _ x
        (omega arith) appended-HomesBelow
      ∙ (elim (ℕ_discrete s x) [ yes e ↦ this_block x e on | no ne ↦ other_block x ne on lt ])
