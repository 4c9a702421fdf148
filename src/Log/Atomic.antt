-- ===== src/Log/Atomic.antt =====
-- A transaction is atomic: whenever the power is lost, the disk stands for the blocks before it or
-- after it.
use t2_so.Base.{ℕ, zero, suc, ◌+◌, ◌-◌, ◌≤◌, ◌<◌, ◌≡◌, ◌∙◌, refl, arith, update, ◌==◌, min, sym}
use t2_so.Base.{
  update_self, update_ne, dec_lt, ◌≢◌, if◌then◌else◌, true, false, Option, none, some, ap,
}
use t2_so.Disk.{Block}
use t2_so.Log.{Log, install_from, install_trans, install_and_clear}
use t2_so.Log.Spec.{replay, recovered, source, fetch, HomesBelow, replay-source}
use t2_so.Log.Install.{IsCoherent, install_from-Installed}
use t2_so.Log.Head.{header, header-words, write_head-disk}

-- a replay depends on the sectors of its range alone
pub replay-cong :
    (start : ℕ) (f g : ℕ → ℕ) (k tail : ℕ) (d : ℕ → Block)
    → ((i : ℕ) → tail ≤ i → i < tail + k → f i ≡ g i)
    → replay start f k tail d ≡ replay start g k tail d
unfolding replay
replay-cong start f g zero tail d same = refl
replay-cong start f g (suc k) tail d same =
    rw (same tail (omega arith) (omega arith))
      (replay-cong start f g k (tail + 1) _ (λ i a b. same i (omega arith) (omega arith)))

-- A log whose header on the disk is in order.
abbrev pub HasHeader : ℕ → (ℕ → Block) → Type 0
HasHeader start d = HomesBelow start (λ i. d start (i + 1)) (d start 0)

-- a block that is no home in the range
replay_miss :
    (start : ℕ) (sector : ℕ → ℕ) (k tail : ℕ) (d : ℕ → Block) (x : ℕ)
    → ((i : ℕ) → tail ≤ i → i < tail + k → sector i ≢ x)
    → replay start sector k tail d x ≡ d x
unfolding replay
replay_miss start sector zero tail d x miss = refl
replay_miss start sector (suc k) tail d x miss =
    replay_miss start sector k (tail + 1) (update d (sector tail) (d (start + tail + 1))) x
      (λ i a b. miss i (omega arith) (omega arith))
    ∙ ground (arith, miss tail)

pub source-none :
    (sector : ℕ → ℕ) (k tail s i : ℕ)
    → source sector k tail s ≡ none
    → tail ≤ i
    → i < tail + k
    → sector i ≢ s
unfolding source
source-none sector zero tail s i e a b = absurd (omega arith)
source-none sector (suc k) tail s i e a b = elim (dec_lt tail i) [
  | yes lt ↦ ground (arith, source-none sector k (tail + 1) s i)
  | no ge ↦ let q : tail ≡ i = omega arith in rw (← q) (ground arith)
]

-- What a crash during the copying leaves still stands for the same blocks.
replay_twice :
    (start : ℕ) (sector : ℕ → ℕ) (n j : ℕ) (d : ℕ → Block) (s : ℕ)
    → j ≤ n
    → HomesBelow start sector n
    → replay start sector n 0 (replay start sector j 0 d) s ≡ replay start sector n 0 d s
replay_twice start sector n j d s le below =
    replay-source start sector n n 0 _ s (omega arith) below
    ∙ (case (source sector n 0 s) refl
        ∙ sym (replay-source start sector n n 0 d s (omega arith) below))
  where
    case :
        (o : Option ℕ)
        → source sector n 0 s ≡ o
        → fetch start (replay start sector j 0 d) s o ≡ fetch start d s o
    case none e =
        replay_miss start sector j 0 d s
          (λ i a b. source-none sector n 0 s i e (omega arith) (omega arith))
    case (some t) e =
        replay_miss start sector j 0 d (start + t + 1)
          (λ i a b h. omega (arith, below i (omega arith)))

-- the header block is not replayed
pub replay-update_start :
    (start : ℕ) (sector : ℕ → ℕ) (n : ℕ) (d : ℕ → Block) (b : Block) (s : ℕ)
    → s < start
    → HomesBelow start sector n
    → replay start sector n 0 (update d start b) s ≡ replay start sector n 0 d s
replay-update_start start sector n d b s home below =
    replay-source start sector n n 0 _ s (omega arith) below
    ∙ (case (source sector n 0 s) ∙ sym (replay-source start sector n n 0 d s (omega arith) below))
  where
    case : (o : Option ℕ) → fetch start (update d start b) s o ≡ fetch start d s o
    case none = ground arith
    case (some t) = ground arith

-- the header on the disk is the one in memory
pub record IsLogged (l : Log) : Type 0 where
  pub count : l.bufs.disk l.start 0 ≡ l.n
  pub sectors : (i : ℕ) → i < l.n → l.bufs.disk l.start (i + 1) ≡ l.sector i
  pub below : HomesBelow l.start l.sector l.n
  pub coherent : IsCoherent l.n l

-- what `d'` stands for, with `new` for the blocks after the transaction
pub record StandsFor (start : ℕ) (d' : ℕ → Block) (new : ℕ → Block) : Type 0 where
  pub header : HasHeader start d'
  pub blocks : (s : ℕ) → s < start → recovered start d' s ≡ new s

-- the log in memory before the header is cleared
abbrev pub copied : Log → Log
copied l = record (install_from l.n 0 l) { n = 0 }

pub install_and_clear-disk :
    (l : Log)
    → HomesBelow l.start l.sector l.n
    → IsCoherent l.n l
    → (install_and_clear l).bufs.disk ≡ (
        if l.bufs.power - l.n == 0
        then replay l.start l.sector (min l.bufs.power l.n) 0 l.bufs.disk
        else update
            (replay l.start l.sector (min l.bufs.power l.n) 0 l.bufs.disk)
            l.start
            (header (copied l)))
unfolding install_and_clear install_trans
install_and_clear-disk l below coherent =
    let i = install_from-Installed l.n l.n 0 l (omega arith) below coherent in
    write_head-disk (copied l) ∙ rw (i.power, i.disk, i.start)

module _ (l : Log) (h : IsLogged l) where
  abbrev new : ℕ → Block
  new = replay l.start l.sector l.n 0 l.bufs.disk

  -- the disk when the power runs out during the copying
  cut : (j : ℕ) → j ≤ l.n → StandsFor l.start (replay l.start l.sector j 0 l.bufs.disk) new
  cut j le = record {
    header = λ i lt. rw header_kept (omega (arith, h.count, in_range i lt));
    blocks = λ s home.
        rw (header_kept, h.count)
          (ap (λ (d : ℕ → Block). d s)
              (replay-cong l.start _ l.sector l.n 0 _ λ i a b. h.sectors i (omega arith))
            ∙ replay_twice l.start l.sector l.n j l.bufs.disk s le h.below);
  }
    where
      header_kept : replay l.start l.sector j 0 l.bufs.disk l.start ≡ l.bufs.disk l.start
      header_kept =
          replay_miss l.start l.sector j 0 l.bufs.disk l.start
            (λ i a b e. omega (arith, h.below i (omega arith)))

      in_range :
          (i : ℕ)
          → i < replay l.start l.sector j 0 l.bufs.disk l.start 0
          → l.bufs.disk l.start (i + 1) < l.start
      in_range i lt =
          let lt' : i < l.n = omega (arith, h.count, ap (λ (b : Block). b 0) header_kept) in
          omega (arith, h.sectors i lt', h.below i lt')

  -- the disk when the header is cleared
  cleared : (b : Block) → b 0 ≡ 0 → StandsFor l.start (update new l.start b) new
  cleared b e = record {
    header = λ i lt. absurd (omega (arith, zero_count));
    blocks = λ s home.
        let z = zero_count in rw z (unfold replay in update_ne new l.start s b (omega arith));
  }
    where
      zero_count : update new l.start b l.start 0 ≡ 0
      zero_count = ap (λ (w : Block). w 0) (update_self new l.start b) ∙ e

  -- `install_and_clear` on a logged transaction, with power for any number of writes
  pub install_and_clear-StandsFor :
      StandsFor l.start (install_and_clear l).bufs.disk new
      × (l.n < l.bufs.power
          → ((install_and_clear l).bufs.disk l.start 0 ≡ 0)
            × ((s : ℕ) → s < l.start → (install_and_clear l).bufs.disk s ≡ new s))
  install_and_clear-StandsFor = elim (dec_lt l.n l.bufs.power) [
    | yes lt ↦
        let all : min l.bufs.power l.n ≡ l.n = omega arith in
        let on : (l.bufs.power - l.n == 0) ≡ false = ground arith in
        let b = header (copied l) in
        let zero_word : b 0 ≡ 0 = (header-words (copied l)).0 in
        let disk : (install_and_clear l).bufs.disk ≡ update new l.start b =
          install_and_clear-disk l h.below h.coherent ∙ rw (on, all) in
        rw disk (
          cleared b zero_word,
          λ _. (
            ap (λ (w : Block). w 0) (update_self new l.start b) ∙ zero_word,
            λ s home. update_ne new l.start s b (omega arith),
          ),
        )
    | no ge ↦
        let off : (l.bufs.power - l.n == 0) ≡ true = ground arith in
        let le : min l.bufs.power l.n ≤ l.n = omega arith in
        let part : ℕ → Block = replay l.start l.sector (min l.bufs.power l.n) 0 l.bufs.disk in
        let disk : (install_and_clear l).bufs.disk ≡ part =
          install_and_clear-disk l h.below h.coherent ∙ rw off in
        rw disk (cut (min l.bufs.power l.n) le, λ lt. absurd (ge lt))
  ]
