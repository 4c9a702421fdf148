-- ===== src/Log/Spec.antt =====
-- What a disk stands for: its blocks once the log has been replayed.
use t2_so.Base.{
  ℕ, zero, suc, ◌+◌, ◌≤◌, ◌<◌, ◌≡◌, ◌∙◌, refl, arith, Option, none, some, update, ◌==◌,
}
use t2_so.Base.{if◌then◌else◌}
use t2_so.Disk.{Block}

-- the blocks with log blocks `tail` to `tail + k` copied to their homes, in this order
unfoldable pub replay : ℕ → (ℕ → ℕ) → ℕ → ℕ → (ℕ → Block) → ℕ → Block
replay start sector zero tail d = d
replay start sector (suc k) tail d =
    replay start sector k (tail + 1) (update d (sector tail) (d (start + tail + 1)))

-- the disk as the log's header says
abbrev pub recovered : ℕ → (ℕ → Block) → ℕ → Block
recovered start d = replay start (λ i. d start (i + 1)) (d start 0) 0 d

-- the last of the `k` log blocks from `tail` on whose home is `s`
unfoldable pub source : (ℕ → ℕ) → ℕ → ℕ → ℕ → Option ℕ
source sector zero tail s = none
source sector (suc k) tail s = elim (source sector k (tail + 1) s) [
  | none ↦ if sector tail == s then some tail else none
  | some t ↦ some t
]

abbrev pub fetch : ℕ → (ℕ → Block) → ℕ → Option ℕ → Block
fetch start d s none = d s
fetch start d s (some t) = d (start + t + 1)

-- Every home lies below the log.
abbrev pub HomesBelow : ℕ → (ℕ → ℕ) → ℕ → Type 0
HomesBelow start sector n = (i : ℕ) → i < n → sector i < start

pub replay-source :
    (start : ℕ) (sector : ℕ → ℕ) (n k tail : ℕ) (d : ℕ → Block) (s : ℕ)
    → tail + k ≤ n
    → HomesBelow start sector n
    → replay start sector k tail d s ≡ fetch start d s (source sector k tail s)
unfolding replay source
replay-source start sector n zero tail d s lt below = refl
replay-source start sector n (suc k) tail d s lt below =
    replay-source start sector n k (tail + 1) (update d (sector tail) (d (start + tail + 1))) s
      (omega arith) below
    ∙ after (source sector k (tail + 1) s)
  where
    after :
        (o : Option ℕ)
        → fetch start (update d (sector tail) (d (start + tail + 1))) s o
          ≡ fetch start d s
              (elim o [ none ↦ if sector tail == s then some tail else none | some t ↦ some t ])
    after none = ground arith
    after (some t) = ground (arith, below tail)
