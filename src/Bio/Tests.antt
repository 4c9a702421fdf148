-- ===== src/Bio/Tests.antt =====
-- The list that `binit` makes, and a buffer put first.
use t2_so.Base.{refl, some}
use t2_so.Base.{◌==◌}
use t2_so.Base.{◌≡◌, arith, true, false, [], ◌∷◌, ok, panic, none}
use t2_so.Bio.{Bcache, binit, brelse, link_from}
use t2_so.Bio.{bget, hit, reused}
use t2_so.Bio.Get.{first_of, last_of, is_clean, has_sector, bget-first_of}
use t2_so.Bio.Release.{IsRing, Released, brelse-Released}

abbrev at_start : Bcache
at_start = record {
  buf = λ b. record { dev = none; sector = 0; busy = b == 3; valid = false; dirty = false };
  next = λ b. 0;
  prev = λ b. 0;
}

abbrev ready : Bcache
ready = binit at_start

ready-IsRing : IsRing ready (9 ∷ 8 ∷ 7 ∷ 6 ∷ 5 ∷ 4 ∷ 3 ∷ 2 ∷ 1 ∷ 0 ∷ [])
unfolding binit link_from
ready-IsRing = record { head = omega arith; distinct = omega arith; links = omega arith }

brelse-Released_example :
    (true ≡ false → brelse 3 ready ≡ panic)
    × (true ≡ true
        → (c' : Bcache) × (brelse 3 ready ≡ ok c')
          × Released 3 (9 ∷ 8 ∷ 7 ∷ 6 ∷ 5 ∷ 4 ∷ 2 ∷ 1 ∷ 0 ∷ []) ready c')
unfolding binit link_from
brelse-Released_example =
    brelse-Released ready (9 ∷ 8 ∷ 7 ∷ 6 ∷ 5 ∷ 4 ∷ []) 3 (2 ∷ 1 ∷ 0 ∷ []) ready-IsRing

bget-first_of_example :
    bget 1 40 ready
    ≡ elim (first_of (has_sector ready 1 40) (9 ∷ 8 ∷ 7 ∷ 6 ∷ 5 ∷ 4 ∷ 3 ∷ 2 ∷ 1 ∷ 0 ∷ [])) [
      | some b ↦ hit b ready
      | none ↦
          reused 1 40 (last_of (is_clean ready) (9 ∷ 8 ∷ 7 ∷ 6 ∷ 5 ∷ 4 ∷ 3 ∷ 2 ∷ 1 ∷ 0 ∷ [])) ready
    ]
bget-first_of_example =
    bget-first_of ready 1 40 (9 ∷ 8 ∷ 7 ∷ 6 ∷ 5 ∷ 4 ∷ 3 ∷ 2 ∷ 1 ∷ 0 ∷ []) ready-IsRing refl
