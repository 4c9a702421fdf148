-- ===== src/Grep/Tests.antt =====
-- Concrete runs of the matcher.
use t2_so.Base.{◌≡◌, ◌↔◌, refl, true, false, [], ◌∷◌}
use t2_so.Grep.{star, dollar, matchstar, matchhere, match_from, match_text}
use t2_so.Grep.Language.{Matches, match_text-Matches}

-- "ab*$" in "xabb" and in "xabc"
found_abb : match_text (97 ∷ 98 ∷ star ∷ dollar ∷ []) (120 ∷ 97 ∷ 98 ∷ 98 ∷ []) ≡ true
unfolding match_text match_from matchhere matchstar
found_abb = refl

missed_abc : match_text (97 ∷ 98 ∷ star ∷ dollar ∷ []) (120 ∷ 97 ∷ 98 ∷ 99 ∷ []) ≡ false
unfolding match_text match_from matchhere matchstar
missed_abc = refl

match_text-Matches_example :
    (match_text (97 ∷ 98 ∷ star ∷ dollar ∷ []) (120 ∷ 97 ∷ 98 ∷ 98 ∷ []) ≡ true)
    ↔ Matches (97 ∷ 98 ∷ star ∷ dollar ∷ []) (120 ∷ 97 ∷ 98 ∷ 98 ∷ [])
match_text-Matches_example =
    match_text-Matches (97 ∷ 98 ∷ star ∷ dollar ∷ []) (120 ∷ 97 ∷ 98 ∷ 98 ∷ [])
