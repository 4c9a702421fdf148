-- ===== src/Grep.antt =====
-- The matcher of src/grep.c. A string is the list of its characters before the final zero.
pub mod Language
mod Tests
use t2_so.Base.{ℕ, Bool, true, false, ◌&&◌, ◌||◌, ◌==◌, if◌then◌else◌, List, [], ◌∷◌}

-- '*', '$', '.' and '^'
abbrev pub star : ℕ
star = 42

abbrev pub dollar : ℕ
dollar = 36

abbrev pub dot : ℕ
dot = 46

abbrev pub caret : ℕ
caret = 94

abbrev pub is_end : List ℕ → Bool
is_end [] = true
is_end (_ ∷ _) = false

-- the loop of `matchstar`, where `here` is `matchhere` of the rest of the expression
unfoldable pub matchstar : ℕ → (List ℕ → Bool) → List ℕ → Bool
matchstar c here [] = here []
matchstar c here (d ∷ text) =
    let rest = matchstar c here text in
    if here (d ∷ text) then true else if d == c || c == dot then rest else false

-- the last test of `matchhere`: one character, then the rest of the expression
abbrev pub one_char : ℕ → (List ℕ → Bool) → List ℕ → Bool
one_char c here [] = false
one_char c here (d ∷ text) = (c == dot || c == d) && here text

unfoldable pub matchhere : List ℕ → List ℕ → Bool
matchhere [] text = true
matchhere (c ∷ []) text = if c == dollar then is_end text else one_char c (matchhere []) text
matchhere (c ∷ d ∷ re) text =
    let starred = matchstar c (matchhere re) text in
    let single = one_char c (matchhere (d ∷ re)) text in if d == star then starred else single

-- the loop of `match`, which looks at the empty rest too
unfoldable pub match_from : (List ℕ → Bool) → List ℕ → Bool
match_from here [] = here []
match_from here (d ∷ text) =
    let rest = match_from here text in if here (d ∷ text) then true else rest

-- `match`
unfoldable pub match_text : List ℕ → List ℕ → Bool
match_text [] text = match_from (matchhere []) text
match_text (c ∷ re) text =
    if c == caret then matchhere re text else match_from (matchhere (c ∷ re)) text
