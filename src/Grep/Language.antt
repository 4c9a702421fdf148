-- ===== src/Grep/Language.antt =====
-- The language of an expression, and that the matcher decides it.
use t2_so.Base.{◌≢◌}
use t2_so.Base.{
  ℕ, ◌≡◌, ◌⊎◌, ◌↔◌, inl, inr, refl, ap, arith, Bool, true, false, ◌||◌, ◌==◌, if◌then◌else◌, List,
  [], ◌∷◌, ◌++◌, Bool-cases,
}
use t2_so.Grep.{
  star, dollar, dot, caret, is_end, matchstar, one_char, matchhere, match_from, match_text,
}

-- What an expression is made of.
pub data Item : Type 0 where
  one : ℕ → Item
  many : ℕ → Item
  end_of_text : Item

-- an expression without its '^' as items
abbrev pub items : List ℕ → List Item
items [] = []
items (c ∷ []) = if c == dollar then end_of_text ∷ [] else one c ∷ []
items (c ∷ d ∷ re) =
    let after = items re in
    let next = items (d ∷ re) in if d == star then many c ∷ after else one c ∷ next

-- Character `d` is one that `c` stands for.
abbrev pub Fits : ℕ → ℕ → Type 0
Fits c d = (c ≡ dot) ⊎ (c ≡ d)

abbrev pub AllFit : ℕ → List ℕ → Type 0
AllFit c [] = Unit {0}
AllFit c (d ∷ text) = Fits c d × AllFit c text

-- The items match a beginning of the text.
pub data Begins : List Item → List ℕ → Type 0 where
  nothing : (text : List ℕ) → Begins [] text
  at_end : Begins (end_of_text ∷ []) []
  char :
      (c d : ℕ) (is : List Item) (text : List ℕ)
      → Fits c d
      → Begins is text
      → Begins (one c ∷ is) (d ∷ text)
  chars :
      (c : ℕ) (is : List Item) (run text : List ℕ)
      → AllFit c run
      → Begins is text
      → Begins (many c ∷ is) (run ++ text)

one_more :
    (c d : ℕ) (is : List Item) (text : List ℕ)
    → Fits c d
    → Begins (many c ∷ is) text
    → Begins (many c ∷ is) (d ∷ text)
one_more c d is _ fit (chars _ _ run text all b) = chars c is (d ∷ run) text (fit, all) b

matchstar_sound :
    (c : ℕ) (here : List ℕ → Bool) (is : List Item)
    → ((text : List ℕ) → here text ≡ true → Begins is text)
    → (text : List ℕ) → matchstar c here text ≡ true
    → Begins (many c ∷ is) text
unfolding matchstar
matchstar_sound c here is sound [] e = chars c is [] [] tt (sound [] e)
matchstar_sound c here is sound (d ∷ text) e = elim (Bool-cases (here (d ∷ text))) [
  | inl h ↦ chars c is [] (d ∷ text) tt (sound (d ∷ text) h)
  | inr h ↦
      let fit : Fits c d = fits (ground (arith, e, h)) in
      let rest : matchstar c here text ≡ true = ground (arith, e, h) in
      one_more c d is text fit (matchstar_sound c here is sound text rest)
]
  where
    fits : (d == c || c == dot) ≡ true → Fits c d
    fits t = ground (arith, t)

matchstar_complete :
    (c : ℕ) (here : List ℕ → Bool) (run text : List ℕ)
    → AllFit c run
    → here text ≡ true
    → matchstar c here (run ++ text) ≡ true
unfolding matchstar
matchstar_complete c here [] [] fit e = e
matchstar_complete c here [] (d ∷ text) fit e = rw e
matchstar_complete c here (d ∷ run) text (fit, later) e =
    let rest = matchstar_complete c here run text later e in
    let go_on : (d == c || c == dot) ≡ true = ground (arith, fit) in
    rw (go_on, rest) (either (here (d ∷ (run ++ text))))
  where
    either : (b : Bool) → (if b then true else true) ≡ true
    either true = refl
    either false = refl

matchstar-Begins :
    (c : ℕ) (here : List ℕ → Bool) (is : List Item) (text : List ℕ)
    → ((text : List ℕ) → Begins is text → here text ≡ true)
    → Begins (many c ∷ is) text
    → matchstar c here text ≡ true
matchstar-Begins c here is _ complete (chars _ _ run text all b) =
    matchstar_complete c here run text all (complete text b)

one_char_sound :
    (c : ℕ) (here : List ℕ → Bool) (is : List Item) (text : List ℕ)
    → ((text : List ℕ) → here text ≡ true → Begins is text)
    → one_char c here text ≡ true
    → Begins (one c ∷ is) text
one_char_sound c here is [] sound e = absurd (ground (arith, e))
one_char_sound c here is (d ∷ text) sound e =
    let fit : Fits c d = fits (ground (arith, e)) in
    let rest : here text ≡ true = ground (arith, e) in char c d is text fit (sound text rest)
  where
    fits : (c == dot || c == d) ≡ true → Fits c d
    fits t = ground (arith, t)

one_char-Begins :
    (c : ℕ) (here : List ℕ → Bool) (is : List Item) (text : List ℕ)
    → ((text : List ℕ) → Begins is text → here text ≡ true)
    → Begins (one c ∷ is) text
    → one_char c here text ≡ true
one_char-Begins c here is _ complete (char _ d _ text fit b) =
    let rest = complete text b in ground (arith, fit, rest)

is_end_sound : (text : List ℕ) → is_end text ≡ true → Begins (end_of_text ∷ []) text
is_end_sound [] e = at_end
is_end_sound (d ∷ text) e = absurd (ground (arith, e))

is_end-Begins : (text : List ℕ) → Begins (end_of_text ∷ []) text → is_end text ≡ true
is_end-Begins _ at_end = refl

matchhere_sound : (re text : List ℕ) → matchhere re text ≡ true → Begins (items re) text
unfolding matchhere
matchhere_sound [] text e = nothing text
matchhere_sound (c ∷ []) text e = elim (Bool-cases (c == dollar)) [
  | inl q ↦ rw q (is_end_sound text (rw q at e))
  | inr q ↦ rw q (one_char_sound c (matchhere []) [] text (λ t _. nothing t) (rw q at e))
]
matchhere_sound (c ∷ d ∷ re) text e = elim (Bool-cases (d == star)) [
  | inl q ↦ rw q (matchstar_sound c (matchhere re) (items re) (matchhere_sound re) text (rw q at e))
  | inr q ↦ rw q (
      one_char_sound c (matchhere (d ∷ re)) (items (d ∷ re)) text (matchhere_sound (d ∷ re))
        (rw q at e))
]

matchhere_complete : (re text : List ℕ) → Begins (items re) text → matchhere re text ≡ true
unfolding matchhere
matchhere_complete [] text b = refl
matchhere_complete (c ∷ []) text b = elim (Bool-cases (c == dollar)) [
  | inl q ↦ rw q (is_end-Begins text (rw q at b))
  | inr q ↦ rw q (one_char-Begins c (matchhere []) [] text (λ t _. refl) (rw q at b))
]
matchhere_complete (c ∷ d ∷ re) text b = elim (Bool-cases (d == star)) [
  | inl q ↦
      rw q (matchstar-Begins c (matchhere re) (items re) text (matchhere_complete re) (rw q at b))
  | inr q ↦ rw q (
      one_char-Begins c (matchhere (d ∷ re)) (items (d ∷ re)) text (matchhere_complete (d ∷ re))
        (rw q at b))
]

-- The items match somewhere in the text.
abbrev pub Found : List Item → List ℕ → Type 0
Found is text = (skipped : List ℕ) × (rest : List ℕ) × (text ≡ skipped ++ rest) × Begins is rest

-- The expression matches the text: at its beginning after a '^', and otherwise anywhere.
abbrev pub Matches : List ℕ → List ℕ → Type 0
Matches [] text = Found [] text
Matches (c ∷ re) text =
    ((c ≡ caret) × Begins (items re) text) ⊎ ((c ≢ caret) × Found (items (c ∷ re)) text)

match_from_sound :
    (re text : List ℕ) → match_from (matchhere re) text ≡ true → Found (items re) text
unfolding match_from
match_from_sound re [] e = ([], [], refl, matchhere_sound re [] e)
match_from_sound re (d ∷ text) e = elim (Bool-cases (matchhere re (d ∷ text))) [
  | inl h ↦ ([], d ∷ text, refl, matchhere_sound re (d ∷ text) h)
  | inr h ↦
      let (skipped, rest, q, b) = match_from_sound re text (rw h at e) in
      (d ∷ skipped, rest, ap (λ (t : List ℕ). d ∷ t) q, b)
]

match_from_complete :
    (re skipped rest : List ℕ)
    → Begins (items re) rest
    → match_from (matchhere re) (skipped ++ rest) ≡ true
unfolding match_from
match_from_complete re [] [] b = matchhere_complete re [] b
match_from_complete re [] (d ∷ rest) b = rw (matchhere_complete re (d ∷ rest) b)
match_from_complete re (d ∷ skipped) rest b =
    let later = match_from_complete re skipped rest b in
    rw later (either (matchhere re (d ∷ (skipped ++ rest))))
  where
    either : (b : Bool) → (if b then true else true) ≡ true
    either true = refl
    either false = refl

Found-match_from :
    (re text : List ℕ) → Found (items re) text → match_from (matchhere re) text ≡ true
Found-match_from re text (skipped, rest, q, b) = rw q (match_from_complete re skipped rest b)

-- `match` returns 1 for exactly the texts that the expression matches.
pub match_text-Matches : (re text : List ℕ) → (match_text re text ≡ true) ↔ Matches re text
unfolding match_text
match_text-Matches [] text = (match_from_sound [] text, Found-match_from [] text)
match_text-Matches (c ∷ re) text = elim (Bool-cases (c == caret)) [
  | inl q ↦
      let same : c ≡ caret = ground (arith, q) in
      (
        λ e. inl (same, matchhere_sound re text (rw q at e)),
        λ m. elim m [
          | inl (_, b) ↦ rw q (matchhere_complete re text b)
          | inr (ne, _) ↦ absurd (ne same)
        ],
      )
  | inr q ↦
      let other : c ≢ caret = λ e. ground (arith, q, e) in
      (
        λ e. inr (other, match_from_sound (c ∷ re) text (rw q at e)),
        λ m. elim m [
          | inl (same, _) ↦ absurd (other same)
          | inr (_, found) ↦ rw q (Found-match_from (c ∷ re) text found)
        ],
      )
]
