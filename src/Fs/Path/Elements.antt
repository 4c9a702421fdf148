-- ===== src/Fs/Path/Elements.antt =====
-- The names that a path consists of, and that `namex` follows them one by one.
use t2_so.Base.{subst}
use t2_so.Base.{fun_ext}
use t2_so.Base.{◌⊎◌}
use t2_so.Base.{
  ℕ, zero, suc, ◌+◌, ◌≤◌, ◌<◌, ◌≡◌, ◌∙◌, refl, sym, ap, arith, Bool, false, ◌==◌, if◌then◌else◌,
  Bool-cases, inl, inr, Option, none, some, List, [], ◌∷◌, length,
}
use t2_so.Str.{Memory}
use t2_so.Fs.{Blocks}
use t2_so.Fs.Run.{Run, ◌>>=◌}
use t2_so.Fs.Inode.{State}
use t2_so.Fs.Content.{Devices}
use t2_so.Fs.Path.{
  slash, skip_slashes, first_name, skip_name, is_empty, put_name, skipelem, step_into, no_more,
  walk, start, namex,
}

-- a name, unless it is empty, before the others
abbrev push : List ℕ → List (List ℕ) → List (List ℕ)
push [] names = names
push (c ∷ name) names = (c ∷ name) ∷ names

-- the characters up to the first slash, and the names after it
abbrev cut : List ℕ → List ℕ × List (List ℕ)
cut [] = ([], [])
cut (c ∷ path) =
    if c == slash then ([], push (cut path).0 (cut path).1) else (c ∷ (cut path).0, (cut path).1)

-- A path is cut at its slashes, and the pieces that are not empty are its names.
abbrev pub elements : List ℕ → List (List ℕ)
elements path = push (cut path).0 (cut path).1

elements-skip_slashes : (path : List ℕ) → elements (skip_slashes path) ≡ elements path
unfolding skip_slashes
elements-skip_slashes [] = refl
elements-skip_slashes (c ∷ path) = elim (Bool-cases (c == slash)) [
  | inl e ↦ rw e (elements-skip_slashes path)
  | inr e ↦ rw e (rw e refl)
]

cut-split : (path : List ℕ) → cut path ≡ (first_name path, elements (skip_name path))
unfolding first_name skip_name
cut-split [] = refl
cut-split (c ∷ path) = elim (Bool-cases (c == slash)) [
  | inl e ↦ rw e (rw e refl)
  | inr e ↦ rw (e, cut-split path) refl
]

elements-name :
    (c : ℕ) (path : List ℕ)
    → (c == slash) ≡ false
    → elements (c ∷ path) ≡ first_name (c ∷ path) ∷ elements (skip_name (c ∷ path))
unfolding first_name skip_name
elements-name c path e = rw (e, cut-split path) refl

skip_slashes-cases :
    (path : List ℕ)
    → (skip_slashes path ≡ [])
      ⊎ ((c : ℕ) × (rest : List ℕ) × (skip_slashes path ≡ c ∷ rest) × ((c == slash) ≡ false))
unfolding skip_slashes
skip_slashes-cases [] = inl refl
skip_slashes-cases (c ∷ path) = elim (Bool-cases (c == slash)) [
  | inl e ↦ rw e (skip_slashes-cases path)
  | inr e ↦ inr (c, path, rw e refl, e)
]

length-skip_slashes : (path : List ℕ) → length (skip_slashes path) ≤ length path
unfolding skip_slashes
length-skip_slashes [] = omega arith
length-skip_slashes (c ∷ path) =
    let ih : length (skip_slashes path) ≤ length path = length-skip_slashes path in
    elim (Bool-cases (c == slash)) [ inl e ↦ rw e (omega arith) | inr e ↦ rw e (omega arith) ]

length-skip_name : (path : List ℕ) → length (skip_name path) ≤ length path
unfolding skip_name
length-skip_name [] = omega arith
length-skip_name (c ∷ path) =
    let ih : length (skip_name path) ≤ length path = length-skip_name path in
    elim (Bool-cases (c == slash)) [ inl e ↦ rw e (omega arith) | inr e ↦ rw e (omega arith) ]

length-skip_name_lt :
    (c : ℕ) (path : List ℕ)
    → (c == slash) ≡ false
    → length (skip_name (c ∷ path)) < length (c ∷ path)
unfolding skip_name
length-skip_name_lt c path e =
    let le : length (skip_name path) ≤ length path = length-skip_name path in rw e (omega arith)

is_empty-elements :
    (path : List ℕ) → is_empty (skip_slashes path) ≡ is_empty (elements (skip_slashes path))
is_empty-elements path = elim (skip_slashes-cases path) [
  | inl e ↦ rw e refl
  | inr (c, rest, e, ne) ↦ rw (e, elements-name c rest ne) refl
]

skipelem-none : (path : List ℕ) (name : Memory) → skip_slashes path ≡ [] → skipelem path name ≡ none
unfolding skipelem
skipelem-none path name e = rw e refl

skipelem-some :
    (path : List ℕ) (name : Memory) (c : ℕ) (rest : List ℕ)
    → skip_slashes path ≡ c ∷ rest
    → skipelem path name
      ≡ some (skip_slashes (skip_name (c ∷ rest)), put_name name (first_name (c ∷ rest)))
unfolding skipelem
skipelem-some path name c rest e = rw e refl

length-skipped :
    (path : List ℕ) (c : ℕ) (rest : List ℕ)
    → skip_slashes path ≡ c ∷ rest
    → (c == slash) ≡ false
    → length (skip_slashes (skip_name (c ∷ rest))) < length path
length-skipped path c rest e ne =
    let a : length (skip_slashes (skip_name (c ∷ rest))) ≤ length (skip_name (c ∷ rest)) =
      length-skip_slashes (skip_name (c ∷ rest)) in
    let b : length (skip_name (c ∷ rest)) < length (c ∷ rest) = length-skip_name_lt c rest ne in
    let d : length (c ∷ rest) ≤ length path =
      subst (λ (p : List ℕ). length p ≤ length path) e (length-skip_slashes path) in
    omega (arith, a, b, d)

module _ {W : Type 0} (io : Blocks W) (devsw : Devices W) (junk : Memory) (cwd : ℕ) where
  -- the loop of `namex` over the names of a path
  abbrev pub follow :
      Bool → List (List ℕ) → ℕ → Memory → State W → Run (Option ℕ × Memory × State W)
  follow parent [] ip name s = no_more io devsw junk cwd parent ip name s
  follow parent (e ∷ names) ip name s =
      step_into io devsw junk cwd parent (is_empty names) ip (put_name name e) s
        (λ next s₁. follow parent names next (put_name name e) s₁)

  walk-follow :
      (fuel : ℕ) (parent : Bool) (ip : ℕ) (path : List ℕ) (name : Memory) (s : State W)
      → length path < fuel
      → walk io devsw junk cwd fuel parent ip path name s ≡ follow parent (elements path) ip name s
  unfolding walk
  walk-follow zero parent ip path name s lt = absurd (omega (arith, lt))
  walk-follow (suc fuel) parent ip path name s lt = elim (skip_slashes-cases path) [
    | inl e ↦
        let none_left : elements path ≡ [] = sym (elements-skip_slashes path) ∙ ap elements e in
        rw (walk, skipelem-none path name e, none_left) refl
    | inr (c, rest, e, ne) ↦
        let path' : List ℕ = skip_slashes (skip_name (c ∷ rest)) in
        let names : elements path ≡ first_name (c ∷ rest) ∷ elements path' =
          sym (elements-skip_slashes path)
          ∙ (ap elements e
              ∙ (elements-name c rest ne
                  ∙ ap (λ es. first_name (c ∷ rest) ∷ es)
                      (sym (elements-skip_slashes (skip_name (c ∷ rest)))))) in
        let last : is_empty path' ≡ is_empty (elements path') =
          is_empty-elements (skip_name (c ∷ rest)) in
        let shorter : length path' < fuel = omega (arith, lt, length-skipped path c rest e ne) in
        let ih : (λ (next : ℕ) (s₁ : State W).
          walk io devsw junk cwd fuel parent next path' (put_name name (first_name (c ∷ rest))) s₁)
            ≡ (λ next s₁.
                follow parent (elements path') next (put_name name (first_name (c ∷ rest))) s₁) =
          fun_ext λ next. fun_ext λ s₁.
            walk-follow fuel parent next path' (put_name name (first_name (c ∷ rest))) s₁ shorter in
        rw (walk, skipelem-some path name c rest e, names, last)
          (ap
            (step_into io devsw junk cwd parent (is_empty (elements path')) ip
              (put_name name (first_name (c ∷ rest))) s)
            ih)
  ]

  -- `namex` goes from the root, if the path begins with a slash, and else from the current directory,
  -- through the names of the path in order: the pieces between its slashes that are not empty.
  pub namex-follow :
      (path : List ℕ) (parent : Bool) (name : Memory) (s : State W)
      → namex io devsw junk cwd path parent name s
        ≡ (start io devsw junk cwd path s >>= λ r. follow parent (elements path) r.0 name r.1)
  unfolding namex
  namex-follow path parent name s =
      ap (λ next. start io devsw junk cwd path s >>= next)
        (fun_ext λ r. walk-follow (length path + 1) parent r.0 path name r.1 (omega arith))
