-- ===== src/Bio/Links.antt =====
-- The list of buffers, as the list of their numbers.
use t2_so.Base.{
  ℕ, ◌≡◌, ◌≢◌, ◌∙◌, refl, sym, arith, true, false, ◌==◌, update, List, [], ◌∷◌, ◌++◌, subst,
}
use t2_so.Kalloc.FreeList.{Fresh}

-- From `a`, the links lead through `xs` to `e`, and back.
abbrev pub Links : (ℕ → ℕ) → (ℕ → ℕ) → ℕ → List ℕ → ℕ → Type 0
Links n p a [] e = (n a ≡ e) × (p e ≡ a)
Links n p a (x ∷ xs) e = (n a ≡ x) × (p x ≡ a) × Links n p x xs e

pub update_ne : (f : ℕ → ℕ) (i v j : ℕ) → i ≢ j → update f i v j ≡ f j
update_ne f i v j ne = let off : (i == j) ≡ false = ground (arith, ne) in rw off refl

update_eq : (f : ℕ → ℕ) (i v j : ℕ) → i ≡ j → update f i v j ≡ v
update_eq f i v j q = let hit : (i == j) ≡ true = ground (arith, q) in rw hit refl

-- a change of a link that is not in the part
Links-next :
    (n p : ℕ → ℕ) (a : ℕ) (xs : List ℕ) (e i v : ℕ)
    → i ≢ a
    → Fresh i xs
    → Links n p a xs e
    → Links (update n i v) p a xs e
Links-next n p a [] e i v ne fresh (h, k) = (update_ne n i v a ne ∙ h, k)
Links-next n p a (x ∷ xs) e i v ne (f, fs) (h, k, r) =
    (update_ne n i v a ne ∙ h, k, Links-next n p x xs e i v f fs r)

Links-prev :
    (n p : ℕ → ℕ) (a : ℕ) (xs : List ℕ) (e i v : ℕ)
    → i ≢ e
    → Fresh i xs
    → Links n p a xs e
    → Links n (update p i v) a xs e
Links-prev n p a [] e i v ne fresh (h, k) = (h, update_ne p i v e ne ∙ k)
Links-prev n p a (x ∷ xs) e i v ne (f, fs) (h, k, r) =
    (h, update_ne p i v x f ∙ k, Links-prev n p x xs e i v ne fs r)

-- each buffer stands once
abbrev pub Distinct : List ℕ → Type 0
Distinct [] = Unit {0}
Distinct (x ∷ xs) = Fresh x xs × Distinct xs

-- the neighbours of a buffer are in the list
prev_ne :
    (n p : ℕ → ℕ) (a : ℕ) (ys : List ℕ) (b : ℕ) (zs : List ℕ) (e i : ℕ)
    → i ≢ a
    → Fresh i (ys ++ b ∷ zs)
    → Links n p a (ys ++ b ∷ zs) e
    → i ≢ p b
prev_ne n p a [] b zs e i ne fresh (_, k, _) = λ q. ne (q ∙ k)
prev_ne n p a (y ∷ ys) b zs e i ne (f, fs) (_, _, r) = prev_ne n p y ys b zs e i f fs r

next_ne :
    (n p : ℕ → ℕ) (a : ℕ) (ys : List ℕ) (b : ℕ) (zs : List ℕ) (e i : ℕ)
    → i ≢ e
    → Fresh i (ys ++ b ∷ zs)
    → Links n p a (ys ++ b ∷ zs) e
    → i ≢ n b
next_ne n p a [] b [] e i ne fresh (_, _, (h, _)) = λ q. ne (q ∙ h)
next_ne n p a [] b (z ∷ zs) e i ne (_, (f, _)) (_, _, (h, _, _)) = λ q. f (q ∙ h)
next_ne n p a (y ∷ ys) b zs e i ne (f, fs) (_, _, r) = next_ne n p y ys b zs e i ne fs r

-- taking a buffer out; the buffer before it is `a` or in the list
pub unlink :
    (n p : ℕ → ℕ) (a : ℕ) (ys : List ℕ) (b : ℕ) (zs : List ℕ) (e : ℕ)
    → Fresh a (ys ++ b ∷ zs)
    → Fresh e (ys ++ b ∷ zs)
    → Distinct (ys ++ b ∷ zs)
    → Links n p a (ys ++ b ∷ zs) e
    → Links (update n (p b) (n b)) (update p (n b) (p b)) a (ys ++ zs) e
unlink n p a [] b [] e fa fe ds (h, k, (r, s)) =
    (update_eq n (p b) (n b) a k ∙ r, update_eq p (n b) (p b) e r ∙ k)
unlink n p a [] b (z ∷ zs) e (_, (az, fa)) (_, (ez, fe)) (_, (fz, ds)) (h, k, (r, s, t)) = (
  update_eq n (p b) (n b) a k ∙ r,
  update_eq p (n b) (p b) z r ∙ k,
  Links-next n (update p (n b) (p b)) z zs e (p b) (n b) (λ q. az (sym k ∙ q))
      (subst (λ i. Fresh i zs) (sym k) fa)
      (Links-prev n p z zs e (n b) (p b) (λ q. ez (sym q ∙ r)) (subst (λ i. Fresh i zs) (sym r) fz)
        t),
)
unlink n p a (y ∷ ys) b zs e (ay, fa) (ey, fe) (fy, ds) (h, k, r) = (
  update_ne n (p b) (n b) a (λ q. prev_ne n p y ys b zs e a ay fa r (sym q)) ∙ h,
  update_ne p (n b) (p b) y (λ q. next_ne n p y ys b zs e y (λ q₁. ey (sym q₁)) fy r (sym q)) ∙ k,
  unlink n p y ys b zs e fy fe ds r,
)

-- putting a buffer first, behind `a`, which also ends the list
pub link_first :
    (n p : ℕ → ℕ) (a : ℕ) (xs : List ℕ) (b : ℕ)
    → a ≢ b
    → Fresh a xs
    → Fresh b xs
    → Distinct xs
    → Links n p a xs a
    → Links
        (update (update n b (n a)) a b)
        (update (update p b a) (update n b (n a) a) b)
        a
        (b ∷ xs)
        a
link_first n p a [] b ne fa fb ds (h, k) =
    let to : update n b (n a) a ≡ a = update_ne n b (n a) a (λ q. ne (sym q)) ∙ h in
    (
      update_eq (update n b (n a)) a b a refl,
      update_ne (update p b a) (update n b (n a) a) b b (λ q. ne (sym to ∙ q))
          ∙ update_eq p b a b refl,
      (
        update_ne (update n b (n a)) a b b ne ∙ (update_eq n b (n a) b refl ∙ h),
        update_eq (update p b a) (update n b (n a) a) b a to,
      ),
    )
link_first n p a (x ∷ xs) b ne (ax, fa) (bx, fb) (fx, ds) (h, k, r) =
    let to : update n b (n a) a ≡ x = update_ne n b (n a) a (λ q. ne (sym q)) ∙ h in
    (
      update_eq (update n b (n a)) a b a refl,
      update_ne (update p b a) (update n b (n a) a) b b (λ q. bx (sym q ∙ to))
          ∙ update_eq p b a b refl,
      (
        update_ne (update n b (n a)) a b b ne ∙ (update_eq n b (n a) b refl ∙ h),
        update_eq (update p b a) (update n b (n a) a) b x to,
        Links-next (update n b (n a)) (update (update p b a) (update n b (n a) a) b) x xs a a b ax
            fa
            (Links-next n (update (update p b a) (update n b (n a) a) b) x xs a b (n a) bx fb (
              Links-prev n (update p b a) x xs a (update n b (n a) a) b (λ q. ax (sym q ∙ to))
                (subst (λ i. Fresh i xs) (sym to) fx)
                (Links-prev n p x xs a b a (λ q. ne (sym q)) fb r))),
      ),
    )
