-- ===== src/Fs/Run.antt =====
-- A call of the file system: it returns, it halts the machine by `panic`, or it sleeps on an inode
-- that another process has locked. What the others do until it wakes is not followed, so a run
-- ends there.
use mathlib.Core.Path.{◌≡◌, refl, ap}
use mathlib.Core.Bool.{Bool, true, false}
use Prim.Native.Nat.{ℕ}
use t2_so.Base.{Result, ok, panic}

pub data Run {ℓ} (A : Type ℓ) : Type ℓ where
  done : A → Run A
  halt : Run A
  sleeps : ℕ → Run A

module _ {ℓ κ} {A : Type ℓ} {B : Type κ} where
  infixl 5 ◌>>=◌
  abbrev pub ◌>>=◌ : Run A → (A → Run B) → Run B
  done a >>= next = next a
  halt >>= next = halt
  sleeps i >>= next = sleeps i

  -- inversion of a bind that returns
  pub >>=-eq-done :
      (r : Run A) (next : A → Run B) {b : B}
      → r >>= next ≡ done b
      → (a : A) × (r ≡ done a) × (next a ≡ done b)
  >>=-eq-done (done a) next e = (a, refl, e)
  >>=-eq-done halt next e = cc
  >>=-eq-done (sleeps i) next e = cc

-- `if(b) panic(...)`
abbrev pub halt_if : Bool → Run (Unit {0})
halt_if true = halt
halt_if false = done tt

infixl 5 ◌>>◌
abbrev pub ◌>>◌ {ℓ} : {B : Type ℓ} → Run (Unit {0}) → Run B → Run B
first >> second = first >>= λ _. second

-- a call of code that may only panic
abbrev pub called {ℓ} : {A : Type ℓ} → Result A → Run A
called (ok a) = done a
called panic = halt

pub done-injective {ℓ} : {A : Type ℓ} {a b : A} → done a ≡ done b → a ≡ b
done-injective {A} {a} e = ap value e
  where
    value : Run A → A
    value (done x) = x
    value halt = a
    value (sleeps i) = a

pub called-eq-done {ℓ} : {A : Type ℓ} (r : Result A) {a : A} → called r ≡ done a → r ≡ ok a
called-eq-done (ok b) {a} e = ap ok (done-injective e)
called-eq-done panic e = cc
