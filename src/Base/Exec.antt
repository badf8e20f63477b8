-- ===== src/Base/Exec.antt =====
-- Methods that change an object and may throw. What was written before a throw stays written, so
-- the state comes back beside the exception too.
pub mod Keeps
use Prim.Native.Nat.{ℕ}
use mathlib.Core.List.{List}

-- The classes of exception that the program raises, each with its `what()`.
pub data Error : Type 0 where
  out_of_range runtime_error invalid_argument logic_error length_error : List ℕ → Error
  -- One of these, by a byte that the code reads outside of what it was given.
  undetermined : List ℕ → Error

pub data Result {ℓ} (A : Type ℓ) : Type ℓ where
  ok : A → Result A
  err : Error → Result A

abbrev pub Exec {ℓ} : Type ℓ → Type ℓ → Type ℓ
Exec S A = S → Result A × S

module _ {ℓ} {S A : Type ℓ} where
  pub pure : A → Exec S A
  pure a s = (ok a, s)

  pub throw : Error → Exec S A
  throw e s = (err e, s)

  pub lift : Result A → Exec S A
  lift r s = (r, s)

  pub gets : (S → A) → Exec S A
  gets f s = (ok (f s), s)

module _ {ℓ} {S : Type ℓ} where
  pub modify : (S → S) → Exec S (Unit {ℓ})
  modify f s = (ok tt, f s)

module _ {ℓ} {S A B : Type ℓ} where
  abbrev pub continue : Result A → (A → Exec S B) → Exec S B
  continue (ok a) f s = f a s
  continue (err e) f s = (err e, s)

  infixl 10 ◌>>=◌ ◌>>◌
  unfoldable pub ◌>>=◌ : Exec S A → (A → Exec S B) → Exec S B
  unfolding pure throw lift gets modify
  ◌>>=◌ m f s = let (r, s') = m s in continue r f s'

  abbrev pub ◌>>◌ : Exec S A → Exec S B → Exec S B
  m >> n = m >>= λ _. n
