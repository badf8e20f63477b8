-- ===== src/Base/Exec/Keeps.antt =====
-- Facts about methods that hold whether they return or throw, with one rule for each way to build
-- a method: a relation between the state before and the state after that composes.
use mathlib.Core.Path.{◌≡◌, refl}
use mathlib.Core.Logic.{◌≢◌}
use mathlib.Core.Bool.{Bool, true, false}
use crocofix.Base.Tests.{if◌then◌else◌}
use crocofix.Base.Exec.{Error, Result, ok, err, Exec, pure, throw, lift, gets, continue, ◌>>=◌}

pub record Composes {ℓ} {S : Type ℓ} (R : S → S → Type ℓ) : Type ℓ where
  pub stay : (s : S) → R s s
  pub join : (s t u : S) → R s t → R t u → R s u

-- Every run of `m` is an `R`-step.
pub record Does {ℓ} {S A : Type ℓ} (R : S → S → Type ℓ) (m : Exec S A) : Type ℓ where
  pub at : (s : S) → R s (m s).1

module _ {ℓ} {S A : Type ℓ} {R : S → S → Type ℓ} where
  pub Does-pure : Composes R → (a : A) → Does R (pure a)
  unfolding pure
  Does-pure c a = record { at = c.stay }

  pub Does-throw : Composes R → (e : Error) → Does R (throw {A = A} e)
  unfolding throw
  Does-throw c e = record { at = c.stay }

  pub Does-lift : Composes R → (r : Result A) → Does R (lift r)
  unfolding lift
  Does-lift c r = record { at = c.stay }

  pub Does-gets : Composes R → (f : S → A) → Does R (gets f)
  unfolding gets
  Does-gets c f = record { at = c.stay }

  pub Does-if : (b : Bool) (m n : Exec S A) → Does R m → Does R n → Does R (if b then m else n)
  Does-if true m n dm dn = dm
  Does-if false m n dm dn = dn

  pub Does-split :
      (b : Bool) (m n : Exec S A)
      → (b ≡ true → Does R m)
      → (b ≡ false → Does R n)
      → Does R (if b then m else n)
  Does-split true m n dm dn = dm refl
  Does-split false m n dm dn = dn refl

module _ {ℓ} {S A B : Type ℓ} {R : S → S → Type ℓ} where
  Does-continue :
      Composes R
      → (f : A → Exec S B) → ((a : A) → Does R (f a))
      → (r : Result A) (s : S) → R s (continue r f s).1
  Does-continue c f df (ok a) s = (df a).at s
  Does-continue c f df (err e) s = c.stay s

  pub Does-bind :
      Composes R
      → (m : Exec S A) (f : A → Exec S B) → Does R m
      → ((a : A) → Does R (f a))
      → Does R (m >>= f)
  unfolding ◌>>=◌
  Does-bind c m f dm df = record {
    at = λ s. c.join s (m s).1 _ (dm.at s) (Does-continue c f df (m s).0 (m s).1);
  }

  -- The rest may use what a computed result is.
  pub Does-bind-lift :
      Composes R
      → (r : Result A) (f : A → Exec S B) → ((a : A) → r ≡ ok a → Does R (f a))
      → Does R (lift r >>= f)
  unfolding ◌>>=◌
  Does-bind-lift c (ok a) f df = record { at = λ s. (df a refl).at s }
  Does-bind-lift c (err e) f df = record { at = c.stay }

pub ruleset does_rules = (Does-pure, Does-throw, Does-lift, Does-gets, Does-if, Does-bind, refl)

-- A method that cannot return `true`.
abbrev pub Fails : {S : Type 0} → Exec S Bool → Type 0
Fails {S = S} m = (s : S) → (m s).0 ≢ ok true

module _ {S A : Type 0} where
  continue-Fails :
      (f : A → Exec S Bool)
      → ((a : A) → Fails (f a))
      → (r : Result A) (s : S) → (continue r f s).0 ≢ ok true
  continue-Fails f h (ok a) s = h a s
  continue-Fails f h (err e) s = λ q. cc

  pub bind-Fails : (m : Exec S A) (f : A → Exec S Bool) → ((a : A) → Fails (f a)) → Fails (m >>= f)
  unfolding ◌>>=◌
  bind-Fails m f h s = continue-Fails f h (m s).0 (m s).1

module _ {S : Type 0} where
  pub false-Fails : Fails {S = S} (pure false)
  unfolding pure
  false-Fails s = λ q. cc
