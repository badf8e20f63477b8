-- ===== src/Field/Collection.antt =====
-- Looking a field up after it was set.
use crocofix.Base.{
  ℕ, ◌≡◌, ◌≢◌, ◌↔◌, refl, sym, length, false, Option, none, some, [], ◌∷◌, ◌++◌, arith, ◌==◌,
  if◌then◌else◌,
}
use crocofix.Field.{
  Field, Fields, replace_first, replace_first_or_append, try_get, overwrite, set, set_at,
}

none≢some : {f : Field} → none ≢ some f
none≢some h = cc

abbrev or_else : Option Field → Option Field → Option Field
or_else none o = o
or_else (some f) o = some f

try_get-append :
    (t : ℕ) (fs gs : Fields) → try_get t (fs ++ gs) ≡ or_else (try_get t fs) (try_get t gs)
unfolding try_get
try_get-append t [] gs = refl
try_get-append t (f ∷ fs) gs = ground (arith, try_get-append t fs gs)

try_get-overwrite :
    (t : ℕ) (f g : Field) (fs : Fields)
    → try_get f.tag fs ≡ some g
    → try_get t (overwrite f fs) ≡ (if f.tag == t then some f else try_get t fs)
unfolding try_get overwrite
try_get-overwrite t f g [] h = cc
try_get-overwrite t f g (x ∷ fs) h = ground (arith, try_get-overwrite t f g fs)

try_get-single : (t : ℕ) (f : Field) → try_get t (f ∷ []) ≡ (if f.tag == t then some f else none)
unfolding try_get
try_get-single t f = refl

try_get-set_at :
    (t : ℕ) (f : Field) (fs : Fields) (o : Option Field)
    → try_get f.tag fs ≡ o
    → try_get t (set_at o f replace_first_or_append fs).1
      ≡ (if f.tag == t then some f else try_get t fs)
try_get-set_at t f fs (some g) e = try_get-overwrite t f g fs e
try_get-set_at t f fs none e = ground (arith, try_get-append t fs (f ∷ []), try_get-single t f)

-- Setting a field by replacing its first occurrence, or by appending it where there is none, makes
-- it the field that its tag finds, and leaves what every other tag finds as it was.
pub try_get-set :
    (t : ℕ) (f : Field) (fs : Fields)
    → try_get t (set f replace_first_or_append fs).1 ≡ (if f.tag == t then some f else try_get t fs)
unfolding set
try_get-set t f fs = try_get-set_at t f fs (try_get f.tag fs) refl

length-overwrite : (f : Field) (fs : Fields) → length (overwrite f fs) ≡ length fs
unfolding overwrite
length-overwrite f [] = refl
length-overwrite f (x ∷ fs) = ground (arith, length-overwrite f fs)

pub overwrite_missing : (f : Field) (fs : Fields) → try_get f.tag fs ≡ none → overwrite f fs ≡ fs
unfolding overwrite try_get
overwrite_missing f [] e = refl
overwrite_missing f (x ∷ fs) e = ground (arith, overwrite_missing f fs)

-- A plain replacement overwrites the first field with its tag and adds none; it reports whether
-- there was one.
pub set-replace_first :
    (f : Field) (fs : Fields)
    → ((set f replace_first fs).1 ≡ overwrite f fs)
      × (length (set f replace_first fs).1 ≡ length fs)
      × ((set f replace_first fs).0 ≡ false ↔ try_get f.tag fs ≡ none)
unfolding set
set-replace_first f fs = plain (try_get f.tag fs) refl
  where
    plain :
        (o : Option Field)
        → try_get f.tag fs ≡ o
        → ((set_at o f replace_first fs).1 ≡ overwrite f fs)
          × (length (set_at o f replace_first fs).1 ≡ length fs)
          × ((set_at o f replace_first fs).0 ≡ false ↔ o ≡ none)
    plain none e = (sym (overwrite_missing f fs e), refl, ((λ _. refl), (λ _. refl)))
    plain (some g) e = (refl, length-overwrite f fs, ((λ h. cc), (λ h. cc)))

-- A plain replacement is found where there was a field to replace.
pub try_get-replace :
    (t : ℕ) (f : Field) (fs : Fields)
    → try_get t (set f replace_first fs).1 ≡ elim (try_get f.tag fs) [
      | none ↦ try_get t fs
      | some g ↦ if f.tag == t then some f else try_get t fs
    ]
unfolding set
try_get-replace t f fs = replaced (try_get f.tag fs) refl
  where
    replaced :
        (o : Option Field)
        → try_get f.tag fs ≡ o
        → try_get t (set_at o f replace_first fs).1
          ≡ elim o [ none ↦ try_get t fs | some g ↦ if f.tag == t then some f else try_get t fs ]
    replaced none e = refl
    replaced (some g) e = try_get-overwrite t f g fs e

-- What a search finds has the tag that was searched for.
pub try_get-tag : (t : ℕ) (f : Field) (fs : Fields) → try_get t fs ≡ some f → f.tag ≡ t
unfolding try_get
try_get-tag t f [] h = absurd (none≢some h)
try_get-tag t f (x ∷ fs) h = ground (arith, try_get-tag t f fs)
