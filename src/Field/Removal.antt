-- ===== src/Field/Removal.antt =====
-- Looking a field up after `remove`.
use crocofix.Base.{
  ℕ, ◌+◌, ◌≡◌, ◌≢◌, refl, Option, none, some, [], ◌∷◌, arith, ◌==◌, if◌then◌else◌, length,
}
use crocofix.Field.{
  Field, Fields, remove_first, remove_all, try_get, erase_first, erase_all, remove_at, remove,
}

try_get-erase_all :
    (t u : ℕ) (fs : Fields) → try_get u (erase_all t fs) ≡ (if t == u then none else try_get u fs)
unfolding try_get erase_all
try_get-erase_all t u [] = ground arith
try_get-erase_all t u (f ∷ fs) = ground (arith, try_get-erase_all t u fs)

try_get-other : (t u : ℕ) (fs : Fields) → t ≢ u → try_get u (erase_first t fs) ≡ try_get u fs
unfolding try_get erase_first
try_get-other t u [] h = refl
try_get-other t u (f ∷ fs) h = ground (arith, try_get-other t u fs)

length-erase_first :
    (t : ℕ) (f : Field) (fs : Fields)
    → try_get t fs ≡ some f
    → length (erase_first t fs) + 1 ≡ length fs
unfolding try_get erase_first
length-erase_first t f [] h = cc
length-erase_first t f (g ∷ fs) h = ground (arith, length-erase_first t f fs)

-- After all fields with a tag were removed that tag finds none, and every other tag the field that it
-- found before.
pub try_get-remove_all :
    (t u : ℕ) (fs : Fields)
    → try_get u (remove t remove_all fs).1 ≡ (if t == u then none else try_get u fs)
unfolding remove
try_get-remove_all t u fs = removed (try_get t fs) refl
  where
    removed :
        (o : Option Field)
        → try_get t fs ≡ o
        → try_get u (remove_at o remove_all t fs).1 ≡ (if t == u then none else try_get u fs)
    removed none e = grind (arith, e)
    removed (some f) e = try_get-erase_all t u fs

-- Removing the first field with a tag leaves what every other tag finds as it was, and there is one
-- field less if it reports that it removed one, and otherwise no less.
pub try_get-remove_first :
    (t u : ℕ) (fs : Fields)
    → t ≢ u
    → (try_get u (remove t remove_first fs).1 ≡ try_get u fs)
      × (length (remove t remove_first fs).1 + (if (remove t remove_first fs).0 then 1 else 0)
          ≡ length fs)
unfolding remove
try_get-remove_first t u fs h = removed (try_get t fs) refl
  where
    removed :
        (o : Option Field)
        → try_get t fs ≡ o
        → (try_get u (remove_at o remove_first t fs).1 ≡ try_get u fs)
          × (length (remove_at o remove_first t fs).1
                + (if (remove_at o remove_first t fs).0 then 1 else 0)
              ≡ length fs)
    removed none e = (refl, omega arith)
    removed (some f) e = (try_get-other t u fs h, length-erase_first t f fs e)
