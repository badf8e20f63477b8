-- ===== src/OrderBook/Lookup.antt =====
-- What a look-up finds in the order book's map after a change.
use mathlib.Core.Bool.{false≢true}
use crocofix.Base.{
  ◌≡◌, ◌≢◌, refl, ◌∙◌, ap, sym, Bool, true, false, Option, some, List, [], ◌∷◌, arith,
  if◌then◌else◌,
}
use crocofix.Base.Bytes.{Bytes, bytes_eq}
use crocofix.Base.Bytes.Equality.{bytes_eq→eq, bytes_eq_refl}
use crocofix.Order.{Order}
use crocofix.OrderBook.{lookup, put}

distinct : (i k : Bytes) → i ≡ k → bytes_eq i k ≢ false
distinct i k e g = false≢true (sym g ∙ ap (bytes_eq i) (sym e) ∙ bytes_eq_refl i)

-- An entry under another key, in front of a change.
in_front :
    (i j k : Bytes) (q o : Order) (x y : Option Order) (b c : Bool)
    → bytes_eq i j ≡ b
    → bytes_eq k j ≡ c
    → bytes_eq i k ≡ false
    → x ≡ (if c then some o else y)
    → (if b then some q else x) ≡ (if c then some o else (if b then some q else y))
in_front i j k q o x y true true e f g r =
    absurd (distinct i k (bytes_eq→eq i j e ∙ sym (bytes_eq→eq k j f)) g)
in_front i j k q o x y true false e f g r = refl
in_front i j k q o x y false c e f g r = r

-- Changing the order under a key that is there changes what that key finds, and nothing else.
pub lookup-put :
    (j k : Bytes) (o p : Order) (os : List (Bytes × Order))
    → lookup k os ≡ some p
    → lookup j (put k o os) ≡ (if bytes_eq k j then some o else lookup j os)
unfolding lookup put
lookup-put j k o p [] h = cc
lookup-put j k o p ((i, q) ∷ os) h = by_head (bytes_eq i k) refl h (λ g. lookup-put j k o p os g)
  where
    by_head :
        (b : Bool)
        → bytes_eq i k ≡ b
        → (if b then some q else lookup k os) ≡ some p
        → (lookup k os ≡ some p
            → lookup j (put k o os) ≡ (if bytes_eq k j then some o else lookup j os))
        → lookup j (if b then (i, o) ∷ os else (i, q) ∷ put k o os)
          ≡ (if bytes_eq k j then some o else lookup j ((i, q) ∷ os))
    by_head true e g again = rw (bytes_eq→eq i k e) (ground arith)
    by_head false e g again =
        in_front i j k q o _ _ (bytes_eq i j) (bytes_eq k j) refl refl e (again g)
