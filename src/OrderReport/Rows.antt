-- ===== src/OrderReport/Rows.antt =====
-- The rows of the order report: one for each order, in the order of the keys.
use crocofix.Base.{
  ℕ, suc, ◌≡◌, refl, ap, ◌∙◌, Bool, true, false, List, [], ◌∷◌, if◌then◌else◌, arith, length, All,
  ltb, ◌==◌, ◌||◌, ◌&&◌,
}
use crocofix.Base.Bytes.{Bytes}
use crocofix.Dictionary.{OrchestrationField}
use crocofix.Order.{Order}
use crocofix.OrderBook.{OrderBook}
use crocofix.OrderReport.{OrderReport, row, bytes_less, insert, in_key_order, rows_of, fill}

-- No key is less than one in front of it.
unfoldable pub Ascending : List (Bytes × Order) → Type 0
Ascending [] = Unit
Ascending (x ∷ []) = Unit
Ascending (x ∷ y ∷ xs) = (bytes_less y.0 x.0 ≡ false) × Ascending (y ∷ xs)

less-asym : (s t : Bytes) → bytes_less s t ≡ true → bytes_less t s ≡ false
unfolding bytes_less
less-asym [] [] h = refl
less-asym (a ∷ s) [] h = absurd (cc h)
less-asym [] (b ∷ t) h = refl
less-asym (a ∷ s) (b ∷ t) h = by_rest (bytes_less s t) refl (λ e. less-asym s t e)
  where
    by_rest :
        (c : Bool)
        → bytes_less s t ≡ c
        → (bytes_less s t ≡ true → bytes_less t s ≡ false)
        → (ltb b a || ((b == a) && bytes_less t s)) ≡ false
    by_rest true e k = let f = k e in ground (arith, h, f)
    by_rest false e k = ground (arith, h, e)

insert-Ascending :
    (x : Bytes × Order) (ys : List (Bytes × Order)) → Ascending ys → Ascending (insert x ys)
unfolding Ascending insert
insert-Ascending x [] h = tt
insert-Ascending x (y ∷ []) h = by_key (bytes_less x.0 y.0) refl
  where
    by_key : (c : Bool) → bytes_less x.0 y.0 ≡ c → Ascending (if c then x ∷ y ∷ [] else y ∷ x ∷ [])
    by_key true e = (less-asym x.0 y.0 e, tt)
    by_key false e = (e, tt)
insert-Ascending x (y ∷ z ∷ ys) h =
    by_keys (bytes_less x.0 y.0) (bytes_less x.0 z.0) refl refl (insert-Ascending x (z ∷ ys) h.1)
  where
    by_keys :
        (c e : Bool)
        → bytes_less x.0 y.0 ≡ c
        → bytes_less x.0 z.0 ≡ e
        → Ascending (if e then x ∷ z ∷ ys else z ∷ insert x ys)
        → Ascending (if c then x ∷ y ∷ z ∷ ys else y ∷ (if e then x ∷ z ∷ ys else z ∷ insert x ys))
    by_keys true e p q k = (less-asym x.0 y.0 p, h)
    by_keys false true p q k = (p, k)
    by_keys false false p q k = (h.0, k)

pub in_key_order-Ascending : (os : List (Bytes × Order)) → Ascending (in_key_order os)
unfolding in_key_order Ascending
in_key_order-Ascending [] = tt
in_key_order-Ascending (x ∷ xs) = insert-Ascending x (in_key_order xs) (in_key_order-Ascending xs)

length-insert :
    (x : Bytes × Order) (ys : List (Bytes × Order)) → length (insert x ys) ≡ suc (length ys)
unfolding insert
length-insert x [] = refl
length-insert x (y ∷ ys) = by_key (bytes_less x.0 y.0) (length-insert x ys)
  where
    by_key :
        (c : Bool)
        → length (insert x ys) ≡ suc (length ys)
        → length (if c then x ∷ y ∷ ys else y ∷ insert x ys) ≡ suc (suc (length ys))
    by_key true e = refl
    by_key false e = ap suc e

length-in_key_order : (os : List (Bytes × Order)) → length (in_key_order os) ≡ length os
unfolding in_key_order
length-in_key_order [] = refl
length-in_key_order (x ∷ xs) = length-insert x (in_key_order xs) ∙ ap suc (length-in_key_order xs)

length-rows_of :
    (fs : List OrchestrationField) (os : List (Bytes × Order)) → length (rows_of fs os) ≡ length os
unfolding rows_of
length-rows_of fs [] = refl
length-rows_of fs ((k, o) ∷ os) = ap suc (length-rows_of fs os)

length-row : (fs : List OrchestrationField) (o : Order) → length (row fs o) ≡ length fs
unfolding row
length-row [] o = refl
length-row (f ∷ fs) o = ap suc (length-row fs o)

abbrev pub HasCells : ℕ → List Bytes → Type 0
HasCells n cells = length cells ≡ n

rows-HasCells :
    (fs : List OrchestrationField) (os : List (Bytes × Order))
    → All (HasCells (length fs)) (rows_of fs os)
unfolding rows_of
rows-HasCells fs [] = tt
rows-HasCells fs ((k, o) ∷ os) = (length-row fs o, rows-HasCells fs os)

-- The order report prints the orders of the book with their keys ascending, each in a row of its own, and a
-- row has a cell for each field of the report, whatever rows an earlier call left behind.
pub fill-rows :
    (r : OrderReport) (b : OrderBook)
    → ((fill r b).report.rows ≡ rows_of r.fields (in_key_order b.orders))
      × (length (fill r b).report.rows ≡ length b.orders)
      × Ascending (in_key_order b.orders)
      × All (HasCells (length r.fields)) (fill r b).report.rows
unfolding fill
fill-rows r b = (
  refl,
  length-rows_of r.fields (in_key_order b.orders) ∙ length-in_key_order b.orders,
  in_key_order-Ascending b.orders,
  rows-HasCells r.fields (in_key_order b.orders),
)
