-- ===== src/OrderBook/Keyed.antt =====
-- The map of the order book: one entry for a key, and each order under its own key.
use crocofix.Base.{
  ◌≡◌, refl, sym, ◌∙◌, Bool, true, false, Bool-cases, inl, inr, Option, none, some, List, [], ◌∷◌,
  ◌++◌, arith, if◌then◌else◌,
}
use crocofix.Base.Bytes.{Bytes, bytes_eq}
use crocofix.Base.Bytes.Equality.{bytes_eq→eq, bytes_eq_refl}
use crocofix.Base.Exec.{Result, ok, err, Exec, pure, lift, gets, ◌>>=◌}
use crocofix.Tags
use crocofix.Field.{Field, try_get}
use crocofix.Message.{Message}
use crocofix.Order.{Order, order, update, replace, replaced, rollback}
use crocofix.Order.Identity.{update-SameOrder}
use crocofix.OrderBook.{
  OrderBook, Expected, lookup, put, add_order, process_order_single, on_order, update_order,
  process_order_cancel_request, process_order_cancel_replace_request, replace_order, report_order,
  process_execution_report, reject_order, process_order_cancel_reject, process_typed, process,
  is_replaced, add_or_report,
}

-- Each entry holds an order of its key, and no later entry has that key.
unfoldable pub IsKeyed : List (Bytes × Order) → Type 0
IsKeyed [] = Unit
IsKeyed ((k, o) ∷ os) = (o.key ≡ k) × (lookup k os ≡ none) × IsKeyed os

lookup-key :
    (k : Bytes) (o : Order) (os : List (Bytes × Order))
    → IsKeyed os
    → lookup k os ≡ some o
    → o.key ≡ k
unfolding IsKeyed lookup
lookup-key k o [] w h = cc
lookup-key k o ((j, p) ∷ os) w h = ground (arith, lookup-key k o os w.2, bytes_eq→eq j k, w.0)

lookup-put_missing :
    (j k : Bytes) (o : Order) (os : List (Bytes × Order))
    → lookup j os ≡ none
    → lookup j (put k o os) ≡ none
unfolding lookup put
lookup-put_missing j k o [] h = refl
lookup-put_missing j k o ((i, p) ∷ os) h = ground (arith, lookup-put_missing j k o os)

put-IsKeyed :
    (k : Bytes) (o : Order) (os : List (Bytes × Order))
    → IsKeyed os
    → o.key ≡ k
    → IsKeyed (put k o os)
unfolding IsKeyed put
put-IsKeyed k o [] w h = w
put-IsKeyed k o ((j, p) ∷ os) w h = entry (put-IsKeyed k o os w.2 h) (bytes_eq j k) refl
  where
    entry :
        IsKeyed (put k o os)
        → (b : Bool) → bytes_eq j k ≡ b
        → IsKeyed (if b then (j, o) ∷ os else (j, p) ∷ put k o os)
    entry r true e = (h ∙ sym (bytes_eq→eq j k e), w.1, w.2)
    entry r false e = (w.0, lookup-put_missing j k o os w.1, r)

lookup-append_other :
    (j : Bytes) (o : Order) (os : List (Bytes × Order))
    → lookup j os ≡ none
    → bytes_eq o.key j ≡ false
    → lookup j (os ++ (o.key, o) ∷ []) ≡ none
unfolding lookup
lookup-append_other j o [] h e = rw e refl
lookup-append_other j o ((i, p) ∷ os) h e = ground (arith, lookup-append_other j o os)

lookup-head :
    (j k : Bytes) (p : Order) (os : List (Bytes × Order))
    → lookup k ((j, p) ∷ os) ≡ none
    → bytes_eq k j ≡ false
unfolding lookup
lookup-head j k p os h = ground (arith, bytes_eq→eq k j, bytes_eq_refl j)

lookup-tail :
    (j k : Bytes) (p : Order) (os : List (Bytes × Order))
    → lookup k ((j, p) ∷ os) ≡ none
    → lookup k os ≡ none
unfolding lookup
lookup-tail j k p os h = ground arith

append-IsKeyed :
    (o : Order) (os : List (Bytes × Order))
    → IsKeyed os
    → lookup o.key os ≡ none
    → IsKeyed (os ++ (o.key, o) ∷ [])
unfolding IsKeyed lookup
append-IsKeyed o [] w h = (refl, refl, tt)
append-IsKeyed o ((j, p) ∷ os) w h = (
  w.0,
  lookup-append_other j o os w.1 (lookup-head j o.key p os h),
  append-IsKeyed o os w.2 (lookup-tail j o.key p os h),
)

abbrev Book : OrderBook → Type 0
Book b = IsKeyed b.orders

add_order-IsKeyed : (o : Order) (b : OrderBook) → Book b → Book (add_order o b).1
unfolding add_order
add_order-IsKeyed o b w = emplaced (lookup o.key b.orders) refl
  where
    emplaced : (p : Option Order) → lookup o.key b.orders ≡ p → Book (add_order o b).1
    emplaced none e = rw e (append-IsKeyed o b.orders w e)
    emplaced (some p) e = rw e w

rollback-key : (o : Order) → (rollback o).1.key ≡ o.key
unfolding rollback
rollback-key o = refl

replaced-key : (m : Message) (o : Order) → (replaced m o).key ≡ o.key
unfolding replaced
replaced-key m o = refl

replace-key : (m : Message) (o : Order) → (replace m o).1.key ≡ o.key
unfolding replace
replace-key m o = outcome (update m o).0 refl
  where
    outcome : (r : Result Unit) → (update m o).0 ≡ r → (replace m o).1.key ≡ o.key
    outcome (ok u) e = rw e (replaced-key m o)
    outcome (err x) e = rw e refl

update_order-IsKeyed :
    (k : Bytes) (m : Message) (b : OrderBook) (p : Option Order)
    → Book b
    → lookup k b.orders ≡ p
    → Book (update_order k m p b).1
unfolding update_order on_order ◌>>=◌
update_order-IsKeyed k m b none w h = w
update_order-IsKeyed k m b (some o) w h = outcome (update m o).0 refl
  where
    same : (update m o).1.key ≡ k
    same = (update-SameOrder m o).key ∙ lookup-key k o b.orders w h

    outcome : (r : Result Unit) → (update m o).0 ≡ r → Book (update_order k m (some o) b).1
    outcome (ok u) e = rw e (put-IsKeyed k _ b.orders w same)
    outcome (err x) e = rw e (put-IsKeyed k _ b.orders w same)

replace_order-IsKeyed :
    (k : Bytes) (m : Message) (o : Order) (b : OrderBook)
    → Book b
    → lookup k b.orders ≡ some o
    → Book (replace_order k m o b).1
unfolding replace_order on_order ◌>>=◌
replace_order-IsKeyed k m o b w h = outcome (replace m o).0 refl
  where
    here : IsKeyed (put k (replace m o).1 b.orders)
    here = put-IsKeyed k _ b.orders w (replace-key m o ∙ lookup-key k o b.orders w h)

    outcome : (r : Result Order) → (replace m o).0 ≡ r → Book (replace_order k m o b).1
    outcome (ok p) e = rw e (add_order-IsKeyed p _ here)
    outcome (err x) e = rw e here

report_order-IsKeyed :
    (k : Bytes) (m : Message) (b : OrderBook) (p : Option Order)
    → Book b
    → lookup k b.orders ≡ p
    → Book (report_order k m p b).1
unfolding report_order ◌>>=◌
report_order-IsKeyed k m b none w h = w
report_order-IsKeyed k m b (some o) w h =
    elim (Bool-cases (is_replaced (try_get Tags.exec_type m.fields))) [
      | inl e ↦ rw e (replace_order-IsKeyed k m o b w h)
      | inr e ↦ rw e (update_order-IsKeyed k m b (some o) w h)
    ]

reject_order-IsKeyed :
    (k : Bytes) (b : OrderBook) (p : Option Order)
    → Book b
    → lookup k b.orders ≡ p
    → Book (reject_order k p b).1
unfolding reject_order on_order ◌>>=◌ IsKeyed rollback
reject_order-IsKeyed k b none w h = w
reject_order-IsKeyed k b (some o) w h =
    put-IsKeyed k _ b.orders w (rollback-key o ∙ lookup-key k o b.orders w h)

-- A method that keeps the map in order.
record Safe (f : Exec OrderBook Expected) : Type 0 where
  at : (b : OrderBook) → Book b → Book (f b).1

by_key-Safe :
    (r : Result Bytes) (f : Bytes → Option Order → Exec OrderBook Expected)
    → ((k : Bytes) (b : OrderBook) (p : Option Order)
        → Book b
        → lookup k b.orders ≡ p
        → Book (f k p b).1)
    → Safe (do k ← lift r; o ← gets (λ b. lookup k b.orders); f k o)
unfolding ◌>>=◌
by_key-Safe (ok k) f h = record { at = λ b w. h k b _ w refl }
by_key-Safe (err e) f h = record { at = λ b w. w }

single-Safe : (m : Message) → Safe (process_order_single m)
unfolding process_order_single ◌>>=◌
single-Safe m = built (order m)
  where
    built : (r : Result Order) → Safe (add_or_report r)
    built (ok o) = record { at = add_order-IsKeyed o }
    built (err e) = record { at = λ b w. w }

if-Safe : (b : Bool) (m n : Exec OrderBook Expected) → Safe m → Safe n → Safe (if b then m else n)
if-Safe true m n h k = h
if-Safe false m n h k = k

pure-Safe : (x : Expected) → Safe (pure x)
unfolding ◌>>=◌
pure-Safe x = record { at = λ b w. w }

report-Safe : (m : Message) → Safe (process_execution_report m)
unfolding process_execution_report
report-Safe m = by_key-Safe _ (λ k. report_order k m) (λ k. report_order-IsKeyed k m)

cancel-Safe : (m : Message) → Safe (process_order_cancel_request m)
unfolding process_order_cancel_request
cancel-Safe m = by_key-Safe _ (λ k. update_order k m) (λ k. update_order-IsKeyed k m)

change-Safe : (m : Message) → Safe (process_order_cancel_replace_request m)
unfolding process_order_cancel_replace_request
change-Safe m = by_key-Safe _ (λ k. update_order k m) (λ k. update_order-IsKeyed k m)

reject-Safe : (m : Message) → Safe (process_order_cancel_reject m)
unfolding process_order_cancel_reject
reject-Safe m = by_key-Safe _ reject_order reject_order-IsKeyed

typed-Safe : (m : Message) (t : Option Field) → Safe (process_typed m t)
unfolding process_typed
typed-Safe m none = pure-Safe _
typed-Safe m (some t) = if-Safe _ _ _ (single-Safe m) (
    if-Safe _ _ _ (report-Safe m) (
      if-Safe _ _ _ (cancel-Safe m)
        (if-Safe _ _ _ (change-Safe m) (if-Safe _ _ _ (reject-Safe m) (pure-Safe _)))))

-- Whatever message the order book processes, and whether that succeeds, fails or throws, the map still
-- holds each order under the order's own key, and no two orders under one.
pub process-IsKeyed :
    (m : Message) (b : OrderBook) → IsKeyed b.orders → IsKeyed (process m b).1.orders
unfolding process
process-IsKeyed m b w = (typed-Safe m (try_get Tags.msg_type m.fields)).at b w
