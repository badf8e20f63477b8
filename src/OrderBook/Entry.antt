-- ===== src/OrderBook/Entry.antt =====
-- A new order in the order book.
use crocofix.Base.{◌≡◌, refl, ap, Option, none, some, List, [], ◌∷◌, ◌++◌, arith, if◌then◌else◌}
use crocofix.Base.Bytes.{Bytes, bytes_eq}
use crocofix.Base.Bytes.Equality.{bytes_eq→eq}
use crocofix.Base.Exec.{ok}
use crocofix.Message.{Message}
use crocofix.Order.{Order, order}
use crocofix.OrderBook.{
  OrderBook, expected, unexpected, lookup, add_order, process_order_single, already,
}

abbrev pub or_else : Option Order → Option Order → Option Order
or_else none o = o
or_else (some p) o = some p

pub lookup-append :
    (k j : Bytes) (o : Order) (os : List (Bytes × Order))
    → lookup k (os ++ (j, o) ∷ []) ≡ or_else (lookup k os) (if bytes_eq j k then some o else none)
unfolding lookup
lookup-append k j o [] = refl
lookup-append k j o ((i, p) ∷ os) = ground (arith, lookup-append k j o os)

lookup-new :
    (k j : Bytes) (o : Order) (os : List (Bytes × Order))
    → lookup j os ≡ none
    → lookup k (os ++ (j, o) ∷ []) ≡ (if bytes_eq j k then some o else lookup k os)
lookup-new k j o os h =
    grind (arith, lookup-append k j o os, bytes_eq→eq j k, ap (λ (i : Bytes). lookup i os))

-- A NewOrderSingle whose fields make an order with a key that the book has already is refused, and the
-- book stays as it was.
pub process_order_single-duplicate :
    (m : Message) (o p : Order) (b : OrderBook)
    → order m ≡ ok o
    → lookup o.key b.orders ≡ some p
    → process_order_single m b ≡ (ok (unexpected (already o)), b)
unfolding process_order_single add_order
process_order_single-duplicate m o p b h e = rw (h, e) refl

-- A NewOrderSingle whose fields make an order with a key that is not in the book succeeds: the key then
-- finds the new order, and every other key what it found before.
pub process_order_single-new :
    (m : Message) (o : Order) (b : OrderBook) (k : Bytes)
    → order m ≡ ok o
    → lookup o.key b.orders ≡ none
    → ((process_order_single m b).0 ≡ ok expected)
      × (lookup k (process_order_single m b).1.orders
          ≡ (if bytes_eq o.key k then some o else lookup k b.orders))
unfolding process_order_single add_order
process_order_single-new m o b k h e = (rw (h, e) refl, rw (h, e) (lookup-new k o.key o b.orders e))
