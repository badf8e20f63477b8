-- ===== src/OrderBook/Examples.antt =====
-- An order book with one order in it, and a second order for it.
use mathlib.Core.Bool.{false≢true}
use crocofix.Base.{
  ◌≡◌, ◌≢◌, arith, subst, ap, refl, Bool, true, false, some, none, [], ◌∷◌, ◌++◌, if◌then◌else◌,
}
use crocofix.Base.Bytes.{Bytes, codes, bytes_eq}
use crocofix.Base.Exec.{Result, ok, err, ◌>>=◌}
use crocofix.Field.{Fields, field, try_get, get, set}
use crocofix.Message.{Message, of_fields, msg_type}
use crocofix.Order.{
  Order, order, create_key, key_for_message, replace, update, update_fields, merge_fields,
  record_message, replacement_of, commit,
}
use crocofix.OrderBook.{
  OrderBook, expected, unexpected, lookup, process, process_order_single, already,
}
use crocofix.OrderBook.Keyed.{IsKeyed, process-IsKeyed}
use crocofix.Base.Bytes.Equality.{bytes_eq→eq}
use crocofix.OrderBook.Others.{IsElsewhere, process-others}
use crocofix.OrderBook.Entry.{process_order_single-duplicate, process_order_single-new}

abbrev fields_of : Bytes → Fields
fields_of id =
    field 8 (codes "FIX.4.4")
    ∷ field 35 (codes "D")
    ∷ field 49 (codes "INIT")
    ∷ field 56 (codes "ACCEPT")
    ∷ field 11 id
    ∷ []

abbrev request : Bytes → Message
request id = of_fields (fields_of id)

abbrev ordered : Bytes → Order
ordered id = record {
  messages = request id ∷ [];
  key = codes "INIT-ACCEPT-" ++ id;
  begin_string = codes "FIX.4.4";
  sender_comp_id = codes "INIT";
  target_comp_id = codes "ACCEPT";
  cl_ord_id = field 11 id;
  orig_cl_ord_id = none;
  previous_ord_status = none;
  new_cl_ord_id = none;
  fields = fields_of id;
  pending_fields = [];
}

abbrev first : Order
first = ordered (codes "1")

abbrev second : Order
second = ordered (codes "2")

abbrev book : OrderBook
book = record { orders = (codes "INIT-ACCEPT-1", first) ∷ [] }

book-IsKeyed : IsKeyed book.orders
unfolding IsKeyed lookup
book-IsKeyed = (refl, refl, tt)

second_built : order (request (codes "2")) ≡ ok second
unfolding order create_key get try_get
second_built = refl

process-IsKeyed_example : IsKeyed (process (request (codes "2")) book).1.orders
process-IsKeyed_example = process-IsKeyed (request (codes "2")) book book-IsKeyed

first_built : order (request (codes "1")) ≡ ok first
unfolding order create_key get try_get
first_built = refl

first_there : lookup first.key book.orders ≡ some first
unfolding lookup bytes_eq
first_there = refl

second_missing : lookup second.key book.orders ≡ none
unfolding lookup bytes_eq
second_missing = refl

second_time :
    process_order_single (request (codes "1")) book ≡ (ok (unexpected (already first)), book)
second_time =
    process_order_single-duplicate (request (codes "1")) first first book first_built first_there

process_order_single-new_example :
    ((process_order_single (request (codes "2")) book).0 ≡ ok expected)
    × (lookup first.key (process_order_single (request (codes "2")) book).1.orders
        ≡ (if bytes_eq second.key first.key then some second else lookup first.key book.orders))
process_order_single-new_example =
    process_order_single-new (request (codes "2")) second book first.key second_built second_missing

abbrev both_orders : OrderBook
both_orders = record { orders = (first.key, first) ∷ (second.key, second) ∷ [] }

abbrev other_way : OrderBook
other_way = record { orders = (second.key, second) ∷ (first.key, first) ∷ [] }

swapped :
    (i j k : Bytes) (o p : Order)
    → i ≢ j
    → lookup k ((i, o) ∷ (j, p) ∷ []) ≡ lookup k ((j, p) ∷ (i, o) ∷ [])
unfolding lookup
swapped i j k o p h = grind (arith, bytes_eq→eq i k, bytes_eq→eq j k)

keys_differ : first.key ≢ second.key
unfolding bytes_eq
keys_differ h = false≢true (ap (λ (k : Bytes). bytes_eq k second.key) h)

abbrev key_or_none : Result Bytes → Bytes
key_or_none (ok k) = k
key_or_none (err e) = []

abbrev order_key : Result Order → Bytes
order_key (ok o) = o.key
order_key (err e) = []

named_elsewhere :
    (reverse : Bool) (j : Bytes)
    → key_for_message (request (codes "2")) reverse ≡ ok j
    → bytes_eq j first.key ≡ false
unfolding key_for_message create_key get try_get bytes_eq
named_elsewhere true j h =
    subst (λ (x : Result Bytes). bytes_eq (key_or_none x) first.key ≡ false) h refl
named_elsewhere false j h =
    subst (λ (x : Result Bytes). bytes_eq (key_or_none x) first.key ≡ false) h refl

made_elsewhere : (o : Order) → order (request (codes "2")) ≡ ok o → bytes_eq o.key first.key ≡ false
unfolding order create_key get try_get bytes_eq
made_elsewhere o h = subst (λ (x : Result Order). bytes_eq (order_key x) first.key ≡ false) h refl

found_first : (j : Bytes) (o : Order) → lookup j book.orders ≡ some o → o ≡ first
unfolding lookup
found_first j o h = by_test (bytes_eq first.key j) h
  where
    by_test : (b : Bool) → (if b then some first else none) ≡ some o → o ≡ first
    by_test true e = cc e
    by_test false e = cc e

replaced_elsewhere :
    (r : Order) → (replace (request (codes "2")) first).0 ≡ ok r → bytes_eq r.key first.key ≡ false
unfolding replace update update_fields merge_fields record_message replacement_of commit create_key
    msg_type set get try_get bytes_eq ◌>>=◌
replaced_elsewhere r h =
    subst (λ (x : Result Order). bytes_eq (order_key x) first.key ≡ false) h refl

second-IsElsewhere : IsElsewhere (request (codes "2")) book first.key
second-IsElsewhere = record {
  made = made_elsewhere;
  named = named_elsewhere;
  replacing = λ j o r q h i.
      replaced_elsewhere r
        (subst (λ (x : Order). (replace (request (codes "2")) x).0 ≡ ok r) (found_first j o h) i);
}

process-others_example :
    lookup first.key (process (request (codes "2")) book).1.orders ≡ lookup first.key book.orders
process-others_example = process-others (request (codes "2")) book first.key second-IsElsewhere
