-- ===== src/OrderBook/Others.antt =====
-- The orders of the book that a message is not about.
use crocofix.Base.{◌≡◌, refl, ◌∙◌, Bool, true, false, Option, none, some, if◌then◌else◌}
use crocofix.Base.Bytes.{Bytes, bytes_eq}
use crocofix.Base.Exec.{Result, ok, err, Exec, continue, pure, lift, gets, ◌>>=◌}
use crocofix.Tags
use crocofix.Field.{Field, try_get}
use crocofix.Message.{Message}
use crocofix.Order.{Order, order, key_for_message, update, replace, rollback}
use crocofix.OrderBook.{
  OrderBook, Expected, expected, lookup, put, add_order, process_order_single, on_order,
  update_order, process_order_cancel_request, process_order_cancel_replace_request, replace_order,
  report_order, process_execution_report, reject_order, process_order_cancel_reject, process_typed,
  process, is_replaced, add_or_report,
}
use crocofix.OrderBook.Entry.{lookup-append, or_else}
use crocofix.OrderBook.Lookup.{lookup-put}

-- A message is about the order that its fields make, the one that its identifiers name, with the CompIDs
-- either way, and the one that replaces that.
pub record IsElsewhere (m : Message) (b : OrderBook) (k : Bytes) : Type 0 where
  pub made : (o : Order) → order m ≡ ok o → bytes_eq o.key k ≡ false
  pub named : (reverse : Bool) (j : Bytes) → key_for_message m reverse ≡ ok j → bytes_eq j k ≡ false
  pub replacing :
      (j : Bytes) (o r : Order)
      → key_for_message m true ≡ ok j
      → lookup j b.orders ≡ some o
      → (replace m o).0 ≡ ok r
      → bytes_eq r.key k ≡ false

-- A method after which the key finds what it found.
record Stays (k : Bytes) (b : OrderBook) (f : Exec OrderBook Expected) : Type 0 where
  at : lookup k (f b).1.orders ≡ lookup k b.orders

module _ (k : Bytes) (b : OrderBook) where
  -- What the key finds stays.
  abbrev Leaves : Result Expected × OrderBook → Type 0
  Leaves x = lookup k x.1.orders ≡ lookup k b.orders

  add_order-Leaves :
      (o : Order) (c : OrderBook)
      → bytes_eq o.key k ≡ false
      → lookup k c.orders ≡ lookup k b.orders
      → Leaves (add_order o c)
  unfolding add_order
  add_order-Leaves o c h e = emplaced (lookup o.key c.orders) refl
    where
      kept : (x : Option Order) → (y : Option Order) → x ≡ y → or_else x none ≡ y
      kept none y i = i
      kept (some p) y i = i

      emplaced : (p : Option Order) → lookup o.key c.orders ≡ p → Leaves (add_order o c)
      emplaced none i =
          rw i (
            lookup-append k o.key o c.orders
            ∙ rw h (kept (lookup k c.orders) (lookup k b.orders) e))
      emplaced (some p) i = rw i e

  abbrev put_back :
      {A : Type 0}
      → Bytes
      → (A → Exec OrderBook Expected)
      → Result A × Order
      → Result Expected × OrderBook
  put_back j rest r = continue r.0 rest (record b { orders = put j r.1 b.orders })

  put_back-Leaves :
      {A : Type 0} (j : Bytes) (o : Order) (rest : A → Exec OrderBook Expected)
      (r : Result A × Order)
      → bytes_eq j k ≡ false
      → lookup j b.orders ≡ some o
      → ((a : A) (c : OrderBook)
          → r.0 ≡ ok a
          → lookup k c.orders ≡ lookup k b.orders
          → Leaves (rest a c))
      → Leaves (put_back j rest r)
  put_back-Leaves j o rest (ok a, q) h e again =
      again a _ refl (lookup-put k j q o b.orders e ∙ rw h refl)
  put_back-Leaves j o rest (err x, q) h e again = lookup-put k j q o b.orders e ∙ rw h refl

  module _ (m : Message) (away : IsElsewhere m b k) where
    update_order-Leaves :
        (j : Bytes) (p : Option Order)
        → bytes_eq j k ≡ false
        → lookup j b.orders ≡ p
        → Leaves (update_order j m p b)
    unfolding update_order on_order ◌>>=◌
    update_order-Leaves j none h e = refl
    update_order-Leaves j (some o) h e =
        put_back-Leaves j o (λ u. pure expected) (update m o) h e (λ u c i g. g)

    report_order-Leaves :
        (j : Bytes) (p : Option Order)
        → key_for_message m true ≡ ok j
        → bytes_eq j k ≡ false
        → lookup j b.orders ≡ p
        → Leaves (report_order j m p b)
    unfolding report_order replace_order on_order ◌>>=◌
    report_order-Leaves j none q h e = refl
    report_order-Leaves j (some o) q h e = by_type (is_replaced (try_get Tags.exec_type m.fields))
      where
        by_type :
            (t : Bool) → Leaves ((if t then replace_order j m o else update_order j m (some o)) b)
        by_type true =
            put_back-Leaves j o add_order (replace m o) h e
              (λ r c i g. add_order-Leaves r c (away.replacing j o r q e i) g)
        by_type false = update_order-Leaves j (some o) h e

    reject_order-Leaves :
        (j : Bytes) (p : Option Order)
        → bytes_eq j k ≡ false
        → lookup j b.orders ≡ p
        → Leaves (reject_order j p b)
    unfolding reject_order on_order rollback ◌>>=◌
    reject_order-Leaves j none h e = refl
    reject_order-Leaves j (some o) h e =
        put_back-Leaves j o (λ u. pure expected) (rollback o) h e (λ u c i g. g)

    by_key-Leaves :
        (reverse : Bool) (f : Bytes → Option Order → Exec OrderBook Expected)
        → ((j : Bytes) (p : Option Order)
            → key_for_message m reverse ≡ ok j
            → bytes_eq j k ≡ false
            → lookup j b.orders ≡ p
            → Leaves (f j p b))
        → Leaves
            ((do j ← lift (key_for_message m reverse); o ← gets (λ b. lookup j b.orders); f j o) b)
    unfolding ◌>>=◌
    by_key-Leaves reverse f h = by_result (key_for_message m reverse) refl (away.named reverse)
      where
        by_result :
            (r : Result Bytes)
            → key_for_message m reverse ≡ r
            → ((j : Bytes) → r ≡ ok j → bytes_eq j k ≡ false)
            → Leaves ((do j ← lift r; o ← gets (λ b. lookup j b.orders); f j o) b)
        by_result (ok j) q g = h j (lookup j b.orders) q (g j refl) refl
        by_result (err e) q g = refl

    single-Leaves : Leaves (process_order_single m b)
    unfolding process_order_single ◌>>=◌
    single-Leaves = built (order m) away.made
      where
        built :
            (r : Result Order)
            → ((o : Order) → r ≡ ok o → bytes_eq o.key k ≡ false)
            → Leaves (add_or_report r b)
        built (ok o) g = add_order-Leaves o b (g o refl) refl
        built (err e) g = refl

    if-Stays :
        (t : Bool) (x y : Exec OrderBook Expected)
        → Stays k b x
        → Stays k b y
        → Stays k b (if t then x else y)
    if-Stays true x y g h = g
    if-Stays false x y g h = h

    pure-Stays : (x : Expected) → Stays k b (pure x)
    unfolding ◌>>=◌
    pure-Stays x = record { at = refl }

    single-Stays : Stays k b (process_order_single m)
    single-Stays = record { at = single-Leaves }

    report-Stays : Stays k b (process_execution_report m)
    unfolding process_execution_report
    report-Stays = record { at = by_key-Leaves true (λ j. report_order j m) report_order-Leaves }

    cancel-Stays : Stays k b (process_order_cancel_request m)
    unfolding process_order_cancel_request
    cancel-Stays = record {
      at = by_key-Leaves false (λ j. update_order j m) (λ j p q. update_order-Leaves j p);
    }

    change-Stays : Stays k b (process_order_cancel_replace_request m)
    unfolding process_order_cancel_replace_request
    change-Stays = record {
      at = by_key-Leaves false (λ j. update_order j m) (λ j p q. update_order-Leaves j p);
    }

    reject-Stays : Stays k b (process_order_cancel_reject m)
    unfolding process_order_cancel_reject
    reject-Stays = record {
      at = by_key-Leaves true reject_order (λ j p q. reject_order-Leaves j p);
    }

    typed-Stays : (t : Option Field) → Stays k b (process_typed m t)
    unfolding process_typed
    typed-Stays none = pure-Stays _
    typed-Stays (some t) =
        search
          (
            if-Stays, pure-Stays, single-Stays, report-Stays, cancel-Stays, change-Stays,
            reject-Stays,
          )
          depth 12

-- A message leaves alone what every key finds but those of the orders that it is about, whether it
-- succeeds, fails or throws.
pub process-others :
    (m : Message) (b : OrderBook) (k : Bytes)
    → IsElsewhere m b k
    → lookup k (process m b).1.orders ≡ lookup k b.orders
unfolding process
process-others m b k away = (typed-Stays k b m away (try_get Tags.msg_type m.fields)).at
