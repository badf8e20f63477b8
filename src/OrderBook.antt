-- ===== src/OrderBook.antt =====
-- libcrocofix/order_book.cppm and libcrocofix/order_book.cpp. The map is an association list: the
-- operations here never ask for its order. An exception leaves `process`, as it does in the code.
pub mod Keyed
pub mod Entry
pub mod Lookup
pub mod Others
mod Examples
use crocofix.Base.{Bool, true, false, Option, none, some, List, [], ◌∷◌, ◌++◌, if◌then◌else◌}
use crocofix.Base.Bytes.{Bytes, text, bytes_eq}
use crocofix.Base.Exec.{Error, Result, ok, err, Exec, pure, lift, gets, ◌>>=◌, ◌>>◌}
use crocofix.Base.Exec
use crocofix.Tags
use crocofix.Field.{Field, try_get}
use crocofix.Message
use crocofix.Message.{Message}
use crocofix.Order.{Order, order, key_for_message, replace, rollback}
use crocofix.Order

pub record OrderBook : Type 0 where
  pub orders : List (Bytes × Order)

-- `std::expected<void, std::string>`
pub data Expected : Type 0 where
  expected : Expected
  unexpected : Bytes → Expected

-- `m_orders.find`
unfoldable pub lookup : Bytes → List (Bytes × Order) → Option Order
lookup k [] = none
lookup k ((j, o) ∷ os) = if bytes_eq j k then some o else lookup k os

-- The order behind an iterator, changed in place.
unfoldable pub put : Bytes → Order → List (Bytes × Order) → List (Bytes × Order)
put k o [] = []
put k o ((j, p) ∷ os) = if bytes_eq j k then (j, o) ∷ os else (j, p) ∷ put k o os

abbrev emplace_at : Option Order → Order → OrderBook → Bool × OrderBook
emplace_at (some p) o b = (false, b)
emplace_at none o b = (true, record b { orders = b.orders ++ (o.key, o) ∷ [] })

-- `m_orders.try_emplace(order.key(), order)`
unfoldable pub try_emplace : Order → OrderBook → Bool × OrderBook
unfolding lookup
try_emplace o b = emplace_at (lookup o.key b.orders) o b

abbrev pub already : Order → Bytes
already o = text "order book already contains an order with key = " ++ o.key

abbrev added : Order → Bool × OrderBook → Result Expected × OrderBook
added o (true, b) = (ok expected, b)
added o (false, b) = (ok (unexpected (already o)), b)

unfoldable pub add_order : Order → Exec OrderBook Expected
unfolding try_emplace
add_order o b = added o (try_emplace o b)

-- `ex.what()`
abbrev pub what : Error → Bytes
what (Error.out_of_range v) = v
what (Error.runtime_error v) = v
what (Error.invalid_argument v) = v
what (Error.logic_error v) = v
what (Error.length_error v) = v
what (Error.undetermined v) = v

abbrev add_or_report : Result Order → Exec OrderBook Expected
add_or_report (ok o) = add_order o
add_or_report (err e) = pure (unexpected (what e))

-- The exceptions of the constructor are caught.
unfoldable pub process_order_single : Message → Exec OrderBook Expected
process_order_single m = add_or_report (order m)

unfoldable pub clear : Exec OrderBook Unit
clear b = (ok tt, record { orders = [] })

abbrev kept {ℓ} : {A : Type ℓ} → Bytes → OrderBook → Result A × Order → Result A × OrderBook
kept k b (r, o) = (r, record b { orders = put k o b.orders })

-- A method of the order with key `k`, which is `o`.
unfoldable pub on_order {ℓ} :
    {A : Type ℓ} → Bytes → Order → (Order → Result A × Order) → OrderBook → Result A × OrderBook
unfolding put
on_order k o method b = kept k b (method o)

abbrev missing : Bytes → Bytes
missing k = text "order book does not contain an order with key = " ++ k

unfoldable pub update_order : Bytes → Message → Option Order → Exec OrderBook Expected
update_order k m none = pure (unexpected (missing k))
update_order k m (some o) = do on_order k o (Order.update m); pure expected

-- `process_order_cancel_request` and `process_order_cancel_replace_request` have one text.
unfoldable pub process_order_cancel_request : Message → Exec OrderBook Expected
process_order_cancel_request m = do
  k ← lift (key_for_message m false)
  o ← gets (λ b. lookup k b.orders)
  update_order k m o

unfoldable pub process_order_cancel_replace_request : Message → Exec OrderBook Expected
process_order_cancel_replace_request m = do
  k ← lift (key_for_message m false)
  o ← gets (λ b. lookup k b.orders)
  update_order k m o

unfoldable pub replace_order : Bytes → Message → Order → Exec OrderBook Expected
replace_order k m o = do replacement ← on_order k o (replace m); add_order replacement

abbrev pub is_replaced : Option Field → Bool
is_replaced none = false
is_replaced (some f) = bytes_eq f.value Tags.exec_type_replaced

unfoldable pub report_order : Bytes → Message → Option Order → Exec OrderBook Expected
report_order k m none = pure (unexpected (missing k))
report_order k m (some o) =
    if is_replaced (try_get Tags.exec_type m.fields)
    then replace_order k m o
    else update_order k m (some o)

unfoldable pub process_execution_report : Message → Exec OrderBook Expected
process_execution_report m = do
  k ← lift (key_for_message m true)
  o ← gets (λ b. lookup k b.orders)
  report_order k m o

-- The text of a missing order leaves the key out here.
unfoldable pub reject_order : Bytes → Option Order → Exec OrderBook Expected
reject_order k none = pure (unexpected (text "order book does not contain an order with key = "))
reject_order k (some o) = do on_order k o rollback; pure expected

unfoldable pub process_order_cancel_reject : Message → Exec OrderBook Expected
process_order_cancel_reject m = do
  k ← lift (key_for_message m true)
  o ← gets (λ b. lookup k b.orders)
  reject_order k o

unfoldable pub process_typed : Message → Option Field → Exec OrderBook Expected
process_typed m none = pure (unexpected (text "message does not have a MsgType field"))
process_typed m (some t) =
    if bytes_eq t.value Tags.new_order_single
    then process_order_single m
    else if bytes_eq t.value Tags.execution_report
    then process_execution_report m
    else if bytes_eq t.value Tags.order_cancel_request
    then process_order_cancel_request m
    else if bytes_eq t.value Tags.order_cancel_replace_request
    then process_order_cancel_replace_request m
    else if bytes_eq t.value Tags.order_cancel_reject
    then process_order_cancel_reject m
    else pure (unexpected (text "unsupported MsgType = " ++ t.value))

unfoldable pub process : Message → Exec OrderBook Expected
process m = process_typed m (try_get Tags.msg_type m.fields)
