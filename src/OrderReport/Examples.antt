-- ===== src/OrderReport/Examples.antt =====
-- A book of two orders, the later key first.
use crocofix.Base.{◌≡◌, none, [], ◌∷◌, length, All}
use crocofix.Base.Bytes.{Bytes, codes}
use crocofix.Field.{field}
use crocofix.Message.Examples.{defined_as}
use crocofix.Order.{Order}
use crocofix.OrderBook.{OrderBook}
use crocofix.OrderReport.{OrderReport, order_report, fill, rows_of, in_key_order}
use crocofix.OrderReport.Rows.{Ascending, HasCells, fill-rows}

abbrev numbered : Bytes → Order
numbered id = record {
  messages = [];
  key = id;
  begin_string = [];
  sender_comp_id = [];
  target_comp_id = [];
  cl_ord_id = field 11 id;
  orig_cl_ord_id = none;
  previous_ord_status = none;
  new_cl_ord_id = none;
  fields = field 11 id ∷ [];
  pending_fields = [];
}

abbrev two : OrderBook
two = record { orders = (codes "2", numbered (codes "2")) ∷ (codes "1", numbered (codes "1")) ∷ [] }

abbrev report : OrderReport
report = order_report (λ s. s ∷ []) (defined_as 11 (codes "ClOrdID") ∷ [])

two_rows :
    ((fill report two).report.rows ≡ rows_of report.fields (in_key_order two.orders))
    × (length (fill report two).report.rows ≡ length two.orders)
    × Ascending (in_key_order two.orders)
    × All (HasCells (length report.fields)) (fill report two).report.rows
two_rows = fill-rows report two
