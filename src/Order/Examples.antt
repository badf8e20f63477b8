-- ===== src/Order/Examples.antt =====
-- An order, a request to cancel it, one to replace it, and a report.
use crocofix.Base.{◌≡◌, refl, some, none, [], ◌∷◌, ◌++◌}
use crocofix.Base.Bytes.{Bytes, codes, bytes_eq}
use crocofix.Base.Exec.{ok, ◌>>=◌}
use crocofix.Tags
use crocofix.Field.{Field, Fields, field, try_get, get}
use crocofix.Message.{Message, of_fields, msg_type}
use crocofix.Order.{
  update_fields, request_replace, save_status, set_new_cl_ord_id, update_pending_fields, replace,
  replacement_of, create_key, record_message, Order, update, rollback,
}
use crocofix.Order.Identity.{SameOrder, update-SameOrder}
use crocofix.Order.Replacement.{replace-HasOwnKey}
use crocofix.Order.Rollback.{
  remembers, rollback-cancel_request, rollback-replace_request, rollback_after_report,
}

abbrev header : Bytes → Bytes → Fields
header type id =
    field 8 (codes "FIX.4.4")
    ∷ field 35 type
    ∷ field 49 (codes "INIT")
    ∷ field 56 (codes "ACCEPT")
    ∷ field 11 id
    ∷ []

abbrev new_status : Field
new_status = field 39 (codes "0")

abbrev open_order : Order
open_order = record {
  messages = [];
  key = codes "INIT-ACCEPT-1";
  begin_string = codes "FIX.4.4";
  sender_comp_id = codes "INIT";
  target_comp_id = codes "ACCEPT";
  cl_ord_id = field 11 (codes "1");
  orig_cl_ord_id = none;
  previous_ord_status = none;
  new_cl_ord_id = none;
  fields = header (codes "D") (codes "1") ++ new_status ∷ [];
  pending_fields = [];
}

abbrev cancel : Message
cancel = of_fields (header (codes "F") (codes "2"))

abbrev change : Message
change = of_fields (header (codes "G") (codes "2"))

abbrev filled : Message
filled = of_fields (header (codes "8") (codes "2") ++ field 39 (codes "2") ∷ [])

cancel_type : msg_type cancel ≡ ok Tags.order_cancel_request
unfolding msg_type get try_get
cancel_type = refl

change_type : msg_type change ≡ ok Tags.order_cancel_replace_request
unfolding msg_type get try_get
change_type = refl

filled_type : msg_type filled ≡ ok Tags.execution_report
unfolding msg_type get try_get
filled_type = refl

change_id : get Tags.cl_ord_id change.fields ≡ ok (field 11 (codes "2"))
unfolding get try_get
change_id = refl

open_status : try_get Tags.ord_status open_order.fields ≡ some new_status
unfolding try_get
open_status = refl

update-SameOrder_example : SameOrder open_order (update filled open_order).1
update-SameOrder_example = update-SameOrder filled open_order

rollback-cancel_request_example :
    (rollback (update cancel open_order).1).1 ≡ remembers cancel open_order
rollback-cancel_request_example = rollback-cancel_request cancel open_order cancel_type

rollback-replace_request_example :
    (rollback (update change open_order).1).1
    ≡ record (remembers change open_order) { new_cl_ord_id = some (field 11 (codes "2")) }
rollback-replace_request_example =
    rollback-replace_request change open_order (field 11 (codes "2")) change_type change_id

rollback_after_report_example :
    try_get Tags.ord_status (rollback (update filled (update cancel open_order).1).1).1.fields
    ≡ some new_status
rollback_after_report_example =
    rollback_after_report cancel filled open_order new_status cancel_type filled_type open_status

abbrev replaced_report : Message
replaced_report = of_fields (header (codes "8") (codes "2") ++ field 150 (codes "5") ∷ [])

abbrev after_change : Order
after_change = (update change open_order).1

replacement_there :
    (replace replaced_report after_change).0
    ≡ ok (
        replacement_of after_change.new_cl_ord_id replaced_report
          (update replaced_report after_change).1)
unfolding replace update msg_type get try_get bytes_eq ◌>>=◌ record_message update_fields
replacement_there = refl

replace-HasOwnKey_example :
    ((replacement_of after_change.new_cl_ord_id replaced_report
        (update replaced_report after_change).1).key
      ≡ create_key (codes "INIT") (codes "ACCEPT") (codes "2"))
    × ((replace replaced_report after_change).1.key ≡ after_change.key)
    × ((replace replaced_report after_change).1.messages
        ≡ after_change.messages ++ replaced_report ∷ [])
unfolding replacement_of update ◌>>=◌ replace msg_type try_get bytes_eq request_replace save_status
    get set_new_cl_ord_id update_pending_fields update_fields
replace-HasOwnKey_example =
    replace-HasOwnKey replaced_report after_change
      (replacement_of after_change.new_cl_ord_id replaced_report
        (update replaced_report after_change).1)
      replacement_there
