-- ===== src/Order.antt =====
-- libcrocofix/order.cppm and libcrocofix/order.cpp. A method of `order` changes the order and may throw.
pub mod Identity
pub mod Rollback
pub mod Replacement
mod Examples
use crocofix.Base.{
  ℕ, Bool, true, false, ◌||◌, Option, none, some, List, [], ◌∷◌, ◌++◌, ◌==◌, if◌then◌else◌,
}
use crocofix.Base.Bytes.{Bytes, bytes_eq}
use crocofix.Base.Exec.{Result, ok, err, Exec, pure, lift, gets, modify, ◌>>=◌, ◌>>◌}
use crocofix.Tags
use crocofix.Field.{Field, Fields, field, replace_first, replace_first_or_append, try_get, get, set}
use crocofix.Message
use crocofix.Message.{Message, msg_type}

-- Membership in `s_identity_fields`.
abbrev pub is_identity_field : ℕ → Bool
is_identity_field t =
    (t == Tags.begin_string)
    || (t == Tags.sender_comp_id)
    || (t == Tags.target_comp_id)
    || (t == Tags.cl_ord_id)
    || (t == Tags.orig_cl_ord_id)

pub record Order : Type 0 where
  pub messages : List Message
  pub key : Bytes
  pub begin_string : Bytes
  pub sender_comp_id : Bytes
  pub target_comp_id : Bytes
  pub cl_ord_id : Field
  pub orig_cl_ord_id : Option Field
  pub previous_ord_status : Option Field
  pub new_cl_ord_id : Option Field
  pub fields : Fields
  pub pending_fields : Fields

unfoldable pub create_key : Bytes → Bytes → Bytes → Bytes
create_key sender target id = sender ++ b'-' ∷ target ++ b'-' ∷ id

abbrev pub value_of : Result Field → Result Bytes
value_of (ok f) = ok f.value
value_of (err e) = err e

infixl 5 ◌>=>◌
-- Bind of results; the methods below use the one of `Exec`.
abbrev ◌>=>◌ : {A B : Type 0} → Result A → (A → Result B) → Result B
ok a >=> f = f a
err e >=> f = err e

abbrev built : Message → Bytes → Bytes → Bytes → Field → Order
built m begin sender target id = record {
  messages = m ∷ [];
  key = create_key sender target id.value;
  begin_string = begin;
  sender_comp_id = sender;
  target_comp_id = target;
  cl_ord_id = id;
  orig_cl_ord_id = try_get Tags.orig_cl_ord_id m.fields;
  previous_ord_status = none;
  new_cl_ord_id = none;
  fields = m.fields;
  pending_fields = [];
}

-- The constructor.
unfoldable pub order : Message → Result Order
unfolding create_key
order m = value_of (get Tags.begin_string m.fields) >=> λ begin.
    value_of (get Tags.sender_comp_id m.fields) >=> λ sender.
    value_of (get Tags.target_comp_id m.fields) >=> λ target.
    get Tags.cl_ord_id m.fields >=> λ id. ok (built m begin sender target id)

-- `key_for_message`: OrigClOrdID before ClOrdID.
abbrev order_id : Fields → Option Field → Result Bytes
order_id fs (some f) = ok f.value
order_id fs none = value_of (get Tags.cl_ord_id fs)

unfoldable pub key_for_message : Message → Bool → Result Bytes
unfolding create_key
key_for_message m reverse_comp_ids = value_of (get Tags.sender_comp_id m.fields) >=> λ sender.
    value_of (get Tags.target_comp_id m.fields) >=> λ target.
    order_id m.fields (try_get Tags.orig_cl_ord_id m.fields) >=> λ id.
    ok (if reverse_comp_ids then create_key target sender id else create_key sender target id)

-- The loop of `update_fields` and of `update_pending_fields`.
unfoldable pub merge_fields : Fields → Fields → Fields
merge_fields [] fs = fs
merge_fields (f ∷ news) fs =
    merge_fields news (if is_identity_field f.tag then fs else (set f replace_first_or_append fs).1)

unfoldable pub update_fields : Fields → Exec Order Unit
unfolding merge_fields
update_fields news o = (ok tt, record o { fields = merge_fields news o.fields })

unfoldable pub update_pending_fields : Fields → Exec Order Unit
unfolding merge_fields
update_pending_fields news o =
    (ok tt, record o { pending_fields = merge_fields news o.pending_fields })

unfoldable pub record_message : Message → Exec Order Unit
record_message m o = (ok tt, record o { messages = o.messages ++ m ∷ [] })

unfoldable pub save_status : Exec Order Unit
save_status o = (ok tt, record o { previous_ord_status = try_get Tags.ord_status o.fields })

unfoldable pub set_new_cl_ord_id : Field → Exec Order Unit
set_new_cl_ord_id f o = (ok tt, record o { new_cl_ord_id = some f })

-- `m_fields.set(OrdStatus, …)` replaces: an order with no OrdStatus is left without one.
unfoldable pub set_status : Bytes → Exec Order Unit
set_status v o =
    (ok tt, record o { fields = (set (field Tags.ord_status v) replace_first o.fields).1 })

unfoldable pub request_replace : Message → Exec Order Unit
request_replace m = do
  save_status
  id ← lift (get Tags.cl_ord_id m.fields)
  set_new_cl_ord_id id
  update_pending_fields m.fields
  set_status Tags.status_pending_replace

unfoldable pub request_cancel : Message → Exec Order Unit
request_cancel m = do
  save_status
  update_pending_fields m.fields
  set_status Tags.status_pending_cancel

unfoldable pub update : Message → Exec Order Unit
update m = do
  record_message m
  t ← lift (msg_type m)
  if bytes_eq t Tags.order_cancel_replace_request
      then request_replace m
      else if bytes_eq t Tags.order_cancel_request
      then request_cancel m
      else update_fields m.fields

unfoldable pub commit : Exec Order Unit
unfolding merge_fields
commit o =
    (ok tt, record o { fields = merge_fields o.pending_fields o.fields; pending_fields = [] })

abbrev restored : Option Field → Fields → Fields
restored none fs = fs
restored (some f) fs = (set f replace_first fs).1

unfoldable pub rollback : Exec Order Unit
rollback o = (
  ok tt,
  record o {
    pending_fields = [];
    fields = restored o.previous_ord_status o.fields;
    previous_ord_status = none;
  },
)

-- The identifier that a replaced order gets: the one of the request, or else of the report.
abbrev pub next_id : Option Field → Option Field → Option Field
next_id (some f) reported = some f
next_id none reported = reported

abbrev renamed : Option Field → Order → Order
renamed none r = r
renamed (some f) r = record r {
  fields =
      (set (field Tags.orig_cl_ord_id r.cl_ord_id.value) replace_first_or_append
        (set f replace_first_or_append r.fields).1).1;
  orig_cl_ord_id = some r.cl_ord_id;
  cl_ord_id = f;
}

abbrev opened : Order → Order
opened r = record r {
  key = create_key r.sender_comp_id r.target_comp_id r.cl_ord_id.value;
  fields = (set (field Tags.ord_status Tags.status_new) replace_first r.fields).1;
}

-- What `replace` makes of the updated copy of the order.
unfoldable pub replacement_of : Option Field → Message → Order → Order
unfolding commit create_key
replacement_of requested report r =
    opened (renamed (next_id requested (try_get Tags.cl_ord_id report.fields)) (commit r).1)

-- And of the order itself.
unfoldable pub replaced : Message → Order → Order
unfolding rollback set_status record_message
replaced report o = (record_message report (set_status Tags.status_replaced (rollback o).1).1).1

abbrev replace_with : Message → Order → Result (Unit {0}) × Order → Result Order × Order
replace_with report o (err e, r) = (err e, o)
replace_with report o (ok _, r) = (ok (replacement_of o.new_cl_ord_id report r), replaced report o)

-- `replace`: a copy takes the report and the pending fields and becomes the new order.
unfoldable pub replace : Message → Exec Order Order
unfolding replacement_of replaced
replace report o = replace_with report o (update report o)
