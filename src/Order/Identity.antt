-- ===== src/Order/Identity.antt =====
-- What an update cannot change: the fields that identify an order.
use crocofix.Base.{ℕ, ◌≡◌, refl, ◌∙◌, true, [], ◌∷◌, arith}
use crocofix.Base.Bytes.{Bytes}
use crocofix.Base.Exec.Keeps.{Composes, Does, does_rules}
use crocofix.Tags
use crocofix.Field.{Field, Fields, field, try_get, set, replace_first, replace_first_or_append}
use crocofix.Field.Collection.{try_get-set, try_get-replace}
use crocofix.Message.{Message}
use crocofix.Order.{
  Order, is_identity_field, merge_fields, update_fields, update_pending_fields, record_message,
  save_status, set_new_cl_ord_id, set_status, request_replace, request_cancel, update,
}

merge_fields-identity :
    (t : ℕ) (news fs : Fields)
    → is_identity_field t ≡ true
    → try_get t (merge_fields news fs) ≡ try_get t fs
unfolding merge_fields
merge_fields-identity t [] fs h = refl
merge_fields-identity t (f ∷ news) fs h = ground (
  arith,
  merge_fields-identity t news fs h,
  merge_fields-identity t news (set f replace_first_or_append fs).1 h,
  try_get-set t f fs,
)

-- The fields that identify an order.
pub data IsFixed : ℕ → Type 0 where
  begin_string : IsFixed Tags.begin_string
  sender_comp_id : IsFixed Tags.sender_comp_id
  target_comp_id : IsFixed Tags.target_comp_id
  cl_ord_id : IsFixed Tags.cl_ord_id
  orig_cl_ord_id : IsFixed Tags.orig_cl_ord_id

IsFixed-identity : (t : ℕ) → IsFixed t → is_identity_field t ≡ true
IsFixed-identity t begin_string = refl
IsFixed-identity t sender_comp_id = refl
IsFixed-identity t target_comp_id = refl
IsFixed-identity t cl_ord_id = refl
IsFixed-identity t orig_cl_ord_id = refl

-- The same order, by its key, its identifiers and the fields that they stand in.
pub record SameOrder (o p : Order) : Type 0 where
  pub key : p.key ≡ o.key
  pub begin : p.begin_string ≡ o.begin_string
  pub id : p.cl_ord_id ≡ o.cl_ord_id
  pub original : p.orig_cl_ord_id ≡ o.orig_cl_ord_id
  pub sender : p.sender_comp_id ≡ o.sender_comp_id
  pub target : p.target_comp_id ≡ o.target_comp_id
  pub fields : (t : ℕ) → IsFixed t → try_get t p.fields ≡ try_get t o.fields

SameOrder-Composes : Composes SameOrder
SameOrder-Composes = record {
  stay = λ o. record {
    key = refl;
    begin = refl;
    id = refl;
    original = refl;
    sender = refl;
    target = refl;
    fields = λ t h. refl;
  };
  join = λ o p q a b. record {
    key = b.key ∙ a.key;
    begin = b.begin ∙ a.begin;
    id = b.id ∙ a.id;
    original = b.original ∙ a.original;
    sender = b.sender ∙ a.sender;
    target = b.target ∙ a.target;
    fields = λ t h. b.fields t h ∙ a.fields t h;
  };
}

-- A step that changes no identifier and no field.
other_part :
    (o p : Order)
    → p.key ≡ o.key
    → p.begin_string ≡ o.begin_string
    → p.cl_ord_id ≡ o.cl_ord_id
    → p.orig_cl_ord_id ≡ o.orig_cl_ord_id
    → p.sender_comp_id ≡ o.sender_comp_id
    → p.target_comp_id ≡ o.target_comp_id
    → ((t : ℕ) → IsFixed t → try_get t p.fields ≡ try_get t o.fields)
    → SameOrder o p
other_part o p k b i g s t f = record {
  key = k;
  begin = b;
  id = i;
  original = g;
  sender = s;
  target = t;
  fields = f;
}

update_fields-SameOrder : (fs : Fields) → Does SameOrder (update_fields fs)
unfolding update_fields
update_fields-SameOrder fs = record {
  at = λ o.
      other_part o _ refl refl refl refl refl refl
        (λ t h. merge_fields-identity t fs o.fields (IsFixed-identity t h));
}

update_pending-SameOrder : (fs : Fields) → Does SameOrder (update_pending_fields fs)
unfolding update_pending_fields
update_pending-SameOrder fs = record {
  at = λ o. other_part o _ refl refl refl refl refl refl (λ t h. refl);
}

record_message-SameOrder : (m : Message) → Does SameOrder (record_message m)
unfolding record_message
record_message-SameOrder m = record {
  at = λ o. other_part o _ refl refl refl refl refl refl (λ t h. refl);
}

save_status-SameOrder : Does SameOrder save_status
unfolding save_status
save_status-SameOrder = record {
  at = λ o. other_part o _ refl refl refl refl refl refl (λ t h. refl);
}

set_new-SameOrder : (f : Field) → Does SameOrder (set_new_cl_ord_id f)
unfolding set_new_cl_ord_id
set_new-SameOrder f = record {
  at = λ o. other_part o _ refl refl refl refl refl refl (λ t h. refl);
}

status_kept :
    (v : Bytes) (t : ℕ) (fs : Fields)
    → is_identity_field t ≡ true
    → try_get t (set (field Tags.ord_status v) replace_first fs).1 ≡ try_get t fs
status_kept v t fs k = ground (arith, try_get-replace t (field Tags.ord_status v) fs)

set_status-SameOrder : (v : Bytes) → Does SameOrder (set_status v)
unfolding set_status
set_status-SameOrder v = record {
  at = λ o. other_part o _ refl refl refl refl refl refl (λ t h.
      let k : is_identity_field t ≡ true = IsFixed-identity t h in status_kept v t o.fields k);
}

ruleset same_order = (
  does_rules, SameOrder-Composes, update_fields-SameOrder, update_pending-SameOrder,
  record_message-SameOrder, save_status-SameOrder, set_new-SameOrder, set_status-SameOrder,
)

request_replace-SameOrder : (m : Message) → Does SameOrder (request_replace m)
unfolding request_replace
request_replace-SameOrder m = search same_order depth 12

request_cancel-SameOrder : (m : Message) → Does SameOrder (request_cancel m)
unfolding request_cancel
request_cancel-SameOrder m = search same_order depth 12

-- Whatever message updates an order, and whether the update returns or throws, the order's key, its
-- identifiers and the fields BeginString, SenderCompID, TargetCompID, ClOrdID and OrigClOrdID stay.
pub update-SameOrder : (m : Message) (o : Order) → SameOrder o (update m o).1
unfolding update
update-SameOrder m o = updated.at o
  where
    updated : Does SameOrder (update m)
    updated = search (same_order, request_replace-SameOrder, request_cancel-SameOrder) depth 12
