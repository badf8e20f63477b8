-- ===== src/Order/Rollback.antt =====
-- A request that is rejected leaves the order as it was, but for the messages it remembers.
use crocofix.Base.{
  ℕ, ◌≡◌, ◌≢◌, refl, sym, ◌∙◌, ap, Option, none, some, [], ◌∷◌, ◌++◌, arith, if◌then◌else◌,
}
use crocofix.Base.Bytes.{Bytes, bytes_eq}
use crocofix.Base.Exec.{ok, ◌>>=◌}
use crocofix.Tags
use crocofix.Field.{
  Field, Fields, field, try_get, get, overwrite, set, replace_first, replace_first_or_append,
}
use crocofix.Field.Collection.{
  set-replace_first, overwrite_missing, try_get-tag, try_get-replace, try_get-set,
}
use crocofix.Message.{Message, msg_type}
use crocofix.Order.{
  Order, is_identity_field, save_status, set_status, update_fields, update_pending_fields,
  request_replace, request_cancel, record_message, update, rollback, set_new_cl_ord_id, restored,
  merge_fields,
}

overwrite-overwrite :
    (f g : Field) (fs : Fields)
    → f.tag ≡ g.tag
    → try_get f.tag fs ≡ some f
    → overwrite f (overwrite g fs) ≡ fs
unfolding overwrite try_get
overwrite-overwrite f g [] e h = refl
overwrite-overwrite f g (x ∷ fs) e h = ground (arith, overwrite-overwrite f g fs e)

-- Putting the saved status back over another one.
status_restored :
    (v : Bytes) (fs : Fields) (o : Option Field)
    → try_get Tags.ord_status fs ≡ o
    → restored o (set (field Tags.ord_status v) replace_first fs).1 ≡ fs
status_restored v fs none h =
    (set-replace_first (field Tags.ord_status v) fs).0 ∙ overwrite_missing _ fs h
status_restored v fs (some f) h =
    let t : f.tag ≡ Tags.ord_status = try_get-tag Tags.ord_status f fs h in
    (set-replace_first f _).0
    ∙ ap (overwrite f) (set-replace_first (field Tags.ord_status v) fs).0
    ∙ overwrite-overwrite f (field Tags.ord_status v) fs t (ap (λ (n : ℕ). try_get n fs) t ∙ h)

abbrev rejected : Message → Order → Order
rejected m o = (rollback (update m o).1).1

-- An order with what a rejected request leaves of it.
abbrev pub remembers : Message → Order → Order
remembers m o = record o {
  messages = o.messages ++ m ∷ [];
  pending_fields = [];
  previous_ord_status = none;
}

-- A cancel request and its rejection bring every field of the order back, the status with them, whether
-- or not there is one; only the message is remembered, and what was pending is dropped.
pub rollback-cancel_request :
    (m : Message) (o : Order)
    → msg_type m ≡ ok Tags.order_cancel_request
    → (rollback (update m o).1).1 ≡ remembers m o
unfolding update request_cancel ◌>>=◌ save_status update_pending_fields set_status record_message
    rollback bytes_eq
rollback-cancel_request m o h = rw h (
    ap (λ (fs : Fields). record (remembers m o) { fields = fs })
      (status_restored Tags.status_pending_cancel o.fields (try_get Tags.ord_status o.fields) refl))

-- A rejected replace request restores the fields too, but the order still holds the identifier that the
-- request asked for.
pub rollback-replace_request :
    (m : Message) (o : Order) (id : Field)
    → msg_type m ≡ ok Tags.order_cancel_replace_request
    → get Tags.cl_ord_id m.fields ≡ ok id
    → (rollback (update m o).1).1 ≡ record (remembers m o) { new_cl_ord_id = some id }
unfolding update request_replace ◌>>=◌ save_status set_new_cl_ord_id update_pending_fields
    set_status record_message rollback bytes_eq
rollback-replace_request m o id h k =
    rw (h, k)
      (ap (λ (fs : Fields). record (remembers m o) { new_cl_ord_id = some id; fields = fs })
        (status_restored Tags.status_pending_replace o.fields (try_get Tags.ord_status o.fields)
          refl))

abbrev Has : ℕ → Fields → Type 0
Has t fs = try_get t fs ≢ none

merge_fields-Has : (t : ℕ) (news fs : Fields) → Has t fs → Has t (merge_fields news fs)
unfolding merge_fields
merge_fields-Has t [] fs h = h
merge_fields-Has t (f ∷ news) fs h =
    merge_fields-Has t news
      (if is_identity_field f.tag then fs else (set f replace_first_or_append fs).1)
      (λ e. h (ground (arith, try_get-set t f fs)))

put_back :
    (t : ℕ) (f : Field) (fs : Fields) (o : Option Field)
    → f.tag ≡ t
    → try_get f.tag fs ≡ o
    → o ≢ none
    → try_get t (set f replace_first fs).1 ≡ some f
put_back t f fs none e h n = absurd (n refl)
put_back t f fs (some g) e h n = grind (arith, try_get-replace t f fs)

status_put_back :
    (t : ℕ) (f : Field) (fs : Fields)
    → f.tag ≡ t
    → Has t fs
    → try_get t (set f replace_first fs).1 ≡ some f
status_put_back t f fs e h =
    put_back t f fs (try_get f.tag fs) e refl (λ n. h (ap (λ (i : ℕ). try_get i fs) (sym e) ∙ n))

some-Has : (t : ℕ) (g : Field) (fs : Fields) → try_get t fs ≡ some g → Has t fs
some-Has t g fs h n = cc

-- An execution report that comes between a cancel request and its rejection loses its OrdStatus: an
-- order with a status goes back to the one that it had before the request.
pub rollback_after_report :
    (m r : Message) (o : Order) (f : Field)
    → msg_type m ≡ ok Tags.order_cancel_request
    → msg_type r ≡ ok Tags.execution_report
    → try_get Tags.ord_status o.fields ≡ some f
    → try_get Tags.ord_status (rollback (update r (update m o).1).1).1.fields ≡ some f
unfolding update request_cancel update_fields ◌>>=◌ save_status update_pending_fields set_status
    record_message rollback bytes_eq
rollback_after_report m r o f h k e =
    rw (h, k, e)
      (status_put_back Tags.ord_status f _ (try_get-tag Tags.ord_status f o.fields e) (
        merge_fields-Has Tags.ord_status r.fields _ (
          some-Has Tags.ord_status _ _ (
            status_put_back Tags.ord_status (field Tags.ord_status Tags.status_pending_cancel)
              o.fields refl (some-Has Tags.ord_status f o.fields e)))))
