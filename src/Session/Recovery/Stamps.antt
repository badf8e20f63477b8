-- ===== src/Session/Recovery/Stamps.antt =====
-- What the peer reads of a message that a session handed to its writer.
use crocofix.Base.{
  ℕ, ◌≤◌, ◌%◌, ◌≡◌, refl, sym, ap, ◌∙◌, append-nil, Bool, true, false, List, [], ◌∷◌, arith, ◌==◌,
}
use crocofix.Base.Bytes.{Bytes, int_max, u32_mod, to_string, pos, stoi}
use crocofix.Base.Bytes.Decimal.{stoi-to_string}
use crocofix.Base.Exec.{ok}
use crocofix.Tags
use crocofix.Field.{Field, Fields, replace_first, replace_first_or_append, try_get, set}
use crocofix.Field.Collection.{try_get-set, try_get-replace}
use crocofix.Message.{Message, stoi_u32, has_option, set_msg_seq_num}
use crocofix.Session.State.{SessionOptions, Event, written}
use crocofix.Session.Send.{set_if, stamped}

-- The messages that were handed to the writer, the newest first.
unfoldable pub written_messages : List Event → List Message
written_messages [] = []
written_messages (written m options ∷ es) = m ∷ written_messages es
written_messages (_ ∷ es) = written_messages es

-- The peer finds the fields that were written; the encoder sets BodyLength and CheckSum.
pub record Arrives (w m : Message) : Type 0 where
  pub found :
      (t : ℕ)
      → (Tags.body_length == t) ≡ false
      → (Tags.check_sum == t) ≡ false
      → try_get t m.fields ≡ try_get t w.fields

-- A tag of no field that the session stamps.
pub record Unstamped (t : ℕ) : Type 0 where
  pub begin_string : (Tags.begin_string == t) ≡ false
  pub sender_comp_id : (Tags.sender_comp_id == t) ≡ false
  pub target_comp_id : (Tags.target_comp_id == t) ≡ false
  pub sending_time : (Tags.sending_time == t) ≡ false
  pub check_sum : (Tags.check_sum == t) ≡ false

set-other :
    (t : ℕ) (f : Field) (fs : Fields)
    → (f.tag == t) ≡ false
    → try_get t (set f replace_first fs).1 ≡ try_get t fs
set-other t f fs e = grind (arith, try_get-replace t f fs)

set_if-other :
    (b : Bool) (t : ℕ) (f : Field) (fs : Fields)
    → (f.tag == t) ≡ false
    → try_get t (set_if b f replace_first fs) ≡ try_get t fs
set_if-other true t f fs e = set-other t f fs e
set_if-other false t f fs e = refl

append_if-other :
    (b : Bool) (t : ℕ) (f : Field) (fs : Fields)
    → (f.tag == t) ≡ false
    → try_get t (set_if b f replace_first_or_append fs) ≡ try_get t fs
append_if-other true t f fs e = rw (try_get-set t f fs, e) refl
append_if-other false t f fs e = refl

-- Stamping leaves the other fields, and MsgSeqNum where the options say so.
pub stamped-other :
    (o : SessionOptions) (options n : ℕ) (time : Bytes) (fs : Fields) (t : ℕ)
    → Unstamped t
    → (Tags.msg_seq_num == t) ≡ false
    → try_get t (stamped o options n time fs) ≡ try_get t fs
unfolding stamped
stamped-other o options n time fs t u h =
    append_if-other _ t _ _ u.check_sum
    ∙ set-other t _ _ u.sending_time
    ∙ set_if-other _ t _ _ h
    ∙ set-other t _ _ u.target_comp_id
    ∙ set-other t _ _ u.sender_comp_id
    ∙ set_if-other _ t _ _ u.begin_string

-- A number that fits an `int` arrives as it was sent.
pub stoi_u32-to_string : (n : ℕ) → n ≤ int_max → stoi_u32 (to_string n) ≡ ok n
unfolding stoi_u32
stoi_u32-to_string n h =
    let e : stoi (to_string n) ≡ ok (pos n) =
      ap stoi (sym (append-nil (to_string n))) ∙ stoi-to_string n [] h tt in
    let f : n % u32_mod ≡ n = omega (arith, h) in rw (e, f) refl

pub stamped-unnumbered :
    (o : SessionOptions) (options n : ℕ) (time : Bytes) (fs : Fields)
    → has_option options set_msg_seq_num ≡ false
    → try_get Tags.msg_seq_num (stamped o options n time fs) ≡ try_get Tags.msg_seq_num fs
unfolding stamped
stamped-unnumbered o options n time fs h =
    append_if-other _ Tags.msg_seq_num _ _ refl
    ∙ set-other Tags.msg_seq_num _ _ refl
    ∙ unset _ _ _ h
    ∙ set-other Tags.msg_seq_num _ _ refl
    ∙ set-other Tags.msg_seq_num _ _ refl
    ∙ set_if-other _ Tags.msg_seq_num _ _ refl
  where
    unset :
        (b : Bool) (f : Field) (gs : Fields)
        → b ≡ false
        → try_get Tags.msg_seq_num (set_if b f replace_first gs) ≡ try_get Tags.msg_seq_num gs
    unset false f gs e = refl
    unset true f gs e = cc
