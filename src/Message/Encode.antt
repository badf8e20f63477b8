-- ===== src/Message/Encode.antt =====
-- The two `message::encode`.
use crocofix.Base.{
  ℕ, ◌+◌, ◌-◌, Bool, true, false, ◌&&◌, Option, none, some, [], ◌∷◌, ◌++◌, ltb, leb, ◌==◌,
  if◌then◌else◌, length,
}
use crocofix.Base.Bytes.{Bytes, to_string}
use crocofix.Base.Exec.{Result, ok, err}
use crocofix.Tags
use crocofix.Field.{Field, Fields, field, replace_first, set}
use crocofix.Message.{
  Message, has_option, set_checksum, set_body_length, calculate_body_length, buffer_checksum,
  format_checksum,
}
use crocofix.Message.Decode.{value_separator, field_separator}

-- What the encoding of a field has stored behind `current` when it returns, and whether it returns
-- the new `current` or `nullptr`.
pub record FieldWritten : Type 0 where
  pub stored : Bytes
  pub whole : Bool

abbrev pub stopped : Bytes → FieldWritten
stopped b = record { stored = b; whole = false }

-- `room` bytes stand between `current` and `end`. What `std::to_chars` leaves behind where the tag does not
-- fit is unspecified and stays in its range; nothing is taken for it.
unfoldable pub write_field : ℕ → Field → FieldWritten
write_field room f =
    let tag = to_string f.tag in
    let key = tag ++ value_separator ∷ [] in
    if ltb room (length tag)
    then stopped []
    else if leb room (length tag)
    then stopped tag
    else if leb room (length tag + 1)
    then stopped key
    else if leb room (length tag + 1 + length f.value)
    then stopped key
    else record {
      stored = tag ++ value_separator ∷ (f.value ++ field_separator ∷ []);
      whole = true;
    }

abbrev pub returned : FieldWritten → Option Bytes
returned w = if w.whole then some w.stored else none

-- The bytes of one field, if they fit.
unfoldable pub encode_field : ℕ → Field → Option Bytes
unfolding write_field
encode_field room f = returned (write_field room f)

-- `written` is empty where the code returns 0 for want of room; `stored` is all that was put in the
-- buffer, also where the code returns 0 or throws.
pub record Encoded : Type 0 where
  pub written : Result Bytes
  pub fields : Fields
  pub stored : Bytes

abbrev pub encoded : Bytes → Fields → Encoded
encoded out fs = record { written = ok out; fields = fs; stored = out }

abbrev pub failed : Result Bytes → Bytes → Fields → Encoded
failed w out fs = record { written = w; fields = fs; stored = out }

-- The last field, behind the bytes `out`.
abbrev pub close_with : Bytes → Fields → Bytes → Option Bytes → Encoded
close_with out all stored none = failed (ok []) (out ++ stored) all
close_with out all stored (some b) = encoded (out ++ b) all

abbrev pub encode_checksum : ℕ → Bytes → Fields → Result Bytes → Encoded
encode_checksum capacity out all (err e) = failed (err e) out all
encode_checksum capacity out all (ok v) =
    close_with out (set (field Tags.check_sum v) replace_first all).1
      (write_field (capacity - length out) (field Tags.check_sum v)).stored
      (encode_field (capacity - length out) (field Tags.check_sum v))

-- The loop over the fields: `all` are the message's fields, `out` what was written so far. The
-- checksum is set and written at the first CheckSum field, which ends the loop: `set` reports that
-- it replaced that very field.
unfoldable pub encode_loop : ℕ → Bool → Fields → Bytes → Fields → Encoded
encode_loop capacity sums all out [] = encoded out all
encode_loop capacity sums all out (f ∷ fs) = elim ((f.tag == Tags.check_sum) && sums) [
  | true ↦ encode_checksum capacity out all (format_checksum (buffer_checksum out))
  | false ↦ elim (encode_field (capacity - length out) f) [
    | none ↦ failed (ok []) (out ++ (write_field (capacity - length out) f).stored) all
    | some b ↦ encode_loop capacity sums all (out ++ b) fs
  ]
]

abbrev pub with_body_length : Bool → Message → Fields
with_body_length false m = m.fields
with_body_length true m =
    (set (field Tags.body_length (to_string (calculate_body_length m))) replace_first m.fields).1

abbrev pub run_encode : Message → ℕ → ℕ → Encoded
run_encode m capacity options =
    let fs = with_body_length (has_option options set_body_length) m in
    encode_loop capacity (has_option options set_checksum) fs [] fs

-- The bytes written and the message as encoding leaves it.
unfoldable pub encode : Message → ℕ → ℕ → Result Bytes × Message
unfolding encode_loop encode_field write_field
encode m capacity options =
    let e = run_encode m capacity options in (e.written, record m { fields = e.fields })
