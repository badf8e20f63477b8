-- ===== src/Message/Printing.antt =====
-- `message::pretty_print`.
use crocofix.Base.{ℕ, ◌+◌, ◌-◌, List, [], ◌∷◌, ◌++◌, ltb, if◌then◌else◌, length, replicate}
use crocofix.Base.Bytes.{Bytes, codes, to_string}
use crocofix.Base.Exec.{Result, ok, err}
use crocofix.Field.{Field, Fields}
use crocofix.Dictionary.{
  FieldTable, MessageDefinition, name_of_field, name_of_value, name_of_message,
}
use crocofix.Message.{Message, msg_type, number_of_digits}

abbrev larger : ℕ → ℕ → ℕ
larger a b = if ltb a b then b else a

unfoldable pub widest_field_name : FieldTable → Fields → ℕ
unfolding name_of_field
widest_field_name d [] = 0
widest_field_name d (f ∷ fs) = larger (length (name_of_field d f.tag)) (widest_field_name d fs)

unfoldable pub widest_tag : Fields → ℕ
unfolding number_of_digits
widest_tag [] = 0
widest_tag (f ∷ fs) = larger (number_of_digits f.tag) (widest_tag fs)

-- `std::setw` with `std::right`.
abbrev pub set_width : ℕ → Bytes → Bytes
set_width w s = replicate (w - length s) b' ' ++ s

abbrev named_value : Bytes → Bytes
named_value [] = []
named_value (b ∷ name) = codes " - " ++ b ∷ name

unfoldable pub field_line : FieldTable → ℕ → ℕ → Field → Bytes
unfolding name_of_field name_of_value to_string
field_line d name_width tag_width f =
    set_width name_width (name_of_field d f.tag)
    ++ set_width (tag_width + 4) (codes " (" ++ to_string f.tag ++ codes ") ")
    ++ f.value
    ++ named_value (name_of_value d f.tag f.value)
    ++ b'\n' ∷ []

unfoldable pub field_lines : FieldTable → ℕ → ℕ → Fields → Bytes
unfolding field_line
field_lines d name_width tag_width [] = []
field_lines d name_width tag_width (f ∷ fs) =
    field_line d name_width tag_width f ++ field_lines d name_width tag_width fs

abbrev printed : FieldTable → List MessageDefinition → Fields → Result Bytes → Result Bytes
printed d ms fs (err e) = err e
printed d ms fs (ok type) = ok (
    name_of_message ms type
    ++ codes "\n{\n"
    ++ field_lines d (widest_field_name d fs) (widest_tag fs) fs
    ++ codes "}\n")

-- What is printed; a message without a MsgType throws before anything is.
unfoldable pub pretty_print : FieldTable → List MessageDefinition → Message → Result Bytes
unfolding msg_type field_lines widest_field_name widest_tag name_of_message
pretty_print d ms m = printed d ms m.fields (msg_type m)
