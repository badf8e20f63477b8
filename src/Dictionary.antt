-- ===== src/Dictionary.antt =====
-- libcrocofixdictionary/field_value.cppm, orchestration_field.cppm, orchestration_field_collection.cppm,
-- message_collection.cppm and orchestration.cppm. The tables that these classes are filled with are
-- generated from the XML orchestrations: they are values of the records here.
use crocofix.Base.{
  ℕ, ◌+◌, Bool, ◌&&◌, ◌||◌, leb, Option, none, some, List, [], ◌∷◌, ◌++◌, ltb, if◌then◌else◌,
  length, get_elem?,
}
use crocofix.Base.Bytes.{Bytes, codes, text, bytes_eq, to_string}
use crocofix.Base.Exec.{Result, ok, err, out_of_range, invalid_argument}

pub record FieldValue : Type 0 where
  pub name : Bytes
  pub value : Bytes

pub record Pedigree : Type 0 where
  pub added : Bytes
  pub added_ep : Bytes
  pub updated : Bytes
  pub updated_ep : Bytes
  pub deprecated : Bytes
  pub deprecated_ep : Bytes

abbrev pub no_pedigree : Pedigree
no_pedigree = record {
  added = [];
  added_ep = [];
  updated = [];
  updated_ep = [];
  deprecated = [];
  deprecated_ep = [];
}

-- The tag -1 of a dummy definition is 0 here: both make `is_valid` false.
pub record OrchestrationField : Type 0 where
  pub tag : ℕ
  pub is_data : Bool
  pub name : Bytes
  pub type : Bytes
  pub synopsis : Bytes
  pub pedigree : Pedigree
  pub values : List FieldValue

abbrev pub is_valid : OrchestrationField → Bool
is_valid f = ltb 0 f.tag

abbrev lower : ℕ → ℕ
lower c = if leb b'A' c && leb c b'Z' then c + 32 else c

-- `boost::algorithm::to_lower` in the "C" locale.
unfoldable pub to_lower : Bytes → Bytes
to_lower [] = []
to_lower (c ∷ s) = lower c ∷ to_lower s

abbrev numeric_type : Bytes → Bool
numeric_type t =
    bytes_eq t (codes "int")
    || bytes_eq t (codes "length")
    || bytes_eq t (codes "tagnum")
    || bytes_eq t (codes "seqnum")
    || bytes_eq t (codes "numingroup")
    || bytes_eq t (codes "float")
    || bytes_eq t (codes "qty")
    || bytes_eq t (codes "price")
    || bytes_eq t (codes "priceoffset")
    || bytes_eq t (codes "amt")
    || bytes_eq t (codes "percentage")

unfoldable pub is_numeric : OrchestrationField → Bool
unfolding to_lower
is_numeric f = numeric_type (to_lower f.type)

unfoldable pub value_name : List FieldValue → Bytes → Bytes
value_name [] v = []
value_name (x ∷ xs) v = if bytes_eq x.value v then x.name else value_name xs v

pub record FieldTable : Type 0 where
  pub field_offsets : List ℕ
  pub fields : List OrchestrationField

last_tag : List OrchestrationField → ℕ
last_tag [] = 0
last_tag (f ∷ []) = f.tag
last_tag (f ∷ g ∷ fs) = last_tag (g ∷ fs)

-- The constructor of `orchestration_field_collection`, with its two checks. An empty `fields` is
-- undefined behaviour there (`*m_fields.rbegin()`), and passes here.
unfoldable pub field_table : List ℕ → List OrchestrationField → Result FieldTable
unfolding last_tag
field_table offsets fields =
    if ltb (length offsets) (length fields)
    then err (
        invalid_argument (
          text "field_offsets.size() "
          ++ to_string (length offsets)
          ++ text " must be >= fields.size()"
          ++ to_string (length fields)))
    else if ltb 65535 (last_tag fields)
    then err (
        invalid_argument (
          text "the maximum field tag "
          ++ to_string (last_tag fields)
          ++ text " is too large for the field offset type to represent"))
    else ok (record { field_offsets = offsets; fields = fields })

abbrev definition_at : FieldTable → Option ℕ → Option OrchestrationField
definition_at d none = none
definition_at d (some offset) = get_elem? d.fields offset

-- The lookup that `operator[]`, `name_of_field` and `name_of_value` share.
unfoldable pub find_definition : FieldTable → ℕ → Option OrchestrationField
find_definition d tag = definition_at d (get_elem? d.field_offsets tag)

abbrev or_out_of_range : Bytes → Option OrchestrationField → Result OrchestrationField
or_out_of_range what (some f) = ok f
or_out_of_range what none = err (out_of_range what)

-- `operator[]` by tag.
unfoldable pub definition : FieldTable → ℕ → Result OrchestrationField
unfolding find_definition last_tag
definition d tag =
    or_out_of_range
      (to_string tag ++ text " exceeds the highest tag number " ++ to_string (last_tag d.fields))
      (find_definition d tag)

named : List OrchestrationField → Bytes → Option OrchestrationField
named [] name = none
named (f ∷ fs) name = if bytes_eq f.name name then some f else named fs name

-- `operator[]` by name: `emplace` into the map keeps the first field of a name.
unfoldable pub definition_named : FieldTable → Bytes → Result OrchestrationField
unfolding named
definition_named d name =
    or_out_of_range (text "no field with name '" ++ name ++ text "'") (named d.fields name)

abbrev name_or_empty : Option OrchestrationField → Bytes
name_or_empty none = []
name_or_empty (some f) = f.name

abbrev value_name_or_empty : Option OrchestrationField → Bytes → Bytes
value_name_or_empty none v = []
value_name_or_empty (some f) v = value_name f.values v

unfoldable pub name_of_field : FieldTable → ℕ → Bytes
unfolding find_definition
name_of_field d tag = name_or_empty (find_definition d tag)

unfoldable pub name_of_value : FieldTable → ℕ → Bytes → Bytes
unfolding find_definition value_name
name_of_value d tag v = value_name_or_empty (find_definition d tag) v

abbrev valid_of : Result OrchestrationField → Result Bool
valid_of (ok f) = ok (is_valid f)
valid_of (err e) = err e

-- `orchestration::is_field_defined`.
unfoldable pub is_field_defined : FieldTable → ℕ → Result Bool
unfolding definition
is_field_defined d tag = valid_of (definition d tag)

pub data Presence : Type 0 where
  required optional forbidden ignored constant : Presence

-- A field as one message has it; nested groups have a greater depth.
pub record MessageField : Type 0 where
  pub field : OrchestrationField
  pub presence : Presence
  pub depth : ℕ

abbrev pub MessageFieldCollection : Type 0
MessageFieldCollection = List MessageField

pub record MessageDefinition : Type 0 where
  pub msg_type : Bytes
  pub name : Bytes
  pub category : Bytes
  pub synopsis : Bytes
  pub pedigree : Pedigree
  pub fields : MessageFieldCollection

-- `m_messages_by_msg_type.find`: the constructor assigns by message type, so the last definition
-- of a type is the one that stays.
unfoldable pub find_message : List MessageDefinition → Bytes → Option MessageDefinition
find_message [] t = none
find_message (m ∷ ms) t = elim (find_message ms t) [
  | some later ↦ some later
  | none ↦ if bytes_eq m.msg_type t then some m else none
]

abbrev message_name : Option MessageDefinition → Bytes
message_name none = []
message_name (some m) = m.name

unfoldable pub name_of_message : List MessageDefinition → Bytes → Bytes
unfolding find_message
name_of_message ms t = message_name (find_message ms t)
