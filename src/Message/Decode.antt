-- ===== src/Message/Decode.antt =====
-- `message::decode`.
use crocofix.Base.{
  ℕ, zero, suc, ◌+◌, ◌-◌, ◌%◌, Bool, true, false, Option, none, some, [], ◌∷◌, ◌++◌, ltb, ◌==◌, leb,
  get_elem?, if◌then◌else◌, length, take,
}
use crocofix.Base.Bytes.{Bytes, ℤ, pos, negsuc, text, to_string, stoi, from_chars, u32_mod}
use crocofix.Base.Exec.{
  Error, Result, ok, err, out_of_range, runtime_error, length_error, undetermined,
}
use crocofix.Tags
use crocofix.Field.{Field, Fields, field}
use crocofix.Dictionary.{FieldTable, OrchestrationField, definition}
use crocofix.Message.{Message, sum_bytes}

abbrev pub value_separator : ℕ
value_separator = b'='

abbrev pub field_separator : ℕ
field_separator = 1

abbrev pub prepend : ℕ → Option (Bytes × Bytes) → Option (Bytes × Bytes)
prepend b none = none
prepend b (some (p, r)) = some (b ∷ p, r)

-- `std::find`: what stands before the first `c`, and what stands behind it.
unfoldable pub cut : ℕ → Bytes → Option (Bytes × Bytes)
cut c [] = none
cut c (b ∷ s) = if b == c then some ([], s) else prepend b (cut c s)

-- The first `n` bytes, the byte behind them and the rest; `none` if there is no such byte.
abbrev pub prepend_split : ℕ → Option (Bytes × ℕ × Bytes) → Option (Bytes × ℕ × Bytes)
prepend_split b none = none
prepend_split b (some (p, c, r)) = some (b ∷ p, c, r)

unfoldable pub split_at : ℕ → Bytes → Option (Bytes × ℕ × Bytes)
split_at n [] = none
split_at zero (b ∷ s) = some ([], b, s)
split_at (suc n) (b ∷ s) = prepend_split b (split_at n s)

-- One round of the loop: no complete field is there, an exception, or a field and the bytes behind it.
pub data Round : Type 0 where
  partial : Round
  failed : Error → Round
  parsed : Field → Bytes → Round

-- `m_fields.rbegin()`
unfoldable pub last_value : Fields → Option Bytes
last_value [] = none
last_value (f ∷ []) = some f.value
last_value (f ∷ g ∷ fs) = last_value (g ∷ fs)

abbrev data_tag : ℕ → Bytes
data_tag tag = text "parsed a data field with tag=" ++ to_string tag

abbrev unseparated : ℕ → Error
unseparated tag = runtime_error (
    text "parsed a data field wtih tag="
    ++ to_string tag
    ++ text " but the field did not have a trailing field separator")

abbrev pub checked_data : ℕ → Option (Bytes × ℕ × Bytes) → Round
checked_data tag none = partial
checked_data tag (some (v, c, r)) =
    if c == field_separator then parsed (field tag v) r else failed (unseparated tag)

-- The byte `n` places in front of the `=`, where that is the `=` or stands in the key.
abbrev in_front : ℕ → Bytes → Option ℕ
in_front n key =
    if leb n (length key) then get_elem? (key ++ value_separator ∷ []) (length key - n) else none

-- A value of negative length has its byte behind the end in front of its begin. The code throws as for
-- another byte than the separator, or, where that byte is one, for a string of about 2^64 bytes. In front
-- of the key the byte is one of an earlier field or of whatever the memory holds before the buffer.
abbrev read_in_front : ℕ → Option ℕ → Error
read_in_front tag none = undetermined (data_tag tag)
read_in_front tag (some b) =
    if b == field_separator then length_error (text "basic_string::_M_create") else unseparated tag

abbrev pub data_of_length : ℕ → Bytes → Bytes → Result ℤ → Round
data_of_length tag key s (err e) = failed (
    runtime_error
      (data_tag tag ++ text " but the preceeding field value was not a valid numeric length"))
data_of_length tag key s (ok (negsuc n)) = failed (read_in_front tag (in_front n key))
data_of_length tag key s (ok (pos n)) = checked_data tag (split_at n s)

abbrev pub data_field : ℕ → Bytes → Bytes → Option Bytes → Round
data_field tag key s none =
    failed (runtime_error (data_tag tag ++ text " that was not preceeded by a length field"))
data_field tag key s (some v) = data_of_length tag key s (stoi v)

abbrev pub plain_field : ℕ → Option (Bytes × Bytes) → Round
plain_field tag none = partial
plain_field tag (some (v, r)) = parsed (field tag v) r

abbrev pub defined_field : ℕ → Fields → Bytes → Bytes → Result OrchestrationField → Round
defined_field tag fs key s (err e) = failed e
defined_field tag fs key s (ok def) =
    if def.is_data
    then data_field tag key s (last_value fs)
    else plain_field tag (cut field_separator s)

-- A negative tag becomes a `size_t` of more than 2^63, past the end of every table.
abbrev pub tagged_field : FieldTable → Fields → Bytes → Bytes → Result ℤ → Round
tagged_field d fs key s (err e) = failed (out_of_range (key ++ text " is not a valid field tag"))
tagged_field d fs key s (ok (negsuc n)) =
    failed (out_of_range (key ++ text " exceeds the highest tag number"))
tagged_field d fs key s (ok (pos tag)) = defined_field tag fs key s (definition d tag)

abbrev pub keyed_field : FieldTable → Fields → Option (Bytes × Bytes) → Round
keyed_field d fs none = partial
keyed_field d fs (some (key, s)) = tagged_field d fs key s (from_chars key)

-- The body of the loop. At the end of the buffer there is no `=`, which covers `current != end`.
unfoldable pub decode_field : FieldTable → Fields → Bytes → Round
unfolding cut split_at last_value
decode_field d fs s = keyed_field d fs (cut value_separator s)

-- Where the loop stopped: `rest` begins at `current`, `unsummed` at `checksum_current`.
pub record Scanned : Type 0 where
  pub fields : Fields
  pub rest : Bytes
  pub unsummed : Bytes
  pub complete : Result Bool
  pub ended : Bool

abbrev pub scanned : Fields → Bytes → Bytes → Result Bool → Scanned
scanned fs r u c = record { fields = fs; rest = r; unsummed = u; complete = c; ended = true }

-- A loop that has not ended on the fuel it was given.
abbrev pub unended : Fields → Bytes → Scanned
unended fs s = record { fields = fs; rest = s; unsummed = s; complete = ok false; ended = false }

-- Every field takes at least two bytes, so fuel past the length of the buffer is enough.
unfoldable pub decode_loop : ℕ → FieldTable → Fields → Bytes → Scanned
decode_loop zero d fs s = unended fs s
decode_loop (suc fuel) d fs s = elim (decode_field d fs s) [
  | partial ↦ scanned fs s s (ok false)
  | failed e ↦ scanned fs s s (err e)
  | parsed f r ↦ elim (f.tag == Tags.check_sum) [
    | true ↦ scanned (fs ++ f ∷ []) r s (ok true)
    | false ↦ decode_loop fuel d (fs ++ f ∷ []) r
  ]
]

-- `std::reduce` over `char` with no initial value returns a `char`; the sum is brought back to
-- `uint32_t` with its sign extended.
unfoldable pub narrowed : ℕ → ℕ
narrowed n = let c = n % 256 in if ltb c 128 then c else u32_mod - 256 + c

pub record DecodeResult : Type 0 where
  pub consumed : ℕ
  pub complete : Bool

abbrev pub checksum_after : Message → Bool → ℕ → ℕ
checksum_after m true sum = (m.decode_checksum + narrowed sum) % u32_mod % 256
checksum_after m false sum = (m.decode_checksum + narrowed sum) % u32_mod

abbrev pub finish : Message → Bytes → Scanned → Result Bool → Result DecodeResult × Message
finish m buffer o (err e) = (err e, record m { fields = o.fields })
finish m buffer o (ok done) = (
  ok (record { consumed = length buffer - length o.rest; complete = done }),
  record {
    fields = o.fields;
    decode_checksum =
        checksum_after m done (sum_bytes (take (length buffer - length o.unsummed) buffer));
    decode_checksum_valid = if done then true else m.decode_checksum_valid;
  },
)

unfoldable pub decode : FieldTable → Message → Bytes → Result DecodeResult × Message
unfolding decode_loop sum_bytes narrowed
decode d m buffer =
    let o = decode_loop (suc (length buffer)) d m.fields buffer in finish m buffer o o.complete
