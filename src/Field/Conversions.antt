-- ===== src/Field/Conversions.antt =====
-- The constructors of libcrocofix/field.cpp, the overloads of libcrocofix/field_collection.cpp that convert
-- a value, and `timestamp_string`. A `double` is not modelled.
use crocofix.Base.{
  ℕ, suc, ◌+◌, ◌/◌, ◌%◌, ◌≡◌, refl, ap, ◌∙◌, ◌==◌, if◌then◌else◌, arith, Bool, true, false, Option,
  none, some, [], ◌∷◌, ◌++◌,
}
use crocofix.Base.Bytes.{Bytes, ℤ, pos, negsuc, text, to_string, bytes_eq}
use crocofix.Base.Exec.{Result, ok, err, runtime_error}
use crocofix.Field.{
  Field, Fields, field, bool_value, SetOperation, replace_first_or_append, try_get, set, get_bool,
  flag_value,
}
use crocofix.Field.Collection.{try_get-set}

-- `std::to_string` of a signed integer.
unfoldable pub signed_string : ℤ → Bytes
unfolding to_string
signed_string (pos n) = to_string n
signed_string (negsuc n) = b'-' ∷ to_string (suc n)

-- `field(int, bool)`, and the constructors from unsigned and from signed integers of any width.
abbrev pub bool_field : ℕ → Bool → Field
bool_field t v = field t (bool_value v)

unfoldable pub unsigned_field : ℕ → ℕ → Field
unfolding to_string
unsigned_field t v = field t (to_string v)

unfoldable pub signed_field : ℕ → ℤ → Field
unfolding signed_string
signed_field t v = field t (signed_string v)

-- `field::operator==`
unfoldable pub same_value : Field → Field → Bool
unfolding bytes_eq
same_value f g = bytes_eq f.value g.value

-- `set` of a text, an unsigned number, a signed number and a flag.
unfoldable pub set_text : ℕ → Bytes → SetOperation → Fields → Bool × Fields
unfolding set
set_text t v op fs = set (field t v) op fs

unfoldable pub set_unsigned : ℕ → ℕ → SetOperation → Fields → Bool × Fields
unfolding set_text to_string
set_unsigned t v op fs = set_text t (to_string v) op fs

unfoldable pub set_signed : ℕ → ℤ → SetOperation → Fields → Bool × Fields
unfolding set_text signed_string
set_signed t v op fs = set_text t (signed_string v) op fs

unfoldable pub set_bool : ℕ → Bool → SetOperation → Fields → Bool × Fields
unfolding set_text
set_bool t v op fs = set_text t (bool_value v) op fs

abbrev or_field : Option Field → Field → Field
or_field none g = g
or_field (some f) g = f

-- `try_get_or_default` with a field, and with an unsigned number.
unfoldable pub try_get_or_field : ℕ → Field → Fields → Field
unfolding try_get
try_get_or_field t g fs = or_field (try_get t fs) g

unfoldable pub try_get_or_unsigned : ℕ → ℕ → Fields → Field
unfolding try_get_or_field unsigned_field
try_get_or_unsigned t v fs = try_get_or_field t (unsigned_field t v) fs

pub data TimestampFormat : Type 0 where
  seconds milliseconds : TimestampFormat
  other_format : ℤ → TimestampFormat

-- `std::format(".{:03}", …)` of a number below 1000.
abbrev pub fraction : ℕ → Bytes
fraction n = b'.' ∷ (b'0' + n / 100) ∷ (b'0' + n / 10 % 10) ∷ (b'0' + n % 10) ∷ []

-- `now` is the time in UTC as `put_time` writes it, and `since_epoch` are its milliseconds.
unfoldable pub timestamp_string : Bytes → ℕ → TimestampFormat → Result Bytes
unfolding signed_string
timestamp_string now since_epoch seconds = ok now
timestamp_string now since_epoch milliseconds = ok (now ++ fraction (since_epoch % 1000))
timestamp_string now since_epoch (other_format n) =
    err (runtime_error (text "unsupported timestamp format " ++ signed_string n))

-- A flag that was set is read back.
pub get_bool-set_bool :
    (t : ℕ) (v : Bool) (fs : Fields) → get_bool t (set_bool t v replace_first_or_append fs).1 ≡ ok v
unfolding get_bool set_bool set_text bytes_eq
get_bool-set_bool t v fs = ap flag_value (try_get-set t (field t (bool_value v)) fs) ∙ read v
  where
    same : (t == t) ≡ true
    same = ground arith

    read :
        (w : Bool)
        → flag_value (if t == t then some (field t (bool_value w)) else try_get t fs) ≡ ok w
    read true = rw same refl
    read false = rw same refl
