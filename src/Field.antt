-- ===== src/Field.antt =====
-- libcrocofix/field.cppm, libcrocofix/field_collection.cppm and libcrocofix/field_collection.cpp.
-- A tag is a natural number: the decoder stores no negative one. Each overload of `set` builds a
-- `field` and calls the one below; a `const char*`, a string and a dictionary value are bytes here.
pub mod Conversions
pub mod Collection
pub mod Removal
mod Examples
use crocofix.Base.{
  ℕ, ◌≡◌, Bool, true, false, Option, none, some, List, [], ◌∷◌, ◌++◌, ◌==◌, if◌then◌else◌,
}
use crocofix.Base.Bytes.{Bytes, text, bytes_eq, to_string}
use crocofix.Base.Exec.{Result, ok, err, out_of_range, runtime_error}

pub record Field : Type 0 where
  pub tag : ℕ
  pub value : Bytes

abbrev pub field : ℕ → Bytes → Field
field t v = record { tag = t; value = v }

abbrev pub bool_value : Bool → Bytes
bool_value b = if b then b'Y' ∷ [] else b'N' ∷ []

pub data SetOperation : Type 0 where
  replace_first replace_first_or_append append : SetOperation

pub data RemoveOperation : Type 0 where
  remove_first remove_all : RemoveOperation

abbrev pub Fields : Type 0
Fields = List Field

-- `std::ranges::find_if` for a tag.
unfoldable pub try_get : ℕ → Fields → Option Field
try_get t [] = none
try_get t (f ∷ fs) = if f.tag == t then some f else try_get t fs

-- `*existing = field` at the first field with the tag.
unfoldable pub overwrite : Field → Fields → Fields
overwrite f [] = []
overwrite f (g ∷ fs) = if g.tag == f.tag then f ∷ fs else g ∷ overwrite f fs

-- The branches of `set` on what the search found.
abbrev pub set_at : Option Field → Field → SetOperation → Fields → Bool × Fields
set_at (some g) f op fs = (true, overwrite f fs)
set_at none f replace_first_or_append fs = (true, fs ++ f ∷ [])
set_at none f _ fs = (false, fs)

-- Whether a field was added or changed, and the new fields.
unfoldable pub set : Field → SetOperation → Fields → Bool × Fields
unfolding overwrite
set f append fs = (true, fs ++ f ∷ [])
set f replace_first fs = set_at (try_get f.tag fs) f replace_first fs
set f replace_first_or_append fs = set_at (try_get f.tag fs) f replace_first_or_append fs

abbrev pub found : ℕ → Option Field → Result Field
found t (some f) = ok f
found t none =
    err (out_of_range (text "field collection does not contain a field with Tag " ++ to_string t))

unfoldable pub get : ℕ → Fields → Result Field
get t fs = found t (try_get t fs)

unfoldable pub try_get_or_default : ℕ → Bytes → Fields → Field
try_get_or_default t v fs = elim (try_get t fs) [ none ↦ field t v | some f ↦ f ]

abbrev pub flag_value : Option Field → Result Bool
flag_value none = ok false
flag_value (some f) =
    if bytes_eq f.value (bool_value true)
    then ok true
    else if bytes_eq f.value (bool_value false)
    then ok false
    else err (
        runtime_error (
          text "field does not contain a valid boolean value "
          ++ to_string f.tag
          ++ text "="
          ++ f.value))

unfoldable pub get_bool : ℕ → Fields → Result Bool
get_bool t fs = flag_value (try_get t fs)

-- `erase` of the first field with the tag.
unfoldable pub erase_first : ℕ → Fields → Fields
erase_first t [] = []
erase_first t (f ∷ fs) = if f.tag == t then fs else f ∷ erase_first t fs

-- `std::ranges::remove_if` and the `erase` of what it leaves behind.
unfoldable pub erase_all : ℕ → Fields → Fields
erase_all t [] = []
erase_all t (f ∷ fs) = let rest = erase_all t fs in if f.tag == t then rest else f ∷ rest

abbrev pub erase_by : RemoveOperation → ℕ → Fields → Fields
erase_by remove_first = erase_first
erase_by remove_all = erase_all

abbrev pub remove_at : Option Field → RemoveOperation → ℕ → Fields → Bool × Fields
remove_at none op t fs = (false, fs)
remove_at (some f) op t fs = (true, erase_by op t fs)

-- Whether a field was removed, and the fields that are left. For either operation nothing is
-- removed exactly when the search for the tag reaches the end.
unfoldable pub remove : ℕ → RemoveOperation → Fields → Bool × Fields
remove t op fs = remove_at (try_get t fs) op t fs
