-- ===== src/Field/Examples.antt =====
-- The theorems about field collections on two fields.
use crocofix.Base.{arith, ◌+◌, ◌≡◌, ◌↔◌, false, some, none, [], ◌∷◌, ◌==◌, if◌then◌else◌, length}
use crocofix.Base.Bytes.{codes}
use crocofix.Field.{
  remove, remove_first, remove_all, Field, Fields, field, try_get, set, overwrite, replace_first,
  replace_first_or_append,
}
use crocofix.Field.Removal.{try_get-remove_all, try_get-remove_first}
use crocofix.Field.Collection.{try_get-set, set-replace_first}

abbrev two_fields : Fields
two_fields = field 35 (codes "D") ∷ field 11 (codes "A") ∷ []

abbrev another : Field
another = field 11 (codes "B")

try_get-set_example :
    try_get 11 (set another replace_first_or_append two_fields).1
    ≡ (if another.tag == 11 then some another else try_get 11 two_fields)
try_get-set_example = try_get-set 11 another two_fields

set_replaced :
    ((set another replace_first two_fields).1 ≡ overwrite another two_fields)
    × (length (set another replace_first two_fields).1 ≡ length two_fields)
    × ((set another replace_first two_fields).0 ≡ false ↔ try_get another.tag two_fields ≡ none)
set_replaced = set-replace_first another two_fields

sides_removed :
    try_get 11 (remove 11 remove_all two_fields).1
    ≡ (if 11 == 11 then none else try_get 11 two_fields)
sides_removed = try_get-remove_all 11 11 two_fields

side_removed :
    (try_get 35 (remove 11 remove_first two_fields).1 ≡ try_get 35 two_fields)
    × (length (remove 11 remove_first two_fields).1
          + (if (remove 11 remove_first two_fields).0 then 1 else 0)
        ≡ length two_fields)
side_removed = try_get-remove_first 11 35 two_fields (λ e. omega (arith, e))
