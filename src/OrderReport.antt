-- ===== src/OrderReport.antt =====
-- libcrocofix/order_report.cppm and libcrocofix/order_report.cpp.
pub mod Rows
mod Examples
use crocofix.Base.{
  ℕ, Bool, true, false, not, ◌&&◌, ◌||◌, Option, none, some, List, [], ◌∷◌, ◌++◌, ltb, ◌==◌,
  if◌then◌else◌,
}
use crocofix.Base.Bytes.{Bytes, codes, bytes_eq}
use crocofix.Field.{Field, Fields, try_get, try_get_or_default}
use crocofix.Dictionary.{OrchestrationField, is_numeric, value_name}
use crocofix.Order.{Order, is_identity_field}
use crocofix.OrderBook.{OrderBook}
use crocofix.Report
use crocofix.Report.{Report, Column, Justification, left, right, column}

pub record OrderReport : Type 0 where
  pub fields : List OrchestrationField
  pub report : Report

abbrev justified : OrchestrationField → Justification
justified f = if is_numeric f then right else left

-- `split` is `boost::split`, of which the columns of a report are made.
unfoldable pub columns_of : (Bytes → List Bytes) → List OrchestrationField → List Column
unfolding is_numeric
columns_of split [] = []
columns_of split (f ∷ fs) = column split f.name (justified f) ∷ columns_of split fs

unfoldable pub order_report : (Bytes → List Bytes) → List OrchestrationField → OrderReport
unfolding columns_of
order_report split fs = record {
  fields = fs;
  report = record { columns = columns_of split fs; rows = [] };
}

-- A value by its name, if it has one.
abbrev pub or_name : Bytes → Bytes → Bytes
or_name v [] = v
or_name v (b ∷ name) = b ∷ name

unfoldable pub shown : OrchestrationField → Bytes → Bytes
unfolding value_name
shown f v = or_name v (value_name f.values v)

-- The pending value behind the current one, if it is another.
abbrev pub pending_cell : OrchestrationField → Bytes → Option Field → Bytes
pending_cell f v none = shown f v
pending_cell f v (some p) =
    if not (bytes_eq v p.value) && not (is_identity_field f.tag)
    then shown f v ++ (codes " (" ++ shown f p.value ++ codes ")")
    else shown f v

unfoldable pub cell : Order → OrchestrationField → Bytes
unfolding shown
cell o f =
    pending_cell f (try_get_or_default f.tag [] o.fields).value (try_get f.tag o.pending_fields)

unfoldable pub row : List OrchestrationField → Order → List Bytes
unfolding cell
row [] o = []
row (f ∷ fs) o = cell o f ∷ row fs o

-- `operator<` of strings compares bytes.
unfoldable pub bytes_less : Bytes → Bytes → Bool
bytes_less s [] = false
bytes_less [] (b ∷ t) = true
bytes_less (a ∷ s) (b ∷ t) = ltb a b || ((a == b) && bytes_less s t)

unfoldable pub insert : Bytes × Order → List (Bytes × Order) → List (Bytes × Order)
unfolding bytes_less
insert x [] = x ∷ []
insert x (y ∷ ys) = if bytes_less x.0 y.0 then x ∷ y ∷ ys else y ∷ insert x ys

-- The orders as the `std::map` of the book iterates over them, the keys ascending.
unfoldable pub in_key_order : List (Bytes × Order) → List (Bytes × Order)
unfolding insert
in_key_order [] = []
in_key_order (x ∷ xs) = insert x (in_key_order xs)

unfoldable pub rows_of : List OrchestrationField → List (Bytes × Order) → List (List Bytes)
unfolding row
rows_of fs [] = []
rows_of fs ((k, o) ∷ os) = row fs o ∷ rows_of fs os

unfoldable pub fill : OrderReport → OrderBook → OrderReport
unfolding rows_of in_key_order
fill r b = record r {
  report = record { columns = r.report.columns; rows = rows_of r.fields (in_key_order b.orders) };
}

-- The text printed and the report, which keeps the rows till the next call.
unfoldable pub print : OrderReport → OrderBook → Bytes × OrderReport
unfolding fill Report.print
print r b = let q = fill r b in (Report.print q.report, q)
