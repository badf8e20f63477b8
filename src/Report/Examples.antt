-- ===== src/Report/Examples.antt =====
-- A report of two columns and two rows, one of them short.
use crocofix.Base.{◌≡◌, refl, [], ◌∷◌, ◌++◌, arith, take, drop, All}
use crocofix.Base.Lists.{replicate}
use crocofix.Base.Bytes.{Bytes, codes}
use crocofix.Report.{
  left, right, Column, Report, header_rows, widest, cell, widest_cell, column_width, column_widths,
  total_width, sum, padded, row_line, lines, print, header_lines, header_line, header_value,
  row_lines, line_from, separator, with_newlines,
}
use crocofix.Report.Alignment.{Full, Visible, lines-Full, column_offset, Justified, row_line-column}

abbrev qty : Column
qty = record { raw_name = codes "Qty"; name = codes "Qty" ∷ []; justification = right }

abbrev side : Column
side = record { raw_name = codes "Side"; name = codes "Si" ∷ codes "de" ∷ []; justification = left }

abbrev orders : Report
orders = record {
  columns = side ∷ qty ∷ [];
  rows = (codes "Buy" ∷ codes "1000" ∷ []) ∷ (codes "Sell" ∷ []) ∷ [];
}

abbrev newline : Bytes
newline = b'\n' ∷ []

printed :
    print orders
    ≡ codes "----------"
      ++ newline
      ++ codes "Si        "
      ++ newline
      ++ codes "de     Qty"
      ++ newline
      ++ codes "----------"
      ++ newline
      ++ codes "Buy   1000"
      ++ newline
      ++ codes "Sell      "
      ++ newline
      ++ codes "----------"
      ++ newline
unfolding replicate print lines header_lines header_line header_value header_rows row_lines row_line
    line_from cell column_widths column_width widest widest_cell total_width sum padded separator
    with_newlines
printed = refl

visible : Visible 0 orders.columns orders.rows
unfolding Visible column_width widest widest_cell cell
visible = omega arith

lines-Full_example : All (Full orders) (lines orders)
lines-Full_example = lines-Full orders (omega arith) visible

row_line-column_example : Justified right (column_width 1 qty orders.rows) [] (
    take (column_width 1 qty orders.rows) (
      drop
        (column_offset 1 (column_widths 0 orders.columns orders.rows))
        (row_line orders (codes "Sell" ∷ []))))
row_line-column_example = row_line-column orders 1 1 (codes "Sell" ∷ []) qty refl refl
