-- ===== src/Report.antt =====
-- libcrocofixutility/report.cppm and libcrocofixutility/report.cpp: a table, and its text. The sizes
-- that the code narrows to `int` are below 2^31 here.
pub mod Alignment
mod Examples
use crocofix.Base.{
  ℕ, zero, suc, ◌+◌, ◌-◌, ◌*◌, Bool, true, false, Option, none, some, List, [], ◌∷◌, ◌++◌, ltb, leb,
  ◌==◌, if◌then◌else◌, length, get_elem?, replicate,
}
use crocofix.Base.Bytes.{Bytes, text}

pub data Justification : Type 0 where
  left right : Justification

-- The name is kept whole and in the lines that it is printed on.
pub record Column : Type 0 where
  pub raw_name : Bytes
  pub name : List Bytes
  pub justification : Justification

-- `split` is `boost::split` at line ends, the runs of them compressed.
abbrev pub column : (Bytes → List Bytes) → Bytes → Justification → Column
column split name j = record { raw_name = name; name = split name; justification = j }

pub record Report : Type 0 where
  pub columns : List Column
  pub rows : List (List Bytes)

abbrev pub max : ℕ → ℕ → ℕ
max a b = if ltb a b then b else a

-- `column_header_rows`
unfoldable pub header_rows : List Column → ℕ
header_rows [] = 0
header_rows (c ∷ cs) = max (length c.name) (header_rows cs)

unfoldable pub widest : List Bytes → ℕ
widest [] = 0
widest (s ∷ ss) = max (length s) (widest ss)

-- `row[index]`, and nothing behind the row's end.
abbrev pub or_nothing : Option Bytes → Bytes
or_nothing none = []
or_nothing (some s) = s

unfoldable pub cell : ℕ → List Bytes → Bytes
cell index row = or_nothing (get_elem? row index)

unfoldable pub widest_cell : ℕ → List (List Bytes) → ℕ
unfolding cell
widest_cell index [] = 0
widest_cell index (row ∷ rows) = max (length (cell index row)) (widest_cell index rows)

unfoldable pub column_width : ℕ → Column → List (List Bytes) → ℕ
unfolding widest widest_cell
column_width index c rows = max (widest c.name) (widest_cell index rows)

unfoldable pub column_widths : ℕ → List Column → List (List Bytes) → List ℕ
unfolding column_width
column_widths index [] rows = []
column_widths index (c ∷ cs) rows = column_width index c rows ∷ column_widths (suc index) cs rows

unfoldable pub sum : List ℕ → ℕ
sum [] = 0
sum (n ∷ ns) = n + sum ns

-- With two spaces between the columns.
unfoldable pub total_width : List ℕ → ℕ
unfolding sum
total_width [] = 0
total_width (n ∷ ns) = length ns * 2 + sum (n ∷ ns)

-- `std::setw` and `operator<<` with the fill character.
unfoldable pub padded : ℕ → Justification → ℕ → Bytes → Bytes
padded fill left width s = s ++ replicate (width - length s) fill
padded fill right width s = replicate (width - length s) fill ++ s

abbrev pub space : ℕ
space = b' '

-- The spaces behind a column, which the last has not.
abbrev pub gap : List Column → Bytes
gap [] = []
gap (c ∷ cs) = space ∷ space ∷ []

-- What a header line shows of a name: names stand at the bottom of the header.
unfoldable pub header_value : ℕ → ℕ → List Bytes → Bytes
unfolding cell
header_value lines index name =
    if length name == lines
    then cell index name
    else if leb (lines - index) (length name)
    then cell (index - (lines - length name)) name
    else space ∷ []

-- A line of the table: what `value` gives for each column, in the column's width.
unfoldable pub line_from : (ℕ → Column → Bytes) → ℕ → List Column → List ℕ → Bytes
unfolding padded
line_from value index (c ∷ cs) (w ∷ ws) =
    padded space c.justification w (value index c) ++ (gap cs ++ line_from value (suc index) cs ws)
line_from value index cs ws = []

unfoldable pub header_line : Report → ℕ → Bytes
unfolding header_rows header_value line_from column_widths
header_line r header_index =
    line_from (λ i c. header_value (header_rows r.columns) header_index c.name) 0 r.columns
      (column_widths 0 r.columns r.rows)

unfoldable pub header_lines : Report → ℕ → ℕ → List Bytes
unfolding header_line
header_lines r header_index zero = []
header_lines r header_index (suc n) =
    header_line r header_index ∷ header_lines r (suc header_index) n

unfoldable pub row_line : Report → List Bytes → Bytes
unfolding line_from cell column_widths
row_line r row = line_from (λ i c. cell i row) 0 r.columns (column_widths 0 r.columns r.rows)

unfoldable pub row_lines : Report → List (List Bytes) → List Bytes
unfolding row_line
row_lines r [] = []
row_lines r (row ∷ rows) = row_line r row ∷ row_lines r rows

unfoldable pub separator : Report → Bytes
unfolding padded total_width column_widths
separator r = padded b'-' left (total_width (column_widths 0 r.columns r.rows)) (b'-' ∷ [])

-- The lines that `operator<<` prints.
unfoldable pub lines : Report → List Bytes
unfolding separator header_lines row_lines header_rows
lines r =
    (separator r ∷ header_lines r 0 (header_rows r.columns))
    ++ (separator r ∷ (row_lines r r.rows ++ separator r ∷ []))

unfoldable pub with_newlines : List Bytes → Bytes
with_newlines [] = []
with_newlines (s ∷ ss) = s ++ (b'\n' ∷ with_newlines ss)

-- `operator<<`
unfoldable pub print : Report → Bytes
unfolding lines with_newlines
print r = with_newlines (lines r)
