-- ===== src/Report/Alignment.antt =====
-- The text of a report is a table: its lines are as long as each other, and a column's text stands
-- between the same places in each.
use crocofix.Base.{
  ℕ, zero, suc, ◌+◌, ◌-◌, ◌≤◌, ◌≡◌, refl, sym, ap, subst, ◌∙◌, Bool, true, false, Option, none,
  some, List, [], ◌∷◌, ◌++◌, leb, ◌==◌, if◌then◌else◌, arith, length, length-append, take, drop,
  take_exactly, drop_past, get_elem?, replicate, length-replicate, All, All-append, All-get_elem?,
}
use crocofix.Base.Bytes.{Bytes}
use crocofix.Report.{
  Justification, left, right, Column, Report, max, header_rows, widest, cell, or_nothing,
  widest_cell, column_width, column_widths, sum, total_width, padded, space, gap, header_value,
  line_from, header_line, header_lines, row_line, row_lines, separator, lines,
}

length-padded :
    (fill : ℕ) (j : Justification) (w : ℕ) (s : Bytes)
    → length s ≤ w
    → length (padded fill j w s) ≡ w
unfolding padded
length-padded fill left w s h = omega (
  arith,
  h,
  length-append s (replicate (w - length s) fill),
  length-replicate (w - length s) fill,
)
length-padded fill right w s h = omega (
  arith,
  h,
  length-append (replicate (w - length s) fill) s,
  length-replicate (w - length s) fill,
)

-- Every value is within its column's width.
unfoldable Within : (ℕ → Column → Bytes) → ℕ → List Column → List ℕ → Type 0
Within value i [] ws = Unit
Within value i (c ∷ cs) [] = Unit
Within value i (c ∷ cs) (w ∷ ws) = (length (value i c) ≤ w) × Within value (suc i) cs ws

-- The header shows a space where a column has no name, so a column is at least as wide.
unfoldable pub Visible : ℕ → List Column → List (List Bytes) → Type 0
Visible i [] rows = Unit
Visible i (c ∷ cs) rows = (1 ≤ column_width i c rows) × Visible (suc i) cs rows

cell-within : (i : ℕ) (ss : List Bytes) → length (cell i ss) ≤ widest ss
unfolding cell widest
cell-within i [] = omega arith
cell-within zero (s ∷ ss) = ground arith
cell-within (suc i) (s ∷ ss) = let h = cell-within i ss in ground (arith, h)

-- Every column's cell of the row is within the widest of the rows.
unfoldable Covered : List (List Bytes) → List Bytes → Type 0
Covered rows row = (i : ℕ) → length (cell i row) ≤ widest_cell i rows

covered : (rows : List (List Bytes)) → All (Covered rows) rows
unfolding widest_cell Covered
covered [] = tt
covered (row ∷ rows) = ((λ i. ground arith), grow rows (covered rows))
  where
    grow : (xs : List (List Bytes)) → All (Covered rows) xs → All (Covered (row ∷ rows)) xs
    grow [] h = tt
    grow (x ∷ xs) h = (
      (λ i. wider (length (cell i row)) (widest_cell i rows) (length (cell i x)) (h.0 i)),
      grow xs h.1,
    )
      where
        wider : (a b n : ℕ) → n ≤ b → n ≤ max a b
        wider a b n h = ground (arith, h)

row-Within :
    (rows : List (List Bytes)) (row : List Bytes)
    → Covered rows row
    → (i : ℕ) (cs : List Column) → Within (λ i c. cell i row) i cs (column_widths i cs rows)
unfolding Covered Within column_widths column_width
row-Within rows row h i [] = tt
row-Within rows row h i (c ∷ cs) =
    let k = h i in (ground (arith, k), row-Within rows row h (suc i) cs)

header_value-within :
    (n k w : ℕ) (name : List Bytes) → widest name ≤ w → 1 ≤ w → length (header_value n k name) ≤ w
unfolding header_value
header_value-within n k w name h l = by_tests (length name == n) (leb (n - k) (length name))
  where
    by_tests :
        (a b : Bool)
        → length
            (if a then cell k name else if b then cell (k - (n - length name)) name else space ∷ [])
          ≤ w
    by_tests true b = omega (arith, h, cell-within k name)
    by_tests false true = omega (arith, h, cell-within (k - (n - length name)) name)
    by_tests false false = l

header-Within :
    (n k : ℕ) (rows : List (List Bytes)) (i : ℕ) (cs : List Column)
    → Visible i cs rows
    → Within (λ i c. header_value n k c.name) i cs (column_widths i cs rows)
unfolding Visible Within column_widths column_width
header-Within n k rows i [] v = tt
header-Within n k rows i (c ∷ cs) v =
    (header_value-within n k _ c.name (ground arith) v.0, header-Within n k rows (suc i) cs v.1)

length-line_from :
    (value : ℕ → Column → Bytes) (i : ℕ) (cs : List Column) (rows : List (List Bytes))
    → Within value i cs (column_widths i cs rows)
    → length (line_from value i cs (column_widths i cs rows))
      ≡ total_width (column_widths i cs rows)
unfolding Within line_from column_widths total_width sum
length-line_from value i [] rows h = refl
length-line_from value i (c ∷ []) rows h = omega (
  arith,
  length-padded space c.justification (column_width i c rows) (value i c) h.0,
  length-append (padded space c.justification (column_width i c rows) (value i c)) [],
)
length-line_from value i (c ∷ b ∷ cs) rows h =
    let w = column_width i c rows in
    let rest = line_from value (suc i) (b ∷ cs) (column_widths (suc i) (b ∷ cs) rows) in
    let p = padded space c.justification w (value i c) in
    let l : length p ≡ w = length-padded space c.justification w (value i c) h.0 in
    let k : length rest ≡ total_width (column_widths (suc i) (b ∷ cs) rows) =
      length-line_from value (suc i) (b ∷ cs) rows h.1 in
    omega (arith, l, k, length-append p (space ∷ space ∷ rest))

-- As long as the separators.
abbrev pub Full : Report → Bytes → Type 0
Full r s = length s ≡ total_width (column_widths 0 r.columns r.rows)

wide :
    (cs : List Column) (rows : List (List Bytes))
    → 1 ≤ length cs
    → Visible 0 cs rows
    → 1 ≤ total_width (column_widths 0 cs rows)
unfolding Visible column_widths total_width sum
wide [] rows h v = absurd (omega (arith, h))
wide (c ∷ cs) rows h v = omega (arith, v.0)

module _ (r : Report) where
  header_lines-Full : Visible 0 r.columns r.rows → (k n : ℕ) → All (Full r) (header_lines r k n)
  unfolding header_lines header_line
  header_lines-Full v k zero = tt
  header_lines-Full v k (suc n) = (
    length-line_from _ 0 r.columns r.rows
        (header-Within (header_rows r.columns) k r.rows 0 r.columns v),
    header_lines-Full v (suc k) n,
  )

  row_lines-Full :
      (rows : List (List Bytes)) → All (Covered r.rows) rows → All (Full r) (row_lines r rows)
  unfolding row_lines row_line
  row_lines-Full [] h = tt
  row_lines-Full (row ∷ rows) h = (
    length-line_from _ 0 r.columns r.rows (row-Within r.rows row h.0 0 r.columns),
    row_lines-Full rows h.1,
  )

  -- Every line that a report prints, the separators, the lines of the header and the rows, has the width of
  -- all columns and of the two spaces between them, whether a row has as many cells as there are columns,
  -- fewer or more. There is a column, and none is of width 0.
  pub lines-Full : 1 ≤ length r.columns → Visible 0 r.columns r.rows → All (Full r) (lines r)
  unfolding lines separator
  lines-Full n v =
      let s : Full r (separator r) =
        length-padded b'-' left (total_width (column_widths 0 r.columns r.rows)) (b'-' ∷ [])
          (wide r.columns r.rows n v) in
      All-append (Full r) (separator r ∷ header_lines r 0 (header_rows r.columns))
        (separator r ∷ (row_lines r r.rows ++ separator r ∷ []))
        (s, header_lines-Full v 0 (header_rows r.columns))
        (
          s,
          All-append (Full r) (row_lines r r.rows) (separator r ∷ [])
              (row_lines-Full r.rows (covered r.rows)) (s, tt),
        )

-- Where a column begins in a line.
unfoldable pub column_offset : ℕ → List ℕ → ℕ
column_offset zero ws = 0
column_offset (suc k) [] = 0
column_offset (suc k) (w ∷ ws) = w + (2 + column_offset k ws)

column_at :
    (value : ℕ → Column → Bytes) (rows : List (List Bytes)) (k i j : ℕ) (cs : List Column)
    (c : Column)
    → get_elem? cs k ≡ some c
    → j ≡ i + k
    → Within value i cs (column_widths i cs rows)
    → take (column_width j c rows) (
        drop
          (column_offset k (column_widths i cs rows))
          (line_from value i cs (column_widths i cs rows)))
      ≡ padded space c.justification (column_width j c rows) (value j c)
unfolding column_widths line_from column_offset Within
column_at value rows k i j [] c e q h = absurd (cc e)
column_at value rows zero i j (b ∷ cs) c e q h =
    let same : b ≡ c = cc e in
    let at_i : j ≡ i = omega (arith, q) in
    rw⁻¹ same (
      rw at_i (
        take_exactly (column_width i b rows)
          (padded space b.justification (column_width i b rows) (value i b))
          (gap cs ++ line_from value (suc i) cs (column_widths (suc i) cs rows))
          (length-padded space b.justification (column_width i b rows) (value i b) h.0)))
column_at value rows (suc k) i j (b ∷ []) c e q h = absurd (cc e)
column_at value rows (suc k) i j (b ∷ a ∷ cs) c e q h =
    let w = column_width i b rows in
    let p = padded space b.justification w (value i b) in
    let more = line_from value (suc i) (a ∷ cs) (column_widths (suc i) (a ∷ cs) rows) in
    let o = column_offset k (column_widths (suc i) (a ∷ cs) rows) in
    rw
      (
        drop_past w (2 + o) p (space ∷ space ∷ more)
            (length-padded space b.justification w (value i b) h.0),
        drop_past 2 o (space ∷ space ∷ []) more refl,
      )
      (column_at value rows k (suc i) j (a ∷ cs) c e (omega (arith, q)) h.1)

-- The text of a column of `width` places: what stands there and the spaces around it.
abbrev pub Justified : Justification → ℕ → Bytes → Bytes → Type 0
Justified left width s t = t ≡ s ++ replicate (width - length s) b' '
Justified right width s t = t ≡ replicate (width - length s) b' ' ++ s

padded-Justified : (j : Justification) (w : ℕ) (s : Bytes) → Justified j w s (padded space j w s)
unfolding padded
padded-Justified left w s = refl
padded-Justified right w s = refl

-- What a row has at an index.
abbrev pub found : Option Bytes → Bytes
found none = []
found (some s) = s

cell-found : (k : ℕ) (row : List Bytes) → cell k row ≡ found (get_elem? row k)
unfolding cell
cell-found k row = by_case (get_elem? row k)
  where
    by_case : (o : Option Bytes) → or_nothing o ≡ found o
    by_case none = refl
    by_case (some s) = refl

-- A row's cells stand in their columns: behind the widths of the columns in front, and two spaces for each, a
-- line has the row's cell, or nothing where the row is shorter, filled up with spaces on the side
-- that the column's justification says.
pub row_line-column :
    (r : Report) (n k : ℕ) (row : List Bytes) (c : Column)
    → get_elem? r.rows n ≡ some row
    → get_elem? r.columns k ≡ some c
    → Justified c.justification (column_width k c r.rows) (found (get_elem? row k)) (
        take
          (column_width k c r.rows)
          (drop (column_offset k (column_widths 0 r.columns r.rows)) (row_line r row)))
unfolding row_line
row_line-column r n k row c e f =
    let w = column_width k c r.rows in
    let at =
      column_at (λ i c. cell i row) r.rows k 0 k r.columns c f (omega arith)
        (row-Within r.rows row (All-get_elem? (Covered r.rows) r.rows n row (covered r.rows) e) 0
          r.columns) in
    subst (Justified c.justification w (found (get_elem? row k)))
      (sym (at ∙ ap (padded space c.justification w) (cell-found k row)))
      (padded-Justified c.justification w (found (get_elem? row k)))
