-- ===== src/Formulas/Usage.antt =====
-- The present cells of a book by sheet and column, `SheetUsage` of formulas/csr.py, and the cells of
-- a rectangle. `casefold` is Python's, a parameter.
pub mod Pairs
pub mod Index
pub mod First
use finance_context_builder.Base.{
  ℕ, zero, suc, ◌+◌, ◌-◌, min, max, Bool, true, false, ◌&&◌, ◌||◌, List, [], ◌∷◌, ◌++◌, leb, ltb,
  if◌then◌else◌, Option, none, some,
}
use finance_context_builder.Base.Eq.{◌==◌, nat_eq, list_eq}
use finance_context_builder.Base.Dict.{Dict, get, put, append_at}
use finance_context_builder.Base.Text.{Text}
use finance_context_builder.Formulas.Spans.{
  Span, merge_spans, sort_spans, span_overlap, first_span_row,
}
use finance_context_builder.Formulas.RunTables.{run_lengths}

-- Column to runs of rows.
abbrev pub Columns : Type 0
Columns = Dict ℕ (List Span)

pub record SheetUsage : Type 0 where
  pub rows_by_col : Dict Text Columns
  pub canonical : Dict Text Text

-- `.get(sheet, {})`
abbrev pub columns_at : Dict Text Columns → Text → Columns
columns_at tables sheet = elim (get tables sheet) [ none ↦ [] | some columns ↦ columns ]

-- a run of `sheet_usage_spans`: sheet, column, start, end
abbrev pub Placed : Type 0
Placed = Text × ℕ × ℕ × ℕ

-- `if start > end: start, end = end, start`
abbrev pub ordered : ℕ → ℕ → Span
ordered start end = if ltb end start then (end, start) else (start, end)

-- `d.setdefault(k, v)`
abbrev pub set_default : Dict Text Text → Text → Text → Dict Text Text
set_default d k v = elim (get d k) [ none ↦ put d k v | some old ↦ d ]

unfoldable pub merge_columns : Columns → Columns
merge_columns [] = []
merge_columns ((col, items) ∷ rest) = (col, merge_spans items) ∷ merge_columns rest

unfoldable pub merge_sheets : Dict Text Columns → Dict Text Columns
unfolding merge_columns
merge_sheets [] = []
merge_sheets ((sheet, cols) ∷ rest) = (sheet, merge_columns cols) ∷ merge_sheets rest

-- `by_col.setdefault(sheet, {}).setdefault(col, []).append((start, end))`
unfoldable pub place : Dict Text Columns → Placed → Dict Text Columns
unfolding append_at
place by_col (sheet, col, start, end) =
    put by_col sheet (append_at (columns_at by_col sheet) col (ordered start end))

unfoldable pub place_all : List Placed → Dict Text Columns → Dict Text Columns
unfolding place
place_all [] by_col = by_col
place_all (x ∷ xs) by_col = place_all xs (place by_col x)

unfoldable pub columns_length : Columns → ℕ
unfolding run_lengths
columns_length [] = 0
columns_length ((col, spans) ∷ rest) = run_lengths spans + columns_length rest

unfoldable pub sheets_length : Dict Text Columns → ℕ
unfolding columns_length
sheets_length [] = 0
sheets_length ((sheet, cols) ∷ rest) = columns_length cols + sheets_length rest

unfoldable pub present_cell_count : SheetUsage → ℕ
unfolding sheets_length
present_cell_count usage = sheets_length usage.rows_by_col

-- Bounds of a rectangle: c1, c2, r1, r2.
abbrev pub Rectangle : Type 0
Rectangle = ℕ × ℕ × ℕ × ℕ

abbrev pub in_columns : Rectangle → ℕ → Bool
in_columns box col = leb box.0 col && leb col box.1

-- the sum of `_present_count` over the columns
unfoldable pub count_columns : Rectangle → Columns → ℕ
count_columns box [] = 0
count_columns box ((col, spans) ∷ rest) =
    let more = count_columns box rest in
    if in_columns box col then span_overlap spans box.2 box.3 + more else more

-- `row < best[0] or (row == best[0] and col < best[1])`
abbrev pub is_before : ℕ → ℕ → Option (ℕ × ℕ) → Bool
is_before row col none = true
is_before row col (some best) = ltb row best.0 || row == best.0 && ltb col best.1

-- the loop of `_first_present`
unfoldable pub first_column : Rectangle → Columns → Option (ℕ × ℕ) → Option (ℕ × ℕ)
first_column box [] best = best
first_column box ((col, spans) ∷ rest) best = elim (in_columns box col) [
  | false ↦ first_column box rest best
  | true ↦ elim (first_span_row spans box.2 box.3) [
    | none ↦ first_column box rest best
    | some row ↦ first_column box rest (if is_before row col best then some (row, col) else best)
  ]
]

-- `for row in range(lo, hi + 1): found.append((row, col))`, by the number of rows
unfoldable pub rows_of : ℕ → ℕ → ℕ → List (ℕ × ℕ)
rows_of row zero col = []
rows_of row (suc count) col = (row, col) ∷ rows_of (row + 1) count col

-- the loop of `_present_pairs` over the runs of a column
unfoldable pub column_pairs : ℕ → ℕ → ℕ → List Span → List (ℕ × ℕ)
unfolding rows_of
column_pairs col r1 r2 [] = []
column_pairs col r1 r2 ((start, end) ∷ rest) =
    let lo = if ltb r1 start then start else r1 in
    let hi = if ltb end r2 then end else r2 in
    let more = column_pairs col r1 r2 rest in
    if ltb hi lo then more else rows_of lo (hi + 1 - lo) col ++ more

unfoldable pub all_pairs : Rectangle → Columns → List (ℕ × ℕ)
unfolding column_pairs
all_pairs box [] = []
all_pairs box ((col, spans) ∷ rest) =
    let more = all_pairs box rest in
    if in_columns box col then column_pairs col box.2 box.3 spans ++ more else more

module _ (casefold : Text → Text) where
  -- the spellings, by their folded names
  unfoldable pub spellings : List Placed → Dict Text Text → Dict Text Text
  spellings [] canonical = canonical
  spellings ((sheet, col, start, end) ∷ rest) canonical =
      spellings rest (set_default canonical (casefold sheet) sheet)

  unfoldable pub sheet_usage_spans : List Placed → SheetUsage
  unfolding place_all merge_sheets spellings
  sheet_usage_spans spans = record {
    rows_by_col = merge_sheets (place_all spans []);
    canonical = spellings spans [];
  }

  unfoldable pub sheet_name : SheetUsage → Text → Text
  sheet_name usage sheet = elim (get usage.canonical (casefold sheet)) [
    | none ↦ sheet
    | some spelling ↦ spelling
  ]

  unfoldable pub present_count : Text → Rectangle → SheetUsage → ℕ
  unfolding count_columns sheet_name
  present_count sheet box usage =
      count_columns box (columns_at usage.rows_by_col (sheet_name usage sheet))

  unfoldable pub first_present : Text → Rectangle → SheetUsage → Option (ℕ × ℕ)
  unfolding first_column sheet_name
  first_present sheet box usage =
      first_column box (columns_at usage.rows_by_col (sheet_name usage sheet)) none

  unfoldable pub present_pairs : Text → Rectangle → SheetUsage → List (ℕ × ℕ)
  unfolding all_pairs sheet_name
  present_pairs sheet box usage =
      sort_spans (all_pairs box (columns_at usage.rows_by_col (sheet_name usage sheet)))
