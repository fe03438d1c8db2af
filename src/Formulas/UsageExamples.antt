-- ===== src/Formulas/UsageExamples.antt =====
-- The present cells of a small sheet.
use finance_context_builder.Base.{ℕ, ◌≡◌, refl, List, [], ◌∷◌, length, some, arith}
use finance_context_builder.Base.Eq.{nat_eq, list_eq}
use finance_context_builder.Base.Dict.{list_at, get, put}
use finance_context_builder.Base.Text.{Text}
use finance_context_builder.Formulas.Spans.{
  covers, sort_spans, merge_spans, span_overlap, first_span_row,
}
use finance_context_builder.Formulas.Usage.{
  SheetUsage, Placed, Rectangle, columns_at, sheet_usage_spans, sheet_name, present_count,
  first_present, present_pairs,
}
use finance_context_builder.Formulas.Usage.Pairs.{AreMerged, length-present_pairs}
use finance_context_builder.Formulas.Usage.Index.{is_placed, sheet_usage_spans_lem}
use finance_context_builder.Formulas.Usage.First.{IsFirstCell, first_present_lem}

abbrev fold_case : Text → Text
fold_case text = text

abbrev sheet : Text
sheet = b'S' ∷ []

-- B3:B5, B6, A9:A7
abbrev placed : List Placed
placed = (sheet, 2, 3, 5) ∷ (sheet, 2, 6, 6) ∷ (sheet, 1, 9, 7) ∷ []

abbrev usage : SheetUsage
usage = sheet_usage_spans fold_case placed

abbrev box : Rectangle
box = (1, 3, 5, 8)

pairs :
    (present_pairs fold_case sheet box usage ≡ (5, 2) ∷ (6, 2) ∷ (7, 1) ∷ (8, 1) ∷ [])
    × (present_count fold_case sheet box usage ≡ 4)
    × (first_present fold_case sheet box usage ≡ some (5, 2))
unfolding present_pairs present_count first_present sheet_usage_spans get put sort_spans merge_spans
    span_overlap first_span_row
pairs = (refl, refl, refl)

abbrev valid : AreMerged (columns_at usage.rows_by_col (sheet_name fold_case usage sheet))
valid = (sheet_usage_spans_lem fold_case placed (sheet_name fold_case usage sheet)).0

sheet_usage_spans_lem_example :
    AreMerged (columns_at usage.rows_by_col sheet)
    × ((col row : ℕ)
        → covers (list_at (columns_at usage.rows_by_col sheet) col) row
          ≡ is_placed placed sheet col row)
sheet_usage_spans_lem_example = sheet_usage_spans_lem fold_case placed sheet

length-present_pairs_example :
    length (present_pairs fold_case sheet box usage) ≡ present_count fold_case sheet box usage
length-present_pairs_example = length-present_pairs fold_case sheet box usage valid (omega arith)

first_present_lem_example :
    IsFirstCell box
      (columns_at usage.rows_by_col (sheet_name fold_case usage sheet))
      (first_present fold_case sheet box usage)
first_present_lem_example = first_present_lem fold_case sheet box usage valid (omega arith)
