-- ===== src/Formulas/Usage/Pairs.antt =====
-- The cells of a rectangle, counted and listed.
use finance_context_builder.Base.{
  ℕ, zero, suc, ◌+◌, ◌-◌, ◌≤◌, ◌<◌, ◌≡◌, refl, ap, ◌∙◌, min, max, List, [], ◌∷◌, ltb, if◌then◌else◌,
  length, length-append, arith, Bool-cases, inl, inr, All,
}
use finance_context_builder.Base.Text.{Text}
use finance_context_builder.Formulas.Spans.{Span, sort_spans, insert_span, span_overlap, RunsFrom}
use finance_context_builder.Formulas.Usage.{
  SheetUsage, Columns, columns_at, Rectangle, count_columns, rows_of, column_pairs, all_pairs,
  sheet_name, present_count, present_pairs,
}

length-rows_of : (row count col : ℕ) → length (rows_of row count col) ≡ count
unfolding rows_of
length-rows_of row zero col = refl
length-rows_of row (suc count) col = omega (arith, length-rows_of (row + 1) count col)

-- Runs after the rectangle give no pair.
column_pairs-beyond :
    (col r1 r2 low : ℕ) (spans : List Span)
    → RunsFrom low spans
    → r2 < low
    → length (column_pairs col r1 r2 spans) ≡ 0
unfolding column_pairs
column_pairs-beyond col r1 r2 low [] r h = refl
column_pairs-beyond col r1 r2 low ((start, end) ∷ spans) r h =
    ground (arith, column_pairs-beyond col r1 r2 (end + 2) spans r.2)

-- One run with the bounds of its part inside the rectangle.
column_pairs-step :
    (col r1 r2 start end : ℕ) (spans : List Span)
    → length (column_pairs col r1 r2 ((start, end) ∷ spans)) ≡ (
        if ltb (min end r2) (max start r1)
        then length (column_pairs col r1 r2 spans)
        else min end r2 + 1 - max start r1 + length (column_pairs col r1 r2 spans))
unfolding column_pairs
column_pairs-step col r1 r2 start end spans =
    let lo : (if ltb r1 start then start else r1) ≡ max start r1 = ground arith in
    let hi : (if ltb end r2 then end else r2) ≡ min end r2 = ground arith in
    rw (lo, hi)
      (elim (Bool-cases (ltb (min end r2) (max start r1))) [
        | inl apart ↦ rw apart refl
        | inr meets ↦ rw meets (
            length-append (rows_of (max start r1) (min end r2 + 1 - max start r1) col)
              (column_pairs col r1 r2 spans)
            ∙ ap (λ n. n + length (column_pairs col r1 r2 spans))
                (length-rows_of (max start r1) (min end r2 + 1 - max start r1) col))
      ])

length-column_pairs :
    (col r1 r2 low : ℕ) (spans : List Span)
    → RunsFrom low spans
    → r1 ≤ r2
    → length (column_pairs col r1 r2 spans) ≡ span_overlap spans r1 r2
unfolding span_overlap
length-column_pairs col r1 r2 low [] r h = unfold column_pairs in refl
length-column_pairs col r1 r2 low ((start, end) ∷ spans) r h = ground (
  arith,
  column_pairs-step col r1 r2 start end spans,
  column_pairs-beyond col r1 r2 (end + 2) spans r.2,
  length-column_pairs col r1 r2 (end + 2) spans r.2 h,
)

length-insert_span : (x : Span) (ys : List Span) → length (insert_span x ys) ≡ suc (length ys)
unfolding insert_span
length-insert_span x [] = refl
length-insert_span x (y ∷ ys) = ground (arith, length-insert_span x ys)

length-sort_spans : (xs : List Span) → length (sort_spans xs) ≡ length xs
unfolding sort_spans
length-sort_spans [] = refl
length-sort_spans (x ∷ xs) =
    omega (arith, length-insert_span x (sort_spans xs), length-sort_spans xs)

-- The runs of every column are in order and apart.
abbrev pub AreMerged : Columns → Type 0
AreMerged columns = All (λ entry. RunsFrom 0 entry.1) columns

length-all_pairs :
    (box : Rectangle) (columns : Columns)
    → AreMerged columns
    → box.2 ≤ box.3
    → length (all_pairs box columns) ≡ count_columns box columns
unfolding all_pairs count_columns
length-all_pairs box [] valid h = refl
length-all_pairs box ((col, spans) ∷ columns) valid h = ground (
  arith,
  length-append (column_pairs col box.2 box.3 spans) (all_pairs box columns),
  length-column_pairs col box.2 box.3 0 spans valid.0 h,
  length-all_pairs box columns valid.1 h,
)

-- For a rectangle that is not upside down, and a sheet whose runs are in order and apart, the count
-- of the present cells is the number of pairs listed.
pub length-present_pairs :
    (casefold : Text → Text) (sheet : Text) (box : Rectangle) (usage : SheetUsage)
    → AreMerged (columns_at usage.rows_by_col (sheet_name casefold usage sheet))
    → box.2 ≤ box.3
    → length (present_pairs casefold sheet box usage) ≡ present_count casefold sheet box usage
unfolding present_pairs present_count
length-present_pairs casefold sheet box usage valid h =
    let columns = columns_at usage.rows_by_col (sheet_name casefold usage sheet) in
    length-sort_spans (all_pairs box columns) ∙ length-all_pairs box columns valid h
