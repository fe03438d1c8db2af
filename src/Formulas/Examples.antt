-- ===== src/Formulas/Examples.antt =====
-- The row runs and the index of known cells on concrete inputs.
use finance_context_builder.Base.{ℕ, ◌≡◌, refl, true, false, List, [], ◌∷◌, arith}
use finance_context_builder.Base.Eq.{nat_eq}
use finance_context_builder.Base.Text.{Text}
use finance_context_builder.Base.Sample.{sample}
use finance_context_builder.Formulas.Spans.{
  Span, merge_spans, span_has, span_overlap, first_span_row, covers, RunsFrom,
}
use finance_context_builder.Formulas.Spans.Merging.{merge_spans_lem}
use finance_context_builder.Formulas.Spans.Search.{span_has-eq-covers}
use finance_context_builder.Formulas.Spans.Counting.{
  span_overlap-count, IsFirst, first_span_row_lem,
}
use finance_context_builder.Formulas.Known.{empty, elem, contains}
use finance_context_builder.Formulas.Known.Refinement.{
  Use, insert, query, run, set_run, contains-run,
}

abbrev items : List Span
items = (7, 9) ∷ (1, 2) ∷ (3, 4) ∷ (8, 12) ∷ []

abbrev runs : List Span
runs = (1, 4) ∷ (7, 12) ∷ []

merges : merge_spans items ≡ runs
unfolding merge_spans
merges = refl

searches : (span_has runs 12 ≡ true) × (span_has runs 5 ≡ false)
unfolding span_has
searches = (refl, refl)

merge_spans_lem_example :
    RunsFrom 0 (merge_spans items) × ((row : ℕ) → covers (merge_spans items) row ≡ covers items row)
merge_spans_lem_example = merge_spans_lem items (omega arith)

span_has-eq-covers_example : span_has runs 8 ≡ true
span_has-eq-covers_example = span_has-eq-covers runs 8 (omega arith)

span_overlap-count_example : span_overlap runs 3 8 ≡ 4
span_overlap-count_example = span_overlap-count 0 runs 3 6 (omega arith) (omega arith)

first_span_row_lem_example : IsFirst runs 5 20 (first_span_row runs 5 20)
first_span_row_lem_example = first_span_row_lem 0 runs 5 20 (omega arith) (omega arith)

abbrev sheet : Text
sheet = b'S' ∷ []

abbrev session : List Use
session =
    insert sheet (b'a' ∷ b'$' ∷ b'1' ∷ [])
    ∷ query (b'S' ∷ b'!' ∷ b'A' ∷ b'2' ∷ [])
    ∷ insert sheet (b'A' ∷ b'2' ∷ [])
    ∷ insert sheet (b'x' ∷ [])
    ∷ []

contains-run_example :
    (contains sample (run sample empty session) (b'S' ∷ b'!' ∷ b'A' ∷ b'2' ∷ [])).0
    ≡ elem (set_run sample [] session) (b'S' ∷ b'!' ∷ b'A' ∷ b'2' ∷ [])
contains-run_example = contains-run sample session (b'S' ∷ b'!' ∷ b'A' ∷ b'2' ∷ [])
