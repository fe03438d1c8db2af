-- ===== src/Formulas/Usage/Index.antt =====
-- What `sheet_usage_spans` records of its runs.
use finance_context_builder.Base.{
  ℕ, ◌≡◌, ◌↔◌, refl, ap, ◌∙◌, sym, Bool, true, false, ◌&&◌, ◌||◌, List, [], ◌∷◌, ◌++◌, append-nil,
  append_assoc, leb, if◌then◌else◌, arith, Bool-cases, Option-cases, inl, inr, All, All-append,
}
use finance_context_builder.Base.Eq.{◌==◌, nat_eq, list_eq}
use finance_context_builder.Base.Dict.{
  Dict, get, put, get-put, list_at, append_at, list_at-append_at, put-All, All-get,
}
use finance_context_builder.Base.Text.{Text}
use finance_context_builder.Formulas.Spans.{Span, covers, merge_spans}
use finance_context_builder.Formulas.Spans.Sorting.{IsRun}
use finance_context_builder.Formulas.Spans.Merging.{covers-merge_spans, merge_spans-RunsFrom}
use finance_context_builder.Formulas.Usage.{
  Columns, Placed, columns_at, ordered, place, place_all, merge_columns, merge_sheets,
  sheet_usage_spans,
}
use finance_context_builder.Formulas.Usage.Pairs.{AreMerged}

-- the run, if it was given for the sheet and the column
abbrev one_at : Placed → Text → ℕ → List Span
one_at (s, c, start, end) sheet col = if s == sheet && c == col then ordered start end ∷ [] else []

abbrev placed_at : List Placed → Text → ℕ → List Span
placed_at [] sheet col = []
placed_at (x ∷ xs) sheet col = one_at x sheet col ++ placed_at xs sheet col

place_lem :
    (by_col : Dict Text Columns) (x : Placed) (sheet : Text) (col : ℕ)
    → list_at (columns_at (place by_col x) sheet) col
      ≡ list_at (columns_at by_col sheet) col ++ one_at x sheet col
unfolding place
place_lem by_col (s, c, start, end) sheet col =
    let columns = append_at (columns_at by_col s) c (ordered start end) in
    let exact : ((s == sheet) ≡ true) ↔ (s ≡ sheet) = list_eq.equal_iff s sheet in
    let kept = append-nil (list_at (columns_at by_col sheet) col) in
    elim (Bool-cases (s == sheet)) [
      | inl here ↦
          let same : s ≡ sheet = exact.0 here in
          let new = get-put by_col s sheet columns in
          let added = list_at-append_at (columns_at by_col s) c col (ordered start end) in
          ground arith
      | inr other ↦ let old = get-put by_col s sheet columns in ground arith
    ]

place_all_lem :
    (xs : List Placed) (by_col : Dict Text Columns) (sheet : Text) (col : ℕ)
    → list_at (columns_at (place_all xs by_col) sheet) col
      ≡ list_at (columns_at by_col sheet) col ++ placed_at xs sheet col
unfolding place_all
place_all_lem [] by_col sheet col = sym (append-nil (list_at (columns_at by_col sheet) col))
place_all_lem (x ∷ xs) by_col sheet col =
    place_all_lem xs (place by_col x) sheet col
    ∙ ap (λ spans. spans ++ placed_at xs sheet col) (place_lem by_col x sheet col)
    ∙ append_assoc (list_at (columns_at by_col sheet) col) (one_at x sheet col)
        (placed_at xs sheet col)

list_at-merge_columns :
    (columns : Columns) (col : ℕ)
    → list_at (merge_columns columns) col ≡ merge_spans (list_at columns col)
unfolding merge_columns get
list_at-merge_columns [] col = unfold merge_spans in refl
list_at-merge_columns ((c, items) ∷ columns) col = ground (arith, list_at-merge_columns columns col)

columns_at-merge_sheets :
    (d : Dict Text Columns) (sheet : Text)
    → columns_at (merge_sheets d) sheet ≡ merge_columns (columns_at d sheet)
unfolding merge_sheets get
columns_at-merge_sheets [] sheet = unfold merge_columns in refl
columns_at-merge_sheets ((s, columns) ∷ d) sheet = ground (arith, columns_at-merge_sheets d sheet)

-- the row is in one of the runs given for the sheet and the column, whichever bound comes first
abbrev pub is_placed : List Placed → Text → ℕ → ℕ → Bool
is_placed [] sheet col row = false
is_placed ((s, c, start, end) ∷ xs) sheet col row =
    s == sheet && c == col && (leb start row && leb row end || leb end row && leb row start)
    || is_placed xs sheet col row

covers-placed_at :
    (xs : List Placed) (sheet : Text) (col row : ℕ)
    → covers (placed_at xs sheet col) row ≡ is_placed xs sheet col row
covers-placed_at [] sheet col row = refl
covers-placed_at ((s, c, start, end) ∷ xs) sheet col row =
    ground (arith, covers-placed_at xs sheet col row)

-- the runs of a sheet and a column hold exactly the rows of the runs that were given for them.
covers-sheet_usage_spans :
    (casefold : Text → Text) (xs : List Placed) (sheet : Text) (col row : ℕ)
    → covers (list_at (columns_at (sheet_usage_spans casefold xs).rows_by_col sheet) col) row
      ≡ is_placed xs sheet col row
unfolding sheet_usage_spans
covers-sheet_usage_spans casefold xs sheet col row =
    let d = place_all xs [] in
    ap (λ columns. covers (list_at columns col) row) (columns_at-merge_sheets d sheet)
    ∙ ap (λ spans. covers spans row) (list_at-merge_columns (columns_at d sheet) col)
    ∙ covers-merge_spans (list_at (columns_at d sheet) col) row
    ∙ ap (λ spans. covers spans row) (place_all_lem xs [] sheet col)
    ∙ unfold get in covers-placed_at xs sheet col row

-- every run holds its start
abbrev AreRuns : Columns → Type 0
AreRuns columns = All (λ entry. All IsRun entry.1) columns

columns_at-AreRuns :
    (d : Dict Text Columns) (sheet : Text)
    → All (λ entry. AreRuns entry.1) d
    → AreRuns (columns_at d sheet)
columns_at-AreRuns d sheet h = elim (Option-cases (get d sheet)) [
  | inl missing ↦ rw (columns_at, missing) tt
  | inr (columns, found) ↦ rw (columns_at, found) (All-get AreRuns d sheet columns h found)
]

list_at-IsRun : (columns : Columns) (col : ℕ) → AreRuns columns → All IsRun (list_at columns col)
list_at-IsRun columns col h = elim (Option-cases (get columns col)) [
  | inl missing ↦ rw (All, missing) tt
  | inr (spans, found) ↦ rw (All, found) (All-get (All IsRun) columns col spans h found)
]

place-AreRuns :
    (d : Dict Text Columns) (x : Placed)
    → All (λ entry. AreRuns entry.1) d
    → All (λ entry. AreRuns entry.1) (place d x)
unfolding place append_at
place-AreRuns d (s, c, start, end) h =
    let columns = columns_at d s in
    let runs = columns_at-AreRuns d s h in
    let one : IsRun (ordered start end) = ground arith in
    put-All AreRuns d s (put columns c (list_at columns c ++ ordered start end ∷ [])) h (
      put-All (All IsRun) columns c (list_at columns c ++ ordered start end ∷ []) runs (
        All-append IsRun (list_at columns c) (ordered start end ∷ []) (list_at-IsRun columns c runs)
          (one, tt)))

place_all-AreRuns :
    (xs : List Placed) (d : Dict Text Columns)
    → All (λ entry. AreRuns entry.1) d
    → All (λ entry. AreRuns entry.1) (place_all xs d)
unfolding place_all
place_all-AreRuns [] d h = h
place_all-AreRuns (x ∷ xs) d h = place_all-AreRuns xs (place d x) (place-AreRuns d x h)

merge_columns-AreMerged : (columns : Columns) → AreRuns columns → AreMerged (merge_columns columns)
unfolding merge_columns
merge_columns-AreMerged [] h = tt
merge_columns-AreMerged ((col, items) ∷ columns) h =
    (merge_spans-RunsFrom items h.0, merge_columns-AreMerged columns h.1)

-- the runs of every column of every sheet are in order, not empty and apart
sheet_usage_spans-AreMerged :
    (casefold : Text → Text) (xs : List Placed) (sheet : Text)
    → AreMerged (columns_at (sheet_usage_spans casefold xs).rows_by_col sheet)
unfolding sheet_usage_spans
sheet_usage_spans-AreMerged casefold xs sheet =
    rw (columns_at-merge_sheets (place_all xs []) sheet) (
      merge_columns-AreMerged (columns_at (place_all xs []) sheet)
        (columns_at-AreRuns (place_all xs []) sheet (place_all-AreRuns xs [] tt)))

-- The runs that are kept of a sheet are in order, not empty and apart in every column, and those of a
-- column hold exactly the rows of the runs that were given for them.
pub sheet_usage_spans_lem :
    (casefold : Text → Text) (xs : List Placed) (sheet : Text)
    → AreMerged (columns_at (sheet_usage_spans casefold xs).rows_by_col sheet)
      × ((col row : ℕ)
          → covers (list_at (columns_at (sheet_usage_spans casefold xs).rows_by_col sheet) col) row
            ≡ is_placed xs sheet col row)
sheet_usage_spans_lem casefold xs sheet =
    (sheet_usage_spans-AreMerged casefold xs sheet, covers-sheet_usage_spans casefold xs sheet)
