-- ===== src/Formulas/Usage/First.antt =====
-- The first present cell of a rectangle.
use finance_context_builder.Base.{
  ℕ, ◌≤◌, ◌<◌, ◌≡◌, ◌⊎◌, ap, ◌∙◌, sym, Bool, true, false, ◌&&◌, ◌||◌, [], ◌∷◌, leb, if◌then◌else◌,
  Option, none, some, arith, Bool-cases, Option-cases, inl, inr,
}
use finance_context_builder.Base.Eq.{◌==◌, nat_eq}
use finance_context_builder.Base.Text.{Text}
use finance_context_builder.Formulas.Spans.{covers, first_span_row}
use finance_context_builder.Formulas.Spans.Counting.{first_span_row-first, first_span_row-none}
use finance_context_builder.Formulas.Usage.{
  SheetUsage, Columns, columns_at, Rectangle, in_columns, is_before, first_column, first_present,
  sheet_name,
}
use finance_context_builder.Formulas.Usage.Pairs.{AreMerged}

-- A cell of the rectangle that some column holds.
abbrev pub is_present : Rectangle → Columns → ℕ → ℕ → Bool
is_present box [] row col = false
is_present box ((c, spans) ∷ columns) row col =
    c == col && in_columns box c && (leb box.2 row && leb row box.3) && covers spans row
    || is_present box columns row col

-- What a search for the first present cell of a rectangle returns.
abbrev pub IsFirstCell : Rectangle → Columns → Option (ℕ × ℕ) → Type 0
IsFirstCell box columns none = (row col : ℕ) → is_present box columns row col ≡ false
IsFirstCell box columns (some best) =
    (is_present box columns best.0 best.1 ≡ true)
    × ((row col : ℕ)
        → is_present box columns row col ≡ true
        → (best.0 < row) ⊎ ((best.0 ≡ row) × (best.1 ≤ col)))

-- the better of the two
abbrev better : ℕ → ℕ → Option (ℕ × ℕ) → Option (ℕ × ℕ)
better row col best = if is_before row col best then some (row, col) else best

better-least :
    (r c : ℕ) (best : Option (ℕ × ℕ)) (row col : ℕ)
    → is_before row col best ≡ false
    → is_before row col (better r c best) ≡ false
better-least r c none row col h = absurd (ground arith)
better-least r c (some best) row col h = ground arith

better-new :
    (r c : ℕ) (best : Option (ℕ × ℕ)) (row : ℕ)
    → r ≤ row
    → is_before row c (better r c best) ≡ false
better-new r c none row h = ground arith
better-new r c (some best) row h = ground arith

first_column-least :
    (box : Rectangle) (columns : Columns) (best : Option (ℕ × ℕ)) (row col : ℕ)
    → AreMerged columns
    → box.2 ≤ box.3
    → (is_present box columns row col ≡ true) ⊎ (is_before row col best ≡ false)
    → is_before row col (first_column box columns best) ≡ false
unfolding first_column
first_column-least box [] best row col valid h (inl there) = absurd (ground arith)
first_column-least box [] best row col valid h (inr known) = known
first_column-least box ((c, spans) ∷ columns) best row col valid h which =
    elim (Bool-cases (in_columns box c)) [
      | inr outside ↦
          let which' : (is_present box columns row col ≡ true) ⊎ (is_before row col best ≡ false) =
            elim which [ inl there ↦ inl (ground arith) | inr known ↦ inr known ] in
          ground (arith, first_column-least box columns best row col valid.1 h which')
      | inl inside ↦ elim (Option-cases (first_span_row spans box.2 box.3)) [
        | inl nothing ↦
            let none_here = first_span_row-none 0 spans box.2 box.3 row valid.0 nothing in
            let which' : (is_present box columns row col ≡ true)
                ⊎ (is_before row col best ≡ false) =
              elim which [ inl there ↦ inl (ground arith) | inr known ↦ inr known ] in
            ground (arith, first_column-least box columns best row col valid.1 h which')
        | inr (r, found) ↦
            let (held, low, high, least) =
              first_span_row-first 0 spans box.2 box.3 r valid.0 h found in
            let which' : (is_present box columns row col ≡ true)
                ⊎ (is_before row col (better r c best) ≡ false) =
              elim which [
                | inl there ↦ elim (Bool-cases (is_present box columns row col)) [
                  | inl later ↦ inl later
                  | inr here ↦
                      let bound : r ≤ row = ground (arith, least row) in
                      let same : c ≡ col = ground arith in
                      inr (
                        ap (λ k. is_before row k (better r c best)) (sym same)
                        ∙ better-new r c best row bound)
                ]
                | inr known ↦ inr (better-least r c best row col known)
              ] in
            ground
              (arith, first_column-least box columns (better r c best) row col valid.1 h which')
      ]
    ]

-- The cell found is the one it started from or a present cell.
first_column-present :
    (box : Rectangle) (columns : Columns) (best : Option (ℕ × ℕ)) (row col : ℕ)
    → AreMerged columns
    → box.2 ≤ box.3
    → first_column box columns best ≡ some (row, col)
    → (best ≡ some (row, col)) ⊎ (is_present box columns row col ≡ true)
unfolding first_column
first_column-present box [] best row col valid h e = inl e
first_column-present box ((c, spans) ∷ columns) best row col valid h e =
    elim (Bool-cases (in_columns box c)) [
      | inr outside ↦ ground (arith, first_column-present box columns best row col valid.1 h)
      | inl inside ↦ elim (Option-cases (first_span_row spans box.2 box.3)) [
        | inl nothing ↦ ground (arith, first_column-present box columns best row col valid.1 h)
        | inr (r, found) ↦
            let (held, low, high, least) =
              first_span_row-first 0 spans box.2 box.3 r valid.0 h found in
            elim (Bool-cases (is_before r c best)) [
              | inl new ↦
                  elim (first_column-present box columns (some (r, c)) row col valid.1 h
                    (ground arith)) [
                      | inl this ↦ inr (ground arith)
                      | inr later ↦ inr (ground arith)
                    ]
              | inr old ↦ ground (arith, first_column-present box columns best row col valid.1 h)
            ]
      ]
    ]

-- A cell that is not before another is in a later row, or in the same row and not to the left.
is_before_order :
    (row col r c : ℕ)
    → is_before row col (some (r, c)) ≡ false
    → (r < row) ⊎ ((r ≡ row) × (c ≤ col))
is_before_order row col r c h = ground arith

module _ (casefold : Text → Text) (sheet : Text) (box : Rectangle) (usage : SheetUsage)
    (valid : AreMerged (columns_at usage.rows_by_col (sheet_name casefold usage sheet)))
    (h : box.2 ≤ box.3) where
  -- the cell that `_first_present` returns is a present cell of the rectangle
  first_present-is_present :
      (row col : ℕ)
      → first_present casefold sheet box usage ≡ some (row, col)
      → is_present box (columns_at usage.rows_by_col (sheet_name casefold usage sheet)) row col
        ≡ true
  unfolding first_present
  first_present-is_present row col e =
      let columns = columns_at usage.rows_by_col (sheet_name casefold usage sheet) in
      elim (first_column-present box columns none row col valid h e) [
        | inl start ↦ absurd (ground arith)
        | inr there ↦ there
      ]

  -- no present cell of the rectangle is before what `_first_present` returns
  first_present-least :
      (row col : ℕ)
      → is_present box (columns_at usage.rows_by_col (sheet_name casefold usage sheet)) row col
        ≡ true
      → is_before row col (first_present casefold sheet box usage) ≡ false
  unfolding first_present
  first_present-least row col there =
      first_column-least box (columns_at usage.rows_by_col (sheet_name casefold usage sheet)) none
        row col valid h (inl there)

  -- For a rectangle that is not upside down, and a sheet whose runs are in order and apart, the cell
  -- that `_first_present` returns is a present cell of the rectangle and every present cell of
  -- it is in a later row, or in the same row and not to the left; None is returned only when there is no present cell.
  pub first_present_lem :
      IsFirstCell box
        (columns_at usage.rows_by_col (sheet_name casefold usage sheet))
        (first_present casefold sheet box usage)
  first_present_lem = elim (Option-cases (first_present casefold sheet box usage)) [
    | inl e ↦ rw (e, IsFirstCell) (λ row col. ground (arith, first_present-least row col))
    | inr ((r, c), e) ↦
        rw (e, IsFirstCell)
          (
            first_present-is_present r c e,
            λ row col there.
                let least : is_before row col (some (r, c)) ≡ false =
                  ap (is_before row col) (sym e) ∙ first_present-least row col there in
                is_before_order row col r c least,
          )
  ]
