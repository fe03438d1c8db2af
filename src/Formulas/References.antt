-- ===== src/Formulas/References.antt =====
-- References in the text of a formula: `_scan_reference` of formulas/scan.py and the trees that it
-- builds.
pub mod Lengths
use finance_context_builder.Base.{
  ℕ, Bool, true, false, ◌&&◌, ◌||◌, not, List, [], ◌∷◌, Option, none, some, ◌>>=◌, if◌then◌else◌,
}
use finance_context_builder.Base.Eq.{◌==◌, nat_eq}
use finance_context_builder.Base.Text.{Text}
use finance_context_builder.Excel.Columns.{col_to_index, in_grid}
use finance_context_builder.Excel.Addresses.{starts_with}
use finance_context_builder.Formulas.Characters.{
  Characters, at_head, span, dollar, column_letters, number_of, is_word_or_dot, is_word_start,
  goes_on, decimals,
}

-- A column or a row with the sign `$` before it, or without.
pub record Coordinate : Type 0 where
  pub index : ℕ
  pub fixed : Bool

pub record Point : Type 0 where
  pub col : Coordinate
  pub row : Coordinate

-- The dictionaries with op "ref" and "range"; `col_only` and `row_only` tell ranges apart.
pub data Body : Type 0 where
  one : Point → Body
  block : Point → Point → Body
  columns rows : Coordinate → Coordinate → Body

-- `node["sheet"]` and `node["external"]`
pub record Place : Type 0 where
  pub sheet : Option Text
  pub external : Option Text

-- `deleted` is the dictionary with op "err" and the value "#REF!".
pub data Node : Type 0 where
  refer : Place → Body → Node
  deleted : Node

-- A name that is not empty; an empty text counts as none.
abbrev pub filled : Text → Option Text
filled [] = none
filled (c ∷ rest) = some (c ∷ rest)

abbrev pub here : Place
here = record { sheet = none; external = none }

-- What a scan has read, and the text after it; `none` is no match.
abbrev pub Scan : Type 0 → Type 0
Scan A = Option (A × Text)

-- The text up to the closing quote, in which two quotes are one, and the text after it.
unfoldable pub quoted : ℕ → Text → Scan Text
quoted quote [] = none
quoted quote (c ∷ []) = if c == quote then some ([], []) else none
quoted quote (c ∷ d ∷ rest) = elim (c == quote) [
  | true ↦ elim (d == quote) [
    | true ↦ quoted quote rest >>= λ (text, tail). some (quote ∷ text, tail)
    | false ↦ some ([], d ∷ rest)
  ]
  | false ↦ quoted quote (d ∷ rest) >>= λ (text, tail). some (c ∷ text, tail)
]

-- The text before the first `]`, and the text after it.
unfoldable pub bracketed : Text → Scan Text
bracketed [] = none
bracketed (c ∷ rest) = elim (c == b']') [
  | true ↦ some ([], rest)
  | false ↦ bracketed rest >>= λ (text, tail). some (c ∷ text, tail)
]

-- "#REF!"
abbrev pub deleted_text : Text
deleted_text = b'#' ∷ b'R' ∷ b'E' ∷ b'F' ∷ b'!' ∷ []

-- `_scan_deleted_ref`
unfoldable pub scan_deleted_ref : Text → Scan Node
unfolding starts_with
scan_deleted_ref (a ∷ b ∷ c ∷ d ∷ e ∷ rest) =
    if starts_with (a ∷ b ∷ c ∷ d ∷ e ∷ []) deleted_text then some (deleted, rest) else none
scan_deleted_ref _ = none

-- `!`, if there is one
unfoldable pub skip_bang : Text → Bool × Text
skip_bang [] = (false, [])
skip_bang (c ∷ rest) = if c == b'!' then (true, rest) else (false, c ∷ rest)

abbrev pub nonempty {ℓ} : {A : Type ℓ} → List A → Bool
nonempty [] = false
nonempty (_ ∷ _) = true

-- `text[i + 1:]`
unfoldable pub tail_of : Text → Text
tail_of [] = []
tail_of (c ∷ rest) = rest

-- The text after a colon; where there is none the callers match nothing.
abbrev pub after_colon : Text → Text
after_colon text = tail_of text

-- `'`
abbrev pub quote : ℕ
quote = 39

-- The sheet that stands on a scanned body.
abbrev pub on_sheet : Text → Body → Node
on_sheet sheet body = refer (record { sheet = some sheet; external = none }) body

module _ (u : Characters) where
  -- `_CELL_BODY` and its four groups, and `_cell_node` of them. Letters, `$` and digits are apart,
  -- and a digit is no end of a cell, so no match gives a character back.
  unfoldable pub cell_body : Text → Scan Point
  unfolding dollar column_letters at_head number_of goes_on decimals
  cell_body text =
      let (abs_col, after_sign) = dollar text in
      let (letters, after_letters) = column_letters after_sign in
      let (abs_row, after_second) = dollar after_letters in
      let (values, rest) = decimals u after_second in
      if nonempty letters && nonempty values && not (at_head (goes_on u) rest)
      then some (
        record {
          col = record { index = col_to_index letters; fixed = abs_col };
          row = record { index = number_of 0 values; fixed = abs_row };
        },
        rest,
      )
      else none

  -- `_grid_cell`
  unfoldable pub grid_cell : Text → Scan Point
  unfolding cell_body in_grid
  grid_cell text = cell_body text >>= λ (point, rest).
      if in_grid point.col.index point.row.index then some (point, rest) else none

  -- `_COL_PAIR`
  unfoldable pub column_pair : Text → Scan (Coordinate × Coordinate)
  unfolding dollar column_letters at_head goes_on
  column_pair text =
      let (abs_first, after_sign) = dollar text in
      let (first, after_first) = column_letters after_sign in
      let (abs_last, after_second) = dollar (after_colon after_first) in
      let (last, rest) = column_letters after_second in
      if at_head (λ c. c == b':') after_first
        && (nonempty first && nonempty last)
        && not (at_head (goes_on u) rest)
      then some (
        (
          record { index = col_to_index first; fixed = abs_first },
          record { index = col_to_index last; fixed = abs_last },
        ),
        rest,
      )
      else none

  -- `_ROW_PAIR`
  unfoldable pub row_pair : Text → Scan (Coordinate × Coordinate)
  unfolding dollar at_head number_of decimals
  row_pair text =
      let (abs_first, after_sign) = dollar text in
      let (first, after_first) = decimals u after_sign in
      let (abs_last, after_second) = dollar (after_colon after_first) in
      let (last, rest) = decimals u after_second in
      if at_head (λ c. c == b':') after_first && (nonempty first && nonempty last)
      then some (
        (
          record { index = number_of 0 first; fixed = abs_first },
          record { index = number_of 0 last; fixed = abs_last },
        ),
        rest,
      )
      else none

  -- `_UNQUOTED_SHEET`: the name before the `!`, and the text after it
  unfoldable pub unquoted_sheet : Text → Scan Text
  unfolding at_head span is_word_start is_word_or_dot skip_bang
  unquoted_sheet text =
      let (name, after_name) = span (is_word_or_dot u) text in
      let (bang, rest) = skip_bang after_name in
      if at_head (is_word_start u) text && bang then some (name, rest) else none

  -- `_skip_sheet_qualifier`
  unfoldable pub skip_sheet_qualifier : Text → Text
  unfolding at_head quoted skip_bang unquoted_sheet
  skip_sheet_qualifier text =
      if at_head (λ c. c == quote) text
      then elim (quoted quote (tail_of text)) [
        | none ↦ text
        | some (_, after_quote) ↦
            let (bang, rest) = skip_bang after_quote in if bang then rest else text
      ]
      else elim (unquoted_sheet text) [ none ↦ text | some (_, rest) ↦ rest ]

  -- The second cell of a range, behind the colon and the name of its sheet.
  unfoldable pub second_cell : Text → Scan Point
  unfolding at_head skip_sheet_qualifier
  second_cell text =
      if at_head (λ c. c == b':') text
      then grid_cell (skip_sheet_qualifier (tail_of text))
      else none

  -- The ranges of whole columns, then of whole rows, that `_scan_range_body` tries after a cell.
  unfoldable pub scan_pairs : Text → Scan Body
  unfolding column_pair row_pair in_grid
  scan_pairs text =
      let row_body = row_pair text >>= λ ((first, last), rest). some (rows first last, rest) in
      elim (column_pair text) [
        | none ↦ row_body
        | some ((first, last), rest) ↦
            if in_grid first.index 1 && in_grid last.index 1
            then some (columns first last, rest)
            else row_body
      ]

  -- `_scan_range_body`
  unfoldable pub scan_range_body : Text → Scan Body
  unfolding grid_cell second_cell scan_pairs
  scan_range_body text = elim (grid_cell text) [
    | some (start, after_start) ↦ elim (second_cell after_start) [
      | some (end, rest) ↦ some (block start end, rest)
      | none ↦ some (one start, after_start)
    ]
    | none ↦ scan_pairs text
  ]
