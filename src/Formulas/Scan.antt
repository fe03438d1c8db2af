-- ===== src/Formulas/Scan.antt =====
-- The scanner of formulas/scan.py: `_scan_reference`, `_scan_number` and `_tokenize`.
pub mod Lengths
use finance_context_builder.Base.{
  ℕ, zero, suc, Bool, true, false, ◌&&◌, ◌||◌, not, List, [], ◌∷◌, ◌++◌, map, Option, none, some,
  ◌>>=◌, if◌then◌else◌, length,
}
use finance_context_builder.Base.Eq.{◌==◌, nat_eq}
use finance_context_builder.Base.Text.{Text}
use finance_context_builder.Excel.Addresses.{starts_with}
use finance_context_builder.Formulas.Syntax.{
  Op, Token, concat, eq, ne, lt, gt, le, ge, plus, minus, times, over, power, percent_sign, number,
  string, error_token, name, ref, op, lparen, rparen, lbrace, rbrace, sep, rowsep, colon,
}
use finance_context_builder.Formulas.Characters.{Characters, at_head, span, is_word, is_word_or_dot}
use finance_context_builder.Formulas.References.{
  Node, Body, Place, Scan, filled, refer, quoted, bracketed, scan_deleted_ref, skip_bang, nonempty,
  tail_of, quote, on_sheet, unquoted_sheet, scan_range_body, here,
}

-- `+` or `-`, if there is one
unfoldable pub exponent_sign : Text → Text × Text
exponent_sign [] = ([], [])
exponent_sign (c ∷ rest) = if c == b'+' || c == b'-' then (c ∷ [], rest) else ([], c ∷ rest)

-- The body at a place, or a deleted reference.
abbrev pub place_or_deleted : Scan Body → (Body → Node) → Text → Scan Node
place_or_deleted none at text = scan_deleted_ref text
place_or_deleted (some (body, rest)) at text = some (at body, rest)

-- Where the text in quotes begins with a book in brackets, the book and the sheet are apart.
unfoldable pub quoted_place : Text → Place
unfolding bracketed
quoted_place [] = record { sheet = some []; external = none }
quoted_place (c ∷ text) =
    let whole : Place = record { sheet = some (c ∷ text); external = none } in
    if c == b'['
    then elim (bracketed text) [
      | none ↦ whole
      | some (book, sheet_text) ↦ record { sheet = filled sheet_text; external = some book }
    ]
    else whole

module _ (u : Characters) where
  -- `_scan_quoted_ref`, behind the first quote
  unfoldable pub scan_quoted_ref : Text → Scan Node
  unfolding quoted quoted_place skip_bang scan_range_body scan_deleted_ref
  scan_quoted_ref text = quoted quote text >>= λ (inside, after_quote).
      let (bang, body_text) = skip_bang after_quote in
      if bang
      then place_or_deleted (scan_range_body u body_text) (refer (quoted_place inside)) body_text
      else none

  -- The sheet behind a book in brackets, where a `!` follows it, and the text after the sheet.
  unfoldable pub bracket_sheet : Text → Text × Text
  unfolding span is_word_or_dot at_head
  bracket_sheet text =
      let (found, rest) = span (is_word_or_dot u) text in
      if at_head (λ c. c == b'!') rest then (found, rest) else ([], text)

  -- `_scan_bracket_ref`, behind the bracket
  unfoldable pub scan_bracket_ref : Text → Scan Node
  unfolding bracketed bracket_sheet skip_bang scan_range_body scan_deleted_ref
  scan_bracket_ref text = bracketed text >>= λ (book, after_book).
      let (found, after_sheet) = bracket_sheet after_book in
      let (bang, body_text) = skip_bang after_sheet in
      let place : Place = record { sheet = filled found; external = some book } in
      elim (scan_range_body u body_text) [
        | some (body, rest) ↦ some (refer place body, rest)
        | none ↦ if bang then scan_deleted_ref body_text else none
      ]

  -- `_scan_reference`
  unfoldable pub scan_reference : Text → Scan Node
  unfolding at_head scan_quoted_ref scan_bracket_ref unquoted_sheet scan_range_body scan_deleted_ref
  scan_reference text =
      if at_head (λ c. c == quote) text
      then scan_quoted_ref (tail_of text)
      else if at_head (λ c. c == b'[') text
      then scan_bracket_ref (tail_of text)
      else elim (unquoted_sheet u text) [
        | some (found, body_text) ↦
            place_or_deleted (scan_range_body u body_text) (on_sheet found) body_text
        | none ↦ scan_range_body u text >>= λ (body, rest). some (refer here body, rest)
      ]

  -- `.` and digits after it, or the decimal sign of the locale and digits after it
  unfoldable pub fraction : ℕ → Text → Text × Text
  unfolding at_head span
  fraction mark [] = ([], [])
  fraction mark (c ∷ rest) =
      let (more, tail) = span u.digits.is_digit rest in
      if c == mark && at_head u.digits.is_digit rest then (c ∷ more, tail) else ([], c ∷ rest)

  -- An exponent: `e` or `E`, a sign or none, and at least one digit; else nothing.
  unfoldable pub exponent : Text → Text × Text
  unfolding at_head span
  exponent [] = ([], [])
  exponent (c ∷ rest) =
      let (sign, after_sign) = exponent_sign rest in
      let (digits, tail) = span u.digits.is_digit after_sign in
      if (c == b'e' || c == b'E') && nonempty digits
      then (c ∷ sign ++ digits, tail)
      else ([], c ∷ rest)

  -- `_scan_number`: the text that `float` reads, and the rest.
  unfoldable pub scan_number : ℕ → Text → Text × Text
  unfolding span fraction exponent
  scan_number decimal text =
      let (whole, after_whole) = span u.digits.is_digit text in
      let (part, after_part) = fraction decimal after_whole in
      let (dot_part, after_dot) =
        if not (nonempty part) && not (decimal == b'.')
        then fraction b'.' after_part
        else (part, after_part) in
      let (exp_part, rest) = exponent after_dot in
      (map (λ c. if c == decimal then b'.' else c) (whole ++ dot_part ++ exp_part), rest)
