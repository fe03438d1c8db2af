-- ===== src/Excel/Addresses.antt =====
-- A1 addresses of excel/a1.py: `parse_addr`, `format_addr`, `is_derived_addr`.
pub mod RoundTrip
pub mod Derived
use finance_context_builder.Base.{
  ℕ, Bool, true, false, ◌&&◌, ◌||◌, not, [], ◌∷◌, ◌++◌, leb, ltb, length, drop, all, if◌then◌else◌,
  Option, none, some,
}
use finance_context_builder.Base.Eq.{◌==◌, nat_eq}
use finance_context_builder.Base.Text.{Text, Unicode, str, int}
use finance_context_builder.Excel.Columns.{col_to_index, index_to_col}

-- `[A-Za-z]`
unfoldable pub is_letter : ℕ → Bool
is_letter c = leb b'A' c && leb c b'Z' || leb b'a' c && leb c b'z'

-- The longest prefix of letters, and the rest. The classes of `_ADDR` are disjoint, so a match
-- never gives a character back.
unfoldable pub letters_of : Text → Text × Text
unfolding is_letter
letters_of [] = ([], [])
letters_of (c ∷ rest) =
    let (more, tail) = letters_of rest in if is_letter c then (c ∷ more, tail) else ([], c ∷ rest)

-- `\$?`
unfoldable pub skip_dollar : Text → Text
skip_dollar [] = []
skip_dollar (c ∷ rest) = if c == b'$' then rest else c ∷ rest

-- `str.startswith`
unfoldable pub starts_with : Text → Text → Bool
starts_with text [] = true
starts_with [] (p ∷ prefix) = false
starts_with (c ∷ text) (p ∷ prefix) = c == p && starts_with text prefix

unfoldable pub format_addr : ℕ → ℕ → Text
format_addr col row = index_to_col col ++ str row

-- `len(tail) > 1 and tail[0] == "0"`
unfoldable pub has_leading_zero : Text → Bool
has_leading_zero [] = false
has_leading_zero (c ∷ rest) = ltb 0 (length rest) && c == b'0'

module _ (u : Unicode) where
  -- The groups of `_ADDR`: letters, at least one, then `\$?(\d+)`. `int` refuses an empty text and
  -- a character outside `\d`, where the pattern does not match.
  unfoldable pub parse_groups : Text → Text → Option (ℕ × ℕ)
  unfolding skip_dollar
  parse_groups [] body = none
  parse_groups (c ∷ col) body = elim (int u (skip_dollar body)) [
    | none ↦ none
    | some row ↦ some (col_to_index (c ∷ col), row)
  ]

  -- `none` is ValueError.
  unfoldable pub parse_addr : Text → Option (ℕ × ℕ)
  unfolding letters_of skip_dollar parse_groups
  parse_addr addr = let (col, body) = letters_of (skip_dollar addr) in parse_groups col body

  -- The tests on `tail`; `none` is the ValueError of `int(tail)`.
  unfoldable pub derived_tail : Text → ℕ → Option Bool
  unfolding has_leading_zero
  derived_tail tail row =
      if not (all u.is_digit tail) || has_leading_zero tail
      then some false
      else elim (int u tail) [ none ↦ none | some value ↦ some (value == row) ]

  unfoldable pub is_derived_addr : Text → ℕ → ℕ → Option Bool
  unfolding starts_with derived_tail
  is_derived_addr addr col row =
      let letters = index_to_col col in
      let width = length letters in
      if leb (length addr) width || not (starts_with addr letters)
      then some false
      else derived_tail (drop width addr) row
