-- ===== src/Excel/Addresses/RoundTrip.antt =====
-- `parse_addr` on what `format_addr` writes, excel/a1.py.
use finance_context_builder.Base.{ℕ, ◌<◌, ◌≡◌, subst, [], ◌∷◌, ◌++◌, arith, All, max, some}
use finance_context_builder.Base.Eq.{nat_eq}
use finance_context_builder.Base.Text.{IsAsciiDigit, Text, Unicode, int-str, str-digits, str-head}
use finance_context_builder.Excel.Columns.Letters.{
  IsCapital, IsLetter, col_to_index-index_to_col, index_to_col-capitals, col_to_index-pos,
}
use finance_context_builder.Excel.Addresses.{
  letters_of, skip_dollar, format_addr, parse_groups, parse_addr,
}

-- A text that starts with a digit has no letters in front.
letters_of-digit : (c : ℕ) (rest : Text) → c < 58 → letters_of (c ∷ rest) ≡ ([], c ∷ rest)
unfolding letters_of
letters_of-digit c rest h = ground arith

letters_of-append :
    (col : Text) (c : ℕ) (rest : Text)
    → All IsCapital col
    → c < 58
    → letters_of (col ++ c ∷ rest) ≡ (col, c ∷ rest)
unfolding letters_of
letters_of-append [] c rest h d = ground arith
letters_of-append (x ∷ col) c rest h d = ground (arith, letters_of-append col c rest h.1 d)

module _ (u : Unicode) where
  -- Formatting an address and parsing it gives its column, at least 1, and its row.
  pub parse_addr-format_addr :
      (col row : ℕ) → parse_addr u (format_addr col row) ≡ some (max col 1, row)
  unfolding format_addr parse_addr
  parse_addr-format_addr col row =
      let (c, rest, spelled, capitals) = index_to_col-capitals col in
      let (d, digits, numeral, _) = str-head row in
      let ascii : All IsAsciiDigit (d ∷ digits) =
        subst (All IsAsciiDigit) numeral (str-digits row) in
      ground (
        arith,
        letters_of-append (c ∷ rest) d digits capitals,
        col_to_index-index_to_col col,
        int-str u row,
      )

  letters_of-letters : (text : Text) → All IsLetter (letters_of text).0
  unfolding letters_of
  letters_of-letters [] = tt
  letters_of-letters (c ∷ rest) = ground (arith, letters_of-letters rest)

  parse_groups-pos :
      (col body : Text) (c r : ℕ) → All IsLetter col → parse_groups u col body ≡ some (c, r) → 0 < c
  unfolding parse_groups
  parse_groups-pos [] body c r h e = absurd (ground arith)
  parse_groups-pos (x ∷ col) body c r h e = ground (arith, col_to_index-pos x col h)

  -- A parsed address has a column of at least 1, and prints to an address that parses the same.
  pub parse_addr_normal :
      (addr : Text) (c r : ℕ)
      → parse_addr u addr ≡ some (c, r)
      → (0 < c) × (parse_addr u (format_addr c r) ≡ some (c, r))
  unfolding parse_addr
  parse_addr_normal addr c r e =
      let pos =
        parse_groups-pos (letters_of (skip_dollar addr)).0 (letters_of (skip_dollar addr)).1 c r
          (letters_of-letters (skip_dollar addr)) e in
      (pos, ground (arith, parse_addr-format_addr c r))
