-- ===== src/Excel/Examples.antt =====
-- The addresses of excel/a1.py on concrete inputs.
use finance_context_builder.Base.{
  ◌≡◌, ◌≢◌, refl, true, false, [], ◌∷◌, ◌++◌, map, arith, some, none,
}
use finance_context_builder.Base.Eq.{nat_eq}
use finance_context_builder.Base.Text.{Text, str, int}
use finance_context_builder.Base.Sample.{sample}
use finance_context_builder.Excel.Columns.{col_to_index, in_grid, index_to_col, upper}
use finance_context_builder.Excel.Columns.Letters.{
  col_to_index-index_to_col, index_to_col-col_to_index,
}
use finance_context_builder.Excel.Addresses.{parse_addr, format_addr, is_derived_addr}
use finance_context_builder.Excel.Addresses.RoundTrip.{parse_addr-format_addr}
use finance_context_builder.Excel.Addresses.Derived.{
  is_derived_addr_ascii, is_derived_addr_other_digit, is_derived_addr_raises,
}

abbrev xfd : Text
xfd = b'X' ∷ b'F' ∷ b'D' ∷ []

last_column : (col_to_index xfd ≡ 16_384) × (index_to_col 16_384 ≡ xfd) × (in_grid 16_385 1 ≡ false)
unfolding col_to_index index_to_col in_grid upper
last_column = (refl, refl, refl)

parses : parse_addr sample (b'$' ∷ b'a' ∷ b'B' ∷ b'$' ∷ b'0' ∷ b'7' ∷ []) ≡ some (28, 7)
unfolding parse_addr col_to_index upper int
parses = refl

rejects_row : parse_addr sample (b'A' ∷ []) ≡ none
unfolding parse_addr int
rejects_row = refl

formats : format_addr 28 105 ≡ b'A' ∷ b'B' ∷ b'1' ∷ b'0' ∷ b'5' ∷ []
unfolding format_addr index_to_col str
formats = refl

col_to_index-index_to_col_example : col_to_index (index_to_col 703) ≡ 703
col_to_index-index_to_col_example = col_to_index-index_to_col 703

index_to_col-col_to_index_example :
    index_to_col (col_to_index (b'x' ∷ b'F' ∷ b'd' ∷ [])) ≡ map upper (b'x' ∷ b'F' ∷ b'd' ∷ [])
index_to_col-col_to_index_example = index_to_col-col_to_index b'x' (b'F' ∷ b'd' ∷ []) (omega arith)

parse_addr-format_addr_example : parse_addr sample (format_addr 28 105) ≡ some (28, 105)
parse_addr-format_addr_example = parse_addr-format_addr sample 28 105

is_derived_addr_ascii_example : is_derived_addr sample (b'A' ∷ b'0' ∷ b'5' ∷ []) 1 5 ≡ some false
unfolding format_addr index_to_col str
is_derived_addr_ascii_example =
    is_derived_addr_ascii sample (b'A' ∷ b'0' ∷ b'5' ∷ []) 1 5 (omega arith)

is_derived_addr_other_digit_example :
    (is_derived_addr sample (index_to_col 1 ++ 1637 ∷ []) 1 5 ≡ some true)
    × (index_to_col 1 ++ 1637 ∷ [] ≢ format_addr 1 5)
is_derived_addr_other_digit_example = is_derived_addr_other_digit sample 1 5 1637 (omega arith) refl

is_derived_addr_raises_example : is_derived_addr sample (index_to_col 1 ++ 178 ∷ []) 1 2 ≡ none
is_derived_addr_raises_example = is_derived_addr_raises sample 1 2 178 refl refl
