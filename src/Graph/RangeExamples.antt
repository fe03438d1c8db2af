-- ===== src/Graph/RangeExamples.antt =====
-- The range nodes around a blank cell: a block that holds it, and a whole column that does not.
use finance_context_builder.Base.{
  ◌≡◌, refl, Bool, false, ◌&&◌, ◌||◌, List, [], ◌∷◌, leb, some, none, if◌then◌else◌,
}
use finance_context_builder.Base.Eq.{◌==◌, nat_eq, list_eq, pair_eq}
use finance_context_builder.Base.Text.{Text, int, str}
use finance_context_builder.Base.Sample.{sample}
use finance_context_builder.Excel.Columns.{max_row, col_to_index, upper, index_to_col}
use finance_context_builder.Excel.Addresses.{parse_addr, format_addr}
use finance_context_builder.Formulas.Characters.{Characters}
use finance_context_builder.Formulas.Known.{split_last}
use finance_context_builder.Formulas.RangeNodes.{RangeNode, whole_axis}
use finance_context_builder.Formulas.Spans.{sort_spans}
use finance_context_builder.Formulas.Usage.{SheetUsage}
use finance_context_builder.Graph.CoverIndex.Queries.{tally, containing}
use finance_context_builder.Graph.Trace.{empty_type}
use finance_context_builder.Graph.Refs.{parse_node_id, has_char}
use finance_context_builder.Graph.RangeViews.{
  RangeViews, range_views, covering_held, blank_meta, members, starts_of,
}
use finance_context_builder.Graph.RangeViews.Held.{holds, covering_held-tally}

abbrev ascii : Characters
ascii = record {
  digits = sample;
  is_space = λ c. c == 32;
  is_alpha = λ c. leb b'A' c && leb c b'Z' || leb b'a' c && leb c b'z';
  is_alnum = λ c. leb b'A' c && leb c b'Z' || leb b'a' c && leb c b'z' || leb 48 c && leb c 57;
}

abbrev sheet : Text
sheet = b'S' ∷ []

abbrev cell : Text
cell = b'S' ∷ b'!' ∷ b'C' ∷ b'4' ∷ []

abbrev same_text : Text → Text
same_text text = text

abbrev lag_of : Text → Text → Text
lag_of from to = from

abbrev block : RangeNode
block = record { node_id = b'B' ∷ []; sheet = sheet; c1 = 2; c2 = 3; r1 = 1; r2 = 9 }

abbrev whole_column : RangeNode
whole_column = record { node_id = b'W' ∷ []; sheet = sheet; c1 = 3; c2 = 3; r1 = 1; r2 = max_row }

abbrev nodes : List RangeNode
nodes = block ∷ whole_column ∷ []

-- The column has cells in rows 5 and 6.
abbrev usage : SheetUsage
usage = record {
  rows_by_col = (sheet, (3, (5, 6) ∷ []) ∷ []) ∷ [];
  canonical = (sheet, sheet) ∷ [];
}

abbrev views : RangeViews
views = range_views ascii same_text lag_of nodes [] usage usage

parsed : parse_node_id ascii cell ≡ some (sheet, 3, 4)
unfolding parse_node_id parse_addr split_last int col_to_index upper
parsed = refl

plain : has_char b':' cell ≡ false
unfolding has_char
plain = refl

around : covering_held ascii same_text lag_of views cell ≡ some (block ∷ [])
unfolding covering_held range_views parse_node_id whole_axis parse_addr int col_to_index upper
around = refl

listed :
    members ascii same_text lag_of views block
    ≡ (b'S' ∷ b'!' ∷ b'C' ∷ b'5' ∷ []) ∷ (b'S' ∷ b'!' ∷ b'C' ∷ b'6' ∷ []) ∷ []
unfolding members range_views sort_spans format_addr index_to_col str
listed = refl

begins : starts_of ascii same_text lag_of views (λ _. []) [] cell ≡ cell ∷ []
unfolding starts_of range_views parse_addr int col_to_index upper whole_axis
begins = refl

covering_held-tally_example :
    (found : List RangeNode) × (covering_held ascii same_text lag_of
        (range_views ascii same_text lag_of nodes [] usage usage)
        cell
      ≡ some found)
    × ((p : RangeNode → Bool)
        → tally p found
          ≡ tally (λ node. holds usage sheet 3 4 node && p node) (containing nodes sheet 3 4))
    × ((blank_meta ascii same_text lag_of
          (range_views ascii same_text lag_of nodes [] usage usage)
          cell).node_type
        ≡ (if tally (λ node. holds usage sheet 3 4 node) (containing nodes sheet 3 4) == 0
            then none
            else some empty_type))
covering_held-tally_example =
    covering_held-tally ascii same_text lag_of nodes [] usage usage cell sheet 3 4 parsed plain
