-- ===== src/Formulas/RangeNodes.antt =====
-- Range nodes of formulas/csr.py: a rectangle of cells that is one target of an edge.
use finance_context_builder.Base.{ℕ, Bool, ◌&&◌, ◌||◌, ◌∷◌, ◌++◌, if◌then◌else◌}
use finance_context_builder.Base.Eq.{◌==◌, nat_eq}
use finance_context_builder.Base.Text.{Text, str}
use finance_context_builder.Excel.Columns.{max_col, max_row, index_to_col}
use finance_context_builder.Excel.Addresses.{format_addr}

pub record RangeNode : Type 0 where
  pub node_id : Text
  pub sheet : Text
  pub c1 : ℕ
  pub c2 : ℕ
  pub r1 : ℕ
  pub r2 : ℕ

-- a whole column or a whole row
unfoldable pub whole_axis : ℕ → ℕ → ℕ → ℕ → Bool
whole_axis c1 c2 r1 r2 = r1 == 1 && r2 == max_row || c1 == 1 && c2 == max_col

unfoldable pub range_node_id : Text → ℕ → ℕ → ℕ → ℕ → Text
range_node_id sheet c1 c2 r1 r2 =
    if r1 == 1 && r2 == max_row
    then sheet ++ b'!' ∷ index_to_col c1 ++ b':' ∷ index_to_col c2
    else if c1 == 1 && c2 == max_col
    then sheet ++ b'!' ∷ str r1 ++ b':' ∷ str r2
    else sheet ++ b'!' ∷ format_addr c1 r1 ++ b':' ∷ format_addr c2 r2
