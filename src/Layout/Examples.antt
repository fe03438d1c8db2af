-- ===== src/Layout/Examples.antt =====
-- A formula in row 2 that reads a cell of row 1.
use finance_context_builder.Base.{
  if◌then◌else◌, ◌≡◌, refl, true, ◌&&◌, ◌||◌, List, [], ◌∷◌, leb, Option, some, none,
}
use finance_context_builder.Base.Eq.{◌==◌, nat_eq, list_eq, pair_eq}
use finance_context_builder.Base.Text.{Text, int, str}
use finance_context_builder.Base.Sample.{sample}
use finance_context_builder.Excel.Columns.{col_to_index, upper}
use finance_context_builder.Excel.Addresses.{parse_addr}
use finance_context_builder.Formulas.Characters.{Characters}
use finance_context_builder.Formulas.Edges.{Edge, ref, plain_edge}
use finance_context_builder.Formulas.RangeNodes.{RangeNode}
use finance_context_builder.Layout.Adjacency.{no_reads, row_adjacency}
use finance_context_builder.Base.Dict.{list_at}
use finance_context_builder.Layout.Adjacency.Lists.{once, cut_to, row_adjacency_lem}
use finance_context_builder.Layout.Adjacency.Links.{targets_of, sources_of}
use finance_context_builder.Layout.Adjacency.Reference.{is_listed, links_of_edges}

abbrev ascii : Characters
ascii = record {
  digits = sample;
  is_space = λ c. c == 32;
  is_alpha = λ c. leb b'A' c && leb c b'Z' || leb b'a' c && leb c b'z';
  is_alnum = λ c. leb b'A' c && leb c b'Z' || leb b'a' c && leb c b'z' || leb 48 c && leb c 57;
}

abbrev no_cells : Text → Option (List Text)
no_cells text = none

abbrev no_node : Text → Option RangeNode
no_node text = none

abbrev sheet : Text
sheet = b'S' ∷ []

abbrev edges : List Edge
edges = plain_edge ref (b'S' ∷ b'!' ∷ b'B' ∷ b'2' ∷ []) (some (b'S' ∷ b'!' ∷ b'A' ∷ b'1' ∷ [])) ∷ []

lists : row_adjacency ascii no_cells no_node edges 8 (some no_reads) none ≡ (
  ((sheet, 2), (b'S' ∷ b'!' ∷ b'1' ∷ []) ∷ []) ∷ [],
  ((sheet, 1), (b'S' ∷ b'!' ∷ b'2' ∷ []) ∷ []) ∷ [],
  some no_reads,
)
unfolding row_adjacency parse_addr int col_to_index upper str
lists = refl

row_adjacency_lem_example :
    (list_at (row_adjacency ascii no_cells no_node edges 8 (some no_reads) none).0 (sheet, 2)
      ≡ cut_to 8 (
          if is_listed none (sheet, 2)
          then once [] (targets_of (sheet, 2) (links_of_edges ascii no_cells no_node true edges))
          else []))
    × (list_at (row_adjacency ascii no_cells no_node edges 8 (some no_reads) none).1 (sheet, 2)
        ≡ cut_to 8 (
            if is_listed none (sheet, 2)
            then once [] (sources_of (sheet, 2) (links_of_edges ascii no_cells no_node true edges))
            else []))
row_adjacency_lem_example =
    row_adjacency_lem ascii no_cells no_node none edges 8 (some no_reads) (sheet, 2)
