-- ===== src/Layout/Adjacency.antt =====
-- The neighbours of the rows, layout/adjacency.py. `expand_range` and `range_node_for` of
-- formulas/csr.py are arguments; `none` of the first is a ValueError.
pub mod Links
pub mod Reference
pub mod Lists
use finance_context_builder.Base.{
  ℕ, Bool, true, false, ◌&&◌, ◌||◌, not, List, [], ◌∷◌, ◌++◌, Option, none, some, ◌>>=◌,
  if◌then◌else◌, ltb, take,
}
use finance_context_builder.Base.Eq.{HasEq, ◌==◌, nat_eq, list_eq, pair_eq}
use finance_context_builder.Base.Dict.{Dict, get, put, list_at, append_at}
use finance_context_builder.Base.Text.{Text, str}
use finance_context_builder.Excel.Columns.{index_to_col}
use finance_context_builder.Formulas.Characters.{Characters}
use finance_context_builder.Formulas.Known.{split_last}
use finance_context_builder.Formulas.Edges.{
  Edge, EdgeKind, ref, cross_sheet, range, external, dynamic,
}
use finance_context_builder.Formulas.RangeNodes.{RangeNode}
use finance_context_builder.Graph.Refs.{parse_node_id, has_char}
use finance_context_builder.Graph.Trace.{member}

abbrev pub Row : Type 0
Row = Text × ℕ

abbrev pub Neighbors : Type 0
Neighbors = Dict Row (List Text)

unfoldable pub row_key_ref : Row → Text
row_key_ref (sheet, row) = sheet ++ b'!' ∷ str row

-- `d[row].setdefault(text, None)`: the names of a row, in order and each once
unfoldable pub keep_name :
    {K : Type 0} ⦃e : HasEq K⦄ → Dict K (List Text) → K → Text → Dict K (List Text)
unfolding append_at member
keep_name d row text = if member text (list_at d row) then d else append_at d row text

-- `edge.kind == "range" and not edge.unresolved`
abbrev pub is_range_kind : EdgeKind → Bool
is_range_kind range = true
is_range_kind _ = false

abbrev pub is_range_edge : Edge → Bool
is_range_edge edge = is_range_kind edge.kind && not edge.unresolved

-- `str(edge.target or "")`
abbrev pub target_text : Edge → Text
target_text edge = elim edge.target [ none ↦ [] | some target ↦ target ]

-- `target.rsplit("!", 1)[-1]`
abbrev pub body_of : Text → Text
body_of target = elim (split_last target) [ none ↦ target | some (_, body) ↦ body ]

pub record RangeReads : Type 0 where
  pub by_row : Neighbors
  pub nodes : Dict Text RangeNode
  pub readers : Dict Text (List Text)

abbrev pub no_reads : RangeReads
no_reads = record { by_row = []; nodes = []; readers = [] }

-- `RangeReads.add`
unfoldable pub add_read : RangeReads → Row → RangeNode → RangeReads
unfolding keep_name row_key_ref get put
add_read reads source node = record {
  nodes = elim (get reads.nodes node.node_id) [
    | none ↦ put reads.nodes node.node_id node
    | some _ ↦ reads.nodes
  ];
  by_row = keep_name reads.by_row source node.node_id;
  readers = keep_name reads.readers node.node_id (row_key_ref source);
}

-- `RangeReads.for_row`
unfoldable pub for_row : RangeReads → Row → List Text
for_row reads row = list_at reads.by_row row

-- A record of `RangeReads.records`.
pub record RangeRecord : Type 0 where
  pub id : Text
  pub sheet : Text
  pub col_start : Option Text
  pub col_end : Option Text
  pub row_start : Option ℕ
  pub row_end : Option ℕ
  pub cells : ℕ
  pub readers : List Text

abbrev pub unless {ℓ} : {A : Type ℓ} → Bool → A → Option A
unless true x = none
unless false x = some x

unfoldable pub range_record : (RangeNode → ℕ) → RangeReads → Text → RangeNode → RangeRecord
unfolding index_to_col
range_record cells reads id node =
    let whole_rows = node.c1 == 1 && node.c2 == 16384 in
    let whole_cols = node.r1 == 1 && node.r2 == 1048576 in
    record {
      id = id;
      sheet = node.sheet;
      col_start = unless whole_rows (index_to_col node.c1);
      col_end = unless whole_rows (index_to_col node.c2);
      row_start = unless whole_cols node.r1;
      row_end = unless whole_cols node.r2;
      cells = cells node;
      readers = list_at reads.readers id;
    }

-- `RangeReads.records`; `cells` is `present_count` of the usage, or 0 without one.
unfoldable pub range_records : (RangeNode → ℕ) → RangeReads → Dict Text RangeNode → List RangeRecord
unfolding range_record
range_records cells reads [] = []
range_records cells reads ((id, node) ∷ nodes) =
    range_record cells reads id node ∷ range_records cells reads nodes

-- `keep is None or row in keep`
unfoldable pub has_row : List Row → Row → Bool
has_row [] row = false
has_row (other ∷ others) row = other == row || has_row others row

unfoldable pub is_kept : Option (List Row) → Row → Bool
unfolding has_row
is_kept none row = true
is_kept (some rows) row = has_row rows row

abbrev pub keeps_any : Option (List Row) → Bool
keeps_any none = true
keeps_any (some []) = false
keeps_any (some (_ ∷ _)) = true

-- What the loop over the edges changes.
pub record Adjacency : Type 0 where
  pub precedents : Neighbors
  pub dependents : Neighbors
  pub ranges : Option RangeReads

-- `_neighbor_lists`, which takes the rows from the last on
unfoldable pub neighbor_lists : ℕ → Neighbors → Neighbors
neighbor_lists limit [] = []
neighbor_lists limit ((row, names) ∷ rest) =
    neighbor_lists limit rest ++ (row, if ltb 0 limit then take limit names else names) ∷ []

module _ (u : Characters) (expand_range : Text → Option (List Text))
    (range_node_for : Text → Option RangeNode) where
  -- `cell_ref_row`, whose steps are those of parse_node_id of graph/refs.py
  unfoldable pub cell_ref_row : Text → Option Row
  unfolding parse_node_id
  cell_ref_row text = parse_node_id u text >>= λ (sheet, col, row). some (sheet, row)

  -- `_targets`
  unfoldable pub targets : Edge → List Text
  unfolding has_char
  targets edge = elim (target_text edge) [
    | [] ↦ []
    | c ∷ text ↦
        if is_range_edge edge && has_char b':' (body_of (c ∷ text))
        then elim (expand_range (c ∷ text)) [ none ↦ (c ∷ text) ∷ [] | some cells ↦ cells ]
        else (c ∷ text) ∷ []
  ]

  -- The node that an edge reads, where large ranges are kept apart.
  unfoldable pub large_range : Option RangeReads → Edge → Option RangeNode
  large_range none edge = none
  large_range (some reads) edge =
      if is_range_edge edge then range_node_for (target_text edge) else none

  -- One round of `for target_ref in _targets(edge, usage)`.
  unfoldable pub add_target : Option (List Row) → Row → Row → Adjacency → Adjacency
  unfolding keep_name row_key_ref is_kept
  add_target keep source target a = if source == target then a else record a {
    precedents =
        if is_kept keep source
        then keep_name a.precedents source (row_key_ref target)
        else a.precedents;
    dependents =
        if is_kept keep target
        then keep_name a.dependents target (row_key_ref source)
        else a.dependents;
  }

  unfoldable pub add_targets : Option (List Row) → Row → List Text → Adjacency → Adjacency
  unfolding add_target cell_ref_row
  add_targets keep source [] a = a
  add_targets keep source (text ∷ texts) a = elim (cell_ref_row text) [
    | none ↦ add_targets keep source texts a
    | some target ↦ add_targets keep source texts (add_target keep source target a)
  ]

  abbrev pub add_large : Option RangeReads → Row → RangeNode → Option RangeReads
  add_large none source node = none
  add_large (some reads) source node = some (add_read reads source node)

  -- One round of `for raw in edges`.
  unfoldable pub add_edge : Option (List Row) → Edge → Adjacency → Adjacency
  unfolding cell_ref_row large_range targets add_targets add_read
  add_edge keep edge a = if edge.named then a else elim (cell_ref_row edge.source) [
    | none ↦ a
    | some source ↦ elim (large_range a.ranges edge) [
      | some node ↦ record a { ranges = add_large a.ranges source node }
      | none ↦ if not (keeps_any keep) then a else add_targets keep source (targets edge) a
    ]
  ]

  unfoldable pub add_edges : Option (List Row) → List Edge → Adjacency → Adjacency
  unfolding add_edge
  add_edges keep [] a = a
  add_edges keep (edge ∷ edges) a = add_edges keep edges (add_edge keep edge a)

  unfoldable pub row_adjacency :
      List Edge
      → ℕ
      → Option RangeReads
      → Option (List Row)
      → Neighbors × Neighbors × Option RangeReads
  unfolding add_edges neighbor_lists
  row_adjacency edges limit ranges keep =
      let a = add_edges keep edges (record { precedents = []; dependents = []; ranges = ranges }) in
      (neighbor_lists limit a.precedents, neighbor_lists limit a.dependents, a.ranges)
