-- ===== src/Graph/RangeViews.antt =====
-- What a trace asks of the range nodes of a book: `_Ranges` of graph/trace.py and `CellGrid` of
-- graph/ranges.py. The present cells of the book and of the index are given, and `calendar_lag`.
pub mod Held
use finance_context_builder.Base.{
  ℕ, ◌+◌, Bool, true, false, ◌&&◌, ◌||◌, not, List, [], ◌∷◌, ◌++◌, map, Option, none, some, ◌>>=◌,
  if◌then◌else◌, ltb,
}
use finance_context_builder.Base.Eq.{HasEq, ◌==◌, nat_eq, list_eq, pair_eq}
use finance_context_builder.Base.Dict.{Dict, get, put, list_at}
use finance_context_builder.Base.Text.{Text}
use finance_context_builder.Excel.Addresses.{format_addr}
use finance_context_builder.Formulas.Characters.{Characters}
use finance_context_builder.Formulas.Known.{split_last}
use finance_context_builder.Formulas.RangeNodes.{RangeNode, whole_axis}
use finance_context_builder.Formulas.References.{filled}
use finance_context_builder.Formulas.Shift.{Offset, offset}
use finance_context_builder.Formulas.Spans.{Span, span_has}
use finance_context_builder.Formulas.Usage.{
  SheetUsage, Rectangle, columns_at, present_pairs, present_count,
}
use finance_context_builder.Graph.CoverIndex.{CoverIndex, Column, cover_index, covering_nodes}
use finance_context_builder.Graph.Trace.{Meta, CellRow, Ranges, no_meta, empty_type}
use finance_context_builder.Graph.Walk.{is_nonempty}
use finance_context_builder.Graph.Refs.{parse_node_id, has_char, resolve_origin, strip}

pub record RangeViews : Type 0 where
  pub index : Dict Text Meta
  pub usage : SheetUsage
  pub grid : SheetUsage
  pub cover : CoverIndex
  pub period_by_col : Dict Column Text
  pub row_key_by_row : Dict Column Text

-- `if value: d.setdefault(key, value)`
unfoldable pub keep_first : Dict Column Text → Column → Option Text → Dict Column Text
unfolding get put
keep_first d key value = elim value [
  | none ↦ d
  | some text ↦ elim (filled text) [
    | none ↦ d
    | some kept ↦ elim (get d key) [ none ↦ put d key kept | some old ↦ d ]
  ]
]

-- `whole_axis` of a node, and its bounds
abbrev pub is_whole_axis : RangeNode → Bool
is_whole_axis node = whole_axis node.c1 node.c2 node.r1 node.r2

abbrev pub bounds : RangeNode → Rectangle
bounds node = (node.c1, node.c2, node.r1, node.r2)

-- `_exists`
unfoldable pub exists : SheetUsage → Text → ℕ → ℕ → Bool
unfolding span_has
exists usage sheet col row = span_has (list_at (columns_at usage.rows_by_col sheet) col) row

-- The loop of `covering`: a whole axis holds only the cells that exist.
unfoldable pub held : SheetUsage → Text → ℕ → ℕ → List RangeNode → List RangeNode
unfolding exists
held usage sheet col row [] = []
held usage sheet col row (node ∷ nodes) =
    let more = held usage sheet col row nodes in
    if is_whole_axis node && not (exists usage sheet col row) then more else node ∷ more

-- "unaligned"
abbrev pub unaligned : Text
unaligned = b'u' ∷ b'n' ∷ b'a' ∷ b'l' ∷ b'i' ∷ b'g' ∷ b'n' ∷ b'e' ∷ b'd' ∷ []

abbrev pub filled_or_none : Option Text → Option Text
filled_or_none none = none
filled_or_none (some text) = filled text

abbrev pub nodes_of : Option (List RangeNode) → List RangeNode
nodes_of none = []
nodes_of (some found) = found

module _ (u : Characters) (casefold : Text → Text) (calendar_lag : Text → Text → Text) where
  -- The loop of `__init__` over the index.
  unfoldable pub label_tables :
      Dict Text Meta → Dict Column Text × Dict Column Text → Dict Column Text × Dict Column Text
  unfolding keep_first parse_node_id
  label_tables [] tables = tables
  label_tables ((id, meta) ∷ index) (periods, keys) = elim (parse_node_id u id) [
    | none ↦ label_tables index (periods, keys)
    | some (sheet, col, row) ↦
        label_tables index (
          keep_first periods (sheet, col) meta.period_id,
          keep_first keys (sheet, row) meta.row_key,
        )
  ]

  -- `__init__`
  unfoldable pub range_views :
      List RangeNode → Dict Text Meta → SheetUsage → SheetUsage → RangeViews
  unfolding label_tables cover_index
  range_views nodes index usage grid =
      let tables = label_tables index ([], []) in
      record {
        index = index;
        usage = usage;
        grid = grid;
        cover = cover_index nodes;
        period_by_col = tables.0;
        row_key_by_row = tables.1;
      }

  -- `covering`; `none` is an exception
  unfoldable pub covering_held : RangeViews → Text → Option (List RangeNode)
  unfolding covering_nodes held parse_node_id has_char
  covering_held views cell = elim (parse_node_id u cell) [
    | none ↦ some []
    | some (sheet, col, row) ↦
        if has_char b':' cell
        then some []
        else covering_nodes views.cover sheet col row >>= λ found.
            some (held views.usage sheet col row found)
  ]

  -- `covers`, where `covering` returns
  unfoldable pub covers_cell : RangeViews → Text → Bool
  unfolding covering_held
  covers_cell views cell = is_nonempty (nodes_of (covering_held views cell))

  -- `CellGrid.members`
  unfoldable pub members : RangeViews → RangeNode → List Text
  unfolding present_pairs
  members views node =
      map (λ (cell : ℕ × ℕ). node.sheet ++ b'!' ∷ format_addr cell.1 cell.0)
        (present_pairs casefold node.sheet (bounds node) views.grid)

  unfoldable pub has_cells : RangeViews → RangeNode → Bool
  unfolding present_count
  has_cells views node =
      if not (is_whole_axis node)
      then true
      else ltb 0 (present_count casefold node.sheet (bounds node) views.usage)

  unfoldable pub period : RangeViews → Text → Option Text
  period views cell = elim (get views.index cell) [
    | some meta ↦ meta.period_id
    | none ↦ elim (parse_node_id u cell) [
      | none ↦ none
      | some (sheet, col, row) ↦ get views.period_by_col (sheet, col)
    ]
  ]

  unfoldable pub offset_between : Text → Text → Option Offset
  unfolding offset
  offset_between reader cell = do
    src ← parse_node_id u reader
    tgt ← parse_node_id u cell
    some (offset tgt.1 src.1)

  -- `offset_and_lag`
  unfoldable pub offset_and_lag : RangeViews → Text → Text → Option Offset × Option Text
  unfolding period offset_between
  offset_and_lag views reader cell = (
    offset_between reader cell,
    elim (filled_or_none (period views reader)) [
      | none ↦ some unaligned
      | some from ↦ elim (filled_or_none (period views cell)) [
        | none ↦ some unaligned
        | some to ↦ some (calendar_lag from to)
      ]
    ],
  )

  -- `blank_meta`
  unfoldable pub blank_meta : RangeViews → Text → Meta
  unfolding covers_cell
  blank_meta views cell = elim (parse_node_id u cell) [
    | none ↦ no_meta
    | some (sheet, col, row) ↦ if not (covers_cell views cell) then no_meta else record {
      sheet = some sheet;
      addr = elim (split_last cell) [ none ↦ none | some (_, addr) ↦ some addr ];
      row_key = get views.row_key_by_row (sheet, row);
      period_id = get views.period_by_col (sheet, col);
      node_type = some empty_type;
    }
  ]

  -- The interface of the walk, with the nodes by their ids.
  unfoldable pub ranges_of : RangeViews → Dict Text RangeNode → Ranges
  unfolding members has_cells covering_held offset_and_lag blank_meta
  ranges_of views nodes_by_id = record {
    node_of = get nodes_by_id;
    has_cells = has_cells views;
    members = members views;
    covering = λ cell. nodes_of (covering_held views cell);
    blank_meta = blank_meta views;
    offset_and_lag = offset_and_lag views;
  }

  -- The nodes that `trace_graph` starts from.
  unfoldable pub starts_of : RangeViews → (Text → List Text) → Dict Text CellRow → Text → List Text
  unfolding resolve_origin strip covers_cell
  starts_of views label_keys cells origin =
      let text = strip u.is_space origin in
      let found = resolve_origin label_keys views.index text in
      if is_nonempty found then found else elim (get cells text) [
        | some _ ↦ text ∷ []
        | none ↦ if covers_cell views text then text ∷ [] else []
      ]
