-- ===== src/Graph/Trace.antt =====
-- The walk over precedents or dependents, `trace_graph` of graph/trace.py, behind what it reads from
-- the files: the edges, the index of the cells, and the range nodes.
use finance_context_builder.Base.{
  ℕ, suc, Bool, true, false, ◌||◌, not, List, [], ◌∷◌, ◌++◌, Option, none, some, if◌then◌else◌,
  length, take,
}
use finance_context_builder.Base.Eq.{◌==◌, nat_eq, list_eq, pair_eq}
use finance_context_builder.Base.Dict.{Dict, get, list_at, append_at}
use finance_context_builder.Base.Text.{Text}
use finance_context_builder.Formulas.References.{filled}
use finance_context_builder.Formulas.Shift.{Offset}
use finance_context_builder.Formulas.RangeNodes.{RangeNode}

-- A row of edges.parquet.
pub record GraphEdge : Type 0 where
  pub source : Text
  pub target : Option Text
  pub kind : Option Text
  pub unresolved : Bool
  pub dangling : Bool
  pub range_ref : Option Text
  pub period_lag : Option Text
  pub col_offset : Option Offset

-- A row of the index, or what `blank_meta` makes up; all fields may be missing.
pub record Meta : Type 0 where
  pub sheet : Option Text
  pub addr : Option Text
  pub row_key : Option Text
  pub period_id : Option Text
  pub node_type : Option Text

pub record CellRow : Type 0 where
  pub sheet : Option Text
  pub addr : Option Text
  pub cached_value : Option Text
  pub formula_raw : Option Text
  pub formula_template : Option Text

pub record TraceNode : Type 0 where
  pub node_id : Text
  pub sheet : Option Text
  pub addr : Option Text
  pub row_key : Option Text
  pub period_id : Option Text
  pub node_type : Option Text
  pub formula : Option Text
  pub formula_template : Option Text
  pub cached_value : Option Text
  pub depth : ℕ

pub record TraceEdge : Type 0 where
  pub source : Text
  pub target : Text
  pub kind : Option Text
  pub period_lag : Option Text
  pub col_offset : Option Offset
  pub members_total : Option ℕ
  pub members_shown : Option ℕ

pub data Direction : Type 0 where
  precedents dependents : Direction

pub data Stopped : Type 0 where
  empty cycle input depth leaf complete : Stopped

abbrev pub no_meta : Meta
no_meta = record { sheet = none; addr = none; row_key = none; period_id = none; node_type = none }

abbrev pub no_cell : CellRow
no_cell = record {
  sheet = none;
  addr = none;
  cached_value = none;
  formula_raw = none;
  formula_template = none;
}

-- `a or b` of texts that may be missing or empty
abbrev pub either : Option Text → Option Text → Option Text
either (some (c ∷ text)) other = some (c ∷ text)
either _ other = other

-- `_node`
unfoldable pub trace_node : Text → CellRow → Meta → ℕ → TraceNode
trace_node node_id cell meta level = record {
  node_id = node_id;
  sheet = either meta.sheet cell.sheet;
  addr = either meta.addr cell.addr;
  row_key = meta.row_key;
  period_id = meta.period_id;
  node_type = meta.node_type;
  formula = cell.formula_raw;
  formula_template = cell.formula_template;
  cached_value = cell.cached_value;
  depth = level;
}

-- "input" and "empty"
abbrev pub input_type : Text
input_type = b'i' ∷ b'n' ∷ b'p' ∷ b'u' ∷ b't' ∷ []

abbrev pub empty_type : Text
empty_type = b'e' ∷ b'm' ∷ b'p' ∷ b't' ∷ b'y' ∷ []

-- `index.get(node, {}).get("node_type")`
abbrev pub type_of : Option Meta → Option Text
type_of none = none
type_of (some meta) = meta.node_type

-- `meta.get("node_type") == name`
unfoldable pub has_type : Text → Option Text → Bool
has_type name none = false
has_type name (some found) = found == name

unfoldable pub member : Text → List Text → Bool
member x [] = false
member x (y ∷ ys) = y == x || member x ys

unfoldable pub is_emitted : Text × Text → List (Text × Text) → Bool
is_emitted key [] = false
is_emitted key (other ∷ others) = other == key || is_emitted key others

-- What the walk asks of the range nodes of the book, the class `_Ranges`.
pub record Ranges : Type 0 where
  pub node_of : Text → Option RangeNode
  pub has_cells : RangeNode → Bool
  pub members : RangeNode → List Text
  pub covering : Text → List RangeNode
  pub blank_meta : Text → Meta
  pub offset_and_lag : Text → Text → Option Offset × Option Text

-- The files of a trace, read; `fwd` and `rev` are the edges by their source and target.
pub record Book : Type 0 where
  pub cells : Dict Text CellRow
  pub index : Dict Text Meta
  pub fwd : Dict Text (List GraphEdge)
  pub rev : Dict Text (List GraphEdge)
  pub ranges : Ranges

-- What changes in one round of the `while` loop.
pub record Walk : Type 0 where
  pub queue : List (Text × ℕ)
  pub used : List TraceEdge
  pub stopped : Option Stopped
  pub emitted : List (Text × Text)

-- `edge["target"]` as a text, and `edge.get("range_ref") or edge["target"]`
abbrev pub target_of : GraphEdge → Text
target_of edge = elim edge.target [ none ↦ [] | some target ↦ target ]

abbrev pub shown_target : GraphEdge → Text
shown_target edge = elim edge.range_ref [
  | none ↦ target_of edge
  | some ref ↦ elim (filled ref) [ none ↦ target_of edge | some text ↦ text ]
]

abbrev is_empty : Text → Bool
is_empty [] = true
is_empty (_ ∷ _) = false

-- The loop that fills `fwd` and `rev`; an edge without a target, or with an empty one, is skipped.
unfoldable pub is_skipped : GraphEdge → Bool
is_skipped edge = edge.unresolved || (edge.dangling || is_empty (target_of edge))

abbrev pub EdgeTable : Type 0
EdgeTable = Dict Text (List GraphEdge)

unfoldable pub edge_tables : List GraphEdge → EdgeTable × EdgeTable → EdgeTable × EdgeTable
unfolding is_skipped append_at
edge_tables [] tables = tables
edge_tables (edge ∷ edges) (fwd, rev) = edge_tables edges (
    if is_skipped edge
    then (fwd, rev)
    else (append_at fwd edge.source edge, append_at rev (target_of edge) edge))

-- `_emit`
unfoldable pub emit :
    GraphEdge → Text → Option Text → Option Offset → Option ℕ → Option ℕ → Walk → Walk
unfolding is_emitted
emit edge target lag shift total shown w =
    if is_emitted (edge.source, target) w.emitted then w else record w {
      emitted = (edge.source, target) ∷ w.emitted;
      used =
          w.used
          ++ record {
            source = edge.source;
            target = target;
            kind = edge.kind;
            period_lag = lag;
            col_offset = shift;
            members_total = total;
            members_shown = shown;
          }
            ∷ [];
    }

-- A node that was seen is a cycle, another goes to the end of the queue.
unfoldable pub visit : List Text → ℕ → Text → Walk → Walk
unfolding member
visit seen level next w =
    if member next seen
    then record w { stopped = some cycle }
    else record w { queue = w.queue ++ (next, suc level) ∷ [] }

unfoldable pub visit_all : List Text → ℕ → List Text → Walk → Walk
visit_all seen level [] w = w
visit_all seen level (next ∷ others) w = visit_all seen level others (visit seen level next w)

-- `members if limit == 0 else members[:limit]`
abbrev pub shown_members : ℕ → List Text → List Text
shown_members limit members = if limit == 0 then members else take limit members

module _ (book : Book) (direction : Direction) (limit : ℕ) where
  -- The end of an edge's round: the neighbour, unless it is an empty cell.
  unfoldable pub to_neighbour : List Text → ℕ → GraphEdge → Text → Walk → Walk
  unfolding emit visit has_type
  to_neighbour seen level edge next w =
      let after = emit edge (shown_target edge) edge.period_lag edge.col_offset none none w in
      if has_type empty_type
        (elim (get book.index next) [ none ↦ none | some meta ↦ meta.node_type ])
      then after
      else visit seen level next after

  -- An edge into a range node, which is passed through to its first members.
  unfoldable pub through_node : List Text → ℕ → GraphEdge → RangeNode → Walk → Walk
  unfolding emit visit_all
  through_node seen level edge node w =
      let members = book.ranges.members node in
      let shown = shown_members limit members in
      if not (book.ranges.has_cells node)
      then w
      else visit_all seen level shown (
          emit edge (shown_target edge) edge.period_lag edge.col_offset (some (length members))
            (some (length shown)) w)

  -- One round of `for edge in outgoing`.
  unfoldable pub follow : List Text → ℕ → GraphEdge → Walk → Walk
  follow seen level edge w = elim direction [
    | precedents ↦ elim (book.ranges.node_of (target_of edge)) [
      | some node ↦ through_node seen level edge node w
      | none ↦ to_neighbour seen level edge (target_of edge) w
    ]
    | dependents ↦ to_neighbour seen level edge edge.source w
  ]

  unfoldable pub follow_all : List Text → ℕ → List GraphEdge → Walk → Walk
  follow_all seen level [] w = w
  follow_all seen level (edge ∷ edges) w = follow_all seen level edges (follow seen level edge w)

  -- `_Ranges.readers`, the edges into the nodes around a cell.
  unfoldable pub readers_of : List RangeNode → List GraphEdge
  readers_of [] = []
  readers_of (node ∷ nodes) = list_at book.rev node.node_id ++ readers_of nodes

  -- One round of `for edge, reader in readers`.
  unfoldable pub read_by : List Text → ℕ → Text → GraphEdge → Walk → Walk
  unfolding emit visit
  read_by seen level current edge w =
      let (shift, lag) = book.ranges.offset_and_lag edge.source current in
      visit seen level edge.source (emit edge (shown_target edge) lag shift none none w)

  unfoldable pub read_by_all : List Text → ℕ → Text → List GraphEdge → Walk → Walk
  read_by_all seen level current [] w = w
  read_by_all seen level current (edge ∷ edges) w =
      read_by_all seen level current edges (read_by seen level current edge w)

  -- `outgoing` and `readers` of a node
  unfoldable pub outgoing : Text → List GraphEdge
  outgoing current = elim direction [
    | precedents ↦ list_at book.fwd current
    | dependents ↦ list_at book.rev current
  ]

  unfoldable pub readers : Text → List GraphEdge
  unfolding readers_of
  readers current = elim direction [
    | precedents ↦ []
    | dependents ↦ readers_of (book.ranges.covering current)
  ]

  -- `index.get(current) or ranges.blank_meta(current)`
  unfoldable pub meta_of : Text → Meta
  meta_of current = elim (get book.index current) [
    | some meta ↦ meta
    | none ↦ book.ranges.blank_meta current
  ]
