-- ===== src/Formulas/Edges.antt =====
-- The edges of a formula: `Edge` of formulas/models.py, and `_collect_edges` with `_ref_edge`,
-- `_range_edge` and `_range_target` of formulas/render.py.
pub mod Suppressed
use finance_context_builder.Base.{
  ℕ, Bool, true, false, ◌&&◌, ◌||◌, not, List, [], ◌∷◌, ◌++◌, Option, none, some, if◌then◌else◌,
}
use finance_context_builder.Base.Eq.{◌==◌, nat_eq, list_eq}
use finance_context_builder.Base.Text
use finance_context_builder.Base.Text.{Text}
use finance_context_builder.Excel.Columns.{index_to_col}
use finance_context_builder.Excel.Addresses.{format_addr}
use finance_context_builder.Formulas.Syntax.{
  Ast, Asts, num, str, err, named, cell, bin, unary, percent, func, array, named_range, no_more,
  and_then,
}
use finance_context_builder.Formulas.References.{
  Coordinate, Point, Body, Place, Node, one, block, columns, rows, refer, deleted,
}
use finance_context_builder.Formulas.Template.{present}
use finance_context_builder.Formulas.Parser.{canonical_func_name}

pub data EdgeKind : Type 0 where
  ref cross_sheet range external dynamic : EdgeKind

pub record Edge : Type 0 where
  pub kind : EdgeKind
  pub source : Text
  pub target : Option Text
  pub unresolved : Bool
  pub truncated : Bool
  pub abs_col : Option Bool
  pub abs_row : Option Bool
  pub abs_col_end : Option Bool
  pub abs_row_end : Option Bool
  pub named : Bool

-- The constructor's defaults.
abbrev pub plain_edge : EdgeKind → Text → Option Text → Edge
plain_edge kind source target = record {
  kind = kind;
  source = source;
  target = target;
  unresolved = false;
  truncated = false;
  abs_col = none;
  abs_row = none;
  abs_col_end = none;
  abs_row_end = none;
  named = false;
}

-- `node.get("sheet") or current_sheet`
unfoldable pub sheet_or : Place → Text → Text
sheet_or place current = elim (present place.sheet) [ none ↦ current | some sheet ↦ sheet ]

-- `f"{sheet}!{...}"` of a cell and of a range (`_range_target`)
unfoldable pub body_target : Text → Body → Text
body_target sheet (one point) = sheet ++ b'!' ∷ format_addr point.col.index point.row.index
body_target sheet (columns start end) =
    sheet ++ b'!' ∷ index_to_col start.index ++ b':' ∷ index_to_col end.index
body_target sheet (rows start end) =
    sheet ++ b'!' ∷ Text.str start.index ++ b':' ∷ Text.str end.index
body_target sheet (block start end) =
    sheet
    ++ b'!' ∷ format_addr start.col.index start.row.index
    ++ b':' ∷ format_addr end.col.index end.row.index

-- The anchors of an edge, as `_ref_edge` and `_range_edge` set them.
unfoldable pub anchored : Body → Edge → Edge
anchored (one point) e = record e { abs_col = some point.col.fixed; abs_row = some point.row.fixed }
anchored (block start end) e = record e {
  abs_col = some start.col.fixed;
  abs_row = some start.row.fixed;
  abs_col_end = some end.col.fixed;
  abs_row_end = some end.row.fixed;
}
anchored (columns start end) e = record e {
  abs_col = some start.fixed;
  abs_col_end = some end.fixed;
}
anchored (rows start end) e = record e { abs_row = some start.fixed; abs_row_end = some end.fixed }

-- The kind within the book. `node["sheet"] != current_sheet`, for a sheet that is not empty.
unfoldable pub inner_kind : Place → Text → Body → EdgeKind
inner_kind place current (one point) = elim (present place.sheet) [
  | none ↦ ref
  | some sheet ↦ if sheet == current then ref else cross_sheet
]
inner_kind place current _ = range

-- `_ref_edge` and `_range_edge`
unfoldable pub node_edge : Place → Body → Text → Text → Edge
unfolding sheet_or body_target anchored inner_kind
node_edge place body current source =
    let target = body_target (sheet_or place current) body in
    anchored body (elim (present place.external) [
      | some book ↦ plain_edge external source (some (b'[' ∷ book ++ b']' ∷ target))
      | none ↦ plain_edge (inner_kind place current body) source (some target)
    ])

unfoldable pub node_edges : Node → Text → Text → List Edge
unfolding node_edge
node_edges (refer place body) current source = node_edge place body current source ∷ []
node_edges deleted current source = []

-- A name, or a range between two names.
abbrev pub name_edge : EdgeKind → Text → Text → Edge
name_edge kind source target = record (plain_edge kind source (some target)) {
  unresolved = true;
  named = true;
}

-- "INDIRECT" and "OFFSET"
abbrev indirect : Text
indirect = b'I' ∷ b'N' ∷ b'D' ∷ b'I' ∷ b'R' ∷ b'E' ∷ b'C' ∷ b'T' ∷ []

abbrev offset_name : Text
offset_name = b'O' ∷ b'F' ∷ b'F' ∷ b'S' ∷ b'E' ∷ b'T' ∷ []

-- The edge of a dynamic function itself.
unfoldable pub dynamic_edge : Bool → Text → List Edge
dynamic_edge shown source =
    if shown then record (plain_edge dynamic source none) { unresolved = true } ∷ [] else []

unfoldable pub named_edge : Text → Text → List Edge
named_edge [] source = []
named_edge (c ∷ text) source = name_edge ref source (c ∷ text) ∷ []

-- `_canonical_func_name(node["name"]).upper() in _DYNAMIC_FUNCS`
unfoldable pub is_dynamic : (Text → Text) → (Text → Text) → Text → Bool
unfolding canonical_func_name
is_dynamic lower upper name =
    let known = upper (canonical_func_name lower name) in known == indirect || known == offset_name

module _ {Number : Type 0} (lower upper : Text → Text) where
  unfoldable mutual
    unfolding node_edges dynamic_edge named_edge

    -- `_collect_edges`, which appends to `edges`.
    pub collect_edges : Ast Number Node → Text → Text → Bool → List Edge
    collect_edges (func name args) current source suppress =
        dynamic_edge (is_dynamic lower upper name && not suppress) source
        ++ collect_all args current source (suppress || is_dynamic lower upper name)
    collect_edges (bin kind left right) current source suppress =
        collect_edges left current source suppress ++ collect_edges right current source suppress
    collect_edges (unary kind expr) current source suppress =
        collect_edges expr current source suppress
    collect_edges (percent expr) current source suppress =
        collect_edges expr current source suppress
    collect_edges (named text) current source suppress =
        if suppress then [] else named_edge text source
    collect_edges (cell node) current source suppress =
        if suppress then [] else node_edges node current source
    collect_edges (named_range start end) current source suppress =
        if suppress then [] else name_edge range source (start ++ b':' ∷ end) ∷ []
    collect_edges (num n) current source suppress = []
    collect_edges (str text) current source suppress = []
    collect_edges (err text) current source suppress = []
    collect_edges (array cells) current source suppress = []

    pub collect_all : Asts Number Node → Text → Text → Bool → List Edge
    collect_all no_more current source suppress = []
    collect_all (and_then first others) current source suppress =
        collect_edges first current source suppress ++ collect_all others current source suppress
