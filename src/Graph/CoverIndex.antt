-- ===== src/Graph/CoverIndex.antt =====
-- Which range nodes contain a cell, the class CoverIndex of graph/ranges.py.
pub mod Tables
pub mod Queries
use finance_context_builder.Base.{
  ℕ, zero, suc, ◌+◌, ◌-◌, Bool, ◌&&◌, List, [], ◌∷◌, ◌++◌, leb, if◌then◌else◌, Option, none, some,
  ◌>>=◌, Bool, true, false, ◌||◌,
}
use finance_context_builder.Base.Eq.{HasEq, ◌==◌, nat_eq, list_eq, pair_eq}
use finance_context_builder.Base.Dict.{Dict, get, append_at}
use finance_context_builder.Base.Text.{Text}
use finance_context_builder.Formulas.RangeNodes.{RangeNode}
use finance_context_builder.Graph.Intervals.{Item, Intervals, build, covering}

abbrev pub narrow_columns : ℕ
narrow_columns = 64

abbrev pub Column : Type 0
Column = Text × ℕ

abbrev pub Rows : Type 0 → Type 0
Rows K = Dict K (List (Item RangeNode))

abbrev pub item_of : RangeNode → Item RangeNode
item_of node = (node.r1, node.r2, node)

-- `for col in range(node.c1, node.c2 + 1)`, from a column on
unfoldable pub add_columns : Rows Column → RangeNode → ℕ → ℕ → Rows Column
unfolding append_at
add_columns narrow node col zero = narrow
add_columns narrow node col (suc count) =
    add_columns (append_at narrow (node.sheet, col) (item_of node)) node (col + 1) count

-- `node.c2 - node.c1 + 1 <= _NARROW_COLUMNS`, as a test on integers
abbrev pub is_narrow : RangeNode → Bool
is_narrow node = leb (node.c2 + 1) (node.c1 + narrow_columns)

-- one round of the loop of `__init__`: the tables `narrow` and `wide` after a node
unfoldable pub add_node : RangeNode → Rows Column × Rows Text → Rows Column × Rows Text
unfolding add_columns append_at
add_node node (narrow, wide) =
    if is_narrow node
    then (add_columns narrow node node.c1 (node.c2 + 1 - node.c1), wide)
    else (narrow, append_at wide node.sheet (item_of node))

unfoldable pub add_nodes : List RangeNode → Rows Column × Rows Text → Rows Column × Rows Text
unfolding add_node
add_nodes [] tables = tables
add_nodes (node ∷ nodes) tables = add_nodes nodes (add_node node tables)

-- `{key: _Intervals(items) for key, items in …}`
unfoldable pub build_all : {K : Type 0} → Rows K → Dict K (Intervals RangeNode)
unfolding build
build_all [] = []
build_all ((key, items) ∷ rest) = (key, build items) ∷ build_all rest

pub record CoverIndex : Type 0 where
  pub narrow : Dict Column (Intervals RangeNode)
  pub wide : Dict Text (Intervals RangeNode)

-- `__init__`
unfoldable pub cover_index : List RangeNode → CoverIndex
unfolding add_nodes build_all
cover_index nodes =
    let tables = add_nodes nodes ([], []) in
    record { narrow = build_all tables.0; wide = build_all tables.1 }

abbrev filled {ℓ} : {A : Type ℓ} → List A → Bool
filled [] = false
filled (x ∷ xs) = true

-- `__bool__`
unfoldable pub is_filled : CoverIndex → Bool
is_filled index = filled index.narrow || filled index.wide

-- the nodes of a dictionary entry, none without one
unfoldable pub covering_at :
    {K : Type 0} ⦃e : HasEq K⦄ → Dict K (Intervals RangeNode) → K → ℕ → Option (List RangeNode)
unfolding covering
covering_at d key row = elim (get d key) [ none ↦ some [] | some s ↦ covering s row ]

-- `if node.c1 <= col <= node.c2`
unfoldable pub on_column : ℕ → List RangeNode → List RangeNode
on_column col [] = []
on_column col (node ∷ nodes) =
    if leb node.c1 col && leb col node.c2 then node ∷ on_column col nodes else on_column col nodes

-- `covering`; `none` is an exception
unfoldable pub covering_nodes : CoverIndex → Text → ℕ → ℕ → Option (List RangeNode)
unfolding covering_at on_column
covering_nodes index sheet col row = do
  column ← covering_at index.narrow (sheet, col) row
  spread ← covering_at index.wide sheet row
  some (column ++ on_column col spread)
