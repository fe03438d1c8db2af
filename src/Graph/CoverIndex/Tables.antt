-- ===== src/Graph/CoverIndex/Tables.antt =====
-- What the tables of a CoverIndex hold for one column and for one sheet.
use finance_context_builder.Base.{
  ℕ, zero, suc, ◌+◌, ◌-◌, ◌≡◌, refl, ap, sym, ◌∙◌, arith, Bool, ◌&&◌, List, [], ◌∷◌, ◌++◌,
  append-nil, append_assoc, leb, some, not, Bool-cases, inl, inr, true, false,
}
use finance_context_builder.Base.Eq.{HasEq, ◌==◌, nat_eq, list_eq, pair_eq}
use finance_context_builder.Base.Dict.{get, append_at, list_at, list_at-append_at}
use finance_context_builder.Base.Text.{Text}
use finance_context_builder.Formulas.RangeNodes.{RangeNode}
use finance_context_builder.Graph.Intervals.{Item, sort_items}
use finance_context_builder.Graph.Intervals.Queries.{payloads, covering-build}
use finance_context_builder.Graph.CoverIndex.{
  Rows, Column, item_of, is_narrow, add_columns, add_node, add_nodes, build_all, covering_at,
}

-- the item of the node, if the test holds
abbrev pub one_if : Bool → RangeNode → List (Item RangeNode)
one_if true node = item_of node ∷ []
one_if false node = []

-- The items of the narrow nodes over a column, and of the wide nodes on a sheet.
abbrev pub narrow_part : List RangeNode → Text → ℕ → List (Item RangeNode)
narrow_part [] sheet col = []
narrow_part (node ∷ nodes) sheet col =
    one_if (is_narrow node && (node.sheet == sheet && (leb node.c1 col && leb col node.c2))) node
    ++ narrow_part nodes sheet col

abbrev pub wide_part : List RangeNode → Text → List (Item RangeNode)
wide_part [] sheet = []
wide_part (node ∷ nodes) sheet =
    one_if (not (is_narrow node) && node.sheet == sheet) node ++ wide_part nodes sheet

list_at-add_columns :
    (d : Rows Column) (node : RangeNode) (from count : ℕ) (sheet : Text) (col : ℕ)
    → list_at (add_columns d node from count) (sheet, col)
      ≡ list_at d (sheet, col)
        ++ one_if (node.sheet == sheet && (leb from col && leb (col + 1) (from + count))) node
unfolding add_columns
list_at-add_columns d node from zero sheet col = ground (arith, append-nil (list_at d (sheet, col)))
list_at-add_columns d node from (suc count) sheet col = ground (
  arith,
  list_at-add_columns (append_at d (node.sheet, from) (item_of node)) node (from + 1) count sheet
      col,
  list_at-append_at d (node.sheet, from) (sheet, col) (item_of node),
  append-nil (list_at d (sheet, col) ++ item_of node ∷ []),
  append-nil (list_at d (sheet, col)),
)

abbrev on_columns : RangeNode → Text → ℕ → Bool
on_columns node sheet col =
    is_narrow node && (node.sheet == sheet && (leb node.c1 col && leb col node.c2))

abbrev on_sheet : RangeNode → Text → Bool
on_sheet node sheet = not (is_narrow node) && node.sheet == sheet

list_at-add_node :
    (node : RangeNode) (tables : Rows Column × Rows Text) (sheet : Text) (col : ℕ)
    → (list_at (add_node node tables).0 (sheet, col)
        ≡ list_at tables.0 (sheet, col) ++ one_if (on_columns node sheet col) node)
      × (list_at (add_node node tables).1 sheet
          ≡ list_at tables.1 sheet ++ one_if (on_sheet node sheet) node)
unfolding add_node
list_at-add_node node (narrow, wide) sheet col =
    let columns = list_at-add_columns narrow node node.c1 (node.c2 + 1 - node.c1) sheet col in
    let sheets = list_at-append_at wide node.sheet sheet (item_of node) in
    let kept = append-nil (list_at narrow (sheet, col)) in
    let kept' = append-nil (list_at wide sheet) in
    elim (Bool-cases (is_narrow node)) [
      | inl thin ↦ (ground arith, ground arith)
      | inr broad ↦ (ground arith, ground arith)
    ]

pub list_at-add_nodes :
    (nodes : List RangeNode) (tables : Rows Column × Rows Text) (sheet : Text) (col : ℕ)
    → (list_at (add_nodes nodes tables).0 (sheet, col)
        ≡ list_at tables.0 (sheet, col) ++ narrow_part nodes sheet col)
      × (list_at (add_nodes nodes tables).1 sheet ≡ list_at tables.1 sheet ++ wide_part nodes sheet)
unfolding add_nodes
list_at-add_nodes [] tables sheet col =
    (sym (append-nil (list_at tables.0 (sheet, col))), sym (append-nil (list_at tables.1 sheet)))
list_at-add_nodes (node ∷ nodes) tables sheet col =
    let (thin, broad) = list_at-add_node node tables sheet col in
    let (narrow, wide) = list_at-add_nodes nodes (add_node node tables) sheet col in
    (
      narrow
          ∙ ap (λ xs. xs ++ narrow_part nodes sheet col) thin
          ∙ append_assoc (list_at tables.0 (sheet, col)) (one_if (on_columns node sheet col) node)
              (narrow_part nodes sheet col),
      wide
          ∙ ap (λ xs. xs ++ wide_part nodes sheet) broad
          ∙ append_assoc (list_at tables.1 sheet) (one_if (on_sheet node sheet) node)
              (wide_part nodes sheet),
    )

pub covering_at-build_all :
    {K : Type 0} ⦃e : HasEq K⦄ (d : Rows K) (key : K) (row : ℕ)
    → covering_at (build_all d) key row ≡ some (payloads row (sort_items (list_at d key)))
unfolding covering_at build_all get
covering_at-build_all [] key row = unfold sort_items in refl
covering_at-build_all ((own, items) ∷ d) key row = elim (Bool-cases (own == key)) [
  | inl same ↦ ground (arith, covering-build items row)
  | inr other ↦ ground (arith, covering_at-build_all d key row)
]
