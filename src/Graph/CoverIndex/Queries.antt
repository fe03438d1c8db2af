-- ===== src/Graph/CoverIndex/Queries.antt =====
-- The nodes that a CoverIndex returns for a cell, graph/ranges.py.
use finance_context_builder.Base.{
  ℕ, ◌+◌, ◌≡◌, refl, ap, ◌∙◌, arith, Bool, ◌&&◌, List, [], ◌∷◌, ◌++◌, leb, if◌then◌else◌, some,
}
use finance_context_builder.Base.Eq.{◌==◌, nat_eq, list_eq, pair_eq}
use finance_context_builder.Base.Dict.{get}
use finance_context_builder.Base.Text.{Text}
use finance_context_builder.Formulas.RangeNodes.{RangeNode}
use finance_context_builder.Graph.Intervals.{Item, sort_items, insert_item}
use finance_context_builder.Graph.Intervals.Queries.{payloads}
use finance_context_builder.Graph.CoverIndex.{add_nodes, cover_index, covering_nodes, on_column}
use finance_context_builder.Graph.CoverIndex.Tables.{
  narrow_part, wide_part, list_at-add_nodes, covering_at-build_all,
}

-- the cell lies inside the rectangle of the node
abbrev pub contains_cell : RangeNode → Text → ℕ → ℕ → Bool
contains_cell node sheet col row =
    node.sheet == sheet
    && (leb node.c1 col && leb col node.c2)
    && (leb node.r1 row && leb row node.r2)

abbrev pub containing : List RangeNode → Text → ℕ → ℕ → List RangeNode
containing [] sheet col row = []
containing (node ∷ nodes) sheet col row =
    if contains_cell node sheet col row
    then node ∷ containing nodes sheet col row
    else containing nodes sheet col row

module _ (p : RangeNode → Bool) where
  -- how many nodes of a list pass a test
  abbrev pub tally : List RangeNode → ℕ
  tally [] = 0
  tally (node ∷ nodes) = (if p node then 1 else 0) + tally nodes

  tally-append : (xs ys : List RangeNode) → tally (xs ++ ys) ≡ tally xs + tally ys
  tally-append [] ys = omega arith
  tally-append (x ∷ xs) ys = omega (arith, tally-append xs ys)

  tally-insert_item :
      (row col : ℕ) (x : Item RangeNode) (ys : List (Item RangeNode))
      → (tally (payloads row (insert_item x ys)) ≡ tally (payloads row (x ∷ ys)))
        × (tally (on_column col (payloads row (insert_item x ys)))
            ≡ tally (on_column col (payloads row (x ∷ ys))))
  unfolding insert_item on_column
  tally-insert_item row col x [] = (refl, refl)
  tally-insert_item row col x (y ∷ ys) =
      let ih = tally-insert_item row col x ys in (ground (arith, ih.0), ground (arith, ih.1))

  tally-sort_items :
      (row col : ℕ) (xs : List (Item RangeNode))
      → (tally (payloads row (sort_items xs)) ≡ tally (payloads row xs))
        × (tally (on_column col (payloads row (sort_items xs)))
            ≡ tally (on_column col (payloads row xs)))
  unfolding sort_items on_column
  tally-sort_items row col [] = (refl, refl)
  tally-sort_items row col (x ∷ xs) =
      let ih = tally-sort_items row col xs in
      let one = tally-insert_item row col x (sort_items xs) in
      (ground (arith, one.0, ih.0), ground (arith, one.1, ih.1))

  tally-parts :
      (nodes : List RangeNode) (sheet : Text) (col row : ℕ)
      → tally (payloads row (narrow_part nodes sheet col))
          + tally (on_column col (payloads row (wide_part nodes sheet)))
        ≡ tally (containing nodes sheet col row)
  unfolding on_column
  tally-parts [] sheet col row = omega arith
  tally-parts (node ∷ nodes) sheet col row = ground (arith, tally-parts nodes sheet col row)

-- `covering` raises nothing, and any test passes as often on its nodes as on the given nodes whose
-- rectangle contains the cell.
pub covering_nodes-tally :
    (nodes : List RangeNode) (sheet : Text) (col row : ℕ)
    → (found : List RangeNode) × (covering_nodes (cover_index nodes) sheet col row ≡ some found)
      × ((p : RangeNode → Bool) → tally p found ≡ tally p (containing nodes sheet col row))
unfolding covering_nodes cover_index get
covering_nodes-tally nodes sheet col row =
    let tables = add_nodes nodes ([], []) in
    let (narrow, wide) = list_at-add_nodes nodes ([], []) sheet col in
    let column =
      covering_at-build_all tables.0 (sheet, col) row
      ∙ ap (λ xs. some (payloads row (sort_items xs))) narrow in
    let spread =
      covering_at-build_all tables.1 sheet row
      ∙ ap (λ xs. some (payloads row (sort_items xs))) wide in
    let first = payloads row (sort_items (narrow_part nodes sheet col)) in
    let second = on_column col (payloads row (sort_items (wide_part nodes sheet))) in
    (
      first ++ second,
      rw (column, spread) refl,
      λ p.
          let a = tally-sort_items p row col (narrow_part nodes sheet col) in
          let b = tally-sort_items p row col (wide_part nodes sheet) in
          omega (arith, tally-append p first second, a.0, b.1, tally-parts p nodes sheet col row),
    )
