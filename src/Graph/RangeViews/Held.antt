-- ===== src/Graph/RangeViews/Held.antt =====
-- The range nodes that a trace finds around a cell, graph/trace.py.
use finance_context_builder.Base.{
  ℕ, ◌≡◌, refl, ap, ◌∙◌, Bool, true, false, ◌&&◌, not, List, [], ◌∷◌, none, some, Bool-cases, inl,
  inr, arith, if◌then◌else◌,
}
use finance_context_builder.Base.Eq.{◌==◌, nat_eq}
use finance_context_builder.Base.Dict.{Dict}
use finance_context_builder.Base.Text.{Text}
use finance_context_builder.Formulas.Characters.{Characters}
use finance_context_builder.Formulas.RangeNodes.{RangeNode}
use finance_context_builder.Formulas.Usage.{SheetUsage}
use finance_context_builder.Graph.CoverIndex.Queries.{tally, containing, covering_nodes-tally}
use finance_context_builder.Graph.Trace.{Meta, empty_type}
use finance_context_builder.Graph.Refs.{parse_node_id, has_char}
use finance_context_builder.Graph.Walk.{is_nonempty}
use finance_context_builder.Graph.RangeViews.{
  is_whole_axis, exists, held, range_views, covering_held, covers_cell, blank_meta, nodes_of,
}

-- A node holds a cell inside its bounds unless it is a whole axis and the cell does not exist.
abbrev pub holds : SheetUsage → Text → ℕ → ℕ → RangeNode → Bool
holds usage sheet col row node = not (is_whole_axis node && not (exists usage sheet col row))

tally-held :
    (usage : SheetUsage) (sheet : Text) (col row : ℕ) (p : RangeNode → Bool)
    (nodes : List RangeNode)
    → tally p (held usage sheet col row nodes)
      ≡ tally (λ node. holds usage sheet col row node && p node) nodes
unfolding held
tally-held usage sheet col row p [] = refl
tally-held usage sheet col row p (node ∷ nodes) =
    ground (arith, tally-held usage sheet col row p nodes)

tally-is_nonempty :
    (nodes : List RangeNode) → is_nonempty nodes ≡ not (tally (λ _. true) nodes == 0)
tally-is_nonempty [] = refl
tally-is_nonempty (node ∷ nodes) = ground arith

tally-and_true :
    (h : RangeNode → Bool) (nodes : List RangeNode)
    → tally (λ node. h node && true) nodes ≡ tally h nodes
tally-and_true h [] = refl
tally-and_true h (node ∷ nodes) = ground (arith, tally-and_true h nodes)

module _ (u : Characters) (casefold : Text → Text) (calendar_lag : Text → Text → Text) where
  -- For a cell whose id is read as a sheet, a column and a row, and which is no range: covering
  -- raises nothing, and every test on nodes passes as often on its result as on the given nodes that
  -- contain the cell and are bounded, or any node when the cell exists. blank_meta calls the cell
  -- empty exactly when there is such a node.
  pub covering_held-tally :
      (nodes : List RangeNode) (index : Dict Text Meta) (usage grid : SheetUsage)
      (cell sheet : Text) (col row : ℕ)
      → parse_node_id u cell ≡ some (sheet, col, row)
      → has_char b':' cell ≡ false
      → (found : List RangeNode) × (covering_held u casefold calendar_lag
            (range_views u casefold calendar_lag nodes index usage grid)
            cell
          ≡ some found)
        × ((p : RangeNode → Bool)
            → tally p found
              ≡ tally
                  (λ node. holds usage sheet col row node && p node)
                  (containing nodes sheet col row))
        × ((blank_meta u casefold calendar_lag
              (range_views u casefold calendar_lag nodes index usage grid)
              cell).node_type
            ≡ (if tally (λ node. holds usage sheet col row node) (containing nodes sheet col row)
                  == 0
                then none
                else some empty_type))
  unfolding covering_held range_views blank_meta covers_cell
  covering_held-tally nodes index usage grid cell sheet col row id plain =
      let (found, e, same) = covering_nodes-tally nodes sheet col row in
      let views = range_views u casefold calendar_lag nodes index usage grid in
      let read_out : covering_held u casefold calendar_lag views cell
          ≡ some (held usage sheet col row found) =
        rw (covering_held, range_views, id, plain, e) refl in
      let h = holds usage sheet col row in
      let count : tally (λ _. true) (held usage sheet col row found)
          ≡ tally h (containing nodes sheet col row) =
        tally-held usage sheet col row (λ _. true) found
        ∙ same (λ node. h node && true)
        ∙ tally-and_true h (containing nodes sheet col row) in
      let some_node : is_nonempty (held usage sheet col row found)
          ≡ not (tally h (containing nodes sheet col row) == 0) =
        tally-is_nonempty (held usage sheet col row found) ∙ ap (λ n. not (n == 0)) count in
      let covers : covers_cell u casefold calendar_lag views cell
          ≡ not (tally h (containing nodes sheet col row) == 0) =
        ap (λ r. is_nonempty (nodes_of r)) read_out ∙ some_node in
      (
        held usage sheet col row found,
        read_out,
        λ p.
            tally-held usage sheet col row p found
            ∙ same (λ node. holds usage sheet col row node && p node),
        elim (Bool-cases (tally h (containing nodes sheet col row) == 0)) [
          | inl nothing ↦ rw (blank_meta, id, covers, nothing) refl
          | inr something ↦ rw (blank_meta, id, covers, something) refl
        ],
      )
