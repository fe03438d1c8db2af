-- ===== src/Layout/Adjacency/Lists.antt =====
-- The lists that row_adjacency returns, layout/adjacency.py.
use finance_context_builder.Base.{
  append-nil, append_assoc, ℕ, zero, suc, ◌≡◌, refl, sym, ap, ◌∙◌, Bool, true, false, List, [], ◌∷◌,
  ◌++◌, Option, none, some, if◌then◌else◌, Bool-cases, Option-cases, inl, inr, ltb, take,
}
use finance_context_builder.Base.Eq.{◌==◌, nat_eq, list_eq, pair_eq, pair_beq_iff}
use finance_context_builder.Base.Dict.{get, list_at, append_at, Distinct, put-Distinct}
use finance_context_builder.Base.Text.{Text}
use finance_context_builder.Formulas.Characters.{Characters}
use finance_context_builder.Formulas.Edges.{Edge}
use finance_context_builder.Formulas.RangeNodes.{RangeNode}
use finance_context_builder.Graph.Trace.{member}
use finance_context_builder.Layout.Adjacency.{
  Row, Neighbors, row_key_ref, keep_name, RangeReads, is_kept, keeps_any, Adjacency, neighbor_lists,
  row_adjacency, cell_ref_row, targets, large_range, add_target, add_targets, add_edge, add_edges,
}
use finance_context_builder.Layout.Adjacency.Links.{
  targets_of, sources_of, grow, told, is_some, add_edges_lem, all_links,
}
use finance_context_builder.Layout.Adjacency.Reference.{
  is_listed, is_kept-is_listed, links_of_edges, all_links-links_of_edges,
}

-- The names of a list that were not seen, each at its first place.
abbrev pub once : List Text → List Text → List Text
once seen [] = []
once seen (name ∷ names) =
    if member name seen then once seen names else name ∷ once (seen ++ name ∷ []) names

grow-once : (seen names : List Text) → grow seen names ≡ seen ++ once seen names
grow-once seen [] = sym (append-nil seen)
grow-once seen (name ∷ names) = elim (Bool-cases (member name seen)) [
  | inl old ↦ rw (grow, once, old) (grow-once seen names)
  | inr new ↦
      rw (grow, once, new)
        (grow-once (seen ++ name ∷ []) names
          ∙ append_assoc seen (name ∷ []) (once (seen ++ name ∷ []) names))
]

grow_told_lem :
    (kept : Bool) (names : List Text)
    → grow [] (told kept names) ≡ (if kept then once [] names else [])
grow_told_lem true names = grow-once [] names
grow_told_lem false names = refl

abbrev pub cut_to : ℕ → List Text → List Text
cut_to limit names = if ltb 0 limit then take limit names else names

get-snoc :
    (d : Neighbors) (row key : Row) (names : List Text)
    → get (d ++ (row, names) ∷ []) key ≡ elim (get d key) [
      | some found ↦ some found
      | none ↦ if row == key then some names else none
    ]
unfolding get
get-snoc [] row key names = refl
get-snoc ((other, more) ∷ d) row key names = elim (Bool-cases (other == key)) [
  | inl same ↦ rw same refl
  | inr apart ↦ rw apart (get-snoc d row key names)
]

abbrev option_cut : ℕ → Option (List Text) → Option (List Text)
option_cut limit none = none
option_cut limit (some names) = some (cut_to limit names)

get-neighbor_lists :
    (limit : ℕ) (d : Neighbors) (key : Row)
    → Distinct d
    → get (neighbor_lists limit d) key ≡ option_cut limit (get d key)
unfolding neighbor_lists get
get-neighbor_lists limit [] key h = refl
get-neighbor_lists limit ((row, names) ∷ d) key (new, h) =
    get-snoc (neighbor_lists limit d) row key (cut_to limit names)
    ∙ elim (Bool-cases (row == key)) [
      | inl same ↦
          let one : row ≡ key = (pair_beq_iff row key).0 same in
          let gone : get (neighbor_lists limit d) key ≡ none =
            get-neighbor_lists limit d key h ∙ ap (option_cut limit) (ap (get d) (sym one) ∙ new) in
          rw (gone, same) refl
      | inr apart ↦ elim (Option-cases (get d key)) [
        | inl gone ↦ rw (get-neighbor_lists limit d key h, gone, apart) refl
        | inr (found, there) ↦ rw (get-neighbor_lists limit d key h, there, apart) refl
      ]
    ]

cut_nothing : (limit : ℕ) → [] ≡ cut_to limit []
cut_nothing zero = refl
cut_nothing (suc limit) = elim (Bool-cases (ltb 0 (suc limit))) [
  | inl e ↦ rw e refl
  | inr e ↦ rw e refl
]

list_at-neighbor_lists :
    (limit : ℕ) (d : Neighbors) (key : Row)
    → Distinct d
    → list_at (neighbor_lists limit d) key ≡ cut_to limit (list_at d key)
list_at-neighbor_lists limit d key h = elim (Option-cases (get d key)) [
  | inl gone ↦ rw (list_at, get-neighbor_lists limit d key h, gone) (cut_nothing limit)
  | inr (found, there) ↦ rw (list_at, get-neighbor_lists limit d key h, there) refl
]

keep_name-Distinct :
    (d : Neighbors) (row : Row) (text : Text) → Distinct d → Distinct (keep_name d row text)
unfolding keep_name append_at
keep_name-Distinct d row text h = elim (Bool-cases (member text (list_at d row))) [
  | inl old ↦ rw (keep_name, old) h
  | inr new ↦ rw (keep_name, new) (put-Distinct d row (list_at d row ++ text ∷ []) h)
]

abbrev AreDistinct : Adjacency → Type 0
AreDistinct a = Distinct a.precedents × Distinct a.dependents

if-Distinct : (b : Bool) (c d : Neighbors) → Distinct c → Distinct d → Distinct (if b then c else d)
if-Distinct true c d h k = h
if-Distinct false c d h k = k

module _ (u : Characters) (expand_range : Text → Option (List Text))
    (range_node_for : Text → Option RangeNode) (keep : Option (List Row)) where
  add_target-AreDistinct :
      (source target : Row) (a : Adjacency)
      → AreDistinct a
      → AreDistinct (add_target u expand_range range_node_for keep source target a)
  unfolding add_target
  add_target-AreDistinct source target a h = elim (Bool-cases (source == target)) [
    | inl self ↦ rw (add_target, self) h
    | inr other ↦
        rw (add_target, other)
          (
            if-Distinct (is_kept keep source) _ _
                (keep_name-Distinct a.precedents source (row_key_ref target) h.0) h.0,
            if-Distinct (is_kept keep target) _ _
                (keep_name-Distinct a.dependents target (row_key_ref source) h.1) h.1,
          )
  ]

  add_targets-AreDistinct :
      (source : Row) (refs : List Text) (a : Adjacency)
      → AreDistinct a
      → AreDistinct (add_targets u expand_range range_node_for keep source refs a)
  unfolding add_targets
  add_targets-AreDistinct source [] a h = h
  add_targets-AreDistinct source (ref ∷ refs) a h =
      elim (Option-cases (cell_ref_row u expand_range range_node_for ref)) [
        | inl outside ↦ rw (add_targets, outside) (add_targets-AreDistinct source refs a h)
        | inr (target, inside) ↦
            rw (add_targets, inside)
              (add_targets-AreDistinct source refs
                (add_target u expand_range range_node_for keep source target a)
                (add_target-AreDistinct source target a h))
      ]

  add_edge-AreDistinct :
      (edge : Edge) (a : Adjacency)
      → AreDistinct a
      → AreDistinct (add_edge u expand_range range_node_for keep edge a)
  unfolding add_edge
  add_edge-AreDistinct edge a h = elim (Bool-cases edge.named) [
    | inl by_name ↦ rw (add_edge, by_name) h
    | inr by_ref ↦ elim (Option-cases (cell_ref_row u expand_range range_node_for edge.source)) [
      | inl outside ↦ rw (add_edge, by_ref, outside) h
      | inr (source, inside) ↦
          elim (Option-cases (large_range u expand_range range_node_for a.ranges edge)) [
            | inr (node, large) ↦ rw (add_edge, by_ref, inside, large) h
            | inl small ↦ elim (Bool-cases (keeps_any keep)) [
              | inl some_rows ↦
                  rw (add_edge, by_ref, inside, small, some_rows)
                    (add_targets-AreDistinct source (targets u expand_range range_node_for edge) a
                      h)
              | inr no_rows ↦ rw (add_edge, by_ref, inside, small, no_rows) h
            ]
          ]
    ]
  ]

  add_edges-AreDistinct :
      (edges : List Edge) (a : Adjacency)
      → AreDistinct a
      → AreDistinct (add_edges u expand_range range_node_for keep edges a)
  unfolding add_edges
  add_edges-AreDistinct [] a h = h
  add_edges-AreDistinct (edge ∷ edges) a h =
      add_edges-AreDistinct edges (add_edge u expand_range range_node_for keep edge a)
        (add_edge-AreDistinct edge a h)

  -- With the limit 0 the precedents of a wanted row are the rows that its formulas name, by their
  -- names and in the order of the edges, each at its first place, other than itself and apart from
  -- the ranges that are kept apart; its dependents are the rows whose formulas name it. With another
  -- limit they are so many first ones. A row that is not wanted has none.
  pub row_adjacency_lem :
      (edges : List Edge) (limit : ℕ) (ranges : Option RangeReads) (row : Row)
      → (list_at (row_adjacency u expand_range range_node_for edges limit ranges keep).0 row
          ≡ cut_to limit (
              if is_listed keep row
              then once [] (
                  targets_of row
                    (links_of_edges u expand_range range_node_for (is_some ranges) edges))
              else []))
        × (list_at (row_adjacency u expand_range range_node_for edges limit ranges keep).1 row
            ≡ cut_to limit (
                if is_listed keep row
                then once [] (
                    sources_of row
                      (links_of_edges u expand_range range_node_for (is_some ranges) edges))
                else []))
  unfolding row_adjacency
  row_adjacency_lem edges limit ranges row =
      let begin : Adjacency = record { precedents = []; dependents = []; ranges = ranges } in
      let final = add_edges u expand_range range_node_for keep edges begin in
      let (first, second) = add_edges-AreDistinct edges begin (tt, tt) in
      let (before, after) = add_edges_lem keep row u expand_range range_node_for edges begin in
      let links = all_links-links_of_edges u expand_range range_node_for (is_some ranges) edges in
      let said = all_links u expand_range range_node_for (is_some ranges) edges in
      let wanted = is_kept-is_listed keep row in
      (
        list_at-neighbor_lists limit final.precedents row first
            ∙ ap (cut_to limit) (
                before
                ∙ grow_told_lem (is_kept keep row) (targets_of row said)
                ∙ ap (λ b. if b then once [] (targets_of row said) else []) wanted
                ∙ ap (λ ls. if is_listed keep row then once [] (targets_of row ls) else []) links),
        list_at-neighbor_lists limit final.dependents row second
            ∙ ap (cut_to limit) (
                after
                ∙ grow_told_lem (is_kept keep row) (sources_of row said)
                ∙ ap (λ b. if b then once [] (sources_of row said) else []) wanted
                ∙ ap (λ ls. if is_listed keep row then once [] (sources_of row ls) else []) links),
      )
