-- ===== src/Layout/Adjacency/Reference.antt =====
-- The rows that edges name, said apart from the loop of layout/adjacency.py.
use finance_context_builder.Base.{
  ◌≡◌, refl, sym, ap, ◌∙◌, Bool, true, false, ◌&&◌, ◌||◌, not, List, [], ◌∷◌, ◌++◌, Option, none,
  some, arith, if◌then◌else◌, Bool-cases, Option-cases, inl, inr,
}
use finance_context_builder.Base.Eq.{◌==◌, nat_eq, list_eq, pair_eq}
use finance_context_builder.Base.Text.{Text}
use finance_context_builder.Formulas.Characters.{Characters}
use finance_context_builder.Formulas.Known.{split_last}
use finance_context_builder.Formulas.Edges.{
  Edge, EdgeKind, range, ref, cross_sheet, external, dynamic,
}
use finance_context_builder.Formulas.RangeNodes.{RangeNode}
use finance_context_builder.Graph.Refs.{parse_node_id, has_char}
use finance_context_builder.Layout.Adjacency.{
  Row, is_kept, has_row, is_range_kind, is_range_edge, target_text, body_of, cell_ref_row, targets,
}
use finance_context_builder.Layout.Adjacency.Links.{Link, links_to, kept_apart, links_of, all_links}

-- A row is wanted when no rows are given, or when it is one of them.
abbrev pub is_listed : Option (List Row) → Row → Bool
is_listed none row = true
is_listed (some []) row = false
is_listed (some (other ∷ others)) row = other == row || is_listed (some others) row

pub is_kept-is_listed :
    (keep : Option (List Row)) (row : Row) → is_kept keep row ≡ is_listed keep row
unfolding is_kept has_row
is_kept-is_listed none row = refl
is_kept-is_listed (some []) row = refl
is_kept-is_listed (some (other ∷ others)) row =
    ap (λ b. other == row || b) (is_kept-is_listed (some others) row)

-- A colon comes after the last exclamation mark, or there is none of these and a colon.
unfoldable pub colon_last : Text → Bool
colon_last [] = false
colon_last (c ∷ rest) =
    if has_char b'!' rest
    then colon_last rest
    else if c == b'!'
    then has_char b':' rest
    else c == b':' || has_char b':' rest

split_last-none : (text : Text) → split_last text ≡ none → has_char b'!' text ≡ false
unfolding split_last has_char
split_last-none [] h = refl
split_last-none (c ∷ rest) h = elim (Option-cases (split_last rest)) [
  | inl nothing ↦ ground (arith, split_last-none rest)
  | inr (parts, found) ↦ absurd (ground arith)
]

split_last-some :
    (text : Text) (parts : Text × Text) → split_last text ≡ some parts → has_char b'!' text ≡ true
unfolding split_last has_char
split_last-some [] parts h = absurd (ground arith)
split_last-some (c ∷ rest) parts h = elim (Option-cases (split_last rest)) [
  | inl nothing ↦ ground arith
  | inr (inner, found) ↦ ground (arith, split_last-some rest inner)
]

colon_last-body_of : (text : Text) → has_char b':' (body_of text) ≡ colon_last text
unfolding split_last has_char colon_last
colon_last-body_of [] = refl
colon_last-body_of (c ∷ rest) = elim (Option-cases (split_last rest)) [
  | inl nothing ↦
      let plain = split_last-none rest nothing in
      elim (Bool-cases (c == b'!')) [
        | inl mark ↦ rw (body_of, split_last, colon_last, nothing, plain, mark) refl
        | inr other ↦ rw (body_of, split_last, colon_last, nothing, plain, other) refl
      ]
  | inr ((sheet, body), found) ↦
      let marked = split_last-some rest (sheet, body) found in
      let inner : has_char b':' body ≡ colon_last rest =
        sym (rw (body_of, found) refl) ∙ colon_last-body_of rest in
      rw (body_of, split_last, colon_last, found, marked) inner
]

-- A range that was resolved.
abbrev pub reads_range : EdgeKind → Bool → Bool
reads_range range false = true
reads_range range true = false
reads_range ref unresolved = false
reads_range cross_sheet unresolved = false
reads_range external unresolved = false
reads_range dynamic unresolved = false

is_range_kind_lem :
    (kind : EdgeKind) (unresolved : Bool)
    → (is_range_kind kind && not unresolved) ≡ reads_range kind unresolved
is_range_kind_lem range false = refl
is_range_kind_lem range true = refl
is_range_kind_lem ref unresolved = refl
is_range_kind_lem cross_sheet unresolved = refl
is_range_kind_lem external unresolved = refl
is_range_kind_lem dynamic unresolved = refl

reads_range_lem : (edge : Edge) → is_range_edge edge ≡ reads_range edge.kind edge.unresolved
reads_range_lem edge = is_range_kind_lem edge.kind edge.unresolved

abbrev pub or_empty : Option Text → Text
or_empty none = []
or_empty (some text) = text

module _ (u : Characters) (expand_range : Text → Option (List Text))
    (range_node_for : Text → Option RangeNode) where
  -- The row of a cell.
  abbrev pub row_of : Text → Option Row
  row_of text = elim (parse_node_id u text) [
    | none ↦ none
    | some (sheet, col, row) ↦ some (sheet, row)
  ]

  row_of_lem : (text : Text) → cell_ref_row u expand_range range_node_for text ≡ row_of text
  unfolding cell_ref_row
  row_of_lem text = elim (Option-cases (parse_node_id u text)) [
    | inl outside ↦ rw (cell_ref_row, row_of, outside) refl
    | inr (place, inside) ↦ rw (cell_ref_row, row_of, inside) refl
  ]

  -- The cells of a resolved range, or all of the range as it is where it has no colon or cannot be
  -- expanded, and any other target by itself.
  abbrev pub refs_of : Bool → Text → List Text
  refs_of resolved_range [] = []
  refs_of false (c ∷ text) = (c ∷ text) ∷ []
  refs_of true (c ∷ text) =
      if not (colon_last (c ∷ text))
      then (c ∷ text) ∷ []
      else elim (expand_range (c ∷ text)) [ some cells ↦ cells | none ↦ (c ∷ text) ∷ [] ]

  refs_of-cases :
      (resolved_range : Bool) (text : Text)
      → (elim text as (λ _. List Text) [
        | [] ↦ []
        | c ∷ rest ↦
            if resolved_range && has_char b':' (body_of (c ∷ rest))
            then elim (expand_range (c ∷ rest)) [ none ↦ (c ∷ rest) ∷ [] | some cells ↦ cells ]
            else (c ∷ rest) ∷ []
      ])
        ≡ refs_of resolved_range text
  refs_of-cases resolved_range [] = refl
  refs_of-cases false (c ∷ rest) = refl
  refs_of-cases true (c ∷ rest) =
      rw (colon_last-body_of (c ∷ rest)) (elim (Bool-cases (colon_last (c ∷ rest))) [
        | inl colon ↦ rw colon refl
        | inr plain ↦ rw plain refl
      ])

  refs_of_lem :
      (edge : Edge)
      → targets u expand_range range_node_for edge
        ≡ refs_of (reads_range edge.kind edge.unresolved) (or_empty edge.target)
  unfolding targets
  refs_of_lem edge =
      refs_of-cases (is_range_edge edge) (target_text edge)
      ∙ ap (λ b. refs_of b (target_text edge)) (reads_range_lem edge)

  -- A row is not its own neighbour.
  abbrev pub links_from : Row → List Text → List Link
  links_from source [] = []
  links_from source (text ∷ texts) = elim (row_of text) [
    | none ↦ links_from source texts
    | some target ↦
        if source == target
        then links_from source texts
        else (source, target) ∷ links_from source texts
  ]

  -- A resolved range that is kept apart, if ranges are.
  abbrev pub node_of_edge : Bool → Edge → Option RangeNode
  node_of_edge apart edge =
      if apart && reads_range edge.kind edge.unresolved
      then range_node_for (or_empty edge.target)
      else none

  -- The links of an edge: none for a name, or for a range that is kept apart.
  abbrev pub links_of_edge : Bool → Edge → List Link
  links_of_edge apart edge = if edge.named then [] else elim (row_of edge.source) [
    | none ↦ []
    | some source ↦ elim (node_of_edge apart edge) [
      | some node ↦ []
      | none ↦
          links_from source (refs_of (reads_range edge.kind edge.unresolved) (or_empty edge.target))
    ]
  ]

  abbrev pub links_of_edges : Bool → List Edge → List Link
  links_of_edges apart [] = []
  links_of_edges apart (edge ∷ edges) = links_of_edge apart edge ++ links_of_edges apart edges

  links_to-links_from :
      (source : Row) (texts : List Text)
      → links_to u expand_range range_node_for source texts ≡ links_from source texts
  links_to-links_from source [] = refl
  links_to-links_from source (text ∷ texts) =
      let more = links_to-links_from source texts in
      elim (Option-cases (row_of text)) [
        | inl outside ↦
            let first = row_of_lem text ∙ outside in rw (links_to, links_from, first, outside) more
        | inr (target, inside) ↦
            let first = row_of_lem text ∙ inside in
            elim (Bool-cases (source == target)) [
              | inl self ↦ rw (links_to, links_from, first, inside, self) more
              | inr other ↦
                  rw (links_to, links_from, first, inside, other)
                    (ap (λ links. (source, target) ∷ links) more)
            ]
      ]

  node_of_edge_lem :
      (apart : Bool) (edge : Edge)
      → kept_apart u expand_range range_node_for apart edge ≡ node_of_edge apart edge
  node_of_edge_lem apart edge =
      ap (λ b. if apart && b then range_node_for (target_text edge) else none)
        (reads_range_lem edge)

  links_of-links_of_edge :
      (apart : Bool) (edge : Edge)
      → links_of u expand_range range_node_for apart edge ≡ links_of_edge apart edge
  links_of-links_of_edge apart edge = elim (Bool-cases edge.named) [
    | inl by_name ↦ rw (links_of, links_of_edge, by_name) refl
    | inr by_ref ↦ elim (Option-cases (row_of edge.source)) [
      | inl outside ↦
          let first = row_of_lem edge.source ∙ outside in
          rw (links_of, links_of_edge, by_ref, first, outside) refl
      | inr (source, inside) ↦
          let first = row_of_lem edge.source ∙ inside in
          elim (Option-cases (node_of_edge apart edge)) [
            | inr (node, large) ↦
                let found = node_of_edge_lem apart edge ∙ large in
                rw (links_of, links_of_edge, by_ref, first, inside, found, large) refl
            | inl small ↦
                let found = node_of_edge_lem apart edge ∙ small in
                rw (links_of, links_of_edge, by_ref, first, inside, found, small)
                  (ap (links_to u expand_range range_node_for source) (refs_of_lem edge)
                    ∙ links_to-links_from source _)
          ]
    ]
  ]

  pub all_links-links_of_edges :
      (apart : Bool) (edges : List Edge)
      → all_links u expand_range range_node_for apart edges ≡ links_of_edges apart edges
  all_links-links_of_edges apart [] = refl
  all_links-links_of_edges apart (edge ∷ edges) =
      ap (λ links. links ++ all_links u expand_range range_node_for apart edges)
        (links_of-links_of_edge apart edge)
      ∙ ap (λ links. links_of_edge apart edge ++ links) (all_links-links_of_edges apart edges)
