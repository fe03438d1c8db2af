-- ===== src/Layout/Adjacency/Links.antt =====
-- The neighbours against the links that the edges name, layout/adjacency.py.
use finance_context_builder.Base.{
  ◌≡◌, refl, sym, ap, ◌∙◌, subst, Bool, true, false, ◌&&◌, List, [], ◌∷◌, ◌++◌, Option, none, some,
  arith, if◌then◌else◌, Bool-cases, Option-cases, inl, inr,
}
use finance_context_builder.Base.Eq.{HasEq, ◌==◌, nat_eq, list_eq, pair_eq, pair_beq_iff}
use finance_context_builder.Base.Dict.{Dict, list_at, list_at-append_at}
use finance_context_builder.Base.Text.{Text, str}
use finance_context_builder.Formulas.Characters.{Characters}
use finance_context_builder.Formulas.Edges.{Edge}
use finance_context_builder.Formulas.RangeNodes.{RangeNode}
use finance_context_builder.Graph.Trace.{member}
use finance_context_builder.Layout.Adjacency.{
  Row, row_key_ref, keep_name, is_range_edge, target_text, RangeReads, is_kept, has_row, keeps_any,
  Adjacency, cell_ref_row, targets, large_range, add_target, add_targets, add_large, add_edge,
  add_edges,
}

-- A formula's row and a row that it names.
abbrev pub Link : Type 0
Link = Row × Row

-- How a row is named.
abbrev pub label : Row → Text
label (sheet, row) = sheet ++ b'!' ∷ str row

-- The names of the rows that a row's formulas name, and of the rows whose formulas name it.
abbrev pub targets_of : Row → List Link → List Text
targets_of row [] = []
targets_of row ((source, target) ∷ links) =
    if source == row then label target ∷ targets_of row links else targets_of row links

abbrev pub sources_of : Row → List Link → List Text
sources_of row [] = []
sources_of row ((source, target) ∷ links) =
    if target == row then label source ∷ sources_of row links else sources_of row links

abbrev with_name : List Text → Text → List Text
with_name names name = if member name names then names else names ++ name ∷ []

-- Names are added one after another, each once.
abbrev pub grow : List Text → List Text → List Text
grow names [] = names
grow names (name ∷ more) = grow (with_name names name) more

grow-append : (names xs ys : List Text) → grow names (xs ++ ys) ≡ grow (grow names xs) ys
grow-append names [] ys = refl
grow-append names (x ∷ xs) ys = grow-append (with_name names x) xs ys

list_at-keep_name :
    {K : Type 0} ⦃e : HasEq K⦄ (d : Dict K (List Text)) (key j : K) (name : Text)
    → list_at (keep_name d key name) j
      ≡ (if key == j then with_name (list_at d j) name else list_at d j)
unfolding keep_name
list_at-keep_name ⦃e⦄ d key j name = elim (Bool-cases (key == j)) [
  | inl one ↦
      let same : list_at d key ≡ list_at d j = ap (list_at d) ((e.equal_iff key j).0 one) in
      elim (Bool-cases (member name (list_at d key))) [
        | inl old ↦
            let there : member name (list_at d j) ≡ true =
              subst (λ xs. member name xs ≡ true) same old in
            rw (keep_name, old, one, there) refl
        | inr new ↦
            let absent : member name (list_at d j) ≡ false =
              subst (λ xs. member name xs ≡ false) same new in
            rw (keep_name, new, list_at-append_at d key j name, one, absent) refl
      ]
  | inr apart ↦ elim (Bool-cases (member name (list_at d key))) [
    | inl old ↦ rw (keep_name, old, apart) refl
    | inr new ↦ rw (keep_name, new, list_at-append_at d key j name, apart) refl
  ]
]

targets_of-append :
    (row : Row) (xs ys : List Link)
    → targets_of row (xs ++ ys) ≡ targets_of row xs ++ targets_of row ys
targets_of-append row [] ys = refl
targets_of-append row (x ∷ xs) ys = ground (arith, targets_of-append row xs ys)

sources_of-append :
    (row : Row) (xs ys : List Link)
    → sources_of row (xs ++ ys) ≡ sources_of row xs ++ sources_of row ys
sources_of-append row [] ys = refl
sources_of-append row (x ∷ xs) ys = ground (arith, sources_of-append row xs ys)

-- What a row is told: nothing, unless it is kept.
abbrev pub told : Bool → List Text → List Text
told kept names = if kept then names else []

grow-told :
    (kept : Bool) (names xs ys : List Text)
    → grow (grow names (told kept xs)) (told kept ys) ≡ grow names (told kept (xs ++ ys))
grow-told true names xs ys = sym (grow-append names xs ys)
grow-told false names xs ys = refl

abbrev pub is_some : Option RangeReads → Bool
is_some none = false
is_some (some _) = true

module _ (u : Characters) (expand_range : Text → Option (List Text))
    (range_node_for : Text → Option RangeNode) where
  abbrev cell_row : Text → Option Row
  cell_row = cell_ref_row u expand_range range_node_for

  -- A row is not its own neighbour.
  abbrev pub links_to : Row → List Text → List Link
  links_to source [] = []
  links_to source (ref ∷ refs) = elim (cell_row ref) [
    | none ↦ links_to source refs
    | some target ↦
        if source == target then links_to source refs else (source, target) ∷ links_to source refs
  ]

  -- The links of an edge, unless it reads a range that is kept apart.
  abbrev pub kept_apart : Bool → Edge → Option RangeNode
  kept_apart apart edge =
      if apart && is_range_edge edge then range_node_for (target_text edge) else none

  abbrev pub links_of : Bool → Edge → List Link
  links_of apart edge = if edge.named then [] else elim (cell_row edge.source) [
    | none ↦ []
    | some source ↦ elim (kept_apart apart edge) [
      | some node ↦ []
      | none ↦ links_to source (targets u expand_range range_node_for edge)
    ]
  ]

  abbrev pub all_links : Bool → List Edge → List Link
  all_links apart [] = []
  all_links apart (edge ∷ edges) = links_of apart edge ++ all_links apart edges

is_kept_none :
    (keep : Option (List Row)) (row : Row) → keeps_any keep ≡ false → is_kept keep row ≡ false
unfolding is_kept has_row
is_kept_none none row h = absurd (ground arith)
is_kept_none (some []) row h = refl
is_kept_none (some (x ∷ rows)) row h = absurd (ground arith)

module _ (keep : Option (List Row)) (row : Row) where
  -- The names of a kept row are those from before and then those of the links.
  abbrev pub Grown : List Link → Adjacency → Adjacency → Type 0
  Grown links a b =
      (list_at b.precedents row
        ≡ grow (list_at a.precedents row) (told (is_kept keep row) (targets_of row links)))
      × (list_at b.dependents row
          ≡ grow (list_at a.dependents row) (told (is_kept keep row) (sources_of row links)))

  grow-nothing : (kept : Bool) (names : List Text) → names ≡ grow names (told kept [])
  grow-nothing true names = refl
  grow-nothing false names = refl

  Grown-same : (a : Adjacency) → Grown [] a a
  Grown-same a = (
    grow-nothing (is_kept keep row) (list_at a.precedents row),
    grow-nothing (is_kept keep row) (list_at a.dependents row),
  )

  Grown-append :
      (xs ys : List Link) (a b c : Adjacency) → Grown xs a b → Grown ys b c → Grown (xs ++ ys) a c
  Grown-append xs ys a b c (p, d) (p', d') =
      let kept = is_kept keep row in
      (
        p'
            ∙ ap (λ names. grow names (told kept (targets_of row ys))) p
            ∙ grow-told kept (list_at a.precedents row) (targets_of row xs) (targets_of row ys)
            ∙ ap (λ names. grow (list_at a.precedents row) (told kept names))
                (sym (targets_of-append row xs ys)),
        d'
            ∙ ap (λ names. grow names (told kept (sources_of row ys))) d
            ∙ grow-told kept (list_at a.dependents row) (sources_of row xs) (sources_of row ys)
            ∙ ap (λ names. grow (list_at a.dependents row) (told kept names))
                (sym (sources_of-append row xs ys)),
      )

  Grown-apart : (links : List Link) (a : Adjacency) → keeps_any keep ≡ false → Grown links a a
  Grown-apart links a h = rw (told, is_kept_none keep row h) (refl, refl)

  kept_at :
      (key : Row) (d : Dict Row (List Text)) (name : Text)
      → list_at (if is_kept keep key then keep_name d key name else d) row
        ≡ grow (list_at d row) (told (is_kept keep row) (if key == row then name ∷ [] else []))
  kept_at key d name = elim (Bool-cases (key == row)) [
    | inl same ↦
        let one : is_kept keep key ≡ is_kept keep row =
          ap (is_kept keep) ((pair_beq_iff key row).0 same) in
        elim (Bool-cases (is_kept keep row)) [
          | inl yes_kept ↦ rw (one, yes_kept, list_at-keep_name d key row name, same) refl
          | inr not_kept ↦ rw (one, not_kept) refl
        ]
    | inr other ↦
        let stays : list_at d row ≡ grow (list_at d row) (told (is_kept keep row) []) =
          grow-nothing (is_kept keep row) (list_at d row) in
        elim (Bool-cases (is_kept keep key)) [
          | inl yes_kept ↦ rw (yes_kept, list_at-keep_name d key row name, other) stays
          | inr not_kept ↦ rw (not_kept, other) stays
        ]
  ]

  module _ (u : Characters) (expand_range : Text → Option (List Text))
      (range_node_for : Text → Option RangeNode) where
    add_target-Grown :
        (source target : Row) (a : Adjacency)
        → (source == target) ≡ false
        → Grown
            ((source, target) ∷ [])
            a
            (add_target u expand_range range_node_for keep source target a)
    unfolding add_target row_key_ref
    add_target-Grown source target a other =
        rw (add_target, other)
          (
            kept_at source a.precedents (row_key_ref target),
            kept_at target a.dependents (row_key_ref source),
          )

    add_targets-Grown :
        (source : Row) (refs : List Text) (a : Adjacency)
        → Grown
            (links_to u expand_range range_node_for source refs)
            a
            (add_targets u expand_range range_node_for keep source refs a)
    unfolding add_targets
    add_targets-Grown source [] a = Grown-same a
    add_targets-Grown source (ref ∷ refs) a =
        elim (Option-cases (cell_row u expand_range range_node_for ref)) [
          | inl outside ↦ rw (add_targets, links_to, outside) (add_targets-Grown source refs a)
          | inr (target, inside) ↦
              let after = add_target u expand_range range_node_for keep source target a in
              elim (Bool-cases (source == target)) [
                | inl self ↦
                    rw (add_targets, links_to, inside, self) (add_targets-Grown source refs a)
                | inr other ↦
                    let goes : add_targets u expand_range range_node_for keep source (ref ∷ refs) a
                        ≡ add_targets u expand_range range_node_for keep source refs after =
                      rw (add_targets, inside) refl in
                    let linked : links_to u expand_range range_node_for source (ref ∷ refs)
                        ≡ (source, target) ∷ links_to u expand_range range_node_for source refs =
                      rw (links_to, inside, other) refl in
                    subst
                      (λ b. Grown (links_to u expand_range range_node_for source (ref ∷ refs)) a b)
                      (sym goes)
                      (subst
                        (λ links.
                          Grown links a
                            (add_targets u expand_range range_node_for keep source refs after))
                        (sym linked)
                        (Grown-append ((source, target) ∷ [])
                          (links_to u expand_range range_node_for source refs) a after
                          (add_targets u expand_range range_node_for keep source refs after)
                          (add_target-Grown source target a other)
                          (add_targets-Grown source refs after)))
              ]
        ]

    large_range_lem :
        (ranges : Option RangeReads) (edge : Edge)
        → large_range u expand_range range_node_for ranges edge
          ≡ kept_apart u expand_range range_node_for (is_some ranges) edge
    unfolding large_range
    large_range_lem none edge = refl
    large_range_lem (some reads) edge = refl

    is_some-add_large :
        (ranges : Option RangeReads) (source : Row) (node : RangeNode)
        → is_some (add_large u expand_range range_node_for ranges source node) ≡ is_some ranges
    is_some-add_large none source node = refl
    is_some-add_large (some reads) source node = refl

    ranges-add_targets :
        (source : Row) (refs : List Text) (a : Adjacency)
        → (add_targets u expand_range range_node_for keep source refs a).ranges ≡ a.ranges
    unfolding add_targets add_target
    ranges-add_targets source [] a = refl
    ranges-add_targets source (ref ∷ refs) a =
        elim (Option-cases (cell_row u expand_range range_node_for ref)) [
          | inl outside ↦ rw (add_targets, outside) (ranges-add_targets source refs a)
          | inr (target, inside) ↦
              let after = add_target u expand_range range_node_for keep source target a in
              let kept : after.ranges ≡ a.ranges = elim (Bool-cases (source == target)) [
                | inl self ↦ rw (add_target, self) refl
                | inr other ↦ rw (add_target, other) refl
              ] in
              rw (add_targets, inside) (ranges-add_targets source refs after ∙ kept)
        ]

    add_edge-Grown :
        (edge : Edge) (a : Adjacency)
        → Grown
            (links_of u expand_range range_node_for (is_some a.ranges) edge)
            a
            (add_edge u expand_range range_node_for keep edge a)
          × (is_some (add_edge u expand_range range_node_for keep edge a).ranges ≡ is_some a.ranges)
    unfolding add_edge
    add_edge-Grown edge a = elim (Bool-cases edge.named) [
      | inl by_name ↦ rw (add_edge, links_of, by_name) (Grown-same a, refl)
      | inr by_ref ↦ elim (Option-cases (cell_row u expand_range range_node_for edge.source)) [
        | inl outside ↦ rw (add_edge, links_of, by_ref, outside) (Grown-same a, refl)
        | inr (source, inside) ↦
            let apart = large_range_lem a.ranges edge in
            elim (Option-cases (kept_apart u expand_range range_node_for (is_some a.ranges) edge)) [
              | inr (node, large) ↦
                  let found = apart ∙ large in
                  rw (add_edge, links_of, by_ref, inside, found, large)
                    (Grown-same a, is_some-add_large a.ranges source node)
              | inl small ↦
                  let found = apart ∙ small in
                  elim (Bool-cases (keeps_any keep)) [
                    | inl some_rows ↦
                        let refs = targets u expand_range range_node_for edge in
                        rw (add_edge, links_of, by_ref, inside, found, small, some_rows)
                          (
                            add_targets-Grown source refs a,
                            ap is_some (ranges-add_targets source refs a),
                          )
                    | inr no_rows ↦
                        let stays : add_edge u expand_range range_node_for keep edge a ≡ a =
                          rw (add_edge, by_ref, inside, found, no_rows) refl in
                        subst
                          (λ b.
                            Grown (links_of u expand_range range_node_for (is_some a.ranges) edge) a
                              b
                            × (is_some b.ranges ≡ is_some a.ranges))
                          (sym stays)
                          (
                            Grown-apart
                                (links_of u expand_range range_node_for (is_some a.ranges) edge) a
                                no_rows,
                            refl,
                          )
                  ]
            ]
      ]
    ]

    -- The names of a kept row grow by those of all links, apart from the ranges that are kept apart.
    pub add_edges_lem :
        (edges : List Edge) (a : Adjacency)
        → Grown
            (all_links u expand_range range_node_for (is_some a.ranges) edges)
            a
            (add_edges u expand_range range_node_for keep edges a)
    unfolding add_edges
    add_edges_lem [] a = Grown-same a
    add_edges_lem (edge ∷ edges) a =
        let (grown, same) = add_edge-Grown edge a in
        let after = add_edge u expand_range range_node_for keep edge a in
        Grown-append (links_of u expand_range range_node_for (is_some a.ranges) edge)
          (all_links u expand_range range_node_for (is_some a.ranges) edges) a after
          (add_edges u expand_range range_node_for keep edges after) grown
          (subst
            (λ b.
              Grown (all_links u expand_range range_node_for b edges) after
                (add_edges u expand_range range_node_for keep edges after))
            same (add_edges_lem edges after))
