-- ===== src/Graph/Walk/Meets.antt =====
-- The neighbours of a node are seen or wait after its round, graph/trace.py.
use finance_context_builder.Base.{
  ℕ, suc, ◌≡◌, refl, Bool, true, ◌||◌, not, List, [], ◌∷◌, ◌++◌, map, Option, none, some,
  if◌then◌else◌, length, All, All-append, arith, Bool-cases, Option-cases, inl, inr, sym, subst,
}
use finance_context_builder.Base.Eq.{nat_eq, list_eq, equal_refl}
use finance_context_builder.Base.Text.{Text}
use finance_context_builder.Formulas.RangeNodes.{RangeNode}
use finance_context_builder.Graph.Trace.{
  type_of, empty_type, Stopped, has_type, TraceEdge, shown_target, GraphEdge, Book, Walk, Direction,
  precedents, dependents, member, emit, visit, visit_all, to_neighbour, through_node, follow,
  follow_all, read_by, read_by_all, shown_members, outgoing, readers, target_of,
}
use finance_context_builder.Graph.Walk.{
  kept, get, from_queue, next_of, next_all, sources, neighbours, expand,
}
use finance_context_builder.Graph.Walk.Pushes.{
  at_level, member-append, Adds, visit_all-Adds, follow_all-Adds, read_by_all-Adds,
}

abbrev pub queued : List (Text × ℕ) → List Text
queued queue = map (λ (entry : Text × ℕ). entry.0) queue

pub queued-append : (xs ys : List (Text × ℕ)) → queued (xs ++ ys) ≡ queued xs ++ queued ys
queued-append [] ys = refl
queued-append (x ∷ xs) ys = ground (arith, queued-append xs ys)

-- A node was seen or waits.
abbrev pub is_met : List Text → List (Text × ℕ) → Text → Bool
is_met seen queue x = member x seen || member x (queued queue)

abbrev pub AreMet : List Text → List (Text × ℕ) → List Text → Type 0
AreMet seen queue nodes = All (λ x. is_met seen queue x ≡ true) nodes

-- What waits goes on waiting when the queue grows.
AreMet-append :
    (seen : List Text) (queue more : List (Text × ℕ)) (nodes : List Text)
    → AreMet seen queue nodes
    → AreMet seen (queue ++ more) nodes
AreMet-append seen queue more [] h = tt
AreMet-append seen queue more (x ∷ nodes) h = (
  ground (arith, queued-append queue more, member-append x (queued queue) (queued more)),
  AreMet-append seen queue more nodes h.1,
)

AreMet-Adds :
    (seen : List Text) (level : ℕ) (xs nodes : List Text) (w v : Walk)
    → Adds level xs w v
    → AreMet seen w.queue nodes
    → AreMet seen v.queue nodes
AreMet-Adds seen level xs nodes w v (added, e, _, _) h =
    subst (λ q. AreMet seen q nodes) (sym e)
      (AreMet-append seen w.queue (at_level (suc level) added) nodes h)

visit-met :
    (seen : List Text) (level : ℕ) (next : Text) (w : Walk)
    → is_met seen (visit seen level next w).queue next ≡ true
unfolding visit member
visit-met seen level next w = ground (
  arith,
  queued-append w.queue ((next, suc level) ∷ []),
  member-append next (queued w.queue) (next ∷ []),
  equal_refl next,
)

visit_all-met :
    (seen : List Text) (level : ℕ) (nodes : List Text) (w : Walk)
    → AreMet seen (visit_all seen level nodes w).queue nodes
unfolding visit_all
visit_all-met seen level [] w = tt
visit_all-met seen level (next ∷ others) w =
    let one = visit seen level next w in
    let first : AreMet seen one.queue (next ∷ []) = (visit-met seen level next w, tt) in
    (
      (AreMet-Adds seen level others (next ∷ []) one (visit_all seen level others one)
          (visit_all-Adds seen level others one) first).0,
      visit_all-met seen level others one,
    )

-- One node after another.
AreMet-all :
    (seen : List Text) (queue : List (Text × ℕ)) (xs ys : List Text)
    → AreMet seen queue xs
    → AreMet seen queue ys
    → AreMet seen queue (xs ++ ys)
AreMet-all seen queue xs ys h k = All-append _ xs ys h k

module _ (book : Book) (direction : Direction) (limit : ℕ) where
  to_neighbour-met :
      (seen : List Text) (level : ℕ) (edge : GraphEdge) (next : Text) (w : Walk)
      → AreMet seen
          (to_neighbour book direction limit seen level edge next w).queue
          (kept book direction limit next)
  unfolding to_neighbour kept
  to_neighbour-met seen level edge next w =
      elim (Bool-cases (has_type empty_type (type_of (get book.index next)))) [
        | inl blank ↦ rw (blank, AreMet) tt
        | inr cell ↦
            rw (cell, AreMet)
              (
                visit-met seen level next
                    (emit edge (shown_target edge) edge.period_lag edge.col_offset none none w),
                tt,
              )
      ]

  through_node-met :
      (seen : List Text) (level : ℕ) (edge : GraphEdge) (node : RangeNode) (w : Walk)
      → AreMet seen (through_node book direction limit seen level edge node w).queue (
          if not (book.ranges.has_cells node)
          then []
          else shown_members limit (book.ranges.members node))
  unfolding through_node
  through_node-met seen level edge node w =
      let members = book.ranges.members node in
      let shown = shown_members limit members in
      elim (Bool-cases (book.ranges.has_cells node)) [
        | inl present ↦
            rw (present, AreMet)
              (visit_all-met seen level shown (
                emit edge (shown_target edge) edge.period_lag edge.col_offset
                  (some (length members)) (some (length shown)) w))
        | inr absent ↦ rw (absent, AreMet) tt
      ]

follow-met :
    (book : Book) (direction : Direction) (limit : ℕ) (seen : List Text) (level : ℕ)
    (edge : GraphEdge) (w : Walk)
    → AreMet seen
        (follow book direction limit seen level edge w).queue
        (next_of book direction limit edge)
unfolding follow next_of
follow-met book dependents limit seen level edge w =
    to_neighbour-met book dependents limit seen level edge edge.source w
follow-met book precedents limit seen level edge w =
    elim (Option-cases (book.ranges.node_of (target_of edge))) [
      | inl plain ↦
          rw (plain, follow, next_of, AreMet)
            (to_neighbour-met book precedents limit seen level edge (target_of edge) w)
      | inr (node, found) ↦
          rw (found, follow, next_of, AreMet)
            (through_node-met book precedents limit seen level edge node w)
    ]

module _ (book : Book) (direction : Direction) (limit : ℕ) where
  follow_all-met :
      (seen : List Text) (level : ℕ) (edges : List GraphEdge) (w : Walk)
      → AreMet seen
          (follow_all book direction limit seen level edges w).queue
          (next_all book direction limit edges)
  unfolding follow_all next_all
  follow_all-met seen level [] w = tt
  follow_all-met seen level (edge ∷ edges) w =
      let one = follow book direction limit seen level edge w in
      let last = follow_all book direction limit seen level edges one in
      let near = next_of book direction limit edge in
      AreMet-all seen last.queue near (next_all book direction limit edges)
        (AreMet-Adds seen level (next_all book direction limit edges) near one last
          (follow_all-Adds book direction limit seen level edges one)
          (follow-met book direction limit seen level edge w))
        (follow_all-met seen level edges one)

  read_by_all-met :
      (seen : List Text) (level : ℕ) (current : Text) (edges : List GraphEdge) (w : Walk)
      → AreMet seen
          (read_by_all book direction limit seen level current edges w).queue
          (sources edges)
  unfolding read_by_all read_by
  read_by_all-met seen level current [] w = tt
  read_by_all-met seen level current (edge ∷ edges) w =
      let (shift, lag) = book.ranges.offset_and_lag edge.source current in
      let after = emit edge (shown_target edge) lag shift none none w in
      let one = visit seen level edge.source after in
      let last = read_by_all book direction limit seen level current edges one in
      let first : AreMet seen one.queue (edge.source ∷ []) =
        (visit-met seen level edge.source after, tt) in
      (
        (AreMet-Adds seen level (sources edges) (edge.source ∷ []) one last
            (read_by_all-Adds book direction limit seen level current edges one) first).0,
        read_by_all-met seen level current edges one,
      )

  -- After the loops over the edges of a node every neighbour was seen or waits.
  pub expand-met :
      (seen : List Text) (current : Text) (level : ℕ) (queue : List (Text × ℕ))
      (used : List TraceEdge) (stopped : Option Stopped)
      → AreMet seen
          (expand book direction limit seen current level queue used stopped).queue
          (neighbours book direction limit current)
  unfolding expand neighbours
  expand-met seen current level queue used stopped =
      let first = from_queue queue used stopped in
      let out = outgoing book direction limit current in
      let read = readers book direction limit current in
      let one = follow_all book direction limit seen level out first in
      let last = read_by_all book direction limit seen level current read one in
      AreMet-all seen last.queue (next_all book direction limit out) (sources read)
        (AreMet-Adds seen level (sources read) (next_all book direction limit out) one last
          (read_by_all-Adds book direction limit seen level current read one)
          (follow_all-met seen level out first))
        (read_by_all-met seen level current read one)
