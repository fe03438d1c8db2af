-- ===== src/Graph/Walk.antt =====
-- The loop of the walk and its document, `trace_graph` of graph/trace.py, and the nodes it starts
-- from, `_resolve_origin`. What the context file says of a label is an argument.
pub mod Pushes
pub mod Meets
pub mod Steps
pub mod Rounds
pub mod Visits
use finance_context_builder.Base.{
  ℕ, zero, suc, ◌+◌, Bool, true, false, ◌&&◌, ◌||◌, not, List, [], ◌∷◌, ◌++◌, map, Option, none,
  some, if◌then◌else◌, leb, ltb, length, max, min,
}
use finance_context_builder.Base.Eq.{◌==◌, nat_eq, list_eq, pair_eq}
use finance_context_builder.Base.Dict.{Dict, get, list_at}
use finance_context_builder.Base.Text.{Text}
use finance_context_builder.Formulas.RangeNodes.{RangeNode}
use finance_context_builder.Graph.Trace.{
  GraphEdge, Meta, CellRow, TraceNode, TraceEdge, Direction, precedents, dependents, Stopped, empty,
  cycle, input, depth, leaf, complete, no_cell, trace_node, input_type, empty_type, type_of,
  has_type, member, is_emitted, Book, Walk, target_of, shown_members, follow_all, read_by_all,
  outgoing, readers, meta_of,
}

abbrev pub is_nonempty {ℓ} : {A : Type ℓ} → List A → Bool
is_nonempty [] = false
is_nonempty (_ ∷ _) = true

-- The variables of the `while` loop but its queue.
pub record Search : Type 0 where
  pub seen : List Text
  pub nodes : List TraceNode
  pub used_edges : List TraceEdge
  pub stopped : Option Stopped
  pub hit_depth : Bool

pub record TraceDocument : Type 0 where
  pub stopped : Stopped
  pub nodes : List TraceNode
  pub edges : List TraceEdge

-- `_unique_edges`: the first edge of every source and target
unfoldable pub unique_loop : List (Text × Text) → List TraceEdge → List TraceEdge
unfolding is_emitted
unique_loop seen [] = []
unique_loop seen (edge ∷ edges) =
    if is_emitted (edge.source, edge.target) seen
    then unique_loop seen edges
    else edge ∷ unique_loop ((edge.source, edge.target) ∷ seen) edges

unfoldable pub unique_edges : List TraceEdge → List TraceEdge
unfolding unique_loop
unique_edges edges = unique_loop [] edges

-- The variables that the loops over edges change, with `emitted` empty.
abbrev pub from_queue : List (Text × ℕ) → List TraceEdge → Option Stopped → Walk
from_queue queue used stopped = record {
  queue = queue;
  used = used;
  stopped = stopped;
  emitted = [];
}

abbrev pub sources : List GraphEdge → List Text
sources edges = map (λ (edge : GraphEdge). edge.source) edges

-- The edges of a table.
unfoldable pub table_edges : Dict Text (List GraphEdge) → List GraphEdge
table_edges [] = []
table_edges ((_, edges) ∷ rest) = edges ++ table_edges rest

abbrev pub begin : Search
begin = record { seen = []; nodes = []; used_edges = []; stopped = none; hit_depth = false }

-- `stopped` after the loop
unfoldable pub stop_reason : Search → Stopped
stop_reason s = elim s.stopped [
  | some reason ↦ reason
  | none ↦ if s.hit_depth then depth else if is_nonempty s.used_edges then complete else leaf
]

abbrev pub at_level_0 : List Text → List (Text × ℕ)
at_level_0 starts = map (λ (node : Text). (node, 0)) starts

-- `max(1, min(int(depth), 32))`
unfoldable pub clamp_depth : ℕ → ℕ
clamp_depth given = max 1 (min given 32)

-- The document, where there are nodes to start from and where there are none.
unfoldable pub document : List Text → Search → TraceDocument
unfolding stop_reason unique_edges
document starts s = record {
  stopped = if is_nonempty starts then stop_reason s else empty;
  nodes = s.nodes;
  edges = unique_edges s.used_edges;
}

module _ (book : Book) (direction : Direction) (limit : ℕ) where
  -- The two loops over the edges of a node.
  unfoldable pub expand :
      List Text → Text → ℕ → List (Text × ℕ) → List TraceEdge → Option Stopped → Walk
  unfolding follow_all read_by_all
  expand seen current level queue used stopped =
      read_by_all book direction limit seen level current (readers book direction limit current) (
        follow_all book direction limit seen level (outgoing book direction limit current)
          (from_queue queue used stopped))

  -- A neighbour is followed unless it is an empty cell.
  unfoldable pub kept : Text → List Text
  unfolding has_type
  kept next = if has_type empty_type (type_of (get book.index next)) then [] else next ∷ []

  -- The nodes that the round of an edge leads to.
  unfoldable pub next_of : GraphEdge → List Text
  next_of edge = elim direction [
    | precedents ↦ elim (book.ranges.node_of (target_of edge)) [
      | some node ↦
          if not (book.ranges.has_cells node)
          then []
          else shown_members limit (book.ranges.members node)
      | none ↦ kept (target_of edge)
    ]
    | dependents ↦ kept edge.source
  ]

  unfoldable pub next_all : List GraphEdge → List Text
  next_all [] = []
  next_all (edge ∷ edges) = next_of edge ++ next_all edges

  unfoldable pub neighbours : Text → List Text
  neighbours current =
      next_all (outgoing book direction limit current)
      ++ sources (readers book direction limit current)

  -- Every node that can come on the queue.
  unfoldable pub universe : List Text → List Text
  universe starts = elim direction [
    | precedents ↦ starts ++ next_all (table_edges book.fwd)
    | dependents ↦ starts ++ (next_all (table_edges book.rev) ++ sources (table_edges book.rev))
  ]

  unfoldable pub total_neighbours : List Text → ℕ
  total_neighbours [] = 0
  total_neighbours (x ∷ xs) = length (neighbours x) + total_neighbours xs

  -- A bound of the rounds: every start, and the neighbours of every node.
  unfoldable pub rounds : List Text → ℕ
  rounds starts = length starts + total_neighbours (universe starts)

  module _ (bound : ℕ) where
    -- `direction == "precedents" and meta.get("node_type") == "input" and level > 0`
    unfoldable pub ends_at_input : Text → ℕ → Bool
    unfolding has_type
    ends_at_input current level =
        let found = has_type input_type (meta_of book direction limit current).node_type in
        elim direction [ precedents ↦ found && ltb 0 level | dependents ↦ false ]

    -- A round for a node that was not seen, after it is entered.
    unfoldable pub enter : Search → Text → ℕ → List (Text × ℕ) → List (Text × ℕ) × Search
    unfolding expand ends_at_input
    enter s current level rest =
        if ends_at_input current level
        then (rest, record s { stopped = some input })
        else if leb bound level
        then (
          rest,
          record s {
            hit_depth =
                s.hit_depth
                || (is_nonempty (outgoing book direction limit current)
                    || is_nonempty (readers book direction limit current));
          },
        )
        else let after = expand s.seen current level rest s.used_edges s.stopped in
          (after.queue, record s { used_edges = after.used; stopped = after.stopped })

    -- One round of the `while` loop.
    unfoldable pub round : Search → Text → ℕ → List (Text × ℕ) → List (Text × ℕ) × Search
    unfolding enter member
    round s current level rest =
        if member current s.seen
        then (rest, record s { stopped = some cycle })
        else let cell : CellRow = elim (get book.cells current) [
          | none ↦ no_cell
          | some row ↦ row
        ] in
          enter
            (record s {
              seen = current ∷ s.seen;
              nodes =
                  s.nodes
                  ++ trace_node current cell (meta_of book direction limit current) level ∷ [];
            })
            current level rest

    -- The `while` loop; `none` is fuel that ran out.
    unfoldable pub trace_loop : ℕ → List (Text × ℕ) → Search → Option Search
    trace_loop fuel [] s = some s
    trace_loop zero ((current, level) ∷ rest) s = none
    trace_loop (suc fuel) ((current, level) ∷ rest) s =
        let (queue, next) = round s current level rest in trace_loop fuel queue next

    -- From the nodes to start from to the document.
    unfoldable pub trace_from : List Text → Option TraceDocument
    trace_from starts = elim (trace_loop (rounds starts) (at_level_0 starts) begin) [
      | none ↦ none
      | some s ↦ some (document starts s)
    ]
