-- ===== src/Graph/TraceExamples.antt =====
-- The walk on a small book without range nodes: A reads B and C, and C reads A.
use finance_context_builder.Base.{ℕ, ◌≡◌, refl, true, false, List, [], ◌∷◌, Option, none, some, All}
use finance_context_builder.Base.Eq.{nat_eq, list_eq}
use finance_context_builder.Base.Dict.{put, get}
use finance_context_builder.Base.Text.{Text}
use finance_context_builder.Graph.Trace.{
  GraphEdge, Book, Ranges, precedents, no_meta, edge_tables, follow, outgoing, readers,
  to_neighbour, meta_of, trace_node,
}
use finance_context_builder.Graph.Walk.{
  TraceDocument, trace_from, trace_loop, round, rounds, document, total_neighbours, universe,
  neighbours, next_all, next_of, kept, table_edges,
}
use finance_context_builder.Graph.Walk.Pushes.{AreIn}
use finance_context_builder.Graph.Walk.Visits.{ids, AreDistinct, IsGood, IsClosed, trace_from_lem}

abbrev name : ℕ → Text
name c = c ∷ []

abbrev edge : ℕ → ℕ → GraphEdge
edge source target = record {
  source = name source;
  target = some (name target);
  kind = none;
  unresolved = false;
  dangling = false;
  range_ref = none;
  period_lag = none;
  col_offset = none;
}

abbrev no_ranges : Ranges
no_ranges = record {
  node_of = λ _. none;
  has_cells = λ _. true;
  members = λ _. [];
  covering = λ _. [];
  blank_meta = λ _. no_meta;
  offset_and_lag = λ _ _. (none, none);
}

abbrev edges : List GraphEdge
edges = edge b'A' b'B' ∷ edge b'A' b'C' ∷ edge b'C' b'A' ∷ []

abbrev book : Book
book = record {
  cells = [];
  index = [];
  fwd = (edge_tables edges ([], [])).0;
  rev = (edge_tables edges ([], [])).1;
  ranges = no_ranges;
}

abbrev starts : List Text
starts = name b'A' ∷ []

abbrev visited : Option TraceDocument → List Text
visited none = []
visited (some doc) = ids doc.nodes

walks : visited (trace_from book precedents 0 8 starts) ≡ name b'A' ∷ name b'B' ∷ name b'C' ∷ []
unfolding trace_from rounds trace_loop round document edge_tables total_neighbours universe
    neighbours next_all outgoing get put next_of kept readers table_edges meta_of follow
    to_neighbour trace_node
walks = refl

trace_from_lem_example :
    (doc : TraceDocument) × (trace_from book precedents 0 8 starts ≡ some doc)
    × AreDistinct (ids doc.nodes)
    × AreIn starts (ids doc.nodes)
    × All (λ n. IsGood book precedents 0 8 starts n.node_id n.depth) doc.nodes
    × All (IsClosed book precedents 0 8 starts (ids doc.nodes)) doc.nodes
trace_from_lem_example = trace_from_lem book precedents 0 8 starts
