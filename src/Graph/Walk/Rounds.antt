-- ===== src/Graph/Walk/Rounds.antt =====
-- The rounds of the walk's loop, graph/trace.py.
use finance_context_builder.Base.{
  ℕ, zero, suc, ◌+◌, ◌≤◌, ◌≡◌, refl, true, false, List, [], ◌∷◌, ◌++◌, some, if◌then◌else◌, length,
  All, All-append, length-append, append_assoc, arith, Bool-cases, inl, inr, sym, ap, subst,
}
use finance_context_builder.Base.Eq.{◌==◌, nat_eq, list_eq, equal_refl, list_beq_iff}
use finance_context_builder.Base.Dict.{Dict, get, list_at}
use finance_context_builder.Base.Text.{Text}
use finance_context_builder.Formulas.RangeNodes.{RangeNode}
use finance_context_builder.Graph.Trace.{
  GraphEdge, Book, Direction, precedents, dependents, member, outgoing, readers, readers_of,
}
use finance_context_builder.Graph.Walk.{
  Search, next_of, next_all, sources, table_edges, neighbours, round, trace_loop, universe,
  total_neighbours, rounds, begin, at_level_0,
}
use finance_context_builder.Graph.Walk.Steps.{round_cases}
use finance_context_builder.Graph.Walk.Pushes.{
  at_level, AreIn, AreIn-left, AreIn-right, AreIn-trans, AreIn-self,
}

list_at-same :
    (j k : Text) (edges : List GraphEdge) (d : Dict Text (List GraphEdge))
    → (j == k) ≡ true
    → list_at ((j, edges) ∷ d) k ≡ edges
unfolding get
list_at-same j k edges d same = ground arith

list_at-other :
    (j k : Text) (edges : List GraphEdge) (d : Dict Text (List GraphEdge))
    → (j == k) ≡ false
    → list_at ((j, edges) ∷ d) k ≡ list_at d k
unfolding get
list_at-other j k edges d other = ground arith

-- The edges of one key are edges of the table.
AreIn-table :
    (f : List GraphEdge → List Text)
    → ((xs ys : List GraphEdge) → f (xs ++ ys) ≡ f xs ++ f ys)
    → (d : Dict Text (List GraphEdge)) (k : Text) → f [] ≡ []
    → AreIn (f (list_at d k)) (f (table_edges d))
unfolding get table_edges
AreIn-table f split [] k e = subst (λ xs. AreIn xs (f [])) (sym e) tt
AreIn-table f split ((j, edges) ∷ d) k e =
    subst (AreIn (f (list_at ((j, edges) ∷ d) k))) (sym (split edges (table_edges d)))
      (elim (Bool-cases (j == k)) [
        | inl same ↦
            subst (λ xs. AreIn (f xs) (f edges ++ f (table_edges d)))
              (sym (list_at-same j k edges d same))
              (AreIn-left (f edges) (f edges) (f (table_edges d)) (AreIn-self (f edges)))
        | inr other ↦
            subst (λ xs. AreIn (f xs) (f edges ++ f (table_edges d)))
              (sym (list_at-other j k edges d other))
              (AreIn-right (f (list_at d k)) (f edges) (f (table_edges d))
                (AreIn-table f split d k e))
      ])

sources-append : (xs ys : List GraphEdge) → sources (xs ++ ys) ≡ sources xs ++ sources ys
sources-append [] ys = refl
sources-append (x ∷ xs) ys = ground (arith, sources-append xs ys)

sources-table :
    (d : Dict Text (List GraphEdge)) (k : Text)
    → AreIn (sources (list_at d k)) (sources (table_edges d))
sources-table d k = AreIn-table sources sources-append d k refl

module _ (book : Book) (direction : Direction) (limit : ℕ) where
  next_all-append :
      (xs ys : List GraphEdge)
      → next_all book direction limit (xs ++ ys)
        ≡ next_all book direction limit xs ++ next_all book direction limit ys
  unfolding next_all
  next_all-append [] ys = refl
  next_all-append (x ∷ xs) ys = ground (
    arith,
    next_all-append xs ys,
    append_assoc (next_of book direction limit x) (next_all book direction limit xs)
        (next_all book direction limit ys),
  )

  readers_of-table :
      (nodes : List RangeNode)
      → AreIn (sources (readers_of book direction limit nodes)) (sources (table_edges book.rev))
  unfolding readers_of
  readers_of-table [] = tt
  readers_of-table (node ∷ nodes) =
      subst (λ xs. AreIn xs (sources (table_edges book.rev)))
        (sym
          (sources-append (list_at book.rev node.node_id) (readers_of book direction limit nodes)))
        (All-append _ (sources (list_at book.rev node.node_id))
          (sources (readers_of book direction limit nodes)) (sources-table book.rev node.node_id)
          (readers_of-table nodes))

-- Every neighbour of a node is in the universe.
neighbours-universe :
    (book : Book) (direction : Direction) (limit : ℕ) (starts : List Text) (x : Text)
    → AreIn (neighbours book direction limit x) (universe book direction limit starts)
unfolding neighbours universe outgoing readers
neighbours-universe book precedents limit starts x =
    AreIn-right _ starts (next_all book precedents limit (table_edges book.fwd)) (
      All-append _ (next_all book precedents limit (list_at book.fwd x)) []
        (AreIn-table (next_all book precedents limit) (next_all-append book precedents limit)
          book.fwd x (unfold next_all in refl))
        tt)
neighbours-universe book dependents limit starts x =
    let table = table_edges book.rev in
    let near = next_all book dependents limit (list_at book.rev x) in
    let read = sources (readers_of book dependents limit (book.ranges.covering x)) in
    AreIn-right (near ++ read) starts (next_all book dependents limit table ++ sources table) (
      All-append _ near read
        (AreIn-left near (next_all book dependents limit table) (sources table) (
          AreIn-table (next_all book dependents limit) (next_all-append book dependents limit)
            book.rev x (unfold next_all in refl)))
        (AreIn-right read (next_all book dependents limit table) (sources table)
          (readers_of-table book dependents limit (book.ranges.covering x))))

starts-universe :
    (book : Book) (direction : Direction) (limit : ℕ) (starts : List Text)
    → AreIn starts (universe book direction limit starts)
unfolding universe
starts-universe book precedents limit starts = AreIn-left starts starts _ (AreIn-self starts)
starts-universe book dependents limit starts = AreIn-left starts starts _ (AreIn-self starts)

module _ (book : Book) (direction : Direction) (limit : ℕ) where
  -- The neighbours of the nodes that were not seen.
  abbrev left : List Text → List Text → ℕ
  left seen [] = 0
  left seen (x ∷ xs) =
      (if member x seen then 0 else length (neighbours book direction limit x)) + left seen xs

  left_mono : (x : Text) (seen nodes : List Text) → left (x ∷ seen) nodes ≤ left seen nodes
  unfolding member
  left_mono x seen [] = omega arith
  left_mono x seen (y ∷ nodes) = ground (arith, left_mono x seen nodes)

  -- A new node pays for its neighbours.
  left-seen :
      (x : Text) (seen nodes : List Text)
      → member x seen ≡ false
      → member x nodes ≡ true
      → left (x ∷ seen) nodes + length (neighbours book direction limit x) ≤ left seen nodes
  unfolding member
  left-seen x seen [] new there = ground arith
  left-seen x seen (y ∷ nodes) new there = elim (Bool-cases (y == x)) [
    | inl same ↦
        let e = (list_beq_iff y x).0 same in ground (arith, equal_refl x, left_mono x seen nodes)
    | inr other ↦ ground (arith, left-seen x seen nodes, list_beq_iff y x, list_beq_iff x y)
  ]

  left-nothing : (nodes : List Text) → left [] nodes ≡ total_neighbours book direction limit nodes
  unfolding member total_neighbours
  left-nothing [] = refl
  left-nothing (x ∷ nodes) = ground (arith, left-nothing nodes)

  -- The nodes of the queue are in the universe.
  abbrev InQueue : List Text → List (Text × ℕ) → Type 0
  InQueue nodes queue = All (λ entry. member entry.0 nodes ≡ true) queue

  InQueue-at_level :
      (level : ℕ) (xs nodes : List Text) → AreIn xs nodes → InQueue nodes (at_level level xs)
  InQueue-at_level level [] nodes h = tt
  InQueue-at_level level (x ∷ xs) nodes h = (h.0, InQueue-at_level level xs nodes h.1)

  length-at_level : (level : ℕ) (xs : List Text) → length (at_level level xs) ≡ length xs
  length-at_level level [] = refl
  length-at_level level (x ∷ xs) = ap suc (length-at_level level xs)

  module _ (bound : ℕ) (starts : List Text) where
    abbrev nodes : List Text
    nodes = universe book direction limit starts

    trace_loop-ends :
        (fuel : ℕ) (queue : List (Text × ℕ)) (s : Search)
        → InQueue nodes queue
        → length queue + left s.seen nodes ≤ fuel
        → (final : Search) × (trace_loop book direction limit bound fuel queue s ≡ some final)
    unfolding trace_loop
    trace_loop-ends fuel [] s h enough = (s, refl)
    trace_loop-ends zero ((current, level) ∷ rest) s h enough = absurd (omega arith)
    trace_loop-ends (suc fuel) ((current, level) ∷ rest) s h enough =
        elim (round_cases book direction limit bound s current level rest) [
          | inl (old, queue, seen, _) ↦
              trace_loop-ends fuel (round book direction limit bound s current level rest).0
                (round book direction limit bound s current level rest).1 (rw (queue, InQueue) h.1)
                (rw (queue, seen) (omega arith))
          | inr (new, seen, _, grows, _) ↦
              trace_loop-ends fuel (round book direction limit bound s current level rest).0
                (round book direction limit bound s current level rest).1
                (subst (InQueue nodes) (sym grows.queue) (
                  All-append _ rest (at_level (suc level) grows.added) h.1 (
                    InQueue-at_level (suc level) grows.added nodes (
                      AreIn-trans grows.added (neighbours book direction limit current) nodes
                        grows.near (neighbours-universe book direction limit starts current)))))
                (rw (grows.queue, seen)
                  (omega (
                    arith,
                    length-append rest (at_level (suc level) grows.added),
                    length-at_level (suc level) grows.added,
                    grows.few,
                    left-seen current s.seen nodes new h.0,
                  )))
        ]

    -- The loop ends within its rounds.
    pub trace_loop_total :
        (final : Search) × (trace_loop book direction limit bound
            (rounds book direction limit starts)
            (at_level_0 starts)
            begin
          ≡ some final)
    unfolding rounds
    trace_loop_total =
        trace_loop-ends (rounds book direction limit starts) (at_level_0 starts) begin
          (InQueue-at_level 0 starts nodes (starts-universe book direction limit starts))
          (omega (arith, length-at_level 0 starts, left-nothing nodes))
