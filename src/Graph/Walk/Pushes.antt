-- ===== src/Graph/Walk/Pushes.antt =====
-- What the loops over the edges of a node put on the queue, graph/trace.py.
use finance_context_builder.Base.{
  ℕ, suc, ◌≤◌, ◌≡◌, refl, true, ◌||◌, not, List, [], ◌∷◌, ◌++◌, map, Option, none, some,
  if◌then◌else◌, length, All, All-append, length-append, append-nil, append_assoc, arith,
  Bool-cases, Option-cases, inl, inr, sym, subst,
}
use finance_context_builder.Base.Eq.{◌==◌, nat_eq, list_eq, equal_refl, list_beq_iff}
use finance_context_builder.Base.Text.{Text}
use finance_context_builder.Formulas.Shift.{Offset}
use finance_context_builder.Formulas.RangeNodes.{RangeNode}
use finance_context_builder.Graph.Trace.{
  type_of, empty_type, Stopped, has_type, TraceEdge, shown_target, GraphEdge, Book, Walk, Direction,
  precedents, dependents, member, emit, visit, visit_all, to_neighbour, through_node, follow,
  follow_all, read_by, read_by_all, shown_members, outgoing, readers, target_of,
}
use finance_context_builder.Graph.Walk.{
  kept, get, from_queue, next_of, next_all, sources, neighbours, expand,
}

-- Nodes with a level.
abbrev pub at_level : ℕ → List Text → List (Text × ℕ)
at_level level nodes = map (λ (node : Text). (node, level)) nodes

pub at_level-append :
    (level : ℕ) (xs ys : List Text)
    → at_level level (xs ++ ys) ≡ at_level level xs ++ at_level level ys
at_level-append level [] ys = refl
at_level-append level (x ∷ xs) ys = ground (arith, at_level-append level xs ys)

pub member-append :
    (x : Text) (xs ys : List Text) → member x (xs ++ ys) ≡ (member x xs || member x ys)
unfolding member
member-append x [] ys = refl
member-append x (y ∷ xs) ys = ground (arith, member-append x xs ys)

-- Every node of one list stands in another.
abbrev pub AreIn : List Text → List Text → Type 0
AreIn xs ys = All (λ x. member x ys ≡ true) xs

pub AreIn-left : (xs ys zs : List Text) → AreIn xs ys → AreIn xs (ys ++ zs)
AreIn-left [] ys zs h = tt
AreIn-left (x ∷ xs) ys zs h = (ground (arith, member-append x ys zs), AreIn-left xs ys zs h.1)

pub AreIn-right : (xs ys zs : List Text) → AreIn xs zs → AreIn xs (ys ++ zs)
AreIn-right [] ys zs h = tt
AreIn-right (x ∷ xs) ys zs h = (ground (arith, member-append x ys zs), AreIn-right xs ys zs h.1)

pub member-AreIn :
    (x : Text) (xs ys : List Text) → AreIn xs ys → member x xs ≡ true → member x ys ≡ true
unfolding member
member-AreIn x [] ys h m = ground arith
member-AreIn x (y ∷ xs) ys h m = elim (Bool-cases (y == x)) [
  | inl same ↦ subst (λ z. member z ys ≡ true) ((list_beq_iff y x).0 same) h.0
  | inr other ↦ ground (arith, member-AreIn x xs ys h.1)
]

pub AreIn-trans : (xs ys zs : List Text) → AreIn xs ys → AreIn ys zs → AreIn xs zs
AreIn-trans [] ys zs h k = tt
AreIn-trans (x ∷ xs) ys zs h k = (member-AreIn x ys zs k h.0, AreIn-trans xs ys zs h.1 k)

AreIn-cons : (y : Text) (xs ys : List Text) → AreIn xs ys → AreIn xs (y ∷ ys)
unfolding member
AreIn-cons y [] ys h = tt
AreIn-cons y (x ∷ xs) ys h = (ground arith, AreIn-cons y xs ys h.1)

pub AreIn-self : (xs : List Text) → AreIn xs xs
unfolding member
AreIn-self [] = tt
AreIn-self (x ∷ xs) = (ground (arith, equal_refl x), AreIn-cons x xs xs (AreIn-self xs))

-- A loop put some of the nodes on the queue, at the next level, and no more than there are.
abbrev pub Adds : ℕ → List Text → Walk → Walk → Type 0
Adds level nodes before after =
    (added : List Text) × (after.queue ≡ before.queue ++ at_level (suc level) added)
    × (length added ≤ length nodes)
    × AreIn added nodes

Adds-none : (level : ℕ) (nodes : List Text) (w v : Walk) → v.queue ≡ w.queue → Adds level nodes w v
Adds-none level nodes w v e = ([], ground (arith, append-nil w.queue), omega arith, tt)

Adds-trans :
    (level : ℕ) (xs ys : List Text) (u v w : Walk)
    → Adds level xs u v
    → Adds level ys v w
    → Adds level (xs ++ ys) u w
Adds-trans level xs ys u v w (a, p, n, h) (b, q, m, k) = (
  a ++ b,
  ground (
    arith,
    at_level-append (suc level) a b,
    append_assoc u.queue (at_level (suc level) a) (at_level (suc level) b),
  ),
  omega (arith, length-append a b, length-append xs ys),
  All-append _ a b (AreIn-left a xs ys h) (AreIn-right b xs ys k),
)

pub visit-Adds :
    (seen : List Text) (level : ℕ) (next : Text) (w : Walk)
    → Adds level (next ∷ []) w (visit seen level next w)
unfolding visit
visit-Adds seen level next w = elim (Bool-cases (member next seen)) [
  | inl old ↦ rw (old, Adds) ([], sym (append-nil w.queue), omega arith, tt)
  | inr new ↦ rw (new, Adds) (next ∷ [], refl, omega arith, AreIn-self (next ∷ []))
]

pub visit_all-Adds :
    (seen : List Text) (level : ℕ) (nodes : List Text) (w : Walk)
    → Adds level nodes w (visit_all seen level nodes w)
unfolding visit_all
visit_all-Adds seen level [] w = Adds-none level [] w w refl
visit_all-Adds seen level (next ∷ others) w =
    let one = visit seen level next w in
    Adds-trans level (next ∷ []) others w one (visit_all seen level others one)
      (visit-Adds seen level next w) (visit_all-Adds seen level others one)

pub emit-queue :
    (edge : GraphEdge) (target : Text) (lag : Option Text) (shift : Option Offset)
    (total shown : Option ℕ) (w : Walk)
    → (emit edge target lag shift total shown w).queue ≡ w.queue
unfolding emit
emit-queue edge target lag shift total shown w = ground arith

Adds-from :
    (level : ℕ) (nodes : List Text) (u v w : Walk)
    → v.queue ≡ u.queue
    → Adds level nodes v w
    → Adds level nodes u w
Adds-from level nodes u v w e (added, p, n, h) = (added, ground arith, n, h)

module _ (book : Book) (direction : Direction) (limit : ℕ) where
  to_neighbour-Adds :
      (seen : List Text) (level : ℕ) (edge : GraphEdge) (next : Text) (w : Walk)
      → Adds level
          (kept book direction limit next)
          w
          (to_neighbour book direction limit seen level edge next w)
  unfolding to_neighbour kept
  to_neighbour-Adds seen level edge next w =
      let after = emit edge (shown_target edge) edge.period_lag edge.col_offset none none w in
      let same = emit-queue edge (shown_target edge) edge.period_lag edge.col_offset none none w in
      elim (Bool-cases (has_type empty_type (type_of (get book.index next)))) [
        | inl blank ↦ rw (blank, Adds) ([], ground (arith, append-nil w.queue), omega arith, tt)
        | inr cell ↦
            rw (cell, Adds)
              (Adds-from level (next ∷ []) w after (visit seen level next after) same
                (visit-Adds seen level next after))
      ]

  through_node-Adds :
      (seen : List Text) (level : ℕ) (edge : GraphEdge) (node : RangeNode) (w : Walk)
      → Adds level
          (if not (book.ranges.has_cells node)
            then []
            else shown_members limit (book.ranges.members node))
          w
          (through_node book direction limit seen level edge node w)
  unfolding through_node
  through_node-Adds seen level edge node w =
      let members = book.ranges.members node in
      let shown = shown_members limit members in
      let after =
        emit edge (shown_target edge) edge.period_lag edge.col_offset (some (length members))
          (some (length shown)) w in
      let same =
        emit-queue edge (shown_target edge) edge.period_lag edge.col_offset (some (length members))
          (some (length shown)) w in
      elim (Bool-cases (book.ranges.has_cells node)) [
        | inl present ↦
            rw (present, Adds)
              (Adds-from level shown w after (visit_all seen level shown after) same
                (visit_all-Adds seen level shown after))
        | inr absent ↦ rw (absent, Adds) ([], sym (append-nil w.queue), omega arith, tt)
      ]

pub follow-Adds :
    (book : Book) (direction : Direction) (limit : ℕ) (seen : List Text) (level : ℕ)
    (edge : GraphEdge) (w : Walk)
    → Adds level
        (next_of book direction limit edge)
        w
        (follow book direction limit seen level edge w)
unfolding follow next_of
follow-Adds book dependents limit seen level edge w =
    to_neighbour-Adds book dependents limit seen level edge edge.source w
follow-Adds book precedents limit seen level edge w =
    elim (Option-cases (book.ranges.node_of (target_of edge))) [
      | inl plain ↦
          rw (plain, follow, next_of, Adds)
            (to_neighbour-Adds book precedents limit seen level edge (target_of edge) w)
      | inr (node, found) ↦
          rw (found, follow, next_of, Adds)
            (through_node-Adds book precedents limit seen level edge node w)
    ]

module _ (book : Book) (direction : Direction) (limit : ℕ) where
  pub follow_all-Adds :
      (seen : List Text) (level : ℕ) (edges : List GraphEdge) (w : Walk)
      → Adds level
          (next_all book direction limit edges)
          w
          (follow_all book direction limit seen level edges w)
  unfolding follow_all next_all
  follow_all-Adds seen level [] w = ([], sym (append-nil w.queue), omega arith, tt)
  follow_all-Adds seen level (edge ∷ edges) w =
      let one = follow book direction limit seen level edge w in
      Adds-trans level (next_of book direction limit edge) (next_all book direction limit edges) w
        one (follow_all book direction limit seen level edges one)
        (follow-Adds book direction limit seen level edge w) (follow_all-Adds seen level edges one)

  pub read_by-Adds :
      (seen : List Text) (level : ℕ) (current : Text) (edge : GraphEdge) (w : Walk)
      → Adds level (edge.source ∷ []) w (read_by book direction limit seen level current edge w)
  unfolding read_by
  read_by-Adds seen level current edge w =
      let (shift, lag) = book.ranges.offset_and_lag edge.source current in
      let after = emit edge (shown_target edge) lag shift none none w in
      Adds-from level (edge.source ∷ []) w after (visit seen level edge.source after)
        (emit-queue edge (shown_target edge) lag shift none none w)
        (visit-Adds seen level edge.source after)

  pub read_by_all-Adds :
      (seen : List Text) (level : ℕ) (current : Text) (edges : List GraphEdge) (w : Walk)
      → Adds level (sources edges) w (read_by_all book direction limit seen level current edges w)
  unfolding read_by_all
  read_by_all-Adds seen level current [] w = ([], sym (append-nil w.queue), omega arith, tt)
  read_by_all-Adds seen level current (edge ∷ edges) w =
      let one = read_by book direction limit seen level current edge w in
      Adds-trans level (edge.source ∷ []) (sources edges) w one
        (read_by_all book direction limit seen level current edges one)
        (read_by-Adds seen level current edge w) (read_by_all-Adds seen level current edges one)

  -- A node puts only its neighbours on the queue, and no more than there are.
  pub expand-Adds :
      (seen : List Text) (current : Text) (level : ℕ) (queue : List (Text × ℕ))
      (used : List TraceEdge) (stopped : Option Stopped)
      → Adds level
          (neighbours book direction limit current)
          (from_queue queue used stopped)
          (expand book direction limit seen current level queue used stopped)
  unfolding expand neighbours
  expand-Adds seen current level queue used stopped =
      let first = from_queue queue used stopped in
      let out = outgoing book direction limit current in
      let read = readers book direction limit current in
      let one = follow_all book direction limit seen level out first in
      Adds-trans level (next_all book direction limit out) (sources read) first one
        (read_by_all book direction limit seen level current read one)
        (follow_all-Adds seen level out first) (read_by_all-Adds seen level current read one)
