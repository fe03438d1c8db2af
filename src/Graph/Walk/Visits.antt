-- ===== src/Graph/Walk/Visits.antt =====
-- The nodes that the walk lists, graph/trace.py.
use finance_context_builder.Base.{
  ℕ, zero, suc, ◌≤◌, ◌<◌, ◌≡◌, ◌⊎◌, refl, true, false, List, [], ◌∷◌, ◌++◌, map, some, All,
  All-append, arith, Bool-cases, inl, inr, sym, ◌∙◌, subst,
}
use finance_context_builder.Base.Eq.{◌==◌, nat_eq, list_eq, list_beq_iff}
use finance_context_builder.Base.Text.{Text}
use finance_context_builder.Graph.Trace.{trace_node, Book, Direction, member, TraceNode}
use finance_context_builder.Graph.Walk.{
  Search, neighbours, ends_at_input, round, trace_loop, rounds, begin, at_level_0, trace_from,
  document, TraceDocument,
}
use finance_context_builder.Graph.Walk.Meets.{queued-append, AreMet, is_met, queued}
use finance_context_builder.Graph.Walk.Pushes.{AreIn-self, at_level, AreIn, member-append}
use finance_context_builder.Graph.Walk.Steps.{Grows, Settled, Old, New, listed, round_cases}
use finance_context_builder.Graph.Walk.Rounds.{trace_loop_total}

abbrev pub ids : List TraceNode → List Text
ids nodes = map (λ (node : TraceNode). node.node_id) nodes

ids-append : (xs ys : List TraceNode) → ids (xs ++ ys) ≡ ids xs ++ ids ys
ids-append [] ys = refl
ids-append (x ∷ xs) ys = ground (arith, ids-append xs ys)

-- No node stands twice.
abbrev pub AreDistinct : List Text → Type 0
AreDistinct [] = Unit
AreDistinct (x ∷ xs) = (member x xs ≡ false) × AreDistinct xs

AreDistinct-snoc :
    (xs : List Text) (x : Text) → AreDistinct xs → member x xs ≡ false → AreDistinct (xs ++ x ∷ [])
unfolding member
AreDistinct-snoc [] x h new = (refl, tt)
AreDistinct-snoc (y ∷ xs) x h new = (
  ground (arith, member-append y xs (x ∷ []), list_beq_iff x y, list_beq_iff y x),
  AreDistinct-snoc xs x h.1 (ground arith),
)

module _ (book : Book) (direction : Direction) (limit bound : ℕ) (starts : List Text) where
  -- A node that so many steps over edges lead to.
  pub data Reached : ℕ → Text → Type 0 where
    start : {x : Text} → member x starts ≡ true → Reached 0 x
    step :
        {n : ℕ} {x y : Text}
        → Reached n x
        → member y (neighbours book direction limit x) ≡ true
        → Reached (suc n) y

  abbrev pub IsGood : Text → ℕ → Type 0
  IsGood x level = (level ≤ bound) × Reached level x

  record Inv (queue : List (Text × ℕ)) (s : Search) : Type 0 where
    same : (x : Text) → member x (ids s.nodes) ≡ member x s.seen
    distinct : AreDistinct (ids s.nodes)
    good : All (λ n. IsGood n.node_id n.depth) s.nodes
    waiting : All (λ entry. IsGood entry.0 entry.1) queue
    settled : All (λ n. Settled book direction limit bound s.seen queue n.node_id n.depth) s.nodes
    begun : AreMet s.seen queue starts

  IsGood-added :
      (x : Text) (level : ℕ) (added : List Text)
      → Reached level x
      → level < bound
      → AreIn added (neighbours book direction limit x)
      → All (λ entry. IsGood entry.0 entry.1) (at_level (suc level) added)
  IsGood-added x level [] r h near = tt
  IsGood-added x level (y ∷ added) r h near =
      ((omega arith, step r near.0), IsGood-added x level added r h near.1)

  -- What was met stays met when the head of the queue becomes seen and the queue grows.
  AreMet-round :
      (seen : List Text) (current : Text) (level : ℕ) (rest more : List (Text × ℕ))
      (nodes : List Text)
      → AreMet seen ((current, level) ∷ rest) nodes
      → AreMet (current ∷ seen) (rest ++ more) nodes
  unfolding member
  AreMet-round seen current level rest more [] h = tt
  AreMet-round seen current level rest more (x ∷ nodes) h = (
    ground (arith, queued-append rest more, member-append x (queued rest) (queued more)),
    AreMet-round seen current level rest more nodes h.1,
  )

  is_met-old :
      (seen : List Text) (current : Text) (level : ℕ) (rest : List (Text × ℕ)) (x : Text)
      → member current seen ≡ true
      → is_met seen ((current, level) ∷ rest) x ≡ true
      → is_met seen rest x ≡ true
  unfolding member
  is_met-old seen current level rest x old h = elim (Bool-cases (current == x)) [
    | inl same ↦
        let there : member x seen ≡ true =
          subst (λ y. member y seen ≡ true) ((list_beq_iff current x).0 same) old in
        ground arith
    | inr other ↦ ground arith
  ]

  AreMet-old :
      (seen : List Text) (current : Text) (level : ℕ) (rest : List (Text × ℕ)) (nodes : List Text)
      → member current seen ≡ true
      → AreMet seen ((current, level) ∷ rest) nodes
      → AreMet seen rest nodes
  AreMet-old seen current level rest [] old h = tt
  AreMet-old seen current level rest (x ∷ nodes) old h = (
    is_met-old seen current level rest x old h.0,
    AreMet-old seen current level rest nodes old h.1,
  )

  abbrev AllSettled : List Text → List (Text × ℕ) → List TraceNode → Type 0
  AllSettled seen queue nodes =
      All (λ n. Settled book direction limit bound seen queue n.node_id n.depth) nodes

  Settled-map :
      (seen more : List Text) (queue rest : List (Text × ℕ))
      → ((xs : List Text) → AreMet seen queue xs → AreMet more rest xs)
      → (nodes : List TraceNode) → AllSettled seen queue nodes
      → AllSettled more rest nodes
  Settled-map seen more queue rest f [] h = tt
  Settled-map seen more queue rest f (n ∷ nodes) (inl deep, h) =
      (inl deep, Settled-map seen more queue rest f nodes h)
  Settled-map seen more queue rest f (n ∷ nodes) (inr (inl ends), h) =
      (inr (inl ends), Settled-map seen more queue rest f nodes h)
  Settled-map seen more queue rest f (n ∷ nodes) (inr (inr met), h) = (
    inr (inr (f (neighbours book direction limit n.node_id) met)),
    Settled-map seen more queue rest f nodes h,
  )

  Inv-Old :
      (s s' : Search) (current : Text) (level : ℕ) (rest queue : List (Text × ℕ))
      → Old book direction limit bound s current rest (queue, s')
      → Inv ((current, level) ∷ rest) s
      → Inv queue s'
  Inv-Old s s' current level rest queue (old, q, seen, nodes) inv = record {
    same = λ x. rw (seen, nodes) (inv.same x);
    distinct = rw nodes inv.distinct;
    good = rw nodes inv.good;
    waiting = rw q inv.waiting.1;
    settled =
        rw (q, seen, nodes)
          (Settled-map s.seen s.seen ((current, level) ∷ rest) rest
            (λ xs. AreMet-old s.seen current level rest xs old) s.nodes inv.settled);
    begun = rw (q, seen) (AreMet-old s.seen current level rest starts old inv.begun);
  }

  waiting-grown :
      (current : Text) (level : ℕ) (rest queue : List (Text × ℕ))
      → IsGood current level
      → All (λ entry. IsGood entry.0 entry.1) rest
      → Grows book direction limit bound current level rest queue
      → All (λ entry. IsGood entry.0 entry.1) queue
  waiting-grown current level rest queue (le, r) waiting g =
      subst (All (λ entry. IsGood entry.0 entry.1)) (sym g.queue) (
        All-append _ rest (at_level (suc level) g.added) waiting (elim g.shallow [
          | inl nothing ↦
              subst (λ xs. All (λ entry. IsGood entry.0 entry.1) (at_level (suc level) xs))
                (sym nothing) tt
          | inr above ↦ IsGood-added current level g.added r above g.near
        ]))

  Inv-New :
      (s s' : Search) (current : Text) (level : ℕ) (rest queue : List (Text × ℕ))
      → New book direction limit bound s current level rest (queue, s')
      → Inv ((current, level) ∷ rest) s
      → Inv queue s'
  unfolding member trace_node
  Inv-New s s' current level rest queue (new, seen, nodes, grows, ends) inv =
      let node = listed book direction limit bound current level in
      let pass : (xs : List Text)
          → AreMet s.seen ((current, level) ∷ rest) xs
          → AreMet (current ∷ s.seen) queue xs =
        λ xs h.
          subst (λ q. AreMet (current ∷ s.seen) q xs) (sym grows.queue)
            (AreMet-round s.seen current level rest (at_level (suc level) grows.added) xs h) in
      record {
        same = λ x.
            rw (seen, nodes, ids-append s.nodes (node ∷ []))
              (ground (arith, member-append x (ids s.nodes) (current ∷ []), inv.same x));
        distinct =
            rw (nodes, ids-append s.nodes (node ∷ []))
              (AreDistinct-snoc (ids s.nodes) current inv.distinct (inv.same current ∙ new));
        good = rw nodes (All-append _ s.nodes (node ∷ []) inv.good (inv.waiting.0, tt));
        waiting = waiting-grown current level rest queue inv.waiting.0 inv.waiting.1 grows;
        settled =
            rw (seen, nodes)
              (All-append _ s.nodes (node ∷ [])
                (Settled-map s.seen (current ∷ s.seen) ((current, level) ∷ rest) queue pass s.nodes
                  inv.settled)
                (ends, tt));
        begun = rw seen (pass starts inv.begun);
      }

  Inv-round :
      (s : Search) (current : Text) (level : ℕ) (rest : List (Text × ℕ))
      → Inv ((current, level) ∷ rest) s
      → Inv
          (round book direction limit bound s current level rest).0
          (round book direction limit bound s current level rest).1
  Inv-round s current level rest inv =
      elim (round_cases book direction limit bound s current level rest) [
        | inl old ↦ Inv-Old s _ current level rest _ old inv
        | inr new ↦ Inv-New s _ current level rest _ new inv
      ]

  trace_loop-Inv :
      (fuel : ℕ) (queue : List (Text × ℕ)) (s final : Search)
      → Inv queue s
      → trace_loop book direction limit bound fuel queue s ≡ some final
      → Inv [] final
  unfolding trace_loop
  trace_loop-Inv fuel [] s final inv e = subst (Inv []) (ground arith) inv
  trace_loop-Inv zero ((current, level) ∷ rest) s final inv e = absurd (ground arith)
  trace_loop-Inv (suc fuel) ((current, level) ∷ rest) s final inv e =
      trace_loop-Inv fuel _ _ final (Inv-round s current level rest inv) e

  starts-IsGood :
      (xs : List Text) → AreIn xs starts → All (λ entry. IsGood entry.0 entry.1) (at_level_0 xs)
  starts-IsGood [] h = tt
  starts-IsGood (x ∷ xs) h = ((omega arith, start h.0), starts-IsGood xs h.1)

  queued-at_level_0 : (xs : List Text) → queued (at_level_0 xs) ≡ xs
  queued-at_level_0 [] = refl
  queued-at_level_0 (x ∷ xs) = ground (arith, queued-at_level_0 xs)

  starts-met : (xs : List Text) → AreIn xs starts → AreMet [] (at_level_0 starts) xs
  unfolding member
  starts-met [] h = tt
  starts-met (x ∷ xs) h = (rw (queued-at_level_0 starts) h.0, starts-met xs h.1)

  Inv-begin : Inv (at_level_0 starts) begin
  unfolding member
  Inv-begin = record {
    same = λ x. refl;
    distinct = tt;
    good = tt;
    waiting = starts-IsGood starts (AreIn-self starts);
    settled = tt;
    begun = starts-met starts (AreIn-self starts);
  }

  -- The walk does not go on from a node, or all its neighbours are listed.
  abbrev pub IsClosed : List Text → TraceNode → Type 0
  IsClosed listed_ids n =
      (bound ≤ n.depth)
      ⊎ (ends_at_input book direction limit bound n.node_id n.depth ≡ true)
      ⊎ AreIn (neighbours book direction limit n.node_id) listed_ids

  met-listed :
      (s : Search) (xs : List Text)
      → ((x : Text) → member x (ids s.nodes) ≡ member x s.seen)
      → AreMet s.seen [] xs
      → AreIn xs (ids s.nodes)
  unfolding member
  met-listed s [] same h = tt
  met-listed s (x ∷ xs) same h = (ground (arith, same x), met-listed s xs same h.1)

  settled-IsClosed :
      (s : Search) (nodes : List TraceNode)
      → ((x : Text) → member x (ids s.nodes) ≡ member x s.seen)
      → AllSettled s.seen [] nodes
      → All (IsClosed (ids s.nodes)) nodes
  settled-IsClosed s [] same h = tt
  settled-IsClosed s (n ∷ nodes) same (inl deep, h) = (inl deep, settled-IsClosed s nodes same h)
  settled-IsClosed s (n ∷ nodes) same (inr (inl ends), h) =
      (inr (inl ends), settled-IsClosed s nodes same h)
  settled-IsClosed s (n ∷ nodes) same (inr (inr met), h) = (
    inr (inr (met-listed s (neighbours book direction limit n.node_id) same met)),
    settled-IsClosed s nodes same h,
  )

  -- The walk ends. It lists every node once and the nodes it starts from among them; each node at a
  -- depth within the bound, which is the number of steps of some path to it; and all neighbours of
  -- a node, unless the node is at the bound or an input that ends a walk over precedents.
  pub trace_from_lem :
      (doc : TraceDocument) × (trace_from book direction limit bound starts ≡ some doc)
      × AreDistinct (ids doc.nodes)
      × AreIn starts (ids doc.nodes)
      × All (λ n. IsGood n.node_id n.depth) doc.nodes
      × All (IsClosed (ids doc.nodes)) doc.nodes
  unfolding trace_from document
  trace_from_lem =
      let (final, e) = trace_loop_total book direction limit bound starts in
      let inv =
        trace_loop-Inv (rounds book direction limit starts) (at_level_0 starts) begin final
          Inv-begin e in
      (
        document starts final,
        rw (e, trace_from),
        inv.distinct,
        met-listed final starts inv.same inv.begun,
        inv.good,
        settled-IsClosed final final.nodes inv.same inv.settled,
      )
