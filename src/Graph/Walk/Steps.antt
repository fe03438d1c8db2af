-- ===== src/Graph/Walk/Steps.antt =====
-- One round of the walk's loop, graph/trace.py.
use finance_context_builder.Base.{
  ℕ, suc, ◌≤◌, ◌<◌, ◌≡◌, ◌⊎◌, refl, true, false, List, [], ◌∷◌, ◌++◌, none, some, leb, length,
  append-nil, arith, Bool-cases, inl, inr, sym,
}
use finance_context_builder.Base.Text.{Text}
use finance_context_builder.Base.Dict.{get}
use finance_context_builder.Base.Eq.{nat_eq, list_eq}
use finance_context_builder.Graph.Trace.{
  Book, Direction, member, meta_of, trace_node, no_cell, CellRow, TraceNode,
}
use finance_context_builder.Graph.Walk.{Search, neighbours, ends_at_input, enter, round}
use finance_context_builder.Graph.Walk.Meets.{AreMet, expand-met}
use finance_context_builder.Graph.Walk.Pushes.{at_level, AreIn, expand-Adds}

module _ (book : Book) (direction : Direction) (limit bound : ℕ) where
  -- What a round for a new node puts on the queue: neighbours, and none at the greatest depth.
  pub record Grows (current : Text) (level : ℕ) (before after : List (Text × ℕ)) : Type 0 where
    pub added : List Text
    pub queue : after ≡ before ++ at_level (suc level) added
    pub few : length added ≤ length (neighbours book direction limit current)
    pub near : AreIn added (neighbours book direction limit current)
    pub shallow : (added ≡ []) ⊎ (level < bound)

  Grows-none :
      (current : Text) (level : ℕ) (queue : List (Text × ℕ)) → Grows current level queue queue
  Grows-none current level queue = record {
    added = [];
    queue = sym (append-nil queue);
    few = omega arith;
    near = tt;
    shallow = inl refl;
  }

  -- The walk goes no further from a node, or its neighbours were seen or wait.
  abbrev pub Settled : List Text → List (Text × ℕ) → Text → ℕ → Type 0
  Settled seen queue current level =
      (bound ≤ level)
      ⊎ (ends_at_input book direction limit bound current level ≡ true)
      ⊎ AreMet seen queue (neighbours book direction limit current)

  abbrev Entered : Search → Text → ℕ → List (Text × ℕ) → List (Text × ℕ) × Search → Type 0
  Entered s current level rest r =
      (r.1.seen ≡ s.seen)
      × (r.1.nodes ≡ s.nodes)
      × Grows current level rest r.0
      × Settled s.seen r.0 current level

  enter-Entered :
      (s : Search) (current : Text) (level : ℕ) (rest : List (Text × ℕ))
      → Entered s current level rest (enter book direction limit bound s current level rest)
  unfolding enter
  enter-Entered s current level rest =
      elim (Bool-cases (ends_at_input book direction limit bound current level)) [
        | inl ends ↦ rw (ends, Entered) (refl, refl, Grows-none current level rest, inr (inl refl))
        | inr goes ↦ elim (Bool-cases (leb bound level)) [
          | inl deep ↦
              rw (goes, deep, Entered)
                (refl, refl, Grows-none current level rest, inl (ground arith))
          | inr above ↦
              let (added, queue, few, near) =
                expand-Adds book direction limit s.seen current level rest s.used_edges s.stopped in
              rw (goes, above, Entered)
                (
                  refl,
                  refl,
                  record {
                    added = added;
                    queue = queue;
                    few = few;
                    near = near;
                    shallow = inr (ground arith);
                  },
                  inr (
                      inr (
                        expand-met book direction limit s.seen current level rest s.used_edges
                          s.stopped)),
                )
        ]
      ]

  -- The node that a round for a new node lists.
  abbrev pub listed : Text → ℕ → TraceNode
  listed current level =
      let cell : CellRow = elim (get book.cells current) [ none ↦ no_cell | some row ↦ row ] in
      trace_node current cell (meta_of book direction limit current) level

  -- A round for a node that was seen, and for a new one.
  abbrev pub Old : Search → Text → List (Text × ℕ) → List (Text × ℕ) × Search → Type 0
  Old s current rest r =
      (member current s.seen ≡ true) × (r.0 ≡ rest) × (r.1.seen ≡ s.seen) × (r.1.nodes ≡ s.nodes)

  abbrev pub New : Search → Text → ℕ → List (Text × ℕ) → List (Text × ℕ) × Search → Type 0
  New s current level rest r =
      (member current s.seen ≡ false)
      × (r.1.seen ≡ current ∷ s.seen)
      × (r.1.nodes ≡ s.nodes ++ listed current level ∷ [])
      × Grows current level rest r.0
      × Settled (current ∷ s.seen) r.0 current level

  pub round_cases :
      (s : Search) (current : Text) (level : ℕ) (rest : List (Text × ℕ))
      → Old s current rest (round book direction limit bound s current level rest)
        ⊎ New s current level rest (round book direction limit bound s current level rest)
  unfolding round
  round_cases s current level rest = elim (Bool-cases (member current s.seen)) [
    | inl old ↦ inl (rw (old, Old) (refl, refl, refl, refl))
    | inr new ↦
        let entered =
          enter-Entered
            (record s { seen = current ∷ s.seen; nodes = s.nodes ++ listed current level ∷ [] })
            current level rest in
        inr (rw (new, New) (refl, entered.0, entered.1, entered.2, entered.3))
  ]
